-- ===== src/Ledger/Tests.antt =====
-- Runs of crates/peerless-ledger/src/lib.rs at concrete leaves, members and blocks.
use peerless_sysytem_fw.Prelude.{
  ℕ, ◌+◌, ◌%◌, ◌≤◌, ◌≡◌, ◌⊎◌, refl, ap, true, false, none, some, List, [], ◌∷◌, ◌++◌, Bytes, Result,
  ok, err, arith, replicate, length, if◌then◌else◌, All,
}
use peerless_sysytem_fw.Prelude.Equality.{bytes_beq, bytes_beq_iff}
use peerless_sysytem_fw.Core.{node_id_derive}
use peerless_sysytem_fw.Identity.{Crypto, NodeIdentity, IsGenuine, sign, verify}
use peerless_sysytem_fw.Ledger.Merkle.{
  Hash, MerkleProof, pair_hash, root_loop, merkle_root, merkle_proof, climb, verify_proof,
}
use peerless_sysytem_fw.Ledger.Merkle.Proofs.{
  root_loop_fuel, merkle_proof_complete, merkle_root_duplicate,
}
use peerless_sysytem_fw.Ledger.Merkle.Binding.{Collision, verify_proof_binds}
use peerless_sysytem_fw.Ledger.Block.{
  LedgerError, Block, ConsensusSignature, Serde, proposal_bytes, block_hash,
}
use peerless_sysytem_fw.Ledger.Consensus.{
  QuorumConsensus, collect, finalize, approves, valid_signers, verify_quorum,
}
use peerless_sysytem_fw.Ledger.Consensus.Quorum.{
  Distinct, Backed, verify-finalize, verify_quorum_sound,
}
use peerless_sysytem_fw.Ledger.Consensus.Agreement.{verify_quorum_agree}
use peerless_sysytem_fw.Ledger.Consensus.Quorum.{Approved}
use peerless_sysytem_fw.Ledger.Block.{contains}
use peerless_sysytem_fw.Ledger.Chain.{
  Verifier, Cursor, known_differs, root_of, check_block, check_from, check_chain, last_hash,
  accepts, append,
}
use peerless_sysytem_fw.Ledger.Chain.Reopen.{moved_to, append_reopens}

abbrev sum : Bytes → ℕ
sum [] = 7
sum (b ∷ bs) = (b + (sum bs + sum bs)) % 256

-- A digest of 32 bytes.
abbrev digest : Bytes → Hash
digest b = sum b ∷ replicate 31 0

abbrev leaf : ℕ → Hash
leaf n = digest (n ∷ [])

abbrev leaves : List Hash
leaves = leaf 1 ∷ leaf 2 ∷ leaf 3 ∷ []

root_loop_fuel_example : root_loop digest 3 leaves ≡ root_loop digest 9 leaves
root_loop_fuel_example = root_loop_fuel digest 3 9 leaves (omega arith) (omega arith)

merkle_proof_complete_example :
    (p : MerkleProof) × (merkle_proof digest leaves 2 ≡ some p)
    × (verify_proof digest p (leaf 3) (merkle_root digest leaves) ≡ true)
merkle_proof_complete_example = merkle_proof_complete digest leaves 2 (leaf 3) refl

merkle_root_duplicate_example :
    merkle_root digest (leaf 1 ∷ leaf 2 ∷ leaf 3 ∷ leaf 3 ∷ []) ≡ merkle_root digest leaves
merkle_root_duplicate_example = merkle_root_duplicate digest (leaf 1) (leaf 2) (leaf 3 ∷ []) refl

abbrev proof_of_first : MerkleProof
proof_of_first = record { index = 0; siblings = leaf 2 ∷ [] }

abbrev small_root : Hash
small_root = digest (leaf 1 ++ leaf 2)

proof_of_first-verifies : verify_proof digest proof_of_first (leaf 1) small_root ≡ true
unfolding verify_proof climb pair_hash
proof_of_first-verifies = (bytes_beq_iff small_root small_root).1 refl

verify_proof_binds_example : (leaf 1 ≡ leaf 1) ⊎ Collision digest
verify_proof_binds_example =
    verify_proof_binds digest (λ b. refl) proof_of_first proof_of_first (leaf 1) (leaf 1) small_root
      refl refl (refl, (refl, tt)) (refl, (refl, tt)) proof_of_first-verifies
      proof_of_first-verifies

-- With no siblings the root verifies as if it were the first leaf.
root-verifies :
    verify_proof digest (record { index = 0; siblings = [] }) small_root small_root ≡ true
unfolding verify_proof climb
root-verifies = (bytes_beq_iff small_root small_root).1 refl

-- A signature is the key followed by the message; a key pair is its public key.
abbrev open_crypto : Crypto
open_crypto = record {
  sha256 = λ b. 1 ∷ b;
  keypair_sign = λ key m. some (key ++ m);
  key_verify = λ key m s. some (bytes_beq s (key ++ m));
}

abbrev member : ℕ → NodeIdentity
member n = record { node_id = 1 ∷ n ∷ []; keypair = n ∷ []; public_key = n ∷ [] }

member-IsGenuine : (n : ℕ) → IsGenuine open_crypto (member n)
unfolding node_id_derive
member-IsGenuine n = record {
  derived = refl;
  signature_of = λ m. n ∷ m;
  signs = λ m. refl;
  verifies = λ m. ap some ((bytes_beq_iff (n ∷ m) (n ∷ m)).1 refl);
}

abbrev brief_serde : Serde
brief_serde = record {
  event_json = λ e. none;
  signed_event_json = λ e. none;
  block_json = λ b. some (b.height ∷ b.timestamp ∷ b.consensus.network_id);
  block_pretty_json = λ b. some (b.height ∷ b.timestamp ∷ b.consensus.network_id);
  proposal_json =
      λ version previous height timestamp events_root. some (height ∷ timestamp ∷ events_root);
  membership_json = λ network_id member issuer permissions expires_at. none;
}

abbrev council : QuorumConsensus
council = record {
  network_id = b'n' ∷ [];
  members = (1 ∷ 5 ∷ []) ∷ (1 ∷ 6 ∷ []) ∷ (1 ∷ 7 ∷ []) ∷ [];
  quorum = 2;
}

abbrev signed_by : ℕ → ConsensusSignature
signed_by n = record { signer = 1 ∷ n ∷ []; public_key = n ∷ []; signature = n ∷ 0 ∷ 100 ∷ 1 ∷ [] }

abbrev first_block : List ConsensusSignature → Block
first_block signatures = record {
  version = 1;
  previous = none;
  height = 0;
  timestamp = 100;
  events_root = 1 ∷ [];
  events = [];
  consensus = record { network_id = b'n' ∷ []; signatures = signatures };
}

-- A member that approves twice signs once.
finalize-council :
    finalize open_crypto brief_serde council (first_block []) (member 5 ∷ member 5 ∷ member 6 ∷ [])
    ≡ (ok tt, first_block (signed_by 5 ∷ signed_by 6 ∷ []))
unfolding finalize collect proposal_bytes sign
finalize-council = refl

verify-finalize_example :
    verify_quorum open_crypto brief_serde council (first_block (signed_by 5 ∷ signed_by 6 ∷ []))
    ≡ ok true
verify-finalize_example =
    verify-finalize open_crypto brief_serde council (first_block [])
      (first_block (signed_by 5 ∷ signed_by 6 ∷ [])) (member 5 ∷ member 5 ∷ member 6 ∷ [])
      (member-IsGenuine 5, (member-IsGenuine 5, (member-IsGenuine 6, tt))) finalize-council

-- Two signatures of one member are not a quorum.
verify_quorum-repeated :
    verify_quorum open_crypto brief_serde council (first_block (signed_by 5 ∷ signed_by 5 ∷ []))
    ≡ ok false
unfolding verify_quorum valid_signers approves verify node_id_derive proposal_bytes
verify_quorum-repeated = refl

verify_quorum-two :
    verify_quorum open_crypto brief_serde council (first_block (signed_by 6 ∷ signed_by 7 ∷ []))
    ≡ ok true
unfolding verify_quorum valid_signers approves verify node_id_derive proposal_bytes
verify_quorum-two = refl

verify_quorum_sound_example :
    let block = first_block (signed_by 6 ∷ signed_by 7 ∷ []) in
    (block.consensus.network_id ≡ council.network_id)
    × ((payload : Bytes) × (proposal_bytes open_crypto brief_serde block ≡ ok payload)
        × ((signers : List Bytes) × Distinct signers
            × (council.quorum ≤ length signers)
            × All
                (Backed open_crypto brief_serde council payload block.consensus.signatures)
                signers))
verify_quorum_sound_example =
    verify_quorum_sound open_crypto brief_serde council
      (first_block (signed_by 6 ∷ signed_by 7 ∷ [])) verify_quorum-two

-- A block of another network.
abbrev stray_block : Block
stray_block = record {
  version = 1;
  previous = some (1 ∷ 0 ∷ 100 ∷ b'n' ∷ []);
  height = 1;
  timestamp = 100;
  events_root = 1 ∷ [];
  events = [];
  consensus = record { network_id = b'l' ∷ []; signatures = [] };
}

abbrev agree : Verifier
agree b = ok true

abbrev written : Hash → Bytes → Result LedgerError (Unit {0})
written hash bytes = ok tt

abbrev first_cursor : Cursor
first_cursor = moved_to 0 (1 ∷ 0 ∷ 100 ∷ b'n' ∷ []) (first_block [])

check_chain-first : check_chain open_crypto brief_serde (first_block [] ∷ []) ≡ ok first_cursor
unfolding check_chain check_from check_block root_of merkle_root block_hash
check_chain-first = refl

append-stray :
    append open_crypto brief_serde agree written (first_block [] ∷ []) stray_block
    ≡ ok (1 ∷ 1 ∷ 100 ∷ b'l' ∷ [], first_block [] ∷ stray_block ∷ [])
unfolding append accepts root_of merkle_root block_hash last_hash
append-stray = refl

append_reopens_example : check_chain open_crypto brief_serde (first_block [] ∷ stray_block ∷ []) ≡ (
    if known_differs (some (b'n' ∷ [])) (b'l' ∷ [])
    then err LedgerError.invalid_block
    else ok (moved_to 1 (1 ∷ 1 ∷ 100 ∷ b'l' ∷ []) stray_block))
append_reopens_example =
    append_reopens open_crypto brief_serde agree written (first_block [] ∷ [])
      (first_block [] ∷ stray_block ∷ []) stray_block (1 ∷ 1 ∷ 100 ∷ b'l' ∷ []) first_cursor
      check_chain-first append-stray

verify_quorum-other :
    verify_quorum open_crypto brief_serde council (first_block (signed_by 5 ∷ signed_by 6 ∷ []))
    ≡ ok true
unfolding verify_quorum valid_signers approves verify node_id_derive proposal_bytes
verify_quorum-other = refl

verify_quorum_agree_example :
    (payload : Bytes) × (payload' : Bytes) × (proposal_bytes open_crypto brief_serde
        (first_block (signed_by 6 ∷ signed_by 7 ∷ []))
      ≡ ok payload)
    × (proposal_bytes open_crypto brief_serde (first_block (signed_by 5 ∷ signed_by 6 ∷ []))
        ≡ ok payload')
    × ((n : Bytes) × (contains council.members n ≡ true)
        × Approved open_crypto brief_serde council payload (signed_by 6 ∷ signed_by 7 ∷ []) n
        × Approved open_crypto brief_serde council payload' (signed_by 5 ∷ signed_by 6 ∷ []) n)
verify_quorum_agree_example =
    verify_quorum_agree open_crypto brief_serde council
      (first_block (signed_by 6 ∷ signed_by 7 ∷ [])) (first_block (signed_by 5 ∷ signed_by 6 ∷ []))
      (omega arith) verify_quorum-two verify_quorum-other
