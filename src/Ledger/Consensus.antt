-- ===== src/Ledger/Consensus.antt =====
-- `QuorumConsensus` and `BftConsensus` of crates/peerless-ledger/src/lib.rs. A `HashSet<NodeId>` is a
-- list without repetition; `usize` sums saturate far above any member count, so they are plain.
pub mod Quorum
pub mod Agreement
use peerless_sysytem_fw.Prelude.{
  ℕ, suc, ◌+◌, ◌*◌, ◌%◌, Bool, true, false, ◌&&◌, ◌||◌, not, Option, none, some, List, [], ◌∷◌,
  ◌++◌, Bytes, Result, ok, err, ◌>>=◌, ltb, leb, ◌==◌, if◌then◌else◌, length, get_elem?, any,
}
use peerless_sysytem_fw.Prelude.Equality.{bytes_beq}
use peerless_sysytem_fw.Core.{NodeId, node_id_derive}
use peerless_sysytem_fw.Identity.{Crypto, NodeIdentity, sign, verify}
use peerless_sysytem_fw.Ledger.Block.{
  LedgerError, Block, ConsensusSignature, ConsensusProof, Serde, or_identity, contains,
  proposal_bytes,
}

pub record QuorumConsensus : Type 0 where
  pub network_id : Bytes
  pub members : List NodeId
  pub quorum : ℕ

-- `QuorumConsensus::new`.
unfoldable pub new_quorum : Bytes → List NodeId → ℕ → Result LedgerError QuorumConsensus
new_quorum network_id members quorum =
    if quorum == 0 || ltb (length members) quorum
    then err LedgerError.invalid_quorum
    else ok (record { network_id = network_id; members = members; quorum = quorum })

-- `HashSet::insert`.
abbrev pub insert : NodeId → List NodeId → List NodeId
insert n set = if contains set n then set else n ∷ set

abbrev pub with_signatures : QuorumConsensus → Block → List ConsensusSignature → Block
with_signatures q block signatures = record block {
  consensus = record { network_id = q.network_id; signatures = signatures };
}

abbrev pub conclude :
    QuorumConsensus
    → Block
    → Option LedgerError × List ConsensusSignature
    → Result LedgerError (Unit {0}) × Block
conclude q block (some e, signatures) = (err e, with_signatures q block signatures)
conclude q block (none, signatures) = (
  if ltb (length signatures) q.quorum then err LedgerError.no_quorum else ok tt,
  with_signatures q block signatures,
)

module _ (c : Crypto) (serde : Serde) where
  -- The loop of `finalize`: each member that approves signs once. The signatures pushed, in order,
  -- and the error that stopped the loop, if one did.
  unfoldable pub collect :
      List NodeId
      → Bytes
      → List NodeIdentity
      → List NodeId
      → Option LedgerError × List ConsensusSignature
  collect members payload [] seen = (none, [])
  collect members payload (i ∷ approvals) seen =
      let fresh : Bool = contains members i.node_id && not (contains seen i.node_id) in
      let rest = collect members payload approvals (i.node_id ∷ seen) in
      let skipped = collect members payload approvals seen in
      let signed : Option LedgerError × List ConsensusSignature = elim (sign c i payload) [
        | ok signature ↦ (
          rest.0,
          record { signer = i.node_id; public_key = i.public_key; signature = signature } ∷ rest.1,
        )
        | err e ↦ (some (LedgerError.from_identity e), [])
      ] in
      if fresh then signed else skipped

  abbrev pub finalize_payload :
      QuorumConsensus
      → Block
      → List NodeIdentity
      → Result LedgerError Bytes
      → Result LedgerError (Unit {0}) × Block
  finalize_payload q block approvals (err e) = (err e, with_signatures q block [])
  finalize_payload q block approvals (ok payload) =
      conclude q block (collect q.members payload approvals [])

  -- `QuorumConsensus::finalize`: the result, and the block as it leaves it.
  unfoldable pub finalize :
      QuorumConsensus → Block → List NodeIdentity → Result LedgerError (Unit {0}) × Block
  finalize q block approvals =
      finalize_payload q block approvals (proposal_bytes c serde (with_signatures q block []))

  -- One approval of `verify`; the signature is read only for a member whose key fits.
  unfoldable pub approves : QuorumConsensus → Bytes → ConsensusSignature → Result LedgerError Bool
  approves q payload a =
      let checked : Result LedgerError Bool =
        or_identity (verify c a.public_key payload a.signature) in
      if contains q.members a.signer && bytes_beq (node_id_derive c.sha256 a.public_key) a.signer
      then checked
      else ok false

  -- The loop of `verify`: the distinct signers whose approvals are valid.
  unfoldable pub valid_signers :
      QuorumConsensus
      → Bytes
      → List ConsensusSignature
      → List NodeId
      → Result LedgerError (List NodeId)
  valid_signers q payload [] valid = ok valid
  valid_signers q payload (a ∷ approvals) valid = approves q payload a >>= λ good.
      valid_signers q payload approvals (if good then insert a.signer valid else valid)

  -- `QuorumConsensus::verify`.
  unfoldable pub verify_quorum : QuorumConsensus → Block → Result LedgerError Bool
  verify_quorum q block =
      let checked : Result LedgerError Bool = do
        payload ← proposal_bytes c serde block
        valid ← valid_signers q payload block.consensus.signatures []
        ok (leb q.quorum (length valid))
      in if bytes_beq block.consensus.network_id q.network_id then checked else ok false

pub record BftConsensus : Type 0 where
  pub inner : QuorumConsensus
  pub ordered_members : List NodeId
  pub max_faults : ℕ

-- `NodeId`'s order, byte by byte.
abbrev pub bytes_le : Bytes → Bytes → Bool
bytes_le [] _ = true
bytes_le (x ∷ xs) [] = false
bytes_le (x ∷ xs) (y ∷ ys) = if ltb x y then true else (x == y) && bytes_le xs ys

abbrev pub insert_sorted : NodeId → List NodeId → List NodeId
insert_sorted n [] = n ∷ []
insert_sorted n (m ∷ ms) = if bytes_le n m then n ∷ m ∷ ms else m ∷ insert_sorted n ms

-- `ordered_members.sort()`.
abbrev pub sort : List NodeId → List NodeId
sort [] = []
sort (m ∷ ms) = insert_sorted m (sort ms)

-- `BftConsensus::new`.
unfoldable pub new_bft : Bytes → List NodeId → ℕ → Result LedgerError BftConsensus
unfolding new_quorum
new_bft network_id members max_faults =
    if ltb (length members) (max_faults * 3 + 1) then err LedgerError.invalid_quorum else do
      inner ← new_quorum network_id members (max_faults * 2 + 1)
      ok (record { inner = inner; ordered_members = sort members; max_faults = max_faults })

-- `BftConsensus::leader`; there is one, since `new_bft` wants at least one member.
unfoldable pub leader : BftConsensus → ℕ → Option NodeId
leader b height = get_elem? b.ordered_members (height % length b.ordered_members)

abbrev pub is_leader : BftConsensus → ℕ → NodeId → Bool
is_leader b height n = elim (leader b height) [ none ↦ false | some l ↦ bytes_beq n l ]

module _ (c : Crypto) (serde : Serde) where
  -- `BftConsensus::finalize`.
  unfoldable pub finalize_bft :
      BftConsensus → Block → List NodeIdentity → Result LedgerError (Unit {0}) × Block
  finalize_bft b block approvals =
      if any (λ i. is_leader b block.height i.node_id) approvals
      then finalize c serde b.inner block approvals
      else (err LedgerError.wrong_leader, block)

  -- `BftConsensus::verify`.
  unfoldable pub verify_bft : BftConsensus → Block → Result LedgerError Bool
  verify_bft b block =
      if any (λ s. is_leader b block.height s.signer) block.consensus.signatures
      then verify_quorum c serde b.inner block
      else ok false
