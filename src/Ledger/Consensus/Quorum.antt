-- ===== src/Ledger/Consensus/Quorum.antt =====
-- What a quorum proof means: a finalised block verifies, and a block that verifies carries the
-- signatures of enough distinct members.
use peerless_sysytem_fw.Prelude.{
  ◌+◌, ◌≤◌, ◌≡◌, refl, ap, subst, ◌∙◌, true, false, ◌&&◌, not, ◌⊎◌, inl, inr, none, some, List, [],
  ◌∷◌, Bytes, ok, err, leb, length, All, arith, Bool-cases, Result-cases,
}
use peerless_sysytem_fw.Prelude.Equality.{bytes_beq_iff}
use peerless_sysytem_fw.Core.{NodeId, node_id_derive}
use peerless_sysytem_fw.Identity.{Crypto, NodeIdentity, IsGenuine, sign, verify}
use peerless_sysytem_fw.Ledger.Block.{Block, ConsensusSignature, Serde, contains, proposal_bytes}
use peerless_sysytem_fw.Ledger.Consensus.{
  QuorumConsensus, insert, collect, conclude, finalize, approves, valid_signers, verify_quorum,
  with_signatures,
}

abbrev pub Distinct : List NodeId → Type 0
Distinct [] = Unit {0}
Distinct (n ∷ ns) = (contains ns n ≡ false) × Distinct ns

proposal_with :
    (c : Crypto) (serde : Serde) (q : QuorumConsensus) (block : Block)
    (signatures : List ConsensusSignature)
    → proposal_bytes c serde (with_signatures q block signatures) ≡ proposal_bytes c serde block
unfolding proposal_bytes
proposal_with c serde q block signatures = refl

module _ (c : Crypto) (serde : Serde) (q : QuorumConsensus) where
  -- One of the signatures is the node's: its key derives the node's id and verifies the payload.
  abbrev pub Approved : Bytes → List ConsensusSignature → NodeId → Type 0
  Approved payload [] n = ⊥
  Approved payload (a ∷ rest) n =
      ((a.signer ≡ n)
        × (node_id_derive c.sha256 a.public_key ≡ n)
        × (c.key_verify a.public_key payload a.signature ≡ some true))
      ⊎ Approved payload rest n

  -- The signatures of a run of `collect` are all counted by the loop of `verify`.
  record Counted (payload : Bytes) (approvals : List NodeIdentity) (seen : List NodeId)
      : Type 0 where
    complete : (collect c serde q.members payload approvals seen).0 ≡ none
    counted : List NodeId
    counts :
        valid_signers c serde q payload (collect c serde q.members payload approvals seen).1 seen
        ≡ ok counted
    total :
        length counted ≡ length seen + length (collect c serde q.members payload approvals seen).1

  collect_fresh :
      (payload : Bytes) (i : NodeIdentity) (approvals : List NodeIdentity) (seen : List NodeId)
      → (g : IsGenuine c i) → contains q.members i.node_id ≡ true
      → contains seen i.node_id ≡ false
      → let later = collect c serde q.members payload approvals (i.node_id ∷ seen) in
        collect c serde q.members payload (i ∷ approvals) seen ≡ (
          later.0,
          record {
            signer = i.node_id;
            public_key = i.public_key;
            signature = g.signature_of payload;
          }
              ∷ later.1,
        )
  unfolding collect sign
  collect_fresh payload i approvals seen g m u = rw (m, u, g.signs payload) refl

  collect_stale :
      (payload : Bytes) (i : NodeIdentity) (approvals : List NodeIdentity) (seen : List NodeId)
      → (contains q.members i.node_id && not (contains seen i.node_id)) ≡ false
      → collect c serde q.members payload (i ∷ approvals) seen
        ≡ collect c serde q.members payload approvals seen
  unfolding collect
  collect_stale payload i approvals seen h = rw h refl

  collect-Counted :
      (payload : Bytes) (approvals : List NodeIdentity) (seen : List NodeId)
      → All (IsGenuine c) approvals
      → Counted payload approvals seen
  unfolding valid_signers approves verify
  collect-Counted payload [] seen g =
      unfold collect in
      record { complete = refl; counted = seen; counts = refl; total = omega arith }
  collect-Counted payload (i ∷ approvals) seen (g, gs) =
      elim (Bool-cases (contains q.members i.node_id && not (contains seen i.node_id))) [
        | inl fresh ↦
            let is_member : contains q.members i.node_id ≡ true = ground arith in
            let unseen : contains seen i.node_id ≡ false = ground arith in
            let step = collect_fresh payload i approvals seen g is_member unseen in
            let later = collect-Counted payload approvals (i.node_id ∷ seen) gs in
            record {
              complete = rw step later.complete;
              counted = later.counted;
              counts =
                  rw
                    (
                      step,
                      is_member,
                      (bytes_beq_iff _ _).1 g.derived,
                      g.verifies payload,
                      verify,
                      unseen,
                    )
                    later.counts;
              total = rw step (omega (arith, later.total));
            }
        | inr stale ↦
            let later = collect-Counted payload approvals seen gs in
            let step = collect_stale payload i approvals seen stale in
            record {
              complete = rw step later.complete;
              counted = later.counted;
              counts = rw step later.counts;
              total = rw step later.total;
            }
      ]

  -- If `finalize` succeeds with approvals that are all of genuine identities, the block that it leaves
  -- verifies.
  pub verify-finalize :
      (block finalised : Block) (approvals : List NodeIdentity)
      → All (IsGenuine c) approvals
      → finalize c serde q block approvals ≡ (ok tt, finalised)
      → verify_quorum c serde q finalised ≡ ok true
  unfolding finalize verify_quorum
  verify-finalize block finalised approvals g e =
      elim (Result-cases (proposal_bytes c serde block)) [
        | inl (payload, p) ↦
            let n = collect-Counted payload approvals [] g in
            let signatures : List ConsensusSignature =
              (collect c serde q.members payload approvals []).1 in
            let e' : conclude q block (collect c serde q.members payload approvals [])
                ≡ (ok tt, finalised) =
              rw (proposal_with c serde q block [], p) at e in
            let same : with_signatures q block signatures ≡ finalised =
              ap (λ t. t.1) (rw n.complete at e') in
            let enough : leb q.quorum (0 + length signatures) ≡ true = ground (arith, n.complete) in
            subst (λ b. verify_quorum c serde q b ≡ ok true) same
              (rw
                (
                  (bytes_beq_iff q.network_id q.network_id).1 refl,
                  proposal_with c serde q block signatures,
                  p,
                  n.counts,
                  n.total,
                )
                (ap ok enough))
        | inr (x, p) ↦ absurd (ground (arith, proposal_with c serde q block []))
      ]

  abbrev pub Backed : Bytes → List ConsensusSignature → NodeId → Type 0
  Backed payload signatures n = (contains q.members n ≡ true) × Approved payload signatures n

  -- One round of the loop of `verify`.
  approves-true :
      (payload : Bytes) (a : ConsensusSignature)
      → approves c serde q payload a ≡ ok true
      → (contains q.members a.signer ≡ true)
        × (node_id_derive c.sha256 a.public_key ≡ a.signer)
        × (c.key_verify a.public_key payload a.signature ≡ some true)
  unfolding approves verify
  approves-true payload a h =
      ground (arith, bytes_beq_iff (node_id_derive c.sha256 a.public_key) a.signer)

  insert-Distinct : (n : NodeId) (set : List NodeId) → Distinct set → Distinct (insert n set)
  insert-Distinct n set d = ground arith

  insert-All :
      (P : NodeId → Type 0) (n : NodeId) (set : List NodeId)
      → P n
      → All P set
      → All P (insert n set)
  insert-All P n set p ps = elim (Bool-cases (contains set n)) [
    | inl old ↦ rw old ps
    | inr new ↦ rw new (p, ps)
  ]

  -- What the loop of `verify` counts is distinct, member and approved.
  valid_signers_sound :
      (payload : Bytes) (rest signatures : List ConsensusSignature) (valid counted : List NodeId)
      → ((n : NodeId) → Approved payload rest n → Approved payload signatures n)
      → Distinct valid
      → All (Backed payload signatures) valid
      → valid_signers c serde q payload rest valid ≡ ok counted
      → Distinct counted × All (Backed payload signatures) counted
  unfolding valid_signers
  valid_signers_sound payload [] signatures valid counted sub d v e =
      subst
        (λ r. elim r [ ok x ↦ Distinct x × All (Backed payload signatures) x | err x ↦ Unit {0} ]) e
        (d, v)
  valid_signers_sound payload (a ∷ rest) signatures valid counted sub d v e =
      elim (Result-cases (approves c serde q payload a)) [
        | inl (good, approved) ↦ elim (Bool-cases good) [
          | inl yes' ↦
              let facts = approves-true payload a (approved ∙ ap ok yes') in
              valid_signers_sound payload rest signatures (insert a.signer valid) counted
                (λ n h. sub n (inr h)) (insert-Distinct a.signer valid d)
                (insert-All (Backed payload signatures) a.signer valid
                  (facts.0, sub a.signer (inl (refl, facts.1, facts.2))) v)
                (rw (approved, yes') at e)
          | inr no' ↦
              valid_signers_sound payload rest signatures valid counted (λ n h. sub n (inr h)) d v
                (rw (approved, no') at e)
        ]
        | inr (x, failed) ↦ absurd (ground arith)
      ]

  -- A block that verifies names the consensus's network, and at least a quorum of distinct members
  -- stand behind it: for each there is a signature whose key derives the member's id and verifies
  -- the bytes of the proposal.
  pub verify_quorum_sound :
      (block : Block)
      → verify_quorum c serde q block ≡ ok true
      → (block.consensus.network_id ≡ q.network_id)
        × ((payload : Bytes) × (proposal_bytes c serde block ≡ ok payload)
            × ((signers : List NodeId) × Distinct signers
                × (q.quorum ≤ length signers)
                × All (Backed payload block.consensus.signatures) signers))
  unfolding verify_quorum
  verify_quorum_sound block h = elim (Result-cases (proposal_bytes c serde block)) [
    | inl (payload, p) ↦
        elim (Result-cases (valid_signers c serde q payload block.consensus.signatures [])) [
          | inl (counted, e) ↦
              let sound =
                valid_signers_sound payload block.consensus.signatures block.consensus.signatures []
                  counted (λ n a. a) tt tt e in
              (
                ground (arith, bytes_beq_iff block.consensus.network_id q.network_id),
                (payload, p, (counted, sound.0, ground arith, sound.1)),
              )
          | inr (x, e) ↦ absurd (ground arith)
        ]
    | inr (x, p) ↦ absurd (ground arith)
  ]
