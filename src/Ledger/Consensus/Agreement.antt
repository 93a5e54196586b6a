-- ===== src/Ledger/Consensus/Agreement.antt =====
-- Two quorums of one consensus: they share a member if the quorum is more than half of the members.
use peerless_sysytem_fw.Prelude.{
  ◌+◌, ◌*◌, ◌≤◌, ◌<◌, ◌≡◌, sym, subst, true, false, ◌⊎◌, inl, inr, List, [], ◌∷◌, ◌++◌, Bytes, ok,
  arith, if◌then◌else◌, length, All, length-append, Bool-cases,
}
use peerless_sysytem_fw.Prelude.Equality.{bytes_beq, bytes_beq_iff}
use peerless_sysytem_fw.Core.{NodeId}
use peerless_sysytem_fw.Identity.{Crypto}
use peerless_sysytem_fw.Ledger.Block.{Block, Serde, contains, proposal_bytes}
use peerless_sysytem_fw.Ledger.Consensus.{QuorumConsensus, verify_quorum}
use peerless_sysytem_fw.Ledger.Consensus.Quorum.{Distinct, Approved, Backed, verify_quorum_sound}

remove : NodeId → List NodeId → List NodeId
remove n [] = []
remove n (m ∷ ms) = if bytes_beq n m then ms else m ∷ remove n ms

length-remove :
    (n : NodeId) (ms : List NodeId) → contains ms n ≡ true → length (remove n ms) + 1 ≡ length ms
unfolding remove
length-remove n [] h = absurd (ground arith)
length-remove n (m ∷ ms) h = ground (arith, length-remove n ms)

contains-remove :
    (n k : NodeId) (ms : List NodeId)
    → contains ms k ≡ true
    → bytes_beq k n ≡ false
    → contains (remove n ms) k ≡ true
unfolding remove
contains-remove n k [] h d = absurd (ground arith)
contains-remove n k (m ∷ ms) h d = ground (arith, bytes_beq_iff n m, contains-remove n k ms)

All-remove :
    (n : NodeId) (ms ns : List NodeId)
    → contains ns n ≡ false
    → All (λ k. contains ms k ≡ true) ns
    → All (λ k. contains (remove n ms) k ≡ true) ns
All-remove n ms [] h a = tt
All-remove n ms (k ∷ ns) h (a, as') = (
  contains-remove n k ms a
      (ground (arith, bytes_beq_iff k n, bytes_beq_iff n k, bytes_beq_iff n n)),
  All-remove n ms ns (ground arith) as',
)

-- Distinct members are at most as many as the members.
length-Distinct :
    (ns ms : List NodeId) → Distinct ns → All (λ k. contains ms k ≡ true) ns → length ns ≤ length ms
length-Distinct [] ms d a = omega arith
length-Distinct (n ∷ ns) ms (d, ds) (a, as') =
    omega
      (arith, length-remove n ms a, length-Distinct ns (remove n ms) ds (All-remove n ms ns d as'))

contains-append :
    (n : NodeId) (ns ks : List NodeId)
    → contains ns n ≡ false
    → contains ks n ≡ false
    → contains (ns ++ ks) n ≡ false
contains-append n [] ks h h' = h'
contains-append n (m ∷ ns) ks h h' = ground (arith, contains-append n ns ks)

All-append : (P : NodeId → Type 0) (ns ks : List NodeId) → All P ns → All P ks → All P (ns ++ ks)
All-append P [] ks a b = b
All-append P (n ∷ ns) ks (a, as') b = (a, All-append P ns ks as' b)

All-contains :
    (P : NodeId → Type 0) (n : NodeId) (ns : List NodeId) → contains ns n ≡ true → All P ns → P n
All-contains P n [] h a = absurd (ground arith)
All-contains P n (m ∷ ns) h (a, as') = elim (Bool-cases (bytes_beq n m)) [
  | inl same ↦ subst P (sym ((bytes_beq_iff n m).0 same)) a
  | inr other ↦ All-contains P n ns (ground (arith, other)) as'
]

shared_or_Distinct :
    (P : NodeId → Type 0) (ns ks : List NodeId)
    → Distinct ns
    → Distinct ks
    → All P ns
    → ((n : NodeId) × P n × (contains ks n ≡ true)) ⊎ Distinct (ns ++ ks)
shared_or_Distinct P [] ks d e a = inr e
shared_or_Distinct P (n ∷ ns) ks (d, ds) e (a, as') = elim (Bool-cases (contains ks n)) [
  | inl shared ↦ inl (n, a, shared)
  | inr apart ↦ elim (shared_or_Distinct P ns ks ds e as') [
    | inl found ↦ inl found
    | inr rest ↦ inr (contains-append n ns ks d apart, rest)
  ]
]

module _ (c : Crypto) (serde : Serde) (q : QuorumConsensus) where
  All-member :
      (payload : Bytes) (block : Block) (ns : List NodeId)
      → All (Backed c serde q payload block.consensus.signatures) ns
      → All (λ n. contains q.members n ≡ true) ns
  All-member payload block [] a = tt
  All-member payload block (n ∷ ns) (a, as') = (a.0, All-member payload block ns as')

  -- If two blocks verify under one consensus whose quorum is more than half of its members, then some
  -- member signed the proposals of both.
  pub verify_quorum_agree :
      (one other : Block)
      → length q.members < 2 * q.quorum
      → verify_quorum c serde q one ≡ ok true
      → verify_quorum c serde q other ≡ ok true
      → (payload : Bytes) × (payload' : Bytes) × (proposal_bytes c serde one ≡ ok payload)
        × (proposal_bytes c serde other ≡ ok payload')
        × ((n : NodeId) × (contains q.members n ≡ true)
            × Approved c serde q payload one.consensus.signatures n
            × Approved c serde q payload' other.consensus.signatures n)
  verify_quorum_agree one other majority v v' =
      let (_, (p, e, (ns, d, enough, backed))) = verify_quorum_sound c serde q one v in
      let (_, (p', e', (ks, d', enough', backed'))) = verify_quorum_sound c serde q other v' in
      elim (shared_or_Distinct (Backed c serde q p one.consensus.signatures) ns ks d d' backed) [
        | inl (n, by_one, found) ↦
            let by_other =
              All-contains (Backed c serde q p' other.consensus.signatures) n ks found backed' in
            (p, p', e, e', (n, by_one.0, by_one.1, by_other.1))
        | inr distinct ↦ absurd (
            omega (
              arith,
              length-append ns ks,
              length-Distinct (ns ++ ks) q.members distinct (
                  All-append (λ n. contains q.members n ≡ true) ns ks (All-member p one ns backed)
                    (All-member p' other ks backed')),
            ))
      ]
