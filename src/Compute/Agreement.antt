-- ===== src/Compute/Agreement.antt =====
-- What `verify_outputs` returns has the agreement that the policy asks for.
use peerless_sysytem_fw.Prelude.{
  or_zero, ℕ, ◌+◌, ◌≤◌, ◌<◌, ◌≡◌, ◌≢◌, refl, ap, subst, true, ◌&&◌, Option, none, some, List, [],
  ◌∷◌, Bytes, ok, leb, if◌then◌else◌, length, length-take, get_elem?, take, all, All, arith, inl,
  inr, Bool-cases, Option-cases,
}
use peerless_sysytem_fw.Prelude.Equality.{bytes_eq, bytes_beq, bytes_beq_iff}
use peerless_sysytem_fw.Prelude.Dict.{Dict, lookup, insert, lookup-insert_self, lookup-insert_ne}
use peerless_sysytem_fw.Core.{ContentId, VerificationPolicy}
use peerless_sysytem_fw.Compute.{tally, largest, verify_outputs}

-- How often an output occurs.
abbrev pub occurrences : ContentId → List ContentId → ℕ
occurrences o [] = 0
occurrences o (x ∷ outputs) = (if bytes_beq o x then 1 else 0) + occurrences o outputs

lookup-insert_zero :
    (o x : ContentId) (n : ℕ) (d : Dict Bytes ℕ)
    → or_zero (lookup o (insert x n d)) ≡ (if bytes_beq o x then n else or_zero (lookup o d))
lookup-insert_zero o x n d = elim (Bool-cases (bytes_beq o x)) [
  | inl same ↦
      let e = (bytes_beq_iff o x).0 same in rw (same, e) (ap or_zero (lookup-insert_self x n d))
  | inr other ↦
      let differ : o ≢ x = λ p. absurd (ground (arith, (bytes_beq_iff o x).1 p)) in
      rw other (ap or_zero (lookup-insert_ne o x n d differ))
]

tally-occurrences :
    (o : ContentId) (outputs : List ContentId) (d : Dict Bytes ℕ)
    → or_zero (lookup o (tally outputs d)) ≡ or_zero (lookup o d) + occurrences o outputs
tally-occurrences o [] d = omega arith
tally-occurrences o (x ∷ outputs) d =
    let later = tally-occurrences o outputs (insert x (or_zero (lookup x d) + 1) d) in
    ground (arith, later, lookup-insert_zero o x (or_zero (lookup x d) + 1) d, bytes_beq_iff o x)

-- What the largest entry has, if the start and all entries have it.
module _ (P : ContentId × ℕ → Type 0) (required : ℕ) where
  Held : Option (ContentId × ℕ) → Type 0
  Held none = Unit {0}
  Held (some e) = P e × (required ≤ e.1)

  largest-Held :
      (start : Option (ContentId × ℕ)) (entries : List (ContentId × ℕ))
      → Held start
      → All P entries
      → Held (largest required start entries)
  unfolding Held
  largest-Held start [] h a = h
  largest-Held none (e ∷ entries) h (p, a) = elim (Bool-cases (leb required e.1)) [
    | inl enough ↦ rw enough (largest-Held (some e) entries (p, ground arith) a)
    | inr few ↦ rw few (largest-Held none entries h a)
  ]
  largest-Held (some best) (e ∷ entries) h (p, a) =
      elim (Bool-cases (leb required e.1 && leb best.1 e.1)) [
        | inl larger ↦ rw larger (largest-Held (some e) entries (p, ground arith) a)
        | inr smaller ↦ rw smaller (largest-Held (some best) entries h a)
      ]

all-occurrences :
    (o : ContentId) (outputs : List ContentId)
    → all (λ output. bytes_beq output o) outputs ≡ true
    → occurrences o outputs ≡ length outputs
all-occurrences o [] h = refl
all-occurrences o (x ∷ outputs) h =
    ground (arith, all-occurrences o outputs, bytes_beq_iff x o, bytes_beq_iff o x)

-- What a policy asks of the output that is returned.
unfoldable pub Agreed : VerificationPolicy → List ContentId → ContentId → Type 0
Agreed VerificationPolicy.trust_executor outputs o = get_elem? outputs 0 ≡ some o
Agreed (VerificationPolicy.replicate_by required) outputs o =
    (0 < required)
    × (required ≤ length outputs)
    × (occurrences o (take required outputs) ≡ required)
Agreed (VerificationPolicy.quorum executions required_matches) outputs o =
    (0 < required_matches)
    × (executions ≤ length outputs)
    × (required_matches ≤ occurrences o (take executions outputs))

-- The outputs that count for a quorum.
abbrev pub counted : VerificationPolicy → List ContentId → Dict Bytes ℕ
counted VerificationPolicy.trust_executor outputs = []
counted (VerificationPolicy.replicate_by required) outputs = []
counted (VerificationPolicy.quorum executions required_matches) outputs =
    tally (take executions outputs) []

-- If the counts are iterated as they are, in any order, an output that `verify_outputs` returns is the
-- first of all, or that of all the required executions, or that of at least the required matches among
-- the executions of the quorum, as the policy says.
pub verify_outputs-Agreed :
    (iterate : Dict Bytes ℕ → List (ContentId × ℕ)) (policy : VerificationPolicy)
    (outputs : List ContentId) (o : ContentId)
    → All (λ e. lookup e.0 (counted policy outputs) ≡ some e.1) (iterate (counted policy outputs))
    → verify_outputs iterate policy outputs ≡ ok o
    → Agreed policy outputs o
unfolding verify_outputs Agreed Held
verify_outputs-Agreed iterate VerificationPolicy.trust_executor [] o listed h =
    absurd (ground arith)
verify_outputs-Agreed iterate VerificationPolicy.trust_executor (x ∷ outputs) o listed h =
    ground arith
verify_outputs-Agreed iterate (VerificationPolicy.replicate_by required) [] o listed h =
    absurd (ground arith)
verify_outputs-Agreed iterate (VerificationPolicy.replicate_by required) (x ∷ outputs) o listed h =
    ground
      (arith, all-occurrences x (take required (x ∷ outputs)), length-take required (x ∷ outputs))
verify_outputs-Agreed iterate (VerificationPolicy.quorum executions required) outputs o listed h =
    let counts = tally (take executions outputs) [] in
    let held =
      largest-Held (λ e. lookup e.0 counts ≡ some e.1) required none (iterate counts) tt listed in
    elim (Option-cases (largest required none (iterate counts))) [
      | inl e ↦ absurd (ground arith)
      | inr (best, e) ↦
          let (found, enough) = subst (Held (λ x. lookup x.0 counts ≡ some x.1) required) e held in
          let same : o ≡ best.0 = ground arith in
          let total = tally-occurrences best.0 (take executions outputs) [] in
          ground (arith, same, found, enough, total)
    ]
