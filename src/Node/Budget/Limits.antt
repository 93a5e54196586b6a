-- ===== src/Node/Budget/Limits.antt =====
-- The budget bounds what is granted, in all and to each identity.
use peerless_sysytem_fw.Prelude.{
  ℕ, ◌+◌, ◌-◌, ◌≤◌, ◌<◌, ◌≡◌, sym, subst, List, [], ◌∷◌, inl, inr, arith, leb, if◌then◌else◌,
  length, Bool-cases,
}
use peerless_sysytem_fw.Prelude.Equality.{bytes_eq, bytes_beq, bytes_beq_iff}
use peerless_sysytem_fw.Prelude.Dict.{lookup-insert_self, lookup-insert_ne}
use peerless_sysytem_fw.Core.{NodeId}
use peerless_sysytem_fw.Node.Budget.{RequestBudget, count_of, roll, spend, consume_request_budget}

pub record IsBounded (b : RequestBudget) : Type 0 where
  pub global_bounded : b.global ≤ 16384
  pub each_bounded : (n : NodeId) → count_of n b.identities ≤ 4096

roll-IsBounded : (b : RequestBudget) (at : ℕ) → IsBounded b → IsBounded (roll b at)
unfolding roll
roll-IsBounded b at v = elim (Bool-cases (leb 60000 (at - b.window_started_at))) [
  | inl over ↦ rw over (record { global_bounded = omega arith; each_bounded = λ n. omega arith })
  | inr within ↦ rw within v
]

count-spend :
    (b : RequestBudget) (signer n : NodeId)
    → count_of n (spend b signer).1.identities
      ≡ count_of n b.identities
        + (if (spend b signer).0 then (if bytes_beq n signer then 1 else 0) else 0)
unfolding spend
count-spend b signer n = elim (Bool-cases (bytes_beq n signer)) [
  | inl same ↦
      let e = (bytes_beq_iff n signer).0 same in
      ground (arith, e, lookup-insert_self signer (count_of signer b.identities + 1) b.identities)
  | inr other ↦ ground (
    arith,
    bytes_beq_iff n signer,
    lookup-insert_ne n signer (count_of signer b.identities + 1) b.identities,
  )
]

spend_each :
    (b : RequestBudget) (signer n : NodeId)
    → count_of n b.identities ≤ 4096
    → count_of n (spend b signer).1.identities ≤ 4096
unfolding spend
spend_each b signer n h = elim (Bool-cases (bytes_beq n signer)) [
  | inl same ↦
      let e = (bytes_beq_iff n signer).0 same in
      ground (arith, e, lookup-insert_self signer (count_of signer b.identities + 1) b.identities)
  | inr other ↦ ground (
    arith,
    bytes_beq_iff n signer,
    lookup-insert_ne n signer (count_of signer b.identities + 1) b.identities,
  )
]

spend_global :
    (b : RequestBudget) (signer : NodeId)
    → b.global ≤ 16384
    → ((spend b signer).1.global ≤ 16384)
      × ((spend b signer).1.global ≡ b.global + (if (spend b signer).0 then 1 else 0))
      × ((spend b signer).1.window_started_at ≡ b.window_started_at)
unfolding spend
spend_global b signer h = ground arith

spend-IsBounded : (b : RequestBudget) (signer : NodeId) → IsBounded b → IsBounded (spend b signer).1
spend-IsBounded b signer v = record {
  global_bounded = (spend_global b signer v.global_bounded).0;
  each_bounded = λ n. spend_each b signer n (v.each_bounded n);
}

-- A request keeps the counters within 16384 in all and 4096 for each identity, whatever its time.
pub consume_request_budget-IsBounded :
    (b : RequestBudget) (signer : NodeId) (at : ℕ)
    → IsBounded b
    → IsBounded (consume_request_budget b signer at).1
unfolding consume_request_budget
consume_request_budget-IsBounded b signer at v = spend-IsBounded _ signer (roll-IsBounded b at v)

-- The signers whose requests are granted, and the budget behind them.
unfoldable pub serve : RequestBudget → List (NodeId × ℕ) → List NodeId × RequestBudget
serve b [] = ([], b)
serve b ((signer, at) ∷ requests) =
    let (granted, b') = consume_request_budget b signer at in
    let (later, b'') = serve b' requests in (if granted then signer ∷ later else later, b'')

abbrev pub grants_to : NodeId → List NodeId → ℕ
grants_to n [] = 0
grants_to n (m ∷ granted) = (if bytes_beq n m then 1 else 0) + grants_to n granted

abbrev pub InWindow : ℕ → List (NodeId × ℕ) → Type 0
InWindow start [] = Unit {0}
InWindow start ((signer, at) ∷ requests) = (at - start < 60000) × InWindow start requests

roll_within : (b : RequestBudget) (at : ℕ) → at - b.window_started_at < 60000 → roll b at ≡ b
unfolding roll
roll_within b at h = ground arith

serve_accounts :
    (b : RequestBudget) (requests : List (NodeId × ℕ)) (n : NodeId)
    → IsBounded b
    → InWindow b.window_started_at requests
    → let (granted, b') = serve b requests in
      (count_of n b.identities + grants_to n granted ≡ count_of n b'.identities)
      × (b.global + length granted ≡ b'.global)
      × (count_of n b'.identities ≤ 4096)
      × (b'.global ≤ 16384)
unfolding serve consume_request_budget
serve_accounts b [] n v w = (omega arith, omega arith, v.each_bounded n, v.global_bounded)
serve_accounts b ((signer, at) ∷ requests) n v (w, ws) =
    let g = spend_global b signer v.global_bounded in
    let later =
      serve_accounts (spend b signer).1 requests n (spend-IsBounded b signer v)
        (subst (λ s. InWindow s requests) (sym g.2) ws) in
    let counted = count-spend b signer n in
    rw (roll_within b at w) (elim (Bool-cases (spend b signer).0) [
      | inl granted ↦ rw granted (
        ground (arith, granted, later.0, counted),
        ground (arith, granted, later.1, g.1),
        later.2,
        later.3,
      )
      | inr refused ↦ rw refused (
        ground (arith, refused, later.0, counted),
        ground (arith, refused, later.1, g.1),
        later.2,
        later.3,
      )
    ])

-- From a budget within its limits, of any requests less than a minute after its window's start, at
-- most 4096 of one identity and at most 16384 in all are granted.
pub serve_limits :
    (b : RequestBudget) (requests : List (NodeId × ℕ)) (n : NodeId)
    → IsBounded b
    → InWindow b.window_started_at requests
    → (grants_to n (serve b requests).0 ≤ 4096) × (length (serve b requests).0 ≤ 16384)
serve_limits b requests n v w =
    let a = serve_accounts b requests n v w in (omega (arith, a.0, a.2), omega (arith, a.1, a.3))
