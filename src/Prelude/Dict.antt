-- ===== src/Prelude/Dict.antt =====
-- A `HashMap` as an association list over keys with equality.
use peerless_sysytem_fw.Prelude.Tests.{if◌then◌else◌, Bool-cases}
use peerless_sysytem_fw.Prelude.Lists.{length}
use peerless_sysytem_fw.Prelude.Equality.{Eq, ◌≟◌, ≟→≡, ≟→≢, ≟_refl, bytes_beq, bytes_beq_iff}
use Prim.Native.Nat.{ℕ, ◌+◌, ◌≤◌}
use mathlib.Core.Path.{◌≡◌, refl, sym, subst, ◌∙◌}
use mathlib.Core.Logic.{◌≢◌, ◌↔◌, inl, inr}
use mathlib.Core.Bool.{Bool, true, ◌&&◌}
use mathlib.Core.Option.{Option, none, some, some-injective}
use mathlib.Core.List.{List, [], ◌∷◌}
use native.Mathlib.Omega.{arith}

abbrev pub Dict {ℓ κ} : Type ℓ → Type κ → Type (ℓ ⊔ κ)
Dict K V = List (K × V)

abbrev pub pair_beq : List ℕ × List ℕ → List ℕ × List ℕ → Bool
pair_beq a b = bytes_beq a.0 b.0 && bytes_beq a.1 b.1

pub pair_beq_iff : (a b : List ℕ × List ℕ) → (pair_beq a b ≡ true) ↔ (a ≡ b)
pair_beq_iff a b = (
  λ h. ground (arith, bytes_beq_iff a.0 b.0, bytes_beq_iff a.1 b.1),
  λ h. ground (arith, bytes_beq_iff a.0 b.0, bytes_beq_iff a.1 b.1),
)

instance abbrev pub pair_eq : Eq (List ℕ × List ℕ)
pair_eq = record { beq = pair_beq; beq_iff = pair_beq_iff }

module _ {ℓ κ} {K : Type ℓ} {V : Type κ} ⦃e : Eq K⦄ where
  abbrev pub lookup : K → Dict K V → Option V
  lookup k [] = none
  lookup k ((j, v) ∷ d) = if k ≟ j then some v else lookup k d

  -- Replaces the value of a key in its place, or adds the key at the end.
  abbrev pub insert : K → V → Dict K V → Dict K V
  insert k v [] = (k, v) ∷ []
  insert k v ((j, w) ∷ d) = if k ≟ j then (k, v) ∷ d else (j, w) ∷ insert k v d

  abbrev pub erase : K → Dict K V → Dict K V
  erase k [] = []
  erase k ((j, w) ∷ d) = if k ≟ j then erase k d else (j, w) ∷ erase k d

  -- `retain`.
  abbrev pub retain : (K → V → Bool) → Dict K V → Dict K V
  retain keep [] = []
  retain keep ((j, w) ∷ d) = if keep j w then (j, w) ∷ retain keep d else retain keep d

  pub lookup-insert_self : (k : K) (v : V) (d : Dict K V) → lookup k (insert k v d) ≡ some v
  lookup-insert_self k v [] = ground (arith, ≟_refl k)
  lookup-insert_self k v ((j, w) ∷ d) = ground (arith, ≟_refl k, lookup-insert_self k v d)

  pub lookup-insert_ne :
      (i k : K) (v : V) (d : Dict K V) → i ≢ k → lookup i (insert k v d) ≡ lookup i d
  lookup-insert_ne i k v [] h = ground (arith, ≟→≡ i k)
  lookup-insert_ne i k v ((j, w) ∷ d) h =
      ground (arith, ≟→≡ i k, ≟→≡ k j, lookup-insert_ne i k v d h)

  pub lookup-erase_self : (k : K) (d : Dict K V) → lookup k (erase k d) ≡ none
  lookup-erase_self k [] = refl
  lookup-erase_self k ((j, w) ∷ d) = ground (arith, lookup-erase_self k d)

  pub lookup-erase_ne : (i k : K) (d : Dict K V) → i ≢ k → lookup i (erase k d) ≡ lookup i d
  lookup-erase_ne i k [] h = refl
  lookup-erase_ne i k ((j, w) ∷ d) h =
      ground (arith, ≟→≡ i k, ≟→≡ k j, ≟→≡ i j, lookup-erase_ne i k d h)

  pub length-erase-le : (k : K) (d : Dict K V) → length (erase k d) ≤ length d
  length-erase-le k [] = omega arith
  length-erase-le k ((j, w) ∷ d) = ground (arith, length-erase-le k d)

  pub length-retain-le : (p : K → V → Bool) (d : Dict K V) → length (retain p d) ≤ length d
  length-retain-le p [] = omega arith
  length-retain-le p ((j, w) ∷ d) = ground (arith, length-retain-le p d)

  pub length-insert-le : (k : K) (v : V) (d : Dict K V) → length (insert k v d) ≤ length d + 1
  length-insert-le k v [] = omega arith
  length-insert-le k v ((j, w) ∷ d) = ground (arith, length-insert-le k v d)

  -- A key that is present keeps the number of entries.
  pub length-insert_present :
      (k : K) (v w : V) (d : Dict K V) → lookup k d ≡ some w → length (insert k v d) ≡ length d
  length-insert_present k v w [] h = absurd (ground arith)
  length-insert_present k v w ((j, x) ∷ d) h = ground (arith, length-insert_present k v w d)

  -- No key has two entries, as in a `HashMap`.
  abbrev pub Unique : Dict K V → Type κ
  Unique [] = Unit
  Unique ((k, v) ∷ d) = (lookup k d ≡ none) × Unique d

  abbrev pub AllValues {μ} : (V → Type μ) → Dict K V → Type μ
  AllValues P [] = Unit
  AllValues P ((k, v) ∷ d) = P v × AllValues P d

  pub insert-Unique : (k : K) (v : V) (d : Dict K V) → Unique d → Unique (insert k v d)
  insert-Unique k v [] u = (refl, tt)
  insert-Unique k v ((j, w) ∷ d) (n, u) = elim (Bool-cases (k ≟ j)) [
    | inl same ↦ rw same (subst (λ i. lookup i d ≡ none) (sym (≟→≡ k j same)) n, u)
    | inr other ↦
        rw other (lookup-insert_ne j k v d (λ p. ≟→≢ k j other (sym p)) ∙ n, insert-Unique k v d u)
  ]

  pub lookup-erase_absent :
      (i k : K) (d : Dict K V) → lookup i d ≡ none → lookup i (erase k d) ≡ none
  lookup-erase_absent i k [] h = refl
  lookup-erase_absent i k ((j, w) ∷ d) h = ground (arith, lookup-erase_absent i k d)

  pub erase-Unique : (k : K) (d : Dict K V) → Unique d → Unique (erase k d)
  erase-Unique k [] u = u
  erase-Unique k ((j, w) ∷ d) (n, u) = elim (Bool-cases (k ≟ j)) [
    | inl same ↦ rw same (erase-Unique k d u)
    | inr other ↦ rw other (lookup-erase_absent j k d n, erase-Unique k d u)
  ]

  pub insert-AllValues {μ} :
      (P : V → Type μ) (k : K) (v : V) (d : Dict K V)
      → P v
      → AllValues P d
      → AllValues P (insert k v d)
  insert-AllValues P k v [] p a = (p, a)
  insert-AllValues P k v ((j, w) ∷ d) p (q, a) = elim (Bool-cases (k ≟ j)) [
    | inl same ↦ rw same (p, a)
    | inr other ↦ rw other (q, insert-AllValues P k v d p a)
  ]

  pub erase-AllValues {μ} :
      (P : V → Type μ) (k : K) (d : Dict K V) → AllValues P d → AllValues P (erase k d)
  erase-AllValues P k [] a = a
  erase-AllValues P k ((j, w) ∷ d) (q, a) = elim (Bool-cases (k ≟ j)) [
    | inl same ↦ rw same (erase-AllValues P k d a)
    | inr other ↦ rw other (q, erase-AllValues P k d a)
  ]

  pub lookup-AllValues {μ} :
      (P : V → Type μ) (k : K) (v : V) (d : Dict K V) → lookup k d ≡ some v → AllValues P d → P v
  lookup-AllValues P k v [] h a = absurd (ground arith)
  lookup-AllValues P k v ((j, w) ∷ d) h (q, a) = elim (Bool-cases (k ≟ j)) [
    | inl same ↦ subst P (some-injective w v (rw same at h)) q
    | inr other ↦ lookup-AllValues P k v d (rw other at h) a
  ]
