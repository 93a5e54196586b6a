-- ===== src/Prelude/Slots.antt =====
-- Lists of slots that are filled in any order: which pieces are there, and how many bytes.
use Prim.Native.Nat.{ℕ, zero, suc, ◌+◌, ◌≤◌, ◌<◌}
use mathlib.Core.Path.{◌≡◌, refl, ap, subst}
use mathlib.Core.Bool.{Bool, true, false, ◌||◌}
use mathlib.Core.Option.{Option, none, some}
use mathlib.Core.List.{List, [], ◌∷◌, ◌++◌}
use native.Mathlib.Omega.{arith}
use peerless_sysytem_fw.Prelude.Tests.{◌==◌, if◌then◌else◌}
use peerless_sysytem_fw.Prelude.Lists.{length, get_elem?, set, replicate, any, length-append}

-- The number is in the list.
abbrev pub seen : ℕ → List ℕ → Bool
seen s [] = false
seen s (x ∷ h) = s == x || seen s h

abbrev pub is_none {ℓ} : {A : Type ℓ} → Option A → Bool
is_none none = true
is_none (some a) = false

-- `into_iter().flatten()` of the slots, joined.
abbrev pub flatten : List (Option (List ℕ)) → List ℕ
flatten [] = []
flatten (none ∷ rest) = flatten rest
flatten (some bytes ∷ rest) = bytes ++ flatten rest

abbrev pub concat : List (List ℕ) → List ℕ
concat [] = []
concat (c ∷ cs) = c ++ concat cs

-- The slots of which the pieces in a list of positions have arrived; the first piece is
-- at position `at`.
pub slots : ℕ → List ℕ → List (List ℕ) → List (Option (List ℕ))
slots at got [] = []
slots at got (c ∷ cs) = (if seen at got then some c else none) ∷ slots (suc at) got cs

pub arrived : ℕ → List ℕ → List (List ℕ) → ℕ
arrived at got [] = 0
arrived at got (c ∷ cs) = (if seen at got then length c else 0) + arrived (suc at) got cs

pub get-slots :
    (at i : ℕ) (got : List ℕ) (cs : List (List ℕ)) (c : (List ℕ))
    → get_elem? cs i ≡ some c
    → get_elem? (slots at got cs) i ≡ some (if seen (at + i) got then some c else none)
unfolding slots
get-slots at i got [] c h = absurd (ground arith)
get-slots at zero got (x ∷ cs) c h = ground arith
get-slots at (suc i) got (x ∷ cs) c h = ground (arith, get-slots (suc at) i got cs c h)

pub slots-past :
    (at i : ℕ) (got : List ℕ) (cs : List (List ℕ))
    → i < at
    → slots at (i ∷ got) cs ≡ slots at got cs
unfolding slots
slots-past at i got [] h = refl
slots-past at i got (c ∷ cs) h = ground (arith, slots-past (suc at) i got cs (omega arith))

pub arrived-past :
    (at i : ℕ) (got : List ℕ) (cs : List (List ℕ))
    → i < at
    → arrived at (i ∷ got) cs ≡ arrived at got cs
unfolding arrived
arrived-past at i got [] h = refl
arrived-past at i got (c ∷ cs) h = ground (arith, arrived-past (suc at) i got cs (omega arith))

pub set-slots :
    (at i : ℕ) (got : List ℕ) (cs : List (List ℕ)) (c : (List ℕ))
    → get_elem? cs i ≡ some c
    → set (slots at got cs) i (some c) ≡ slots at ((at + i) ∷ got) cs
unfolding slots
set-slots at i got [] c h = absurd (ground arith)
set-slots at zero got (x ∷ cs) c h = ground (arith, slots-past (suc at) at got cs (omega arith))
set-slots at (suc i) got (x ∷ cs) c h = ground (arith, set-slots (suc at) i got cs c h)

pub arrived-add :
    (at i : ℕ) (got : List ℕ) (cs : List (List ℕ)) (c : (List ℕ))
    → get_elem? cs i ≡ some c
    → seen (at + i) got ≡ false
    → arrived at ((at + i) ∷ got) cs ≡ arrived at got cs + length c
unfolding arrived
arrived-add at i got [] c h n = absurd (ground arith)
arrived-add at zero got (x ∷ cs) c h n =
    ground (arith, arrived-past (suc at) at got cs (omega arith))
arrived-add at (suc i) got (x ∷ cs) c h n = ground (arith, arrived-add (suc at) i got cs c h)

pub arrived-le :
    (at : ℕ) (got : List ℕ) (cs : List (List ℕ)) → arrived at got cs ≤ length (concat cs)
unfolding arrived
arrived-le at got [] = omega arith
arrived-le at got (c ∷ cs) = ground (arith, length-append c (concat cs), arrived-le (suc at) got cs)

abbrev Full : ℕ → List ℕ → List (List ℕ) → Type 0
Full at got cs = (j : ℕ) → j < length cs → seen (at + j) got ≡ true

pub Full-tail :
    (at : ℕ) (got : List ℕ) (c : (List ℕ)) (cs : List (List ℕ))
    → Full at got (c ∷ cs)
    → Full (suc at) got cs
Full-tail at got c cs full j h =
    subst (λ k. seen k got ≡ true) (omega arith) (full (suc j) (omega arith))

pub slots-Full :
    (at : ℕ) (got : List ℕ) (cs : List (List ℕ))
    → Full at got cs
    → (any is_none (slots at got cs) ≡ false)
      × (flatten (slots at got cs) ≡ concat cs)
      × (arrived at got cs ≡ length (concat cs))
unfolding slots arrived
slots-Full at got [] full = (refl, refl, refl)
slots-Full at got (c ∷ cs) full =
    let later = slots-Full (suc at) got cs (Full-tail at got c cs full) in
    let here : seen at got ≡ true =
      subst (λ k. seen k got ≡ true) (omega arith) (full 0 (omega arith)) in
    rw here (later.0, ap (◌++◌ c) later.1, omega (arith, later.2, length-append c (concat cs)))

pub slots-missing :
    (at j : ℕ) (got : List ℕ) (cs : List (List ℕ)) (c : (List ℕ))
    → get_elem? cs j ≡ some c
    → seen (at + j) got ≡ false
    → any is_none (slots at got cs) ≡ true
unfolding slots
slots-missing at j got [] c h n = absurd (ground arith)
slots-missing at zero got (x ∷ cs) c h n = ground arith
slots-missing at (suc j) got (x ∷ cs) c h n = ground (arith, slots-missing (suc at) j got cs c h)

pub slots-none : (at : ℕ) (cs : List (List ℕ)) → slots at [] cs ≡ replicate (length cs) none
unfolding slots
slots-none at [] = refl
slots-none at (c ∷ cs) = ap (◌∷◌ none) (slots-none (suc at) cs)

pub arrived-none : (at : ℕ) (cs : List (List ℕ)) → arrived at [] cs ≡ 0
unfolding arrived
arrived-none at [] = refl
arrived-none at (c ∷ cs) = omega (arith, arrived-none (suc at) cs)

pub get_in_range :
    (cs : List (List ℕ)) (i : ℕ) (c : (List ℕ)) → get_elem? cs i ≡ some c → i < length cs
get_in_range [] i c h = absurd (ground arith)
get_in_range (x ∷ cs) zero c h = omega arith
get_in_range (x ∷ cs) (suc i) c h = omega (arith, get_in_range cs i c h)

pub piece-le :
    (cs : List (List ℕ)) (i : ℕ) (c : (List ℕ))
    → get_elem? cs i ≡ some c
    → length c ≤ length (concat cs)
piece-le [] i c h = absurd (ground arith)
piece-le (x ∷ cs) zero c h = ground (arith, length-append x (concat cs))
piece-le (x ∷ cs) (suc i) c h = omega (arith, length-append x (concat cs), piece-le cs i c h)

module _ (i : ℕ) (got : List ℕ) (cs : List (List ℕ)) (c : (List ℕ))
    (h : get_elem? cs i ≡ some c) where
  pub get-slots_zero : get_elem? (slots 0 got cs) i ≡ some (if seen i got then some c else none)
  get-slots_zero =
      subst (λ k. get_elem? (slots 0 got cs) i ≡ some (if seen k got then some c else none))
        (omega arith) (get-slots 0 i got cs c h)

  pub set-slots_zero : set (slots 0 got cs) i (some c) ≡ slots 0 (i ∷ got) cs
  set-slots_zero =
      subst (λ k. set (slots 0 got cs) i (some c) ≡ slots 0 (k ∷ got) cs) (omega arith)
        (set-slots 0 i got cs c h)

  pub arrived-add_zero : seen i got ≡ false → arrived 0 (i ∷ got) cs ≡ arrived 0 got cs + length c
  arrived-add_zero n =
      subst (λ k. seen k got ≡ false → arrived 0 (k ∷ got) cs ≡ arrived 0 got cs + length c)
        (omega arith) (arrived-add 0 i got cs c h) n

  pub slots-missing_zero : seen i got ≡ false → any is_none (slots 0 got cs) ≡ true
  slots-missing_zero n =
      subst (λ k. seen k got ≡ false → any is_none (slots 0 got cs) ≡ true) (omega arith)
        (slots-missing 0 i got cs c h) n

pub slots-Full_zero :
    (got : List ℕ) (cs : List (List ℕ))
    → ((j : ℕ) → j < length cs → seen j got ≡ true)
    → (any is_none (slots 0 got cs) ≡ false)
      × (flatten (slots 0 got cs) ≡ concat cs)
      × (arrived 0 got cs ≡ length (concat cs))
slots-Full_zero got cs full =
    slots-Full 0 got cs (λ j h. subst (λ k. seen k got ≡ true) (omega arith) (full j h))

pub length-slots :
    (at : ℕ) (got : List ℕ) (cs : List (List ℕ)) → length (slots at got cs) ≡ length cs
unfolding slots
length-slots at got [] = refl
length-slots at got (c ∷ cs) = ap suc (length-slots (suc at) got cs)
