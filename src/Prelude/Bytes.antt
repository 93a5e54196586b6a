-- ===== src/Prelude/Bytes.antt =====
-- Big-endian integers and slices of byte strings.
use Prim.Native.Nat.{ℕ, zero, suc, ◌+◌, ◌-◌, ◌*◌, ◌/◌, ◌%◌, ◌^◌, ◌<◌}
use mathlib.Core.Path.{◌≡◌, refl, ap, ◌∙◌}
use mathlib.Core.List.{List, [], ◌∷◌, ◌++◌}
use native.Mathlib.Omega.{arith}
use peerless_sysytem_fw.Prelude.Lists.{length, take, drop, take-append, drop-append}

-- `v.to_be_bytes()` at a width of `w` bytes.
abbrev pub be_bytes : ℕ → ℕ → List ℕ
be_bytes zero v = []
be_bytes (suc w) v = ((v / 256 ^ w) % 256) ∷ be_bytes w v

abbrev pub from_be_acc : ℕ → List ℕ → ℕ
from_be_acc acc [] = acc
from_be_acc acc (b ∷ bs) = from_be_acc (acc * 256 + b) bs

-- `uN::from_be_bytes(bytes)`.
abbrev pub from_be : List ℕ → ℕ
from_be = from_be_acc 0

-- `bytes[from..to]`.
abbrev pub slice : ℕ → ℕ → List ℕ → List ℕ
slice from to bytes = take (to - from) (drop from bytes)

-- `bytes[i]`, and 0 past the end, where the code would panic: every use is in range.
abbrev pub byte_at : List ℕ → ℕ → ℕ
byte_at [] i = 0
byte_at (b ∷ bs) zero = b
byte_at (b ∷ bs) (suc i) = byte_at bs i

pub length-be_bytes : (w v : ℕ) → length (be_bytes w v) ≡ w
length-be_bytes zero v = refl
length-be_bytes (suc w) v = ap suc (length-be_bytes w v)

pub from_be-be_bytes_two : (v : ℕ) → v < 256 ^ 2 → from_be (be_bytes 2 v) ≡ v
from_be-be_bytes_two v h = omega arith

pub from_be-be_bytes_four : (v : ℕ) → v < 256 ^ 4 → from_be (be_bytes 4 v) ≡ v
from_be-be_bytes_four v h = omega arith

pub from_be-be_bytes_eight : (v : ℕ) → v < 256 ^ 8 → from_be (be_bytes 8 v) ≡ v
from_be-be_bytes_eight v h = omega arith

module _ {ℓ} {A : Type ℓ} where
  pub take_at : (n : ℕ) (xs ys : List A) → length xs ≡ n → take n (xs ++ ys) ≡ xs
  take_at n xs ys h = rw (← h) (take-append xs ys)

  pub drop_at : (n : ℕ) (xs ys : List A) → length xs ≡ n → drop n (xs ++ ys) ≡ ys
  drop_at n xs ys h = rw (← h) (drop-append xs ys)

  -- A drop that passes the first part goes on in the rest.
  pub drop_past : (m n : ℕ) (xs ys : List A) → length xs ≡ m → drop (m + n) (xs ++ ys) ≡ drop n ys
  drop_past m n [] ys h = rw (← h) (ap (λ k. drop k ys) (omega arith))
  drop_past zero n (x ∷ xs) ys h = absurd (omega arith)
  drop_past (suc m) n (x ∷ xs) ys h =
      ap (λ k. drop k (x ∷ xs ++ ys)) (p m n) ∙ drop_past m n xs ys (omega arith)
    where
      p : (m n : ℕ) → suc m + n ≡ suc (m + n)
      p m n = omega arith
