-- ===== src/Onion/Fragments/Cut.antt =====
-- How a message is cut into fragments, and their encoding.
use peerless_sysytem_fw.Prelude.{
  ℕ, zero, suc, ◌+◌, ◌/◌, ◌≤◌, ◌<◌, ◌≡◌, refl, some, List, [], ◌∷◌, Bytes, ok, arith, length, drop,
  length-take, length-drop, take-append-drop, get_elem?,
}
use peerless_sysytem_fw.Prelude.Slots.{concat}
use peerless_sysytem_fw.Onion.Fragments.{chunks, number, fragment_message}

-- What the fragments of a message hold: its bytes in order, in pieces of the right size.
pub record IsCut (bytes : Bytes) (cs : List Bytes) : Type 0 where
  pub joined : concat cs ≡ bytes
  pub nonempty : 0 < length cs
  pub few : length cs ≤ 1024
  pub short : length bytes ≤ 524288
  pub piece :
      (i : ℕ) (c : Bytes)
      → get_elem? cs i ≡ some c
      → (length c ≤ 927) × (0 < length bytes → 0 < length c)
  pub single : length bytes ≡ 0 → (length cs ≡ 1)

concat-chunks :
    (fuel : ℕ) (bytes : Bytes) → length bytes ≤ fuel → concat (chunks fuel bytes) ≡ bytes
unfolding chunks
concat-chunks zero [] h = refl
concat-chunks zero (b ∷ bs) h = absurd (omega arith)
concat-chunks (suc fuel) [] h = refl
concat-chunks (suc fuel) (b ∷ bs) h =
    rw (concat-chunks fuel (drop 927 (b ∷ bs)) (omega (arith, length-drop 927 (b ∷ bs))))
      (take-append-drop 927 (b ∷ bs))

length-chunks :
    (fuel : ℕ) (bytes : Bytes)
    → length bytes ≤ fuel
    → length (chunks fuel bytes) ≡ (length bytes + 926) / 927
unfolding chunks
length-chunks zero [] h = omega arith
length-chunks zero (b ∷ bs) h = absurd (omega arith)
length-chunks (suc fuel) [] h = omega arith
length-chunks (suc fuel) (b ∷ bs) h = omega (
  arith,
  length-drop 927 (b ∷ bs),
  length-chunks fuel (drop 927 (b ∷ bs)) (omega (arith, length-drop 927 (b ∷ bs))),
)

piece-chunks :
    (fuel : ℕ) (bytes : Bytes) (i : ℕ) (c : Bytes)
    → get_elem? (chunks fuel bytes) i ≡ some c
    → (0 < length c) × (length c ≤ 927)
unfolding chunks
piece-chunks zero bytes i c h = absurd (ground arith)
piece-chunks (suc fuel) [] i c h = absurd (ground arith)
piece-chunks (suc fuel) (b ∷ bs) zero c h = ground (arith, length-take 927 (b ∷ bs))
piece-chunks (suc fuel) (b ∷ bs) (suc i) c h = piece-chunks fuel (drop 927 (b ∷ bs)) i c h

pub cut :
    (id bytes : Bytes)
    → length bytes ≤ 524288
    → (cs : List Bytes) × IsCut bytes cs
      × (fragment_message id bytes ≡ ok (number id (length cs) (length bytes) 0 cs))
unfolding fragment_message
cut id [] h = (
  [] ∷ [],
  record {
    joined = refl;
    nonempty = omega arith;
    few = omega arith;
    short = h;
    piece = λ i c e. ground arith;
    single = λ _. refl;
  },
  refl,
)
cut id (b ∷ bs) h =
    let n = length-chunks (length (b ∷ bs)) (b ∷ bs) (omega arith) in
    (
      chunks (length (b ∷ bs)) (b ∷ bs),
      record {
        joined = concat-chunks (length (b ∷ bs)) (b ∷ bs) (omega arith);
        nonempty = omega (arith, n);
        few = omega (arith, n);
        short = h;
        piece = λ i c e. let p = piece-chunks (length (b ∷ bs)) (b ∷ bs) i c e in (p.1, λ _. p.0);
        single = λ z. absurd (omega arith);
      },
      ground (arith, n),
    )
