-- ===== src/Ledger/Merkle/Levels.antt =====
-- One level of the tree: where a hash and its sibling go.
use peerless_sysytem_fw.Prelude.{
  ℕ, zero, suc, ◌+◌, ◌/◌, ◌%◌, ◌≡◌, refl, ap, ◌∙◌, some, List, [], ◌∷◌, Bytes, ◌==◌, if◌then◌else◌,
  length, get_elem?, arith,
}
use peerless_sysytem_fw.Ledger.Merkle.{Hash, pad_odd, sibling_index, pair_hash, pairs, next_level}

pad_odd-two : (x y : Hash) (r : List Hash) → pad_odd (x ∷ y ∷ r) ≡ x ∷ y ∷ pad_odd r
unfolding pad_odd
pad_odd-two x y [] = refl
pad_odd-two x y (z ∷ r) =
    let same : (suc (suc (length (z ∷ r))) % 2) ≡ length (z ∷ r) % 2 = omega arith in
    rw same (ground arith)

pad_odd-one : (x : Hash) → get_elem? (pad_odd (x ∷ [])) 1 ≡ some x
unfolding pad_odd
pad_odd-one x = refl

sibling_index-two : (c : ℕ) → sibling_index (suc (suc c)) ≡ suc (suc (sibling_index c))
unfolding sibling_index
sibling_index-two c = ground arith

half_two : (c : ℕ) → suc (suc c) / 2 ≡ suc (c / 2)
half_two c = omega arith

parity_two : (c : ℕ) → suc (suc c) % 2 ≡ c % 2
parity_two c = omega arith

module _ (sha256 : Bytes → Hash) where
  pub next_level-one : (x : Hash) → next_level sha256 (x ∷ []) ≡ pair_hash sha256 x x ∷ []
  unfolding next_level pairs pad_odd
  next_level-one x = refl

  pub next_level-two :
      (x y : Hash) (r : List Hash)
      → next_level sha256 (x ∷ y ∷ r) ≡ pair_hash sha256 x y ∷ next_level sha256 r
  unfolding next_level pairs
  next_level-two x y r = rw (pad_odd-two x y r) refl

  -- A level of n hashes leads to one of ⌈n / 2⌉.
  pub length-next_level :
      (level : List Hash) → length (next_level sha256 level) ≡ (length level + 1) / 2
  unfolding next_level pairs pad_odd
  length-next_level [] = refl
  length-next_level (x ∷ []) = refl
  length-next_level (x ∷ y ∷ r) =
      ap length (next_level-two x y r) ∙ omega (arith, length-next_level r)

  -- The hash above position c is that of c and its sibling, in the order of their positions.
  pub record Parent (level : List Hash) (c : ℕ) (x : Hash) : Type 0 where
    pub sibling : Hash
    pub found : get_elem? (pad_odd level) (sibling_index c) ≡ some sibling
    pub above :
        get_elem? (next_level sha256 level) (c / 2)
        ≡ some (if c % 2 == 0 then pair_hash sha256 x sibling else pair_hash sha256 sibling x)

  pub parent :
      (level : List Hash) (c : ℕ) (x : Hash) → get_elem? level c ≡ some x → Parent level c x
  unfolding sibling_index
  parent [] c x h = absurd (ground arith)
  parent (a ∷ []) zero x h = record {
    sibling = a;
    found = pad_odd-one a;
    above = rw (next_level-one a) (ground arith);
  }
  parent (a ∷ []) (suc c) x h = absurd (ground arith)
  parent (a ∷ b ∷ r) zero x h = record {
    sibling = b;
    found = rw (pad_odd-two a b r) refl;
    above = rw (next_level-two a b r) (ground arith);
  }
  parent (a ∷ b ∷ r) (suc zero) x h = record {
    sibling = a;
    found = rw (pad_odd-two a b r) refl;
    above = rw (next_level-two a b r) (ground arith);
  }
  parent (a ∷ b ∷ r) (suc (suc c)) x h =
      let up = parent r c x h in
      record {
        sibling = up.sibling;
        found = rw (pad_odd-two a b r, sibling_index-two c) up.found;
        above = rw (next_level-two a b r, half_two c, parity_two c) up.above;
      }
