-- ===== src/Ledger/Merkle/Proofs.antt =====
-- Inclusion proofs are found and verify; the loops' fuel is enough; what a root does not bind.
use peerless_sysytem_fw.Prelude.{
  ℕ, zero, suc, ◌/◌, ◌%◌, ◌≤◌, ◌<◌, ◌≡◌, refl, sym, ap, ◌∙◌, true, false, none, some, List, [], ◌∷◌,
  ◌++◌, Bytes, ltb, leb, ◌==◌, length, get_elem?, arith, Bool-cases, inl, inr, length-append,
  lt→ltb,
}
use peerless_sysytem_fw.Prelude.Equality.{bytes_beq_iff}
use peerless_sysytem_fw.Ledger.Merkle.{
  Hash, last_of, pad_odd, next_level, first_of, root_loop, merkle_root, sibling_loop, merkle_proof,
  climb, verify_proof, MerkleProof,
}
use peerless_sysytem_fw.Ledger.Merkle.Levels.{length-next_level, Parent, parent}

get_elem?_in_range :
    (level : List Hash) (c : ℕ) (x : Hash) → get_elem? level c ≡ some x → c < length level
get_elem?_in_range [] c x h = absurd (ground arith)
get_elem?_in_range (a ∷ r) zero x h = omega arith
get_elem?_in_range (a ∷ r) (suc c) x h = omega (arith, get_elem?_in_range r c x h)

single :
    (level : List Hash) (c : ℕ) (x : Hash)
    → get_elem? level c ≡ some x
    → length level ≤ 1
    → x ≡ first_of level
single [] c x h l = absurd (ground arith)
single (a ∷ []) zero x h l = ground arith
single (a ∷ []) (suc c) x h l = absurd (ground arith)
single (a ∷ b ∷ r) c x h l = absurd (omega arith)

length-last_of : (level : List Hash) → 0 < length level → length (last_of level) ≡ 1
length-last_of [] h = absurd (omega arith)
length-last_of (a ∷ []) h = refl
length-last_of (a ∷ b ∷ r) h = length-last_of (b ∷ r) (omega arith)

module _ (sha256 : Bytes → Hash) where
  -- Any two amounts of fuel of at least the level's length give the same root.
  pub root_loop_fuel :
      (f g : ℕ) (level : List Hash)
      → length level ≤ f
      → length level ≤ g
      → root_loop sha256 f level ≡ root_loop sha256 g level
  unfolding root_loop
  root_loop_fuel zero zero level hf hg = refl
  root_loop_fuel zero (suc g) level hf hg = ground arith
  root_loop_fuel (suc f) zero level hf hg = ground arith
  root_loop_fuel (suc f) (suc g) level hf hg = elim (Bool-cases (ltb 1 (length level))) [
    | inl more ↦ rw more (
        root_loop_fuel f g (next_level sha256 level)
          (ground (arith, length-next_level sha256 level))
          (ground (arith, length-next_level sha256 level)))
    | inr done ↦ rw done refl
  ]

  record Climbs (f : ℕ) (level : List Hash) (c : ℕ) (x : Hash) : Type 0 where
    siblings : List Hash
    collected : sibling_loop sha256 f level c ≡ some siblings
    arrives : climb sha256 x c siblings ≡ root_loop sha256 f level

  climbs :
      (f : ℕ) (level : List Hash) (c : ℕ) (x : Hash)
      → get_elem? level c ≡ some x
      → length level ≤ f
      → Climbs f level c x
  unfolding sibling_loop climb root_loop
  climbs zero level c x h l = absurd (omega (arith, get_elem?_in_range level c x h))
  climbs (suc f) level c x h l = elim (Bool-cases (ltb 1 (length level))) [
    | inl more ↦
        let p : Parent sha256 level c x = parent sha256 level c x h in
        let up =
          climbs f (next_level sha256 level) (c / 2) _ p.above
            (ground (arith, length-next_level sha256 level)) in
        record {
          siblings = p.sibling ∷ up.siblings;
          collected = rw (more, p.found, up.collected) refl;
          arrives = rw more up.arrives;
        }
    | inr done ↦ record {
      siblings = [];
      collected = rw done refl;
      arrives = rw done (single level c x h (ground arith));
    }
  ]

  -- Every leaf has an inclusion proof, and the proof verifies against the root of the leaves.
  pub merkle_proof_complete :
      (leaves : List Hash) (index : ℕ) (leaf : Hash)
      → get_elem? leaves index ≡ some leaf
      → (p : MerkleProof) × (merkle_proof sha256 leaves index ≡ some p)
        × (verify_proof sha256 p leaf (merkle_root sha256 leaves) ≡ true)
  unfolding merkle_proof verify_proof merkle_root
  merkle_proof_complete [] index leaf h = absurd (ground arith)
  merkle_proof_complete (l ∷ ls) index leaf h =
      let c = climbs (length (l ∷ ls)) (l ∷ ls) index leaf h (omega arith) in
      let inside : leb (length (l ∷ ls)) index ≡ false =
        ground (arith, get_elem?_in_range (l ∷ ls) index leaf h) in
      (
        record { index = index; siblings = c.siblings },
        rw (inside, c.collected) refl,
        (bytes_beq_iff _ _).1 c.arrives,
      )

  -- An index past the leaves has no proof.
  pub merkle_proof_out_of_range :
      (leaves : List Hash) (index : ℕ)
      → length leaves ≤ index
      → merkle_proof sha256 leaves index ≡ none
  unfolding merkle_proof
  merkle_proof_out_of_range leaves index h = ground arith

  padded_once :
      (level : List Hash)
      → length level % 2 ≡ 1
      → next_level sha256 (level ++ last_of level) ≡ next_level sha256 level
  unfolding next_level pad_odd
  padded_once level odd =
      let now_even : (length (level ++ last_of level) % 2 == 1) ≡ false =
        ground (arith, length-append level (last_of level), length-last_of level) in
      let was_odd : (length level % 2 == 1) ≡ true = ground arith in rw (now_even, was_odd) refl

  root_loop_step :
      (f : ℕ) (level : List Hash)
      → 1 < length level
      → root_loop sha256 (suc f) level ≡ root_loop sha256 f (next_level sha256 level)
  unfolding root_loop
  root_loop_step f level h = rw (lt→ltb 1 (length level) h) refl

  -- The root does not bind the number of leaves: with an odd number of at least three, one more copy
  -- of the last leaf gives the same root.
  pub merkle_root_duplicate :
      (a b : Hash) (leaves : List Hash)
      → length leaves % 2 ≡ 1
      → merkle_root sha256 ((a ∷ b ∷ leaves) ++ last_of (a ∷ b ∷ leaves))
        ≡ merkle_root sha256 (a ∷ b ∷ leaves)
  unfolding merkle_root
  merkle_root_duplicate a b leaves odd =
      root_loop_step (suc (length (leaves ++ last_of (b ∷ leaves)))) _ (omega arith)
      ∙ ap (root_loop sha256 (suc (length (leaves ++ last_of (b ∷ leaves)))))
          (padded_once (a ∷ b ∷ leaves) (omega arith))
      ∙ root_loop_fuel (suc (length (leaves ++ last_of (b ∷ leaves)))) (suc (length leaves))
          (next_level sha256 (a ∷ b ∷ leaves))
          (omega (
            arith,
            length-next_level sha256 (a ∷ b ∷ leaves),
            length-append leaves (last_of (b ∷ leaves)),
          ))
          (omega (arith, length-next_level sha256 (a ∷ b ∷ leaves)))
      ∙ sym (root_loop_step (suc (length leaves)) (a ∷ b ∷ leaves) (omega arith))
