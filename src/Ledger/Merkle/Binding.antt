-- ===== src/Ledger/Merkle/Binding.antt =====
-- `MerkleProof::verify` of crates/peerless-ledger/src/lib.rs: two proofs of one length for one position
-- and root. `verify` itself does not check the number of siblings.
use peerless_sysytem_fw.Prelude.{
  ℕ, ◌/◌, ◌%◌, ◌≡◌, ◌≢◌, sym, ap, ◌∙◌, Bool, true, false, ◌⊎◌, inl, inr, List, [], ◌∷◌, ◌++◌, Bytes,
  ◌==◌, All, if◌then◌else◌, length, take, drop, arith, Bool-cases, take_at, drop_at,
}
use peerless_sysytem_fw.Prelude.Equality.{bytes_beq, bytes_beq_iff, bytes_eq, ≟→≢}
use peerless_sysytem_fw.Ledger.Merkle.{Hash, pair_hash, climb, verify_proof, MerkleProof}

-- Two inputs with one digest.
pub record Collision (sha256 : Bytes → Hash) : Type 0 where
  pub one : Bytes
  pub other : Bytes
  pub differ : one ≢ other
  pub same_digest : sha256 one ≡ sha256 other

abbrev pub Is32 : Bytes → Type 0
Is32 h = length h ≡ 32

module _ (sha256 : Bytes → Hash) (digest : (b : Bytes) → Is32 (sha256 b)) where
  input_eq : (x y : Bytes) → sha256 x ≡ sha256 y → (x ≡ y) ⊎ Collision sha256
  input_eq x y h = elim (Bool-cases (bytes_beq x y)) [
    | inl same ↦ inl ((bytes_beq_iff x y).0 same)
    | inr differ ↦ inr (record { one = x; other = y; differ = ≟→≢ x y differ; same_digest = h })
  ]

  left_eq : (x y s t : Bytes) → Is32 x → Is32 y → x ++ s ≡ y ++ t → x ≡ y
  left_eq x y s t hx hy e = sym (take_at 32 x s hx) ∙ ap (take 32) e ∙ take_at 32 y t hy

  right_eq : (x y s t : Bytes) → Is32 x → Is32 y → x ++ s ≡ y ++ t → s ≡ t
  right_eq x y s t hx hy e = sym (drop_at 32 x s hx) ∙ ap (drop 32) e ∙ drop_at 32 y t hy

  -- One round of the loop of `verify`, at an even or odd position.
  abbrev step : Bool → Hash → Hash → Hash
  step even x s = if even then pair_hash sha256 x s else pair_hash sha256 s x

  step-Is32 : (even : Bool) (x s : Hash) → Is32 (step even x s)
  unfolding pair_hash
  step-Is32 true x s = digest (x ++ s)
  step-Is32 false x s = digest (s ++ x)

  step_binds :
      (even : Bool) (x y s t : Hash)
      → Is32 x
      → Is32 y
      → Is32 s
      → Is32 t
      → step even x s ≡ step even y t
      → (x ≡ y) ⊎ Collision sha256
  unfolding pair_hash
  step_binds true x y s t hx hy hs ht e = elim (input_eq (x ++ s) (y ++ t) e) [
    | inl same ↦ inl (left_eq x y s t hx hy same)
    | inr c ↦ inr c
  ]
  step_binds false x y s t hx hy hs ht e = elim (input_eq (s ++ x) (t ++ y) e) [
    | inl same ↦ inl (right_eq s t x y hs ht same)
    | inr c ↦ inr c
  ]

  climb_binds :
      (x y : Hash) (index : ℕ) (ss ts : List Hash)
      → Is32 x
      → Is32 y
      → All Is32 ss
      → All Is32 ts
      → length ss ≡ length ts
      → climb sha256 x index ss ≡ climb sha256 y index ts
      → (x ≡ y) ⊎ Collision sha256
  unfolding climb
  climb_binds x y index [] [] hx hy _ _ l e = inl e
  climb_binds x y index [] (t ∷ ts) hx hy _ _ l e = absurd (omega arith)
  climb_binds x y index (s ∷ ss) [] hx hy _ _ l e = absurd (omega arith)
  climb_binds x y index (s ∷ ss) (t ∷ ts) hx hy (hs, hss) (ht, hts) l e =
      let even : Bool = index % 2 == 0 in
      let up =
        climb_binds (step even x s) (step even y t) (index / 2) ss ts (step-Is32 even x s)
          (step-Is32 even y t) hss hts (omega arith) e in
      elim up [ inl same ↦ step_binds even x y s t hx hy hs ht same | inr c ↦ inr c ]

  -- Where digests have 32 bytes: two proofs for one position with equally many siblings, over leaves
  -- and siblings of 32 bytes, that verify against one root are for the same leaf, or SHA-256 has a
  -- collision.
  pub verify_proof_binds :
      (p q : MerkleProof) (x y root : Hash)
      → p.index ≡ q.index
      → length p.siblings ≡ length q.siblings
      → All Is32 (x ∷ p.siblings)
      → All Is32 (y ∷ q.siblings)
      → verify_proof sha256 p x root ≡ true
      → verify_proof sha256 q y root ≡ true
      → (x ≡ y) ⊎ Collision sha256
  unfolding verify_proof
  verify_proof_binds p q x y root i l (hx, hp) (hy, hq) vp vq =
      climb_binds x y p.index p.siblings q.siblings hx hy hp hq l (
        (bytes_beq_iff _ root).0 vp
        ∙ sym ((bytes_beq_iff _ root).0 vq)
        ∙ ap (λ k. climb sha256 y k q.siblings) (sym i))
