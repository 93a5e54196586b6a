-- ===== src/Ledger/Merkle.antt =====
-- `merkle_root`, `merkle_proof`, `MerkleProof::verify` and `pair_hash` of
-- crates/peerless-ledger/src/lib.rs. SHA-256 is a parameter. The loops halve a level of at least two
-- hashes, so the number of leaves is enough fuel (`Merkle/Proofs`).
pub mod Levels
pub mod Proofs
pub mod Binding
use peerless_sysytem_fw.Prelude.{
  ℕ, zero, suc, ◌+◌, ◌-◌, ◌/◌, ◌%◌, Bool, Option, none, some, List, [], ◌∷◌, ◌++◌, Bytes, ltb, leb,
  ◌==◌, if◌then◌else◌, length, get_elem?,
}
use peerless_sysytem_fw.Prelude.Equality.{bytes_beq}

abbrev pub Hash : Type 0
Hash = Bytes

-- `level.push(*level.last())`.
abbrev pub last_of : List Hash → List Hash
last_of [] = []
last_of (x ∷ []) = x ∷ []
last_of (x ∷ y ∷ r) = last_of (y ∷ r)

unfoldable pub pad_odd : List Hash → List Hash
pad_odd level = if length level % 2 == 1 then level ++ last_of level else level

-- `cursor ^ 1`.
unfoldable pub sibling_index : ℕ → ℕ
sibling_index cursor = if cursor % 2 == 0 then cursor + 1 else cursor - 1

-- `level[0]`; the code never reaches it with an empty level.
abbrev pub first_of : List Hash → Hash
first_of [] = []
first_of (x ∷ _) = x

pub record MerkleProof : Type 0 where
  pub index : ℕ
  pub siblings : List Hash

module _ (sha256 : Bytes → Hash) where
  unfoldable pub pair_hash : Hash → Hash → Hash
  pair_hash left right = sha256 (left ++ right)

  -- `as_chunks::<2>().0` drops a last single hash, which padding rules out.
  unfoldable pub pairs : List Hash → List Hash
  pairs [] = []
  pairs (x ∷ []) = []
  pairs (x ∷ y ∷ r) = pair_hash x y ∷ pairs r

  unfoldable pub next_level : List Hash → List Hash
  next_level level = pairs (pad_odd level)

  unfoldable pub root_loop : ℕ → List Hash → Hash
  root_loop zero level = first_of level
  root_loop (suc fuel) level =
      let up = root_loop fuel (next_level level) in
      if ltb 1 (length level) then up else first_of level

  unfoldable pub merkle_root : List Hash → Hash
  merkle_root [] = sha256 []
  merkle_root (leaf ∷ leaves) = root_loop (length (leaf ∷ leaves)) (leaf ∷ leaves)

  -- The siblings from the cursor's level up; `none` where an index is out of range.
  unfoldable pub sibling_loop : ℕ → List Hash → ℕ → Option (List Hash)
  sibling_loop zero level cursor = some []
  sibling_loop (suc fuel) level cursor =
      let up : Option (List Hash) = elim (get_elem? (pad_odd level) (sibling_index cursor)) [
        | none ↦ none
        | some s ↦ elim (sibling_loop fuel (next_level level) (cursor / 2)) [
          | none ↦ none
          | some rest ↦ some (s ∷ rest)
        ]
      ] in
      if ltb 1 (length level) then up else some []

  unfoldable pub merkle_proof : List Hash → ℕ → Option MerkleProof
  merkle_proof leaves index =
      if leb (length leaves) index then none else elim (sibling_loop (length leaves) leaves index) [
        | none ↦ none
        | some siblings ↦ some (record { index = index; siblings = siblings })
      ]

  -- The loop of `MerkleProof::verify`.
  unfoldable pub climb : Hash → ℕ → List Hash → Hash
  climb current index [] = current
  climb current index (sibling ∷ siblings) =
      climb (if index % 2 == 0 then pair_hash current sibling else pair_hash sibling current)
        (index / 2) siblings

  -- `MerkleProof::verify`.
  unfoldable pub verify_proof : MerkleProof → Hash → Hash → Bool
  verify_proof p leaf root = bytes_beq (climb leaf p.index p.siblings) root
