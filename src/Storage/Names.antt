-- ===== src/Storage/Names.antt =====
-- The search for a temporary name ends: with more numbers than files, one of the names is free.
use peerless_sysytem_fw.Prelude.{
  ℕ, zero, suc, ◌+◌, ◌≤◌, ◌<◌, ◌≡◌, ◌≢◌, ◌∙◌, subst, none, some, [], ◌∷◌, Bytes, arith, length, inl,
  inr, Bool-cases, Option-cases,
}
use peerless_sysytem_fw.Prelude.Equality.{◌≟◌}
use peerless_sysytem_fw.Prelude.Dict.{pair_eq, lookup, erase, lookup-erase_ne, length-erase-le}
use peerless_sysytem_fw.Storage.{FilePath, Files, unique_temporary}

erase_shorter :
    (k : FilePath) (v : Bytes) (files : Files)
    → lookup k files ≡ some v
    → length (erase k files) < length files
erase_shorter k v [] h = absurd (ground arith)
erase_shorter k v ((j, w) ∷ files) h = elim (Bool-cases (k ≟ j)) [
  | inl same ↦ ground (arith, length-erase-le k files)
  | inr other ↦ ground (arith, erase_shorter k v files)
]

module _ (candidate : ℕ → FilePath) (distinct : (i j : ℕ) → candidate i ≡ candidate j → i ≡ j) where
  abbrev Taken : ℕ → ℕ → Files → Type 0
  Taken n from files =
      (i : ℕ) → i < n → (b : Bytes) × (lookup (candidate (from + i)) files ≡ some b)

  Taken-le : (n from : ℕ) (files : Files) → Taken n from files → n ≤ length files
  Taken-le zero from files t = omega arith
  Taken-le (suc n) from files t =
      let (b, first) = t 0 (omega arith) in
      let later : Taken n (suc from) (erase (candidate (from + 0)) files) = λ i h.
        let (b', next) = t (suc i) (omega arith) in
        let other : candidate (suc from + i) ≢ candidate (from + 0) =
          λ p. absurd (omega (arith, distinct (suc from + i) (from + 0) p)) in
        (
          b',
          lookup-erase_ne (candidate (suc from + i)) (candidate (from + 0)) files other
              ∙ subst (λ k. lookup (candidate k) files ≡ some b') (omega arith) next,
        ) in
      omega (
        arith,
        Taken-le n (suc from) (erase (candidate (from + 0)) files) later,
        erase_shorter (candidate (from + 0)) b files first,
      )

  stuck-at :
      (fuel sequence : ℕ) (files : Files) (b : Bytes)
      → lookup (candidate sequence) files ≡ some b
      → Taken fuel (suc sequence) files
      → Taken (suc fuel) sequence files
  stuck-at fuel sequence files b taken later zero l =
      (b, subst (λ k. lookup (candidate k) files ≡ some b) (omega arith) taken)
  stuck-at fuel sequence files b taken later (suc i) l =
      let (b', next) = later i (omega (arith, l)) in
      (b', subst (λ k. lookup (candidate k) files ≡ some b') (omega arith) next)

  stuck-Taken :
      (fuel sequence : ℕ) (files : Files)
      → unique_temporary fuel candidate sequence files ≡ none
      → Taken fuel sequence files
  unfolding unique_temporary
  stuck-Taken zero sequence files h i l = absurd (omega (arith, l))
  stuck-Taken (suc fuel) sequence files h i l =
      elim (Option-cases (lookup (candidate sequence) files)) [
        | inl free ↦ absurd (ground arith)
        | inr (b, taken) ↦
            stuck-at fuel sequence files b taken
              (stuck-Taken fuel (suc sequence) files (ground arith)) i l
      ]

  -- If different sequence numbers give different names, the search finds a name with one number more
  -- than there are files.
  pub unique_temporary_total :
      (sequence : ℕ) (files : Files)
      → (t : FilePath) × (unique_temporary (suc (length files)) candidate sequence files ≡ some t)
  unique_temporary_total sequence files =
      elim (Option-cases (unique_temporary (suc (length files)) candidate sequence files)) [
        | inr found ↦ found
        | inl stuck ↦ absurd (
            omega (
              arith,
              Taken-le (suc (length files)) sequence files
                  (stuck-Taken (suc (length files)) sequence files stuck),
            ))
      ]
