-- ===== src/Storage/Atomic.antt =====
-- At every moment of an atomic write the path holds what it held before or all of the new bytes.
use peerless_sysytem_fw.Prelude.{
  ℕ, zero, suc, ◌≡◌, ◌≢◌, ◌⊎◌, refl, sym, ◌∙◌, subst, Option, none, some, List, [], ◌∷◌, ◌++◌,
  Bytes, Result, ok, arith, take, All, inl, inr, Bool-cases, Option-cases,
}
use peerless_sysytem_fw.Prelude.Dict.{
  pair_eq, lookup, insert, erase, lookup-insert_self, lookup-insert_ne, lookup-erase_ne,
}
use peerless_sysytem_fw.Storage.{
  FilePath, Files, CasError, Calls, final, unique_temporary, clean_up, writing, with_temporary,
  move_over, atomic_replace, can_link, link_new, atomic_create,
}

All-append : (P : Files → Type 0) (xs ys : List Files) → All P xs → All P ys → All P (xs ++ ys)
All-append P [] ys a b = b
All-append P (x ∷ xs) ys (p, a) b = (p, All-append P xs ys a b)

pub final-append : (f s : Files) (xs ys : List Files) → final f (xs ++ s ∷ ys) ≡ final s ys
final-append f s [] ys = refl
final-append f s (x ∷ xs) ys = final-append x s xs ys

-- A temporary name is one of the candidates, and no file had it.
pub unique_temporary-free :
    (fuel : ℕ) (candidate : ℕ → FilePath) (sequence : ℕ) (files : Files) (t : FilePath)
    → unique_temporary fuel candidate sequence files ≡ some t
    → ((k : ℕ) × (t ≡ candidate k)) × (lookup t files ≡ none)
unfolding unique_temporary
unique_temporary-free zero candidate sequence files t h = absurd (ground arith)
unique_temporary-free (suc fuel) candidate sequence files t h =
    elim (Option-cases (lookup (candidate sequence) files)) [
      | inl free ↦
          let same : t ≡ candidate sequence = ground arith in
          ((sequence, same), subst (λ p. lookup p files ≡ none) (sym same) free)
      | inr (b, taken) ↦ unique_temporary-free fuel candidate (suc sequence) files t (ground arith)
    ]

pub lookup-clean_up :
    (calls : Calls) (path t : FilePath) (files : Files)
    → path ≢ t
    → lookup path (clean_up calls t files) ≡ lookup path files
lookup-clean_up calls path t files n = ground (arith, lookup-erase_ne path t files n)

-- What holds of the files with any contents of the temporary file, before and after it is removed,
-- and of the states of the rest, holds all along.
module _ (P : Files → Type 0) (calls : Calls) (bytes : Bytes) (files : Files) where
  writing-All :
      (t : FilePath) (progress : List ℕ)
      → ((b : Bytes) → P (insert t b files))
      → All P (writing t bytes files progress)
  writing-All t [] h = tt
  writing-All t (n ∷ progress) h = (h (take n bytes), writing-All t progress h)

  pub with_temporary-All :
      {A : Type 0} (temporary : Option FilePath)
      (rest : FilePath → Files → Result CasError A × List Files)
      → ((t : FilePath) (b : Bytes)
          → temporary ≡ some t
          → P (insert t b files) × P (clean_up calls t (insert t b files)))
      → ((t : FilePath) → temporary ≡ some t → All P (rest t (insert t bytes files)).1)
      → All P (with_temporary calls temporary bytes files rest).1
  with_temporary-All none rest held later = tt
  with_temporary-All (some t) rest held later = elim (Bool-cases calls.opens) [
    | inr shut ↦ rw shut tt
    | inl open_ ↦ rw open_ (elim (Option-cases calls.fails_at) [
      | inr (n, e) ↦
          let at = held t (take n bytes) refl in
          rw e (
            All-append P (writing t bytes files calls.progress) _
              (writing-All t calls.progress (λ b. (held t b refl).0)) (at.0, (at.1, tt)))
      | inl e ↦ rw e (
          All-append P (writing t bytes files calls.progress) _
            (writing-All t calls.progress (λ b. (held t b refl).0))
            ((held t bytes refl).0, later t refl))
    ])
  ]

-- A success is that of the rest, of which the states are the last.
pub with_temporary-ok :
    {A : Type 0} (calls : Calls) (temporary : Option FilePath) (bytes : Bytes) (files : Files)
    (rest : FilePath → Files → Result CasError A × List Files) (a : A)
    → (with_temporary calls temporary bytes files rest).0 ≡ ok a
    → (t : FilePath) × (temporary ≡ some t)
      × ((rest t (insert t bytes files)).0 ≡ ok a)
      × (final files (with_temporary calls temporary bytes files rest).1
          ≡ final (insert t bytes files) (rest t (insert t bytes files)).1)
with_temporary-ok calls none bytes files rest a h = absurd (ground arith)
with_temporary-ok calls (some t) bytes files rest a h = elim (Bool-cases calls.opens) [
  | inr shut ↦ absurd (ground arith)
  | inl open_ ↦ elim (Option-cases calls.fails_at) [
    | inr (n, e) ↦ absurd (ground arith)
    | inl e ↦ (
      t,
      refl,
      ground arith,
      rw (open_, e)
          (final-append files (insert t bytes files) (writing t bytes files calls.progress)
            (rest t (insert t bytes files)).1),
    )
  ]
]

-- The path holds what it held, or all of the bytes.
abbrev pub Whole : FilePath → Option Bytes → Bytes → Files → Type 0
Whole path before bytes s = (lookup path s ≡ before) ⊎ (lookup path s ≡ some bytes)

module _ (calls : Calls) (fuel : ℕ) (candidate : ℕ → FilePath) (sequence : ℕ) (files : Files)
    (path : FilePath) (apart : (k : ℕ) → candidate k ≢ path) where
  pub path-temporary :
      (t : FilePath) → unique_temporary fuel candidate sequence files ≡ some t → path ≢ t
  path-temporary t h p =
      let ((k, e), free) = unique_temporary-free fuel candidate sequence files t h in
      apart k (sym (p ∙ e))

  -- The temporary file leaves the path alone.
  pub path-held :
      (t : FilePath) (b : Bytes)
      → unique_temporary fuel candidate sequence files ≡ some t
      → (lookup path (insert t b files) ≡ lookup path files)
        × (lookup path (clean_up calls t (insert t b files)) ≡ lookup path files)
  path-held t b h =
      let n = path-temporary t h in
      let inserted = lookup-insert_ne path t b files n in
      (inserted, lookup-clean_up calls path t (insert t b files) n ∙ inserted)

  atomic_replace-Whole :
      (bytes : Bytes)
      → All
          (Whole path (lookup path files) bytes)
          (atomic_replace calls fuel candidate sequence files path bytes).1
  unfolding atomic_replace move_over
  atomic_replace-Whole bytes =
      with_temporary-All (Whole path (lookup path files) bytes) calls bytes files
        (unique_temporary fuel candidate sequence files) (move_over calls path bytes)
        (λ t b h. (inl (path-held t b h).0, inl (path-held t b h).1))
        (λ t h. elim (Bool-cases calls.links) [
          | inl linked ↦
              rw linked (inr (lookup-insert_self path bytes (erase t (insert t bytes files))), tt)
          | inr refused ↦ rw refused (inl (path-held t bytes h).1, tt)
        ])

  atomic_create-Whole :
      (bytes : Bytes)
      → All
          (Whole path (lookup path files) bytes)
          (atomic_create calls fuel candidate sequence files path bytes).1
  unfolding atomic_create link_new
  atomic_create-Whole bytes =
      with_temporary-All (Whole path (lookup path files) bytes) calls bytes files
        (unique_temporary fuel candidate sequence files) (link_new calls path bytes)
        (λ t b h. (inl (path-held t b h).0, inl (path-held t b h).1))
        (λ t h.
          let linked = insert path bytes (insert t bytes files) in
          let there = lookup-insert_self path bytes (insert t bytes files) in
          elim (Bool-cases (can_link calls (lookup path (insert t bytes files)))) [
            | inl links ↦ rw links (
              inr there,
              (inr (lookup-clean_up calls path t linked (path-temporary t h) ∙ there), tt),
            )
            | inr refused ↦ rw refused (inl (path-held t bytes h).1, tt)
          ])

  -- Whatever call fails, and at whatever moment the process stops, a path that is no temporary name
  -- holds all of the new bytes or what it held before `atomic_replace` or `atomic_create`.
  pub atomic_writes-Whole :
      (bytes : Bytes)
      → All
          (Whole path (lookup path files) bytes)
          (atomic_replace calls fuel candidate sequence files path bytes).1
        × All
            (Whole path (lookup path files) bytes)
            (atomic_create calls fuel candidate sequence files path bytes).1
  atomic_writes-Whole bytes = (atomic_replace-Whole bytes, atomic_create-Whole bytes)
