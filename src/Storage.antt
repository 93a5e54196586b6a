-- ===== src/Storage.antt =====
-- Atomic writes and the content store `FileCas`: crates/peerless-storage/src/lib.rs. A file system maps
-- paths to contents. What its calls answer where the map does not decide it is the argument `Calls`; a
-- write gives every state that the files pass through, so that a crash can be placed anywhere.
pub mod Atomic
pub mod Content
pub mod Names
mod Tests
use peerless_sysytem_fw.Prelude.{
  ℕ, zero, suc, Bool, true, false, not, Option, none, some, List, [], ◌∷◌, ◌++◌, Bytes, Result, ok,
  err, if◌then◌else◌, take, drop, map, length, ltb,
}
use peerless_sysytem_fw.Prelude.Dict.{Dict, pair_eq, lookup, insert, erase}
use peerless_sysytem_fw.Core.{ContentId, content_id_of, content_id_verify}

-- A directory and a name in it.
abbrev pub FilePath : Type 0
FilePath = Bytes × Bytes

abbrev pub Files : Type 0
Files = Dict FilePath Bytes

pub data CasError : Type 0 where
  not_found corrupt : ContentId → CasError
  io : CasError

-- What the calls of the operating system answer.
pub record Calls : Type 0 where
  -- Opening the temporary file, if no file has its name.
  pub opens : Bool
  -- The numbers of bytes that the file holds in between, while it is written.
  pub progress : List ℕ
  -- `write_all` or `sync_all` fails with so many bytes in the file.
  pub fails_at : Option ℕ
  -- `rename` or `hard_link`, if the latter finds no file at the path.
  pub links : Bool
  pub removes : Bool
  -- `verify_existing` can read the file that is there.
  pub reads : Bool
  pub syncs : Bool

-- The state after the last call.
abbrev pub final : Files → List Files → Files
final files [] = files
final files (next ∷ states) = final next states

-- The loop over the sequence number, with fuel (`Names`).
unfoldable pub unique_temporary : ℕ → (ℕ → FilePath) → ℕ → Files → Option FilePath
unique_temporary zero candidate sequence files = none
unique_temporary (suc fuel) candidate sequence files = elim (lookup (candidate sequence) files) [
  | none ↦ some (candidate sequence)
  | some taken ↦ unique_temporary fuel candidate (suc sequence) files
]

-- `let _ = fs::remove_file(&temporary)`.
abbrev pub clean_up : Calls → FilePath → Files → Files
clean_up calls temporary files = if calls.removes then erase temporary files else files

-- The temporary file while it is written.
abbrev pub writing : FilePath → Bytes → Files → List ℕ → List Files
writing temporary bytes files [] = []
writing temporary bytes files (n ∷ progress) =
    insert temporary (take n bytes) files ∷ writing temporary bytes files progress

-- The result of writing the temporary file: `rest` is what is done when it is complete.
abbrev pub with_temporary :
    {A : Type 0}
    → Calls
    → Option FilePath
    → Bytes
    → Files
    → (FilePath → Files → Result CasError A × List Files)
    → Result CasError A × List Files
with_temporary calls none bytes files rest = (err CasError.io, [])
with_temporary calls (some temporary) bytes files rest =
    if not calls.opens then (err CasError.io, []) else elim calls.fails_at [
      | some n ↦ (
        err CasError.io,
        writing temporary bytes files calls.progress
            ++ insert temporary (take n bytes) files
              ∷ clean_up calls temporary (insert temporary (take n bytes) files)
              ∷ [],
      )
      | none ↦
          let written = insert temporary bytes files in
          let (result, states) = rest temporary written in
          (result, writing temporary bytes files calls.progress ++ written ∷ states)
    ]

abbrev pub done_if : Bool → Result CasError (Unit {0})
done_if true = ok tt
done_if false = err CasError.io

-- `atomic_replace` after the write.
unfoldable pub move_over :
    Calls → FilePath → Bytes → FilePath → Files → Result CasError (Unit {0}) × List Files
move_over calls path bytes temporary written =
    if calls.links
    then (done_if calls.syncs, insert path bytes (erase temporary written) ∷ [])
    else (err CasError.io, clean_up calls temporary written ∷ [])

unfoldable pub atomic_replace :
    Calls
    → ℕ
    → (ℕ → FilePath)
    → ℕ
    → Files
    → FilePath
    → Bytes
    → Result CasError (Unit {0}) × List Files
atomic_replace calls fuel candidate sequence files path bytes =
    with_temporary calls (unique_temporary fuel candidate sequence files) bytes files
      (move_over calls path bytes)

-- `hard_link`: whether it made the path.
abbrev pub can_link : Calls → Option Bytes → Bool
can_link calls none = calls.links
can_link calls (some taken) = false

-- `atomic_create` after the write.
unfoldable pub link_new :
    Calls → FilePath → Bytes → FilePath → Files → Result CasError (Unit {0}) × List Files
link_new calls path bytes temporary written =
    if can_link calls (lookup path written)
    then (
      (if calls.removes then done_if calls.syncs else err CasError.io),
      insert path bytes written ∷ clean_up calls temporary (insert path bytes written) ∷ [],
    )
    else (err CasError.io, clean_up calls temporary written ∷ [])

unfoldable pub atomic_create :
    Calls
    → ℕ
    → (ℕ → FilePath)
    → ℕ
    → Files
    → FilePath
    → Bytes
    → Result CasError (Unit {0}) × List Files
atomic_create calls fuel candidate sequence files path bytes =
    with_temporary calls (unique_temporary fuel candidate sequence files) bytes files
      (link_new calls path bytes)

-- `read_limited`, of a file that can be read.
unfoldable pub read_limited : Files → FilePath → ℕ → Result CasError Bytes
read_limited files path limit = elim (lookup path files) [
  | none ↦ err CasError.io
  | some bytes ↦
      let read = take (suc limit) bytes in
      if ltb limit (length read) then err CasError.io else ok read
]

module _ (sha256 : Bytes → Bytes) (hex_encode : Bytes → Bytes) where
  -- `path_for`, below the root.
  unfoldable pub path_for : ContentId → FilePath
  path_for id = (take 2 (hex_encode id), drop 2 (hex_encode id))

  -- `verify_existing` of a file that is there, and `id` if it succeeds.
  unfoldable pub verify_existing : Bool → ContentId → Bytes → Result CasError ContentId
  verify_existing reads id bytes =
      if not reads
      then err CasError.io
      else if content_id_verify sha256 id bytes
      then ok id
      else err (CasError.corrupt id)

  -- `put` after the write. `raced` is the file that another writer has made of the path since the
  -- test for its existence.
  unfoldable pub link_content :
      Calls
      → Option Bytes
      → ContentId
      → Bytes
      → FilePath
      → Files
      → Result CasError ContentId × List Files
  link_content calls none id bytes temporary written =
      let linked = insert (path_for id) bytes written in
      if calls.links
      then (
        (if calls.removes then ok id else err CasError.io),
        linked ∷ clean_up calls temporary linked ∷ [],
      )
      else (err CasError.io, clean_up calls temporary written ∷ [])
  link_content calls (some other) id bytes temporary written =
      let taken = insert (path_for id) other written in
      (verify_existing calls.reads id other, taken ∷ clean_up calls temporary taken ∷ [])

  -- `FileCas::put`.
  unfoldable pub put :
      Calls
      → Option Bytes
      → ℕ
      → (ℕ → FilePath)
      → ℕ
      → Files
      → Bytes
      → Result CasError ContentId × List Files
  put calls raced fuel candidate sequence files bytes =
      let id = content_id_of sha256 bytes in
      elim (lookup (path_for id) files) [
        | some existing ↦ (verify_existing calls.reads id existing, [])
        | none ↦
            with_temporary calls (unique_temporary fuel candidate sequence files) bytes files
              (link_content calls raced id bytes)
      ]

  -- `FileCas::get`; `reads` is whether a file that is there can be read.
  unfoldable pub get : Bool → Files → ContentId → Result CasError Bytes
  get reads files id = elim (lookup (path_for id) files) [
    | none ↦ err (CasError.not_found id)
    | some bytes ↦
        if not reads
        then err CasError.io
        else if content_id_verify sha256 id bytes
        then ok bytes
        else err (CasError.corrupt id)
  ]

  abbrev pub is_some : Option Bytes → Bool
  is_some none = false
  is_some (some bytes) = true

  -- `FileCas::contains`.
  unfoldable pub contains : Files → ContentId → Bool
  contains files id = is_some (lookup (path_for id) files)
