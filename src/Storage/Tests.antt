-- ===== src/Storage/Tests.antt =====
-- Runs of the content store (crates/peerless-storage/src/lib.rs) with a hash that is the identity.
use peerless_sysytem_fw.Prelude.{
  ℕ, ◌≡◌, ◌≢◌, refl, true, false, none, some, [], ◌∷◌, Bytes, ok, arith, All,
}
use peerless_sysytem_fw.Prelude.Dict.{pair_eq, lookup}
use peerless_sysytem_fw.Core.{content_id_of}
use peerless_sysytem_fw.Storage.{
  FilePath, Files, Calls, final, unique_temporary, path_for, put, get, atomic_replace,
  atomic_create, link_content,
}
use peerless_sysytem_fw.Storage.Atomic.{Whole, atomic_writes-Whole}
use peerless_sysytem_fw.Storage.Content.{put-keeps, get-put}
use peerless_sysytem_fw.Storage.Names.{unique_temporary_total}

abbrev same : Bytes → Bytes
same b = b

abbrev content : Bytes
content = 7 ∷ 8 ∷ 9 ∷ []

-- A temporary name is a dot and the sequence number.
abbrev dotted : ℕ → FilePath
dotted n = (7 ∷ 8 ∷ [], 46 ∷ n ∷ [])

dotted-distinct : (i j : ℕ) → dotted i ≡ dotted j → i ≡ j
dotted-distinct i j p = ground arith

dotted-ne : (path : FilePath) → path.1 ≡ 9 ∷ [] → (k : ℕ) → dotted k ≢ path
dotted-ne path h k p = absurd (ground arith)

-- One temporary file was left by an earlier process.
abbrev stale : Files
stale = (dotted 0, 1 ∷ []) ∷ ((7 ∷ 8 ∷ [], 9 ∷ []), content) ∷ []

abbrev quiet : Calls
quiet = record {
  opens = true;
  progress = 0 ∷ 2 ∷ [];
  fails_at = none;
  links = true;
  removes = true;
  reads = true;
  syncs = true;
}

-- The disk fills up after two bytes, and the temporary file cannot be removed.
abbrev full_disk : Calls
full_disk = record {
  opens = true;
  progress = 1 ∷ [];
  fails_at = some 2;
  links = true;
  removes = false;
  reads = true;
  syncs = true;
}

unique_temporary_total_example : (t : FilePath) × (unique_temporary 3 dotted 0 stale ≡ some t)
unique_temporary_total_example = unique_temporary_total dotted dotted-distinct 0 stale

abbrev path : FilePath
path = (7 ∷ 8 ∷ [], 9 ∷ [])

atomic_writes-Whole_example :
    All
      (Whole path (some content) (5 ∷ 6 ∷ []))
      (atomic_replace full_disk 3 dotted 0 stale path (5 ∷ 6 ∷ [])).1
    × All
        (Whole path (some content) (5 ∷ 6 ∷ []))
        (atomic_create full_disk 3 dotted 0 stale path (5 ∷ 6 ∷ [])).1
atomic_writes-Whole_example =
    atomic_writes-Whole full_disk 3 dotted 0 stale path (dotted-ne path refl) (5 ∷ 6 ∷ [])

abbrev other_content : Bytes
other_content = 7 ∷ 8 ∷ 4 ∷ []

put-keeps_example :
    All
      (λ s. lookup (7 ∷ 8 ∷ [], 9 ∷ []) s ≡ some content)
      (put same same quiet none 3 dotted 0 stale other_content).1
put-keeps_example =
    put-keeps same same quiet none 3 dotted 0 stale other_content (7 ∷ 8 ∷ [], 9 ∷ []) content
      (dotted-ne (7 ∷ 8 ∷ [], 9 ∷ []) refl) refl

-- The directory of the content holds the temporary file of an earlier process.
abbrev left_over : Files
left_over = (dotted 0, 1 ∷ []) ∷ []

get-put_example :
    (content ≡ content_id_of same content)
    × (get same same true
          (final left_over (put same same quiet none 3 dotted 0 left_over content).1)
          content
        ≡ ok content)
unfolding put path_for content_id_of unique_temporary link_content
get-put_example =
    get-put same same quiet none 3 dotted 0 left_over content
      (dotted-ne (path_for same same content) refl) (λ other p. p) content refl
