-- ===== src/Node/Uploads.antt =====
-- Chunked uploads of crates/peerless-node/src/lib.rs: the arms of `handle` for `ContentStart`,
-- `ContentChunk` and `ContentComplete`, on the map of upload sessions. Sizes stay below 2 ^ 64, so the
-- `checked_add` of the budget does not fail where the test against the budget succeeds.
pub mod Bounds
pub mod Transfer
mod Tests
use peerless_sysytem_fw.Prelude.{
  ℕ, ◌+◌, ◌-◌, ◌*◌, ◌/◌, Bool, true, false, ◌&&◌, ◌||◌, not, Option, none, some, List, [], ◌∷◌,
  Bytes, ltb, leb, ◌==◌, if◌then◌else◌, length, set, replicate, any,
}
use peerless_sysytem_fw.Prelude.Slots.{is_none, flatten}
use peerless_sysytem_fw.Prelude.Equality.{◌≟◌}
use peerless_sysytem_fw.Prelude.Dict.{Dict, pair_eq, lookup, insert, erase}
use peerless_sysytem_fw.Core.{NodeId, ContentId, content_id_verify}

abbrev pub content_chunk_size : ℕ
content_chunk_size = 64 * 1024

abbrev pub max_content_size : ℕ
max_content_size = 512 * 1024 * 1024

abbrev pub max_active_uploads : ℕ
max_active_uploads = 4

abbrev pub max_in_flight_upload_bytes : ℕ
max_in_flight_upload_bytes = 512 * 1024 * 1024

pub record UploadSession : Type 0 where
  pub total_size : ℕ
  pub chunk_size : ℕ
  pub chunks : List (Option Bytes)

-- A session belongs to the signer that started it, for one content.
abbrev pub Uploads : Type 0
Uploads = Dict (NodeId × ContentId) UploadSession

-- The sizes of the other sessions.
unfoldable pub reserved_except : NodeId × ContentId → Uploads → ℕ
reserved_except key [] = 0
reserved_except key ((k, session) ∷ uploads) =
    (if k ≟ key then 0 else session.total_size) + reserved_except key uploads

abbrev pub new_session : ℕ → ℕ → UploadSession
new_session total_size chunk_size = record {
  total_size = total_size;
  chunk_size = chunk_size;
  chunks = replicate ((total_size + (chunk_size - 1)) / chunk_size) none;
}

-- `ContentStart`: whether the transfer is accepted; a repeated start begins anew.
unfoldable pub content_start : Uploads → NodeId × ContentId → ℕ → ℕ → Bool × Uploads
content_start uploads key total_size chunk_size =
    if leb total_size max_content_size
      && (chunk_size == content_chunk_size
          && ((not (is_none (lookup key uploads)) || ltb (length uploads) max_active_uploads)
              && leb (reserved_except key uploads + total_size) max_in_flight_upload_bytes))
    then (true, insert key (new_session total_size chunk_size) uploads)
    else (false, uploads)

-- What a session says of a chunk whose hash is right.
abbrev pub admits : Option UploadSession → ℕ → Bytes → Bool
admits none index bytes = false
admits (some session) index bytes =
    leb (length bytes) session.chunk_size && ltb index (length session.chunks)

abbrev pub with_chunk : Option UploadSession → ℕ → Bytes → UploadSession
with_chunk none index bytes = new_session 0 content_chunk_size
with_chunk (some session) index bytes = record session {
  chunks = set session.chunks index (some bytes);
}

-- How a transfer ends: its bytes go to the store, or it failed.
pub data Completed : Type 0 where
  stored : Bytes → Completed
  mismatch incomplete : Completed

module _ (sha256 : Bytes → Bytes) where
  -- `ContentChunk`: a chunk that does not fit ends the transfer.
  unfoldable pub content_chunk :
      Uploads → NodeId × ContentId → ℕ → Bytes → ContentId → Bool × Uploads
  content_chunk uploads key index bytes chunk_hash =
      if content_id_verify sha256 chunk_hash bytes && admits (lookup key uploads) index bytes
      then (true, insert key (with_chunk (lookup key uploads) index bytes) uploads)
      else (false, erase key uploads)

  -- The content of a session that is taken off the map.
  unfoldable pub finish_upload : Option UploadSession → ContentId → Completed
  finish_upload none id = Completed.incomplete
  finish_upload (some session) id =
      if any is_none session.chunks
      then Completed.incomplete
      else if length (flatten session.chunks) == session.total_size
          && content_id_verify sha256 id (flatten session.chunks)
      then Completed.stored (flatten session.chunks)
      else Completed.mismatch

  -- `ContentComplete`: the session is removed whatever comes of it.
  unfoldable pub content_complete : Uploads → NodeId × ContentId → Completed × Uploads
  content_complete uploads key = (finish_upload (lookup key uploads) key.1, erase key uploads)

-- The requests of the three kinds, with the key that the signer and the content make.
pub data Request : Type 0 where
  start : NodeId × ContentId → ℕ → ℕ → Request
  chunk : NodeId × ContentId → ℕ → Bytes → ContentId → Request
  complete : NodeId × ContentId → Request

module _ (sha256 : Bytes → Bytes) where
  unfoldable pub serve_upload : Uploads → Request → Uploads
  serve_upload uploads (Request.start key total_size chunk_size) =
      (content_start uploads key total_size chunk_size).1
  serve_upload uploads (Request.chunk key index bytes chunk_hash) =
      (content_chunk sha256 uploads key index bytes chunk_hash).1
  serve_upload uploads (Request.complete key) = (content_complete sha256 uploads key).1

  abbrev pub serve_uploads : Uploads → List Request → Uploads
  serve_uploads uploads [] = uploads
  serve_uploads uploads (r ∷ rs) = serve_uploads (serve_upload uploads r) rs
