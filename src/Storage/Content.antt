-- ===== src/Storage/Content.antt =====
-- What is put in the content store is what is got from it.
use peerless_sysytem_fw.Prelude.{
  ℕ, ◌≡◌, ◌≢◌, refl, sym, ap, ◌∙◌, true, Option, none, some, Bytes, ok, arith, All, inl, inr,
  Bool-cases, Option-cases,
}
use peerless_sysytem_fw.Prelude.Equality.{bytes_beq_iff}
use peerless_sysytem_fw.Prelude.Dict.{pair_eq, lookup, insert, lookup-insert_self, lookup-insert_ne}
use peerless_sysytem_fw.Core.{ContentId, content_id_of, content_id_verify}
use peerless_sysytem_fw.Storage.{
  FilePath, Files, Calls, final, unique_temporary, path_for, verify_existing, link_content, put,
  get,
}
use peerless_sysytem_fw.Storage.Atomic.{
  with_temporary-All, lookup-clean_up, path-temporary, path-held, with_temporary-ok,
}

module _ (sha256 : Bytes → Bytes) (hex_encode : Bytes → Bytes) where
  link_content-keeps :
      (calls : Calls) (raced : Option Bytes) (id : ContentId) (bytes : Bytes) (t : FilePath)
      (written : Files) (path : FilePath) (old : Bytes)
      → path ≢ path_for sha256 hex_encode id
      → path ≢ t
      → lookup path written ≡ some old
      → All
          (λ s. lookup path s ≡ some old)
          (link_content sha256 hex_encode calls raced id bytes t written).1
  unfolding link_content
  link_content-keeps calls (some raced) id bytes t written path old other apart there =
      let taken =
        lookup-insert_ne path (path_for sha256 hex_encode id) raced written other ∙ there in
      (
        taken,
        (
          lookup-clean_up calls path t (insert (path_for sha256 hex_encode id) raced written) apart
              ∙ taken,
          tt,
        ),
      )
  link_content-keeps calls none id bytes t written path old other apart there =
      let linked =
        lookup-insert_ne path (path_for sha256 hex_encode id) bytes written other ∙ there in
      elim (Bool-cases calls.links) [
        | inl links ↦ rw links (
          linked,
          (
            lookup-clean_up calls path t (insert (path_for sha256 hex_encode id) bytes written)
                  apart
                ∙ linked,
            tt,
          ),
        )
        | inr refused ↦ rw refused (lookup-clean_up calls path t written apart ∙ there, tt)
      ]

  same_content :
      (bytes b : Bytes)
      → content_id_verify sha256 (content_id_of sha256 bytes) b ≡ true
      → ((other : Bytes) → sha256 other ≡ sha256 bytes → other ≡ bytes)
      → b ≡ bytes
  unfolding content_id_verify content_id_of
  same_content bytes b good unique =
      unique b (sym ((bytes_beq_iff (sha256 bytes) (sha256 b)).0 good))

  get-stored :
      (files : Files) (bytes b : Bytes)
      → lookup (path_for sha256 hex_encode (content_id_of sha256 bytes)) files ≡ some b
      → content_id_verify sha256 (content_id_of sha256 bytes) b ≡ true
      → ((other : Bytes) → sha256 other ≡ sha256 bytes → other ≡ bytes)
      → get sha256 hex_encode true files (content_id_of sha256 bytes) ≡ ok bytes
  unfolding get
  get-stored files bytes b there good unique =
      rw (there, good, get) (ap ok (same_content bytes b good unique))

  verify-of : (bytes : Bytes) → content_id_verify sha256 (content_id_of sha256 bytes) bytes ≡ true
  unfolding content_id_verify
  verify-of bytes = (bytes_beq_iff (content_id_of sha256 bytes) (content_id_of sha256 bytes)).1 refl

  link_content-ok :
      (calls : Calls) (raced : Option Bytes) (bytes : Bytes) (t : FilePath) (written : Files)
      (id : ContentId)
      → path_for sha256 hex_encode (content_id_of sha256 bytes) ≢ t
      → (link_content sha256 hex_encode calls raced (content_id_of sha256 bytes) bytes t written).0
        ≡ ok id
      → (id ≡ content_id_of sha256 bytes)
        × (b : Bytes) × (content_id_verify sha256 (content_id_of sha256 bytes) b ≡ true)
        × (lookup (path_for sha256 hex_encode (content_id_of sha256 bytes)) (
              final written
                (link_content sha256 hex_encode calls raced
                  (content_id_of sha256 bytes)
                  bytes
                  t
                  written).1)
            ≡ some b)
  unfolding link_content verify_existing
  link_content-ok calls (some raced) bytes t written id apart h =
      let pf = path_for sha256 hex_encode (content_id_of sha256 bytes) in
      (
        ground arith,
        raced,
        ground arith,
        lookup-clean_up calls pf t (insert pf raced written) apart
            ∙ lookup-insert_self pf raced written,
      )
  link_content-ok calls none bytes t written id apart h =
      let pf = path_for sha256 hex_encode (content_id_of sha256 bytes) in
      let links : calls.links ≡ true = ground arith in
      (
        ground arith,
        bytes,
        verify-of bytes,
        rw links (
            lookup-clean_up calls pf t (insert pf bytes written) apart
            ∙ lookup-insert_self pf bytes written),
      )

  -- A file that is there, whichever it is, keeps its bytes through every moment of `put`, whatever
  -- fails, unless it has the name of a temporary file.
  pub put-keeps :
      (calls : Calls) (raced : Option Bytes) (fuel : ℕ) (candidate : ℕ → FilePath) (sequence : ℕ)
      (files : Files) (bytes : Bytes) (path : FilePath) (old : Bytes)
      → ((k : ℕ) → candidate k ≢ path)
      → lookup path files ≡ some old
      → All
          (λ s. lookup path s ≡ some old)
          (put sha256 hex_encode calls raced fuel candidate sequence files bytes).1
  unfolding put
  put-keeps calls raced fuel candidate sequence files bytes path old apart there =
      let pf = path_for sha256 hex_encode (content_id_of sha256 bytes) in
      elim (Option-cases (lookup pf files)) [
        | inr (existing, e) ↦ rw (e, put) tt
        | inl absent ↦
            let other : path ≢ pf = λ p. absurd (ground arith) in
            rw (absent, put)
              (with_temporary-All (λ s. lookup path s ≡ some old) calls bytes files
                (unique_temporary fuel candidate sequence files)
                (link_content sha256 hex_encode calls raced (content_id_of sha256 bytes) bytes)
                (λ t b e.
                  let held = path-held calls fuel candidate sequence files path apart t b e in
                  (held.0 ∙ there, held.1 ∙ there))
                (λ t e.
                  let held = path-held calls fuel candidate sequence files path apart t bytes e in
                  link_content-keeps calls raced (content_id_of sha256 bytes) bytes t
                    (insert t bytes files) path old other
                    (path-temporary calls fuel candidate sequence files path apart t e)
                    (held.0 ∙ there)))
      ]

  -- A content whose `put` succeeds is got from the files that it leaves, if no other content has its hash.
  pub get-put :
      (calls : Calls) (raced : Option Bytes) (fuel : ℕ) (candidate : ℕ → FilePath) (sequence : ℕ)
      (files : Files) (bytes : Bytes)
      → ((k : ℕ) → candidate k ≢ path_for sha256 hex_encode (content_id_of sha256 bytes))
      → ((other : Bytes) → sha256 other ≡ sha256 bytes → other ≡ bytes)
      → (id : ContentId)
      → (put sha256 hex_encode calls raced fuel candidate sequence files bytes).0 ≡ ok id
      → (id ≡ content_id_of sha256 bytes)
        × (get sha256 hex_encode true
              (final files
                (put sha256 hex_encode calls raced fuel candidate sequence files bytes).1)
              id
            ≡ ok bytes)
  unfolding put verify_existing
  get-put calls raced fuel candidate sequence files bytes apart unique id h =
      let pf = path_for sha256 hex_encode (content_id_of sha256 bytes) in
      elim (Option-cases (lookup pf files)) [
        | inr (existing, e) ↦
            let good : content_id_verify sha256 (content_id_of sha256 bytes) existing ≡ true =
              ground arith in
            let same : id ≡ content_id_of sha256 bytes = ground arith in
            (same, rw (same, e, put) (get-stored files bytes existing e good unique))
        | inl absent ↦
            let rest =
              link_content sha256 hex_encode calls raced (content_id_of sha256 bytes) bytes in
            let temporary = unique_temporary fuel candidate sequence files in
            let (t, e, linked, last) =
              with_temporary-ok calls temporary bytes files rest id (rw (absent, put) at h) in
            let apart_t = path-temporary calls fuel candidate sequence files pf apart t e in
            let (same, b, good, there) =
              link_content-ok calls raced bytes t (insert t bytes files) id apart_t linked in
            (
              same,
              rw (same, absent, put)
                  (rw last (
                    get-stored (final (insert t bytes files) (rest t (insert t bytes files)).1)
                      bytes b there good unique)),
            )
      ]
