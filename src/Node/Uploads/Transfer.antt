-- ===== src/Node/Uploads/Transfer.antt =====
-- A whole upload: what is sent in chunks is what is stored.
use peerless_sysytem_fw.Prelude.{
  ℕ, ◌+◌, ◌/◌, ◌≤◌, ◌<◌, ◌≡◌, ◌≢◌, refl, sym, ap, ◌∙◌, true, ◌&&◌, Option, none, some, List, [],
  ◌∷◌, Bytes, arith, leb, ltb, if◌then◌else◌, length, All, get_elem?, replicate, inl, inr,
  Bool-cases, ==_refl,
}
use peerless_sysytem_fw.Prelude.Slots.{
  seen, concat, slots, set-slots_zero, slots-Full_zero, slots-none, get_in_range, length-slots,
}
use peerless_sysytem_fw.Prelude.Equality.{◌≟◌, ≟→≡, ≟_refl, bytes_beq_iff}
use peerless_sysytem_fw.Prelude.Dict.{
  pair_eq, lookup, insert, erase, lookup-insert_self, lookup-insert_ne, lookup-erase_ne,
}
use peerless_sysytem_fw.Core.{NodeId, ContentId, content_id_of, content_id_verify}
use peerless_sysytem_fw.Node.Uploads.{
  UploadSession, Uploads, new_session, content_start, admits, with_chunk, content_chunk,
  finish_upload, content_complete, Completed, Request, serve_upload, serve_uploads,
}

-- The pieces of a content as `transfer_content_via` sends them.
pub record Pieces (bytes : Bytes) (cs : List Bytes) : Type 0 where
  pub joined : concat cs ≡ bytes
  pub counted : length cs ≡ (length bytes + 65535) / 65536
  pub short : (i : ℕ) (c : Bytes) → get_elem? cs i ≡ some c → length c ≤ 65536

content_id_verify-of :
    (sha256 : Bytes → Bytes) (bytes : Bytes)
    → content_id_verify sha256 (content_id_of sha256 bytes) bytes ≡ true
unfolding content_id_verify
content_id_verify-of sha256 bytes =
    (bytes_beq_iff (content_id_of sha256 bytes) (content_id_of sha256 bytes)).1 refl

module _ (sha256 : Bytes → Bytes) (signer : NodeId) (bytes : Bytes) (cs : List Bytes) where
  abbrev pub key : NodeId × ContentId
  key = (signer, content_id_of sha256 bytes)

  -- A request of another upload, or a piece of this one in its place.
  pub data Sends : Request → Type 0 where
    other_start :
        (k : NodeId × ContentId) (total size : ℕ) → k ≢ key → Sends (Request.start k total size)
    other_chunk :
        (k : NodeId × ContentId) (i : ℕ) (c hash : Bytes)
        → k ≢ key
        → Sends (Request.chunk k i c hash)
    other_complete : (k : NodeId × ContentId) → k ≢ key → Sends (Request.complete k)
    piece :
        (i : ℕ) (c : Bytes)
        → get_elem? cs i ≡ some c
        → Sends (Request.chunk key i c (content_id_of sha256 c))

  -- The positions of the pieces that have been sent, latest first.
  unfoldable pub sent : List Request → List ℕ → List ℕ
  sent [] got = got
  sent (Request.start k total size ∷ rs) got = sent rs got
  sent (Request.chunk k i c hash ∷ rs) got = sent rs (if k ≟ key then i ∷ got else got)
  sent (Request.complete k ∷ rs) got = sent rs got

  abbrev with_slots : List (Option Bytes) → UploadSession
  with_slots chunks = record { total_size = length bytes; chunk_size = 65536; chunks = chunks }

  abbrev session_of : List ℕ → UploadSession
  session_of got = with_slots (slots 0 got cs)

  piece-held :
      Pieces bytes cs
      → (uploads : Uploads) (got : List ℕ) (i : ℕ) (c : Bytes)
      → lookup key uploads ≡ some (session_of got)
      → get_elem? cs i ≡ some c
      → lookup key (content_chunk sha256 uploads key i c (content_id_of sha256 c)).1
        ≡ some (session_of (i ∷ got))
  unfolding content_chunk
  piece-held p uploads got i c h e =
      let short : leb (length c) 65536 ≡ true = ground (arith, p.short i c e) in
      let inside : ltb i (length (slots 0 got cs)) ≡ true =
        ground (arith, get_in_range cs i c e, length-slots 0 got cs) in
      rw (content_id_verify-of sha256 c, h, short, inside, set-slots_zero i got cs c e)
        (lookup-insert_self key (session_of (i ∷ got)) uploads)

  other_chunk-lookup :
      (uploads : Uploads) (k : NodeId × ContentId) (i : ℕ) (c hash : Bytes)
      → k ≢ key
      → lookup key (content_chunk sha256 uploads k i c hash).1 ≡ lookup key uploads
  unfolding content_chunk
  other_chunk-lookup uploads k i c hash n =
      elim (Bool-cases (content_id_verify sha256 hash c && admits (lookup k uploads) i c)) [
        | inl good ↦
            rw good
              (lookup-insert_ne key k (with_chunk (lookup k uploads) i c) uploads (λ e. n (sym e)))
        | inr bad ↦ rw bad (lookup-erase_ne key k uploads (λ e. n (sym e)))
      ]

  other_start-lookup :
      (uploads : Uploads) (k : NodeId × ContentId) (total size : ℕ)
      → k ≢ key
      → lookup key (content_start uploads k total size).1 ≡ lookup key uploads
  unfolding content_start
  other_start-lookup uploads k total size n =
      ground (arith, lookup-insert_ne key k (new_session total size) uploads (λ e. n (sym e)))

  serve_uploads-held :
      Pieces bytes cs
      → (rs : List Request) (uploads : Uploads) (got : List ℕ)
      → lookup key uploads ≡ some (session_of got)
      → All Sends rs
      → lookup key (serve_uploads sha256 uploads rs) ≡ some (session_of (sent rs got))
  unfolding sent serve_upload content_complete
  serve_uploads-held p [] uploads got h s = h
  serve_uploads-held p (r ∷ rs) uploads got h (other_start k total size n, s) =
      serve_uploads-held p rs (content_start uploads k total size).1 got
        (other_start-lookup uploads k total size n ∙ h) s
  serve_uploads-held p (r ∷ rs) uploads got h (other_chunk k i c hash n, s) =
      elim (Bool-cases (k ≟ key)) [
        | inl same ↦ absurd (n (≟→≡ k key same))
        | inr other ↦ rw other (
            serve_uploads-held p rs (content_chunk sha256 uploads k i c hash).1 got
              (other_chunk-lookup uploads k i c hash n ∙ h) s)
      ]
  serve_uploads-held p (r ∷ rs) uploads got h (other_complete k n, s) =
      serve_uploads-held p rs (erase k uploads) got
        (lookup-erase_ne key k uploads (λ e. n (sym e)) ∙ h) s
  serve_uploads-held p (r ∷ rs) uploads got h (piece i c e, s) = rw (≟_refl key) (
      serve_uploads-held p rs (content_chunk sha256 uploads key i c (content_id_of sha256 c)).1
        (i ∷ got) (piece-held p uploads got i c h e) s)

  accepted-session :
      (uploads : Uploads) (k : NodeId × ContentId) (total size : ℕ)
      → (content_start uploads k total size).0 ≡ true
      → (content_start uploads k total size).1 ≡ insert k (new_session total size) uploads
  unfolding content_start
  accepted-session uploads k total size h = ground arith

  opened_with : Pieces bytes cs → new_session (length bytes) 65536 ≡ session_of []
  opened_with p = ap with_slots (ap (λ n. replicate n none) (sym p.counted) ∙ sym (slots-none 0 cs))

  started :
      Pieces bytes cs
      → (uploads : Uploads) → (content_start uploads key (length bytes) 65536).0 ≡ true
      → lookup key (content_start uploads key (length bytes) 65536).1 ≡ some (session_of [])
  started p uploads accepted =
      ap (lookup key) (accepted-session uploads key (length bytes) 65536 accepted)
      ∙ lookup-insert_self key (new_session (length bytes) 65536) uploads
      ∙ ap some (opened_with p)

  finished :
      Pieces bytes cs
      → (got : List ℕ) → ((j : ℕ) → j < length cs → seen j got ≡ true)
      → finish_upload sha256 (some (session_of got)) (content_id_of sha256 bytes)
        ≡ Completed.stored bytes
  unfolding finish_upload
  finished p got full =
      let all = slots-Full_zero got cs full in
      rw (all.0, all.1, p.joined, ==_refl (length bytes), content_id_verify-of sha256 bytes) refl

  -- An upload that was accepted, every piece of which is sent at least once, in any order, with requests
  -- of other uploads in between, is completed with exactly the bytes that were announced.
  pub serve_uploads-content_complete :
      Pieces bytes cs
      → (uploads : Uploads) → (content_start uploads key (length bytes) 65536).0 ≡ true
      → (rs : List Request) → All Sends rs
      → ((j : ℕ) → j < length cs → seen j (sent rs []) ≡ true)
      → (content_complete sha256
          (serve_uploads sha256 (content_start uploads key (length bytes) 65536).1 rs)
          key).0
        ≡ Completed.stored bytes
  unfolding content_complete
  serve_uploads-content_complete p uploads accepted rs sends full =
      rw
        (serve_uploads-held p rs (content_start uploads key (length bytes) 65536).1 []
          (started p uploads accepted) sends)
        (finished p (sent rs []) full)
