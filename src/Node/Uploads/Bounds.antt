-- ===== src/Node/Uploads/Bounds.antt =====
-- The budget of uploads: how many there are and how many bytes they announce and hold.
use peerless_sysytem_fw.Prelude.{
  ℕ, ◌+◌, ◌*◌, ◌≤◌, ◌≡◌, refl, sym, subst, ◌==◌, true, ◌&&◌, ◌||◌, not, Option, none, some, List,
  [], ◌∷◌, Bytes, arith, leb, ltb, length, length-replicate, length-set, replicate, set, zero, suc,
  ◌/◌, inl, inr, Bool-cases, Option-cases,
}
use peerless_sysytem_fw.Prelude.Slots.{is_none}
use peerless_sysytem_fw.Prelude.Equality.{◌≟◌, ≟→≡, ≟_refl}
use peerless_sysytem_fw.Prelude.Dict.{
  Unique, AllValues, insert-Unique, erase-Unique, insert-AllValues, erase-AllValues,
  lookup-AllValues, pair_eq, lookup, insert, erase, length-insert-le, length-insert_present,
  length-erase-le,
}
use peerless_sysytem_fw.Core.{NodeId, ContentId, content_id_verify}
use peerless_sysytem_fw.Node.Uploads.{
  UploadSession, Uploads, reserved_except, new_session, content_start, admits, with_chunk,
  content_chunk, content_complete, Request, serve_upload, serve_uploads,
}

-- What all sessions together announced.
unfoldable pub reserved : Uploads → ℕ
reserved [] = 0
reserved ((k, session) ∷ uploads) = session.total_size + reserved uploads

abbrev pub held_in : List (Option Bytes) → ℕ
held_in [] = 0
held_in (none ∷ chunks) = held_in chunks
held_in (some bytes ∷ chunks) = length bytes + held_in chunks

-- What all sessions together hold.
unfoldable pub held : Uploads → ℕ
held [] = 0
held ((k, session) ∷ uploads) = held_in session.chunks + held uploads

abbrev SmallChunks : List (Option Bytes) → Type 0
SmallChunks [] = Unit {0}
SmallChunks (none ∷ chunks) = SmallChunks chunks
SmallChunks (some bytes ∷ chunks) = (length bytes ≤ 65536) × SmallChunks chunks

-- A session has slots for its size, and no chunk is too long.
pub record IsSized (session : UploadSession) : Type 0 where
  chunk_size : session.chunk_size ≡ 65536
  slots : length session.chunks * 65536 ≤ session.total_size + 65535
  small : SmallChunks session.chunks

pub record IsWithinBudget (uploads : Uploads) : Type 0 where
  pub unique : Unique uploads
  pub few : length uploads ≤ 4
  pub announced : reserved uploads ≤ 512 * 1024 * 1024
  pub sized : AllValues IsSized uploads

reserved_except-absent :
    (key : NodeId × ContentId) (uploads : Uploads)
    → lookup key uploads ≡ none
    → reserved_except key uploads ≡ reserved uploads
unfolding reserved reserved_except
reserved_except-absent key [] h = refl
reserved_except-absent key ((k, s) ∷ uploads) h =
    ground (arith, ≟→≡ k key, ≟_refl key, reserved_except-absent key uploads)

reserved-insert :
    (key : NodeId × ContentId) (session : UploadSession) (uploads : Uploads)
    → Unique uploads
    → reserved (insert key session uploads) ≡ reserved_except key uploads + session.total_size
unfolding reserved reserved_except
reserved-insert key session [] u = omega arith
reserved-insert key session ((k, s) ∷ uploads) (n, u) = elim (Bool-cases (key ≟ k)) [
  | inl same ↦
      let e = ≟→≡ key k same in
      ground (arith, same, e, ≟_refl key, reserved_except-absent k uploads n)
  | inr other ↦ ground (arith, other, ≟→≡ k key, ≟_refl key, reserved-insert key session uploads u)
]

reserved-erase :
    (key : NodeId × ContentId) (uploads : Uploads) → reserved (erase key uploads) ≤ reserved uploads
unfolding reserved
reserved-erase key [] = omega arith
reserved-erase key ((k, s) ∷ uploads) = ground (arith, reserved-erase key uploads)

reserved_except-present :
    (key : NodeId × ContentId) (old : UploadSession) (uploads : Uploads)
    → Unique uploads
    → lookup key uploads ≡ some old
    → reserved_except key uploads + old.total_size ≡ reserved uploads
unfolding reserved reserved_except
reserved_except-present key old [] u h = absurd (ground arith)
reserved_except-present key old ((k, s) ∷ uploads) (n, u) h = elim (Bool-cases (key ≟ k)) [
  | inl same ↦
      let e = ≟→≡ key k same in
      ground (arith, same, e, ≟_refl key, reserved_except-absent k uploads n)
  | inr other ↦
      ground (arith, other, ≟→≡ k key, ≟_refl key, reserved_except-present key old uploads u)
]

held_in-replicate : (n : ℕ) → SmallChunks (replicate n none)
held_in-replicate zero = tt
held_in-replicate (suc n) = held_in-replicate n

new_session-IsSized : (total : ℕ) → IsSized (new_session total 65536)
new_session-IsSized total = record {
  chunk_size = refl;
  slots = omega (arith, length-replicate {A = Option Bytes} ((total + 65535) / 65536) none);
  small = held_in-replicate ((total + 65535) / 65536);
}

set-SmallChunks :
    (chunks : List (Option Bytes)) (i : ℕ) (bytes : Bytes)
    → length bytes ≤ 65536
    → SmallChunks chunks
    → SmallChunks (set chunks i (some bytes))
set-SmallChunks [] i bytes h s = tt
set-SmallChunks (none ∷ chunks) zero bytes h s = (h, s)
set-SmallChunks (some b ∷ chunks) zero bytes h (_, s) = (h, s)
set-SmallChunks (none ∷ chunks) (suc i) bytes h s = set-SmallChunks chunks i bytes h s
set-SmallChunks (some b ∷ chunks) (suc i) bytes h (k, s) = (k, set-SmallChunks chunks i bytes h s)

held_in-le :
    (chunks : List (Option Bytes)) → SmallChunks chunks → held_in chunks ≤ length chunks * 65536
held_in-le [] s = omega arith
held_in-le (none ∷ chunks) s = omega (arith, held_in-le chunks s)
held_in-le (some b ∷ chunks) (h, s) = omega (arith, h, held_in-le chunks s)

pub held-le :
    (uploads : Uploads)
    → AllValues IsSized uploads
    → held uploads ≤ reserved uploads + length uploads * 65535
unfolding held reserved
held-le [] a = omega arith
held-le ((k, session) ∷ uploads) (v, a) =
    omega (arith, held-le uploads a, v.slots, held_in-le session.chunks v.small)

content_start-IsWithinBudget :
    (uploads : Uploads) (key : NodeId × ContentId) (total chunk_size : ℕ)
    → IsWithinBudget uploads
    → IsWithinBudget (content_start uploads key total chunk_size).1
unfolding content_start
content_start-IsWithinBudget uploads key total chunk_size w =
    elim (Bool-cases (
      leb total (512 * 1024 * 1024)
      && (chunk_size == 65536
          && ((not (is_none (lookup key uploads)) || ltb (length uploads) 4)
              && leb (reserved_except key uploads + total) (512 * 1024 * 1024))))) [
                | inl fits ↦
                    let same : chunk_size ≡ 65536 = ground arith in
                    rw fits (record {
                      unique = insert-Unique key (new_session total chunk_size) uploads w.unique;
                      few = few fits;
                      announced = ground (
                        arith,
                        fits,
                        reserved-insert key (new_session total chunk_size) uploads w.unique,
                      );
                      sized =
                          insert-AllValues IsSized key (new_session total chunk_size) uploads
                            (subst (λ n. IsSized (new_session total n)) (sym same)
                              (new_session-IsSized total))
                            w.sized;
                    })
                | inr over ↦ rw over w
              ]
  where
    few :
        (leb total (512 * 1024 * 1024)
            && (chunk_size == 65536
                && ((not (is_none (lookup key uploads)) || ltb (length uploads) 4)
                    && leb (reserved_except key uploads + total) (512 * 1024 * 1024))))
          ≡ true
        → length (insert key (new_session total chunk_size) uploads) ≤ 4
    few fits = elim (Option-cases (lookup key uploads)) [
      | inl absent ↦
          ground (arith, absent, length-insert-le key (new_session total chunk_size) uploads)
      | inr (old, present) ↦ omega (
        arith,
        w.few,
        length-insert_present key (new_session total chunk_size) old uploads present,
      )
    ]

erase-IsWithinBudget :
    (uploads : Uploads) (key : NodeId × ContentId)
    → IsWithinBudget uploads
    → IsWithinBudget (erase key uploads)
erase-IsWithinBudget uploads key w = record {
  unique = erase-Unique key uploads w.unique;
  few = omega (arith, w.few, length-erase-le key uploads);
  announced = omega (arith, w.announced, reserved-erase key uploads);
  sized = erase-AllValues IsSized key uploads w.sized;
}

-- A session that is replaced by one of the same size.
replace-IsWithinBudget :
    (uploads : Uploads) (key : NodeId × ContentId) (old session : UploadSession)
    → lookup key uploads ≡ some old
    → session.total_size ≡ old.total_size
    → IsSized session
    → IsWithinBudget uploads
    → IsWithinBudget (insert key session uploads)
replace-IsWithinBudget uploads key old session present same sized w = record {
  unique = insert-Unique key session uploads w.unique;
  few = omega (arith, w.few, length-insert_present key session old uploads present);
  announced = omega (
    arith,
    w.announced,
    reserved-insert key session uploads w.unique,
    reserved_except-present key old uploads w.unique present,
    same,
  );
  sized = insert-AllValues IsSized key session uploads sized w.sized;
}

content_chunk-IsWithinBudget :
    (sha256 : Bytes → Bytes) (uploads : Uploads) (key : NodeId × ContentId) (index : ℕ)
    (bytes hash : Bytes)
    → IsWithinBudget uploads
    → IsWithinBudget (content_chunk sha256 uploads key index bytes hash).1
unfolding content_chunk
content_chunk-IsWithinBudget sha256 uploads key index bytes hash w =
    elim (Bool-cases
      (content_id_verify sha256 hash bytes && admits (lookup key uploads) index bytes)) [
        | inl good ↦ rw good (stored good)
        | inr bad ↦ rw bad (erase-IsWithinBudget uploads key w)
      ]
  where
    stored :
        (content_id_verify sha256 hash bytes && admits (lookup key uploads) index bytes) ≡ true
        → IsWithinBudget (insert key (with_chunk (lookup key uploads) index bytes) uploads)
    stored good = elim (Option-cases (lookup key uploads)) [
      | inl absent ↦ absurd (ground (arith, absent, good))
      | inr (old, present) ↦
          let sized = lookup-AllValues IsSized key old uploads present w.sized in
          let short : length bytes ≤ 65536 = ground (arith, present, good, sized.chunk_size) in
          rw present (
            replace-IsWithinBudget uploads key old (with_chunk (some old) index bytes) present refl
              (record {
                chunk_size = sized.chunk_size;
                slots = omega (arith, sized.slots, length-set old.chunks index (some bytes));
                small = set-SmallChunks old.chunks index bytes short sized.small;
              })
              w)
    ]

pub serve_upload-IsWithinBudget :
    (sha256 : Bytes → Bytes) (uploads : Uploads) (r : Request)
    → IsWithinBudget uploads
    → IsWithinBudget (serve_upload sha256 uploads r)
unfolding serve_upload content_complete
serve_upload-IsWithinBudget sha256 uploads (Request.start key total chunk_size) w =
    content_start-IsWithinBudget uploads key total chunk_size w
serve_upload-IsWithinBudget sha256 uploads (Request.chunk key index bytes hash) w =
    content_chunk-IsWithinBudget sha256 uploads key index bytes hash w
serve_upload-IsWithinBudget sha256 uploads (Request.complete key) w =
    erase-IsWithinBudget uploads key w

serve_uploads-IsWithinBudget :
    (sha256 : Bytes → Bytes) (uploads : Uploads) (rs : List Request)
    → IsWithinBudget uploads
    → IsWithinBudget (serve_uploads sha256 uploads rs)
serve_uploads-IsWithinBudget sha256 uploads [] w = w
serve_uploads-IsWithinBudget sha256 uploads (r ∷ rs) w =
    serve_uploads-IsWithinBudget sha256 (serve_upload sha256 uploads r) rs
      (serve_upload-IsWithinBudget sha256 uploads r w)

-- Whatever upload requests a node that holds no uploads serves, from whatever signers and in whatever
-- order, it then has at most 4 sessions, which announced at most 512 MiB and hold at most 65535 bytes
-- for each session more than they announced.
pub serve_uploads_bounded :
    (sha256 : Bytes → Bytes) (rs : List Request)
    → let uploads = serve_uploads sha256 [] rs in
      (length uploads ≤ 4)
      × (reserved uploads ≤ 512 * 1024 * 1024)
      × (held uploads ≤ 512 * 1024 * 1024 + 4 * 65535)
unfolding reserved
serve_uploads_bounded sha256 rs =
    let w =
      serve_uploads-IsWithinBudget sha256 [] rs
        (record { unique = tt; few = omega arith; announced = omega arith; sized = tt }) in
    (
      w.few,
      w.announced,
      omega (arith, w.few, w.announced, held-le (serve_uploads sha256 [] rs) w.sized),
    )
