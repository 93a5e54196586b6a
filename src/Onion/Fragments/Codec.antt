-- ===== src/Onion/Fragments/Codec.antt =====
-- The encoding of a fragment against its decoder.
use peerless_sysytem_fw.Prelude.{
  ◌+◌, ◌^◌, ◌≤◌, ◌<◌, ◌≡◌, refl, ap, ◌∙◌, ◌++◌, Bytes, ok, arith, length, take, drop, be_bytes,
  from_be, slice, length-append, take_at, drop_at, drop_past, from_be-be_bytes_four,
}
use peerless_sysytem_fw.Onion.Fragments.{Fragment, validate, encode, decode}

-- What a valid fragment is.
record IsValid (f : Fragment) : Type 0 where
  index_u32 : f.index < 256 ^ 4
  count_u32 : f.count < 256 ^ 4
  total_u32 : f.total_len < 256 ^ 4
  fits : length f.bytes ≤ 927

validate-IsValid : (f : Fragment) → validate f ≡ ok tt → IsValid f
unfolding validate
validate-IsValid f h = record {
  index_u32 = ground arith;
  count_u32 = ground arith;
  total_u32 = ground arith;
  fits = ground arith;
}

module _ (f : Fragment) (id_length : length f.message_id ≡ 16) (valid : IsValid f) where
  abbrev laid_out : Bytes
  laid_out =
      f.message_id
      ++ (be_bytes 4 f.index ++ (be_bytes 4 f.count ++ (be_bytes 4 f.total_len ++ f.bytes)))

  laid_out-message_id : take 16 laid_out ≡ f.message_id
  laid_out-message_id = take_at 16 f.message_id _ id_length

  laid_out-index : from_be (slice 16 20 laid_out) ≡ f.index
  laid_out-index =
      ap (λ r. from_be (take 4 r)) (drop_at 16 f.message_id _ id_length)
      ∙ from_be-be_bytes_four f.index valid.index_u32

  laid_out-count : from_be (slice 20 24 laid_out) ≡ f.count
  laid_out-count =
      ap (λ r. from_be (take 4 r)) (drop_past 16 4 f.message_id _ id_length)
      ∙ from_be-be_bytes_four f.count valid.count_u32

  laid_out-total_len : from_be (slice 24 28 laid_out) ≡ f.total_len
  laid_out-total_len =
      ap (λ r. from_be (take 4 r)) (drop_past 16 8 f.message_id _ id_length)
      ∙ from_be-be_bytes_four f.total_len valid.total_u32

  laid_out-bytes : drop 28 laid_out ≡ f.bytes
  laid_out-bytes = drop_past 16 12 f.message_id _ id_length

  laid_out-length : length laid_out ≡ 28 + length f.bytes
  laid_out-length = omega (arith, length-append f.message_id, id_length)

-- A valid fragment with a message id of 16 bytes is encoded in at most 955 bytes, which decode to the
-- fragment.
pub decode-encode :
    (f : Fragment)
    → length f.message_id ≡ 16
    → validate f ≡ ok tt
    → (bytes : Bytes) × (encode f ≡ ok bytes) × (length bytes ≤ 955) × (decode bytes ≡ ok f)
unfolding encode decode
decode-encode f h v =
    let valid = validate-IsValid f v in
    let n = laid_out-length f h valid in
    (
      laid_out f h valid,
      rw v refl,
      omega (arith, n, valid.fits),
      rw
          (
            laid_out-message_id f h valid,
            laid_out-index f h valid,
            laid_out-count f h valid,
            laid_out-total_len f h valid,
            laid_out-bytes f h valid,
            n,
            v,
          )
          (ground (arith, valid.fits)),
    )
