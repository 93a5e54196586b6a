-- ===== src/Onion/Fragments/Capacity.antt =====
-- The room for messages in `Reassembler`.
use peerless_sysytem_fw.Prelude.{
  ℕ, ◌+◌, ◌≤◌, ◌<◌, ◌≡◌, refl, ap, ◌∙◌, true, false, Option, none, some, Bytes, ok, err, arith, ltb,
  leb, length, replicate, get_elem?, zero, suc, set, inl, inr, Result-cases, Option-cases, ==_refl,
}
use peerless_sysytem_fw.Prelude.Equality.{bytes_eq}
use peerless_sysytem_fw.Prelude.Dict.{
  lookup, insert, lookup-insert_self, length-insert-le, length-insert_present, length-erase-le,
}
use peerless_sysytem_fw.Onion.Defs.{OnionError}
use peerless_sysytem_fw.Onion.Fragments.{
  Fragment, validate, PartialMessage, Reassembler, entry_or_new, settle, fill, push,
}

settle-length :
    (r : Reassembler) (id : Bytes) (old entry : PartialMessage)
    → lookup id r ≡ some old
    → length (settle r id entry).1 ≤ length r
unfolding settle
settle-length r id old entry h =
    let same = length-insert_present id entry old r h in
    ground (arith, same, length-erase-le id (insert id entry r))

fill-length :
    (r : Reassembler) (old entry : PartialMessage) (f : Fragment)
    → lookup f.message_id r ≡ some old
    → length (fill r entry f).1 ≤ length r
unfolding fill
fill-length r old entry f h = elim (Option-cases (get_elem? entry.fragments f.index)) [
  | inl e ↦ ground (arith, e)
  | inr (slot, e) ↦ ground (
    arith,
    e,
    settle-length r f.message_id old
        (record entry {
          received_bytes = entry.received_bytes + length f.bytes;
          fragments = set entry.fragments f.index (some f.bytes);
        })
        h,
  )
]

-- A reassembler that holds at most 16 messages holds at most 16 after any fragment, accepted or not.
pub push-length : (r : Reassembler) (f : Fragment) → length r ≤ 16 → length (push r f).1 ≤ 16
unfolding push
push-length r f h = elim (Result-cases (validate f)) [
  | inl (u, e) ↦ elim (Option-cases (lookup f.message_id r)) [
    | inl absent ↦
        let entry = entry_or_new none f in
        ground (
          arith,
          e,
          absent,
          length-insert-le f.message_id entry r,
          fill-length (insert f.message_id entry r) entry entry f
              (lookup-insert_self f.message_id entry r),
        )
    | inr (entry, present) ↦ ground (
      arith,
      e,
      present,
      length-insert_present f.message_id entry entry r present,
      fill-length (insert f.message_id entry r) entry entry f
          (lookup-insert_self f.message_id entry r),
    )
  ]
  | inr (x, e) ↦ ground (arith, e)
]

get-replicate : {A : Type 0} (n i : ℕ) (a : A) → i < n → get_elem? (replicate n a) i ≡ some a
get-replicate zero i a h = absurd (omega arith)
get-replicate (suc n) zero a h = refl
get-replicate (suc n) (suc i) a h = get-replicate n i a (omega arith)

validate-index : (f : Fragment) → validate f ≡ ok tt → f.index < f.count
unfolding validate
validate-index f h = ground arith

fill-refused :
    (r : Reassembler) (f : Fragment)
    → f.index < f.count
    → f.total_len < length f.bytes
    → fill r (entry_or_new none f) f ≡ (err OnionError.invalid_encoding, r)
unfolding fill
fill-refused r f inside long =
    let over : ltb f.total_len (0 + length f.bytes) ≡ true = ground arith in
    rw
      (
        ==_refl f.count,
        ==_refl f.total_len,
        get-replicate {A = Option Bytes} f.count f.index none inside,
        over,
      )
      refl

-- If the first fragment of a message is valid but holds more bytes than its `total_len`, and there is
-- room, it is refused as invalid, yet the message takes one of the places, with no piece in it.
pub refused_fragment_holds_place :
    (r : Reassembler) (f : Fragment)
    → validate f ≡ ok tt
    → lookup f.message_id r ≡ none
    → length r < 16
    → f.total_len < length f.bytes
    → ((push r f).0 ≡ err OnionError.invalid_encoding)
      × (lookup f.message_id (push r f).1
          ≡ some (record {
            count = f.count;
            total_len = f.total_len;
            received_bytes = 0;
            fragments = replicate f.count none;
          }))
unfolding push
refused_fragment_holds_place r f v absent room long =
    let entry = entry_or_new none f in
    let free : leb 16 (length r) ≡ false = ground arith in
    let e : push r f ≡ (err OnionError.invalid_encoding, insert f.message_id entry r) =
      rw (v, absent, free, push)
        (fill-refused (insert f.message_id entry r) f (validate-index f v) long) in
    (ap (λ t. t.0) e, ap (λ t. lookup f.message_id t.1) e ∙ lookup-insert_self f.message_id entry r)
