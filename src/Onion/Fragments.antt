-- ===== src/Onion/Fragments.antt =====
-- Fragments and reassembly of crates/peerless-onion-protocol/src/lib.rs. `received_bytes` stays below
-- a 32-bit `total_len` plus one fragment, so its `checked_add` on `usize` does not fail.
pub mod Cut
pub mod Reassembly
pub mod Capacity
pub mod Codec
mod Tests
use peerless_sysytem_fw.Prelude.{
  ℕ, zero, suc, ◌+◌, ◌-◌, ◌/◌, Bool, true, false, ◌&&◌, ◌||◌, not, Option, none, some, List, [],
  ◌∷◌, ◌++◌, Bytes, Result, ok, err, ◌>>=◌, ◌>>◌, fail_if, ltb, leb, ◌==◌, if◌then◌else◌, length,
  get_elem?, set, take, drop, replicate, any, be_bytes, from_be, slice,
}
use peerless_sysytem_fw.Prelude.Equality.{bytes_eq}
use peerless_sysytem_fw.Prelude.Dict.{Dict, lookup, insert, erase}
use peerless_sysytem_fw.Prelude.Slots.{is_none, flatten}
use peerless_sysytem_fw.Onion.Defs.{
  OnionError, max_fragment_count, max_message_size, max_inflight_messages, fragment_header_size,
  max_layer_data,
}

pub record Fragment : Type 0 where
  pub message_id : Bytes
  pub index : ℕ
  pub count : ℕ
  pub total_len : ℕ
  pub bytes : Bytes

-- `Fragment::MAX_BYTES`.
abbrev pub max_bytes : ℕ
max_bytes = max_layer_data - fragment_header_size

-- `Fragment::validate`.
unfoldable pub validate : Fragment → Result OnionError (Unit {0})
validate f =
    fail_if
      (f.count == 0
        || (ltb max_fragment_count f.count
            || (leb f.count f.index
                || (ltb max_message_size f.total_len
                    || (ltb max_bytes (length f.bytes)
                        || ((f.total_len == 0 && (not (f.count == 1) || not (length f.bytes == 0)))
                            || (ltb 0 f.total_len && length f.bytes == 0)))))))
      OnionError.invalid_encoding

-- `Fragment::encode`.
unfoldable pub encode : Fragment → Result OnionError Bytes
encode f = do
  validate f
  ok (
      f.message_id
      ++ (be_bytes 4 f.index ++ (be_bytes 4 f.count ++ (be_bytes 4 f.total_len ++ f.bytes))))

-- `Fragment::decode`.
unfoldable pub decode : Bytes → Result OnionError Fragment
decode bytes = do
  fail_if (ltb (length bytes) fragment_header_size || ltb max_layer_data (length bytes))
      OnionError.invalid_encoding
  let fragment : Fragment = record {
    message_id = take 16 bytes;
    index = from_be (slice 16 20 bytes);
    count = from_be (slice 20 24 bytes);
    total_len = from_be (slice 24 28 bytes);
    bytes = drop 28 bytes;
  }
  validate fragment
  ok fragment

-- `bytes.chunks(MAX_BYTES)`; the number of bytes is enough fuel.
unfoldable pub chunks : ℕ → Bytes → List Bytes
chunks zero bytes = []
chunks (suc fuel) [] = []
chunks (suc fuel) (b ∷ bs) = take max_bytes (b ∷ bs) ∷ chunks fuel (drop max_bytes (b ∷ bs))

-- `enumerate().map(...)`.
unfoldable pub number : Bytes → ℕ → ℕ → ℕ → List Bytes → List Fragment
number message_id count total_len index [] = []
number message_id count total_len index (chunk ∷ rest) =
    record {
      message_id = message_id;
      index = index;
      count = count;
      total_len = total_len;
      bytes = chunk;
    }
    ∷ number message_id count total_len (suc index) rest

-- `fragment_message`; `div_ceil` is written out.
unfoldable pub fragment_message : Bytes → Bytes → Result OnionError (List Fragment)
fragment_message message_id bytes =
    let count : ℕ = (length bytes + (max_bytes - 1)) / max_bytes in
    if ltb max_message_size (length bytes)
    then err OnionError.payload_too_large
    else if length bytes == 0
    then ok (number message_id 1 0 0 ([] ∷ []))
    else if ltb max_fragment_count count
    then err OnionError.payload_too_large
    else ok (number message_id count (length bytes) 0 (chunks (length bytes) bytes))

pub record PartialMessage : Type 0 where
  pub count : ℕ
  pub total_len : ℕ
  pub received_bytes : ℕ
  pub fragments : List (Option Bytes)

-- The map of `Reassembler`.
abbrev pub Reassembler : Type 0
Reassembler = Dict Bytes PartialMessage

-- `or_insert_with`.
abbrev pub entry_or_new : Option PartialMessage → Fragment → PartialMessage
entry_or_new (some entry) f = entry
entry_or_new none f = record {
  count = f.count;
  total_len = f.total_len;
  received_bytes = 0;
  fragments = replicate f.count none;
}

-- The end of `push`, with the slot filled in.
unfoldable pub settle :
    Reassembler → Bytes → PartialMessage → Result OnionError (Option Bytes) × Reassembler
settle r id entry =
    if any is_none entry.fragments
    then (ok none, insert id entry r)
    else if not (entry.received_bytes == entry.total_len)
    then (err OnionError.invalid_encoding, insert id entry r)
    else (ok (some (flatten entry.fragments)), erase id (insert id entry r))

-- `push` once the entry is in the map. A slot out of range would panic; `validate` rules it out.
unfoldable pub fill :
    Reassembler → PartialMessage → Fragment → Result OnionError (Option Bytes) × Reassembler
fill r entry f =
    if not (entry.count == f.count) || not (entry.total_len == f.total_len)
    then (err OnionError.invalid_encoding, r)
    else elim (get_elem? entry.fragments f.index) [
      | none ↦ (err OnionError.invalid_encoding, r)
      | some slot ↦
          if not (is_none slot)
          then (err OnionError.replay, r)
          else if ltb entry.total_len (entry.received_bytes + length f.bytes)
          then (err OnionError.invalid_encoding, r)
          else settle r f.message_id (record entry {
            received_bytes = entry.received_bytes + length f.bytes;
            fragments = set entry.fragments f.index (some f.bytes);
          })
    ]

-- `Reassembler::push`.
unfoldable pub push : Reassembler → Fragment → Result OnionError (Option Bytes) × Reassembler
push r f = elim (validate f) [
  | err e ↦ (err e, r)
  | ok _ ↦
      if is_none (lookup f.message_id r) && leb max_inflight_messages (length r)
      then (err OnionError.fragment_capacity, r)
      else let entry = entry_or_new (lookup f.message_id r) f in
        fill (insert f.message_id entry r) entry f
]
