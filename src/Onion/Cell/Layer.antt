-- ===== src/Onion/Cell/Layer.antt =====
-- One layer of a cell: what `seal_compact` builds, `open_layer` takes apart.
use mathlib.Core.List.{append_assoc}
use peerless_sysytem_fw.Prelude.{
  ℕ, zero, suc, ◌+◌, ◌-◌, ◌^◌, ◌≤◌, ◌<◌, ◌≡◌, refl, ap, ◌∙◌, true, false, some, ◌∷◌, ◌++◌, Bytes,
  ok, ◌>>=◌, arith, leb, ◌==◌, length, take, drop, replicate, be_bytes, slice, length-append,
  take_at, drop_at, drop_past, from_be-be_bytes_two, ==_refl,
}
use peerless_sysytem_fw.Prelude.Equality.{bytes_beq_iff}
use peerless_sysytem_fw.Onion.Defs.{
  Direction, direction_byte, direction_eq, CellType, cell_type_byte,
}
use peerless_sysytem_fw.Onion.Replay.{ReplayWindow, check}
use peerless_sysytem_fw.Onion.Cell.{
  Aead, HopKeys, encode_cell_header, parse_cell_header, nonzero, key_and_nonce, seal_compact,
  from_compact, compact, try_open, decode_layer, OpenedLayer,
}
use peerless_sysytem_fw.Onion.Cell.Codec.{
  IsWellFormed, encode-laid_out, parse-laid_out, length-encode, cell_type_round_trip,
}

-- What the code relies on of ChaCha20Poly1305: encryption succeeds, keeps the length, makes a tag of
-- 16 bytes, and decryption under the same key, nonce and associated data gives back the text.
pub record Encrypts (aead : Aead) (key nonce aad text : Bytes) : Type 0 where
  pub ciphertext : Bytes
  pub tag : Bytes
  pub encrypted : aead.encrypt key nonce aad text ≡ some (ciphertext, tag)
  pub same_length : length ciphertext ≡ length text
  pub tag_length : length tag ≡ 16
  pub decrypted : aead.decrypt key nonce aad ciphertext tag ≡ some text

abbrev pub IsLawful : Aead → Type 0
IsLawful aead = (key nonce aad text : Bytes) → Encrypts aead key nonce aad text

direction_eq_refl : (d : Direction) → direction_eq d d ≡ true
unfolding direction_eq direction_byte
direction_eq_refl Direction.forward = refl
direction_eq_refl Direction.reverse = refl

cell_type_byte_ne_zero : (t : CellType) → (cell_type_byte t == 0) ≡ false
unfolding cell_type_byte
cell_type_byte_ne_zero CellType.setup = refl
cell_type_byte_ne_zero CellType.cell_data = refl
cell_type_byte_ne_zero CellType.padding = refl
cell_type_byte_ne_zero CellType.response = refl
cell_type_byte_ne_zero CellType.rotation = refl
cell_type_byte_ne_zero CellType.teardown = refl

lt→leb_false : (a b : ℕ) → a < b → leb b a ≡ false
lt→leb_false a b h = ground arith

nonzero-replicate : (n : ℕ) → nonzero (replicate n 0) ≡ false
nonzero-replicate zero = refl
nonzero-replicate (suc n) = nonzero-replicate n

abbrev parts : Bytes → Bytes → Bytes → Bytes → Bytes
parts h ct tag z = h ++ (ct ++ (tag ++ z))

-- The parts of a cell, by the offsets that `open_layer` computes.
module _ (h ct tag z : Bytes) (m : ℕ) (hh : length h ≡ 50) (hc : length ct ≡ m)
    (ht : length tag ≡ 16) where
  parts-ciphertext : slice 50 (50 + (m + 16) - 16) (parts h ct tag z) ≡ ct
  parts-ciphertext =
      ap (take (50 + (m + 16) - 16 - 50)) (drop_at 50 h _ hh)
      ∙ take_at (50 + (m + 16) - 16 - 50) ct _ (omega arith)

  drop_ciphertext : drop (50 + m) (parts h ct tag z) ≡ tag ++ z
  drop_ciphertext = drop_past 50 m h _ hh ∙ drop_at m ct _ hc

  tag_start : 50 + (m + 16) - 16 ≡ 50 + m
  tag_start = omega arith

  parts-tag : slice (50 + (m + 16) - 16) (50 + (m + 16)) (parts h ct tag z) ≡ tag
  parts-tag =
      ap (λ k. take (50 + (m + 16) - k) (drop k (parts h ct tag z))) tag_start
      ∙ ap (take (50 + (m + 16) - (50 + m))) drop_ciphertext
      ∙ take_at (50 + (m + 16) - (50 + m)) tag z (omega arith)

  parts-padding : drop (50 + (m + 16)) (parts h ct tag z) ≡ z
  parts-padding = drop_past 50 (m + 16) h _ hh ∙ drop_past m 16 ct _ hc ∙ drop_at 16 tag z ht

  parts-aad : take 50 (parts h ct tag z) ++ drop (50 + (m + 16)) (parts h ct tag z) ≡ h ++ z
  parts-aad =
      ap (λ t. t ++ drop (50 + (m + 16)) (parts h ct tag z)) (take_at 50 h _ hh)
      ∙ ap (◌++◌ h) parts-padding

-- The length of a layer's ciphertext with its tag.
abbrev pub sealed_len : Bytes → ℕ
sealed_len layer = suc (suc (suc (length layer))) + 16

-- The zeros that fill a cell up behind a layer.
abbrev pub zeros_after : Bytes → Bytes
zeros_after layer = replicate (1024 - (50 + sealed_len layer)) 0

-- `bytes` is the layer that `keys` seal around `layer`.
pub record Sealed (aead : Aead) (keys : HopKeys) (direction : Direction) (sequence layer_type : ℕ)
    (layer bytes : Bytes) : Type 0 where
  pub ciphertext : Bytes
  pub tag : Bytes
  pub shape :
      bytes ≡ encode_cell_header keys direction sequence (sealed_len layer) ++ (ciphertext ++ tag)
  pub ciphertext_length : length ciphertext ≡ suc (suc (suc (length layer)))
  pub tag_length : length tag ≡ 16
  pub decrypted :
      aead.decrypt
        (key_and_nonce keys direction sequence).0
        (key_and_nonce keys direction sequence).1
        (encode_cell_header keys direction sequence (sealed_len layer) ++ zeros_after layer)
        ciphertext
        tag
      ≡ some (layer_type ∷ (be_bytes 2 (length layer) ++ layer))

module _ (aead : Aead) (lawful : IsLawful aead) where
  -- A layer of at most 955 bytes is sealed.
  pub seal_compact-Sealed :
      (keys : HopKeys) (direction : Direction) (sequence layer_type : ℕ) (layer : Bytes)
      → length layer ≤ 955
      → (bytes : Bytes) × (seal_compact aead keys direction sequence layer_type layer ≡ ok bytes)
        × Sealed aead keys direction sequence layer_type layer bytes
  unfolding seal_compact
  seal_compact-Sealed keys direction sequence layer_type layer h =
      let kn : Bytes × Bytes = key_and_nonce keys direction sequence in
      let e : Encrypts aead kn.0 kn.1
          (encode_cell_header keys direction sequence (sealed_len layer) ++ zeros_after layer)
          (layer_type ∷ (be_bytes 2 (length layer) ++ layer)) =
        lawful _ _ _ _ in
      (
        encode_cell_header keys direction sequence (sealed_len layer) ++ (e.ciphertext ++ e.tag),
        ground (arith, e.encrypted),
        record {
          ciphertext = e.ciphertext;
          tag = e.tag;
          shape = refl;
          ciphertext_length = e.same_length;
          tag_length = e.tag_length;
          decrypted = e.decrypted;
        },
      )

module _ {aead : Aead} {keys : HopKeys} {direction : Direction} {sequence layer_type : ℕ}
    {layer bytes : Bytes} (sealed : Sealed aead keys direction sequence layer_type layer bytes)
    (well_formed : IsWellFormed keys) (sequence_u64 : sequence < 256 ^ 8)
    (bounded : length layer ≤ 955) where
  abbrev header : Bytes
  header = encode_cell_header keys direction sequence (sealed_len layer)

  header_length : length header ≡ 50
  header_length =
      length-encode keys direction sequence (sealed_len layer) well_formed.circuit_id_length

  -- It is 69 bytes longer than what it holds.
  pub length-Sealed : length bytes ≡ length layer + 69
  length-Sealed =
      ap length sealed.shape
      ∙ omega (
        arith,
        length-append header (sealed.ciphertext ++ sealed.tag),
        length-append sealed.ciphertext sealed.tag,
        header_length,
        sealed.ciphertext_length,
        sealed.tag_length,
      )

  -- The cell around it.
  abbrev pub cell : Bytes
  cell = bytes ++ zeros_after layer

  filled : Bytes
  filled = parts header sealed.ciphertext sealed.tag (zeros_after layer)

  cell-split : cell ≡ header ++ ((sealed.ciphertext ++ sealed.tag) ++ zeros_after layer)
  cell-split = ap (λ b. b ++ zeros_after layer) sealed.shape ∙ append_assoc header _ _

  cell-filled : cell ≡ filled
  unfolding filled
  cell-filled = cell-split ∙ ap (◌++◌ header) (append_assoc sealed.ciphertext _ _)

  parse-cell :
      parse_cell_header cell
      ≡ ok (record {
        direction = direction;
        circuit_id = keys.circuit_id;
        epoch = keys.epoch;
        expires_at = keys.expires_at;
        sequence = sequence;
        ciphertext_len = sealed_len layer;
      })
  parse-cell =
      ap parse_cell_header
        (cell-split ∙ encode-laid_out keys direction sequence (sealed_len layer) _)
      ∙ parse-laid_out keys direction sequence (sealed_len layer) _ well_formed sequence_u64
          (omega arith) (omega arith)
          (ap nonzero (
              drop_at (sealed_len layer) (sealed.ciphertext ++ sealed.tag) (zeros_after layer) (
                omega (
                  arith,
                  length-append sealed.ciphertext sealed.tag,
                  sealed.ciphertext_length,
                  sealed.tag_length,
                )))
            ∙ nonzero-replicate (1024 - (50 + sealed_len layer)))

  -- A hop that holds the keys, whose window admits the number, finds what was sealed.
  pub try_open-Sealed :
      (w : ReplayWindow) (now : ℕ)
      → check w sequence ≡ ok tt
      → now < keys.expires_at
      → try_open aead keys w cell direction now ≡ (
          decode_layer (layer_type ∷ (be_bytes 2 (length layer) ++ layer)) >>= λ opened.
          ok (sequence, opened))
  unfolding try_open filled
  try_open-Sealed w now admitted fresh =
      let m : ℕ = suc (suc (suc (length layer))) in
      let hc = sealed.ciphertext_length in
      let e1 =
        ap (slice 50 (50 + (m + 16) - 16)) cell-filled
        ∙ parts-ciphertext header sealed.ciphertext sealed.tag (zeros_after layer) m header_length
            hc sealed.tag_length in
      let e2 =
        ap (slice (50 + (m + 16) - 16) (50 + (m + 16))) cell-filled
        ∙ parts-tag header sealed.ciphertext sealed.tag (zeros_after layer) m header_length hc
            sealed.tag_length in
      let e3 =
        ap (λ c. take 50 c ++ drop (50 + (m + 16)) c) cell-filled
        ∙ parts-aad header sealed.ciphertext sealed.tag (zeros_after layer) m header_length hc
            sealed.tag_length in
      rw
        (
          parse-cell,
          (bytes_beq_iff keys.circuit_id keys.circuit_id).1 refl,
          ==_refl keys.epoch,
          ==_refl keys.expires_at,
          direction_eq_refl direction,
          lt→leb_false now keys.expires_at fresh,
          admitted,
          e1,
          e2,
          e3,
          sealed.decrypted,
        )
        refl

  -- The cell is what `WireCell::from_compact` makes.
  pub from_compact-Sealed : from_compact bytes ≡ ok cell
  unfolding from_compact
  from_compact-Sealed =
      let padding : replicate (1024 - length bytes) 0 ≡ zeros_after layer =
        ap (λ k. replicate k 0) (omega (arith, length-Sealed)) in
      rw (padding, parse-cell, length-Sealed) (ground arith)

  -- `WireCell::compact` takes the zeros off again.
  pub compact-cell : compact cell ≡ ok bytes
  unfolding compact
  compact-cell =
      rw parse-cell (ap ok (take_at (50 + sealed_len layer) bytes _ (omega (arith, length-Sealed))))

-- The last layer is decoded to what was sealed.
pub decode_layer-terminal :
    (t : CellType) (layer : Bytes)
    → length layer ≤ 955
    → decode_layer (cell_type_byte t ∷ (be_bytes 2 (length layer) ++ layer))
      ≡ ok (OpenedLayer.terminal t layer)
unfolding decode_layer
decode_layer-terminal t layer h =
    let e = from_be-be_bytes_two (length layer) (omega arith) in
    rw (e, cell_type_byte_ne_zero t, cell_type_round_trip t) (ground arith)

-- An inner layer is decoded to the cell around it.
pub decode_layer-forward :
    (layer : Bytes) (inner : Bytes)
    → length layer ≤ 955
    → from_compact layer ≡ ok inner
    → decode_layer (0 ∷ (be_bytes 2 (length layer) ++ layer)) ≡ ok (OpenedLayer.forward inner)
unfolding decode_layer
decode_layer-forward layer inner h e =
    let len = from_be-be_bytes_two (length layer) (omega arith) in rw (len, e) (ground arith)
