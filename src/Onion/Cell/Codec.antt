-- ===== src/Onion/Cell/Codec.antt =====
-- The cell header and the cell against their encoders.
use mathlib.Core.List.{append_assoc}
use peerless_sysytem_fw.Prelude.{
  ℕ, ◌+◌, ◌^◌, ◌≤◌, ◌<◌, ◌≡◌, refl, sym, ap, ◌∙◌, false, ◌∷◌, ◌++◌, Bytes, ok, arith, length, take,
  drop, be_bytes, from_be, slice, byte_at, length-append, take_at, drop_at, drop_past,
  from_be-be_bytes_two, from_be-be_bytes_eight,
}
use peerless_sysytem_fw.Onion.Defs.{
  Direction, direction_byte, direction_of_byte, CellType, cell_type_byte, cell_type_of_byte,
}
use peerless_sysytem_fw.Onion.Cell.{
  HopKeys, CellHeader, encode_cell_header, parse_cell_header, cell_magic, nonzero,
}

-- The lengths and ranges that the types of `HopKeys` state.
pub record IsWellFormed (keys : HopKeys) : Type 0 where
  pub circuit_id_length : length keys.circuit_id ≡ 16
  pub epoch_u64 : keys.epoch < 256 ^ 8
  pub expires_at_u64 : keys.expires_at < 256 ^ 8

pub direction_round_trip : (d : Direction) → direction_of_byte (direction_byte d) ≡ ok d
unfolding direction_of_byte direction_byte
direction_round_trip Direction.forward = refl
direction_round_trip Direction.reverse = refl

pub cell_type_round_trip : (t : CellType) → cell_type_of_byte (cell_type_byte t) ≡ ok t
unfolding cell_type_of_byte cell_type_byte
cell_type_round_trip CellType.setup = refl
cell_type_round_trip CellType.cell_data = refl
cell_type_round_trip CellType.padding = refl
cell_type_round_trip CellType.response = refl
cell_type_round_trip CellType.rotation = refl
cell_type_round_trip CellType.teardown = refl

-- The header is 50 bytes long.
pub length-encode :
    (keys : HopKeys) (direction : Direction) (sequence n : ℕ)
    → length keys.circuit_id ≡ 16
    → length (encode_cell_header keys direction sequence n) ≡ 50
unfolding encode_cell_header
length-encode keys direction sequence n h = omega (arith, length-append {0} keys.circuit_id)

-- A cell whose bytes stand for the fields of a header parses to that header.
parse_of_fields :
    (bytes : Bytes) (h : CellHeader)
    → (take 4 bytes ≡ cell_magic)
      × (byte_at bytes 6 ≡ 1)
      × (from_be (slice 4 6 bytes) ≡ 1)
      × (from_be (slice 48 50 bytes) ≡ h.ciphertext_len)
      × (byte_at bytes 7 ≡ direction_byte h.direction)
    → (slice 8 24 bytes ≡ h.circuit_id)
      × (from_be (slice 24 32 bytes) ≡ h.epoch)
      × (from_be (slice 32 40 bytes) ≡ h.expires_at)
      × (from_be (slice 40 48 bytes) ≡ h.sequence)
    → 19 ≤ h.ciphertext_len
    → h.ciphertext_len ≤ 974
    → nonzero (drop (50 + h.ciphertext_len) bytes) ≡ false
    → parse_cell_header bytes ≡ ok h
unfolding parse_cell_header
parse_of_fields bytes h (magic, kind, version, len, dir) (cid, epoch, expires, sequence) lo hi
      zeros =
    rw (magic, kind, version, len, dir, cid, epoch, expires, sequence, zeros, direction_round_trip)
      (ground arith)

module _ (keys : HopKeys) (direction : Direction) (sequence n : ℕ) (rest : Bytes) where
  -- The header and what follows it, field by field.
  abbrev pub laid_out : Bytes
  laid_out =
      cell_magic
      ++ (be_bytes 2 1
          ++ (1
              ∷ direction_byte direction
              ∷ (keys.circuit_id
                  ++ (be_bytes 8 keys.epoch
                      ++ (be_bytes 8 keys.expires_at
                          ++ (be_bytes 8 sequence ++ (be_bytes 2 n ++ rest)))))))

  pub encode-laid_out : encode_cell_header keys direction sequence n ++ rest ≡ laid_out
  unfolding encode_cell_header
  encode-laid_out =
      ap (λ r. cell_magic ++ (be_bytes 2 1 ++ (1 ∷ direction_byte direction ∷ r)))
        (append_assoc keys.circuit_id _ rest)

  module _ (well_formed : IsWellFormed keys) where
    laid_out-circuit_id : slice 8 24 laid_out ≡ keys.circuit_id
    laid_out-circuit_id = take_at 16 keys.circuit_id _ well_formed.circuit_id_length

    laid_out-epoch : from_be (slice 24 32 laid_out) ≡ keys.epoch
    laid_out-epoch =
        ap (λ r. from_be (take 8 r)) (drop_at 16 keys.circuit_id _ well_formed.circuit_id_length)
        ∙ from_be-be_bytes_eight keys.epoch well_formed.epoch_u64

    laid_out-expires_at : from_be (slice 32 40 laid_out) ≡ keys.expires_at
    laid_out-expires_at =
        ap (λ r. from_be (take 8 r))
          (drop_past 16 8 keys.circuit_id _ well_formed.circuit_id_length)
        ∙ from_be-be_bytes_eight keys.expires_at well_formed.expires_at_u64

    laid_out-sequence : sequence < 256 ^ 8 → from_be (slice 40 48 laid_out) ≡ sequence
    laid_out-sequence h =
        ap (λ r. from_be (take 8 r))
          (drop_past 16 16 keys.circuit_id _ well_formed.circuit_id_length)
        ∙ from_be-be_bytes_eight sequence h

    laid_out-ciphertext_len : n < 256 ^ 2 → from_be (slice 48 50 laid_out) ≡ n
    laid_out-ciphertext_len h =
        ap (λ r. from_be (take 2 r))
          (drop_past 16 24 keys.circuit_id _ well_formed.circuit_id_length)
        ∙ from_be-be_bytes_two n h

    laid_out-rest : drop (50 + n) laid_out ≡ drop n rest
    laid_out-rest =
        ap (drop (50 + n)) (sym encode-laid_out)
        ∙ drop_past 50 n (encode_cell_header keys direction sequence n) rest
            (length-encode keys direction sequence n well_formed.circuit_id_length)

    -- Parsing a header that was encoded gives back its fields.
    pub parse-laid_out :
        sequence < 256 ^ 8
        → 19 ≤ n
        → n ≤ 974
        → nonzero (drop n rest) ≡ false
        → parse_cell_header laid_out
          ≡ ok (record {
            direction = direction;
            circuit_id = keys.circuit_id;
            epoch = keys.epoch;
            expires_at = keys.expires_at;
            sequence = sequence;
            ciphertext_len = n;
          })
    parse-laid_out hs lo hi zeros =
        parse_of_fields laid_out
          (record {
            direction = direction;
            circuit_id = keys.circuit_id;
            epoch = keys.epoch;
            expires_at = keys.expires_at;
            sequence = sequence;
            ciphertext_len = n;
          })
          (refl, refl, refl, laid_out-ciphertext_len (omega arith), refl)
          (laid_out-circuit_id, laid_out-epoch, laid_out-expires_at, laid_out-sequence hs) lo hi
          (ap nonzero laid_out-rest ∙ zeros)

-- For keys with a circuit id of 16 bytes and 64-bit times, a 64-bit sequence number and a ciphertext
-- length from 19 to 974, the header that `encode_cell_header` writes, followed by bytes that are zero
-- past the ciphertext, parses to a header with exactly these fields.
pub parse-encode :
    (keys : HopKeys) (direction : Direction) (sequence n : ℕ) (rest : Bytes)
    → IsWellFormed keys
    → sequence < 256 ^ 8
    → 19 ≤ n
    → n ≤ 974
    → nonzero (drop n rest) ≡ false
    → parse_cell_header (encode_cell_header keys direction sequence n ++ rest)
      ≡ ok (record {
        direction = direction;
        circuit_id = keys.circuit_id;
        epoch = keys.epoch;
        expires_at = keys.expires_at;
        sequence = sequence;
        ciphertext_len = n;
      })
parse-encode keys direction sequence n rest w hs lo hi zeros =
    ap parse_cell_header (encode-laid_out keys direction sequence n rest)
    ∙ parse-laid_out keys direction sequence n rest w hs lo hi zeros
