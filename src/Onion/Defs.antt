-- ===== src/Onion/Defs.antt =====
-- Errors, limits and the two tag enumerations of crates/peerless-onion-protocol/src/lib.rs.
-- `usize` and `u64` values are native numbers; the limits below keep every sum in range.
use peerless_sysytem_fw.Prelude.{
  ℕ, ◌+◌, ◌-◌, ◌*◌, Bool, ◌||◌, Result, ok, err, ltb, ◌==◌, if◌then◌else◌,
}

pub data OnionError : Type 0 where
  unsupported_version invalid_encoding expired transcript_mismatch : OnionError
  key_agreement_failed authentication_failed wrong_scope replay : OnionError
  out_of_window hop_limit payload_too_large fragment_capacity : OnionError

abbrev pub protocol_version : ℕ
protocol_version = 1

abbrev pub setup_request_size : ℕ
setup_request_size = 128

abbrev pub setup_response_size : ℕ
setup_response_size = 160

abbrev pub cell_size : ℕ
cell_size = 1024

abbrev pub max_hops : ℕ
max_hops = 3

abbrev pub max_fragment_count : ℕ
max_fragment_count = 1024

abbrev pub max_message_size : ℕ
max_message_size = 512 * 1024

abbrev pub cell_header_size : ℕ
cell_header_size = 50

abbrev pub tag_size : ℕ
tag_size = 16

abbrev pub layer_header_size : ℕ
layer_header_size = 3

abbrev pub max_layer_data : ℕ
max_layer_data = cell_size - cell_header_size - tag_size - layer_header_size

abbrev pub max_future_sequence_jump : ℕ
max_future_sequence_jump = 64

abbrev pub replay_window_bits : ℕ
replay_window_bits = 128

abbrev pub max_inflight_messages : ℕ
max_inflight_messages = 16

abbrev pub fragment_header_size : ℕ
fragment_header_size = 16 + 4 + 4 + 4

-- `checked_sub` fails where the subtrahend is larger.
unfoldable pub max_payload_for_hops : ℕ → Result OnionError ℕ
max_payload_for_hops hops =
    if hops == 0 || ltb max_hops hops
    then err OnionError.hop_limit
    else let overhead = (hops - 1) * (cell_header_size + tag_size + layer_header_size) in
      if ltb max_layer_data overhead
      then err OnionError.payload_too_large
      else ok (max_layer_data - overhead)

pub data Direction : Type 0 where
  forward reverse : Direction

-- `direction as u8`.
unfoldable pub direction_byte : Direction → ℕ
direction_byte Direction.forward = 1
direction_byte Direction.reverse = 2

unfoldable pub direction_of_byte : ℕ → Result OnionError Direction
direction_of_byte b =
    if b == 1
    then ok Direction.forward
    else if b == 2
    then ok Direction.reverse
    else err OnionError.invalid_encoding

unfoldable pub direction_eq : Direction → Direction → Bool
direction_eq a b = direction_byte a == direction_byte b

pub data CellType : Type 0 where
  setup cell_data padding response rotation teardown : CellType

-- `cell_type as u8`.
unfoldable pub cell_type_byte : CellType → ℕ
cell_type_byte CellType.setup = 1
cell_type_byte CellType.cell_data = 2
cell_type_byte CellType.padding = 3
cell_type_byte CellType.response = 4
cell_type_byte CellType.rotation = 5
cell_type_byte CellType.teardown = 6

unfoldable pub cell_type_of_byte : ℕ → Result OnionError CellType
cell_type_of_byte b =
    if b == 1
    then ok CellType.setup
    else if b == 2
    then ok CellType.cell_data
    else if b == 3
    then ok CellType.padding
    else if b == 4
    then ok CellType.response
    else if b == 5
    then ok CellType.rotation
    else if b == 6
    then ok CellType.teardown
    else err OnionError.invalid_encoding
