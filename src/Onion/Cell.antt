-- ===== src/Onion/Cell.antt =====
-- Cells and layers of crates/peerless-onion-protocol/src/lib.rs: `HopKeys`, `WireCell`, the header
-- codec, `seal_compact`, `open_layer`, and the senders and receivers built on them. ChaCha20Poly1305
-- is a parameter. A `[u8; n]` is a byte string; its length is part of `IsWellFormed`.
pub mod Codec
pub mod Layer
pub mod Receiver
use peerless_sysytem_fw.Prelude.{
  ℕ, zero, suc, ◌+◌, ◌-◌, ◌^◌, Bool, true, false, ◌||◌, not, Option, none, some, List, [], ◌∷◌,
  ◌++◌, Bytes, Result, ok, err, ◌>>=◌, ◌>>◌, fail_if, ltb, leb, ◌==◌, if◌then◌else◌, length, take,
  drop, replicate, any, be_bytes, from_be, slice, byte_at,
}
use peerless_sysytem_fw.Prelude.Equality.{bytes_beq}
use peerless_sysytem_fw.Onion.Defs.{
  OnionError, Direction, direction_byte, direction_of_byte, direction_eq, CellType, cell_type_byte,
  cell_type_of_byte, protocol_version, cell_size, cell_header_size, tag_size, layer_header_size,
  max_layer_data, max_hops,
}
use peerless_sysytem_fw.Onion.Replay.{ReplayWindow, empty_window, check, commit}

-- `encrypt_in_place_detached` gives the ciphertext and the tag, `decrypt_in_place_detached` the
-- plaintext if the tag fits. The arguments are the key, the nonce, the associated data, the text.
pub record Aead : Type 0 where
  pub encrypt : Bytes → Bytes → Bytes → Bytes → Option (Bytes × Bytes)
  pub decrypt : Bytes → Bytes → Bytes → Bytes → Bytes → Option Bytes

pub record HopKeys : Type 0 where
  pub circuit_id : Bytes
  pub hop : ℕ
  pub epoch : ℕ
  pub expires_at : ℕ
  pub forward_key : Bytes
  pub reverse_key : Bytes
  pub forward_nonce_prefix : Bytes
  pub reverse_nonce_prefix : Bytes

unfoldable pub key_and_nonce : HopKeys → Direction → ℕ → Bytes × Bytes
key_and_nonce keys Direction.forward sequence =
    (keys.forward_key, keys.forward_nonce_prefix ++ be_bytes 8 sequence)
key_and_nonce keys Direction.reverse sequence =
    (keys.reverse_key, keys.reverse_nonce_prefix ++ be_bytes 8 sequence)

-- `b"PLC1"`.
abbrev pub cell_magic : Bytes
cell_magic = b'P' ∷ b'L' ∷ b'C' ∷ b'1' ∷ []

pub record CellHeader : Type 0 where
  pub direction : Direction
  pub circuit_id : Bytes
  pub epoch : ℕ
  pub expires_at : ℕ
  pub sequence : ℕ
  pub ciphertext_len : ℕ

unfoldable pub encode_cell_header : HopKeys → Direction → ℕ → ℕ → Bytes
encode_cell_header keys direction sequence ciphertext_len =
    cell_magic
    ++ (be_bytes 2 protocol_version
        ++ (1
            ∷ direction_byte direction
            ∷ (keys.circuit_id
                ++ (be_bytes 8 keys.epoch
                    ++ (be_bytes 8 keys.expires_at
                        ++ (be_bytes 8 sequence ++ be_bytes 2 ciphertext_len))))))

-- Some byte is not zero.
abbrev pub nonzero : Bytes → Bool
nonzero = any (λ b. not (b == 0))

unfoldable pub parse_cell_header : Bytes → Result OnionError CellHeader
parse_cell_header bytes = do
  fail_if (not (bytes_beq (take 4 bytes) cell_magic) || not (byte_at bytes 6 == 1))
      OnionError.invalid_encoding
  fail_if (not (from_be (slice 4 6 bytes) == protocol_version)) OnionError.unsupported_version
  let ciphertext_len = from_be (slice 48 50 bytes)
  let compact_len = cell_header_size + ciphertext_len
  fail_if
      (ltb ciphertext_len (tag_size + layer_header_size)
        || (ltb cell_size compact_len || nonzero (drop compact_len bytes)))
      OnionError.invalid_encoding
  direction ← direction_of_byte (byte_at bytes 7)
  ok (record {
    direction = direction;
    circuit_id = slice 8 24 bytes;
    epoch = from_be (slice 24 32 bytes);
    expires_at = from_be (slice 32 40 bytes);
    sequence = from_be (slice 40 48 bytes);
    ciphertext_len = ciphertext_len;
  })

-- `WireCell` is its 1024 bytes.
abbrev pub WireCell : Type 0
WireCell = Bytes

unfoldable pub cell_from_bytes : Bytes → Result OnionError WireCell
cell_from_bytes bytes = do
  fail_if (not (length bytes == cell_size)) OnionError.invalid_encoding
  parse_cell_header bytes
  ok bytes

unfoldable pub from_compact : Bytes → Result OnionError WireCell
from_compact compact = do
  fail_if
      (ltb cell_size (length compact)
        || ltb (length compact) (cell_header_size + tag_size + layer_header_size))
      OnionError.invalid_encoding
  let bytes = compact ++ replicate (cell_size - length compact) 0
  parse_cell_header bytes
  ok bytes

unfoldable pub compact : WireCell → Result OnionError Bytes
compact cell = do
  header ← parse_cell_header cell
  ok (take (cell_header_size + header.ciphertext_len) cell)

-- `map_err(|_| AuthenticationFailed)`.
abbrev pub or_unauthentic : {A : Type 0} → Option A → Result OnionError A
or_unauthentic none = err OnionError.authentication_failed
or_unauthentic (some a) = ok a

pub data OpenedLayer : Type 0 where
  forward : WireCell → OpenedLayer
  terminal : CellType → Bytes → OpenedLayer

-- What stands behind the authenticated plaintext.
unfoldable pub decode_layer : Bytes → Result OnionError OpenedLayer
decode_layer plaintext = do
  fail_if (ltb (length plaintext) layer_header_size) OnionError.invalid_encoding
  fail_if (not (from_be (slice 1 3 plaintext) == length plaintext - layer_header_size))
      OnionError.invalid_encoding
  let layer = drop layer_header_size plaintext
  if byte_at plaintext 0 == 0
      then (from_compact layer >>= λ inner. ok (OpenedLayer.forward inner))
      else (cell_type_of_byte (byte_at plaintext 0) >>= λ t. ok (OpenedLayer.terminal t layer))

module _ (aead : Aead) where
  unfoldable pub seal_compact : HopKeys → Direction → ℕ → ℕ → Bytes → Result OnionError Bytes
  seal_compact keys direction sequence layer_type layer = do
    fail_if (ltb max_layer_data (length layer)) OnionError.payload_too_large
    let plaintext = layer_type ∷ (be_bytes 2 (length layer) ++ layer)
    let ciphertext_len = length plaintext + tag_size
    let header = encode_cell_header keys direction sequence ciphertext_len
    let aad = header ++ replicate (cell_size - (cell_header_size + ciphertext_len)) 0
    let kn = key_and_nonce keys direction sequence
    sealed ← or_unauthentic (aead.encrypt kn.0 kn.1 aad plaintext)
    ok (header ++ (sealed.0 ++ sealed.1))

  -- The tests of `open_layer`, in the code's order, without the write to the window.
  unfoldable pub try_open :
      HopKeys → ReplayWindow → WireCell → Direction → ℕ → Result OnionError (ℕ × OpenedLayer)
  try_open keys window cell expected_direction now = do
    header ← parse_cell_header cell
    fail_if
        (not (direction_eq header.direction expected_direction)
          || (not (bytes_beq header.circuit_id keys.circuit_id)
              || (not (header.epoch == keys.epoch) || not (header.expires_at == keys.expires_at))))
        OnionError.wrong_scope
    fail_if (leb header.expires_at now) OnionError.expired
    check window header.sequence
    let ciphertext_end = cell_header_size + header.ciphertext_len
    let tag_start = ciphertext_end - tag_size
    let ciphertext = slice cell_header_size tag_start cell
    let tag = slice tag_start ciphertext_end cell
    let aad = take cell_header_size cell ++ drop ciphertext_end cell
    let kn = key_and_nonce keys header.direction header.sequence
    plaintext ← or_unauthentic (aead.decrypt kn.0 kn.1 aad ciphertext tag)
    opened ← decode_layer plaintext
    ok (header.sequence, opened)

  -- A layer that opens is entered into the window; every error leaves the window as it was.
  unfoldable pub open_layer :
      HopKeys
      → ReplayWindow
      → WireCell
      → Direction
      → ℕ
      → Result OnionError OpenedLayer × ReplayWindow
  open_layer keys window cell expected_direction now =
      elim (try_open keys window cell expected_direction now) [
        | ok (sequence, opened) ↦ (ok opened, commit window sequence)
        | err e ↦ (err e, window)
      ]

pub record HopReceiver : Type 0 where
  pub keys : HopKeys
  pub expected_direction : Direction
  pub window : ReplayWindow

-- `HopReceiver::new`.
abbrev pub new_receiver : HopKeys → Direction → HopReceiver
new_receiver keys direction = record {
  keys = keys;
  expected_direction = direction;
  window = empty_window;
}

-- `HopReceiver::open`.
unfoldable pub receive :
    Aead → HopReceiver → WireCell → ℕ → Result OnionError OpenedLayer × HopReceiver
receive aead r cell now =
    let (opened, window) = open_layer aead r.keys r.window cell r.expected_direction now in
    (opened, record r { window = window })
