-- ===== src/Onion/Circuit.antt =====
-- `CircuitSender` and `HopDuplex` of crates/peerless-onion-protocol/src/lib.rs.
pub mod Tunnel
use peerless_sysytem_fw.Prelude.{
  ℕ, zero, suc, ◌+◌, ◌-◌, ◌^◌, Bool, true, false, ◌||◌, not, Option, none, some, List, [], ◌∷◌,
  ◌++◌, Bytes, Result, ok, err, ◌>>=◌, ◌>>◌, fail_if, ltb, leb, ◌==◌, if◌then◌else◌, length, any,
}
use peerless_sysytem_fw.Prelude.Equality.{bytes_beq}
use peerless_sysytem_fw.Onion.Defs.{OnionError, Direction, CellType, cell_type_byte, max_hops}
use peerless_sysytem_fw.Onion.Replay.{ReplayWindow, empty_window}
use peerless_sysytem_fw.Onion.Cell.{
  Aead, HopKeys, WireCell, OpenedLayer, seal_compact, from_compact, compact, open_layer,
}

pub record CircuitSender : Type 0 where
  pub traversal_keys : List HopKeys
  pub direction : Direction
  pub next_sequence : ℕ

-- The keys belong to another circuit, epoch or expiry than those of the first hop.
unfoldable pub other_scope : HopKeys → HopKeys → Bool
other_scope first key =
    not (bytes_beq key.circuit_id first.circuit_id)
    || (not (key.epoch == first.epoch) || not (key.expires_at == first.expires_at))

-- `CircuitSender::new`.
unfoldable pub new_sender : List HopKeys → Direction → Result OnionError CircuitSender
new_sender [] direction = err OnionError.hop_limit
new_sender (first ∷ rest) direction = do
  fail_if (ltb max_hops (length (first ∷ rest))) OnionError.hop_limit
  fail_if (any (other_scope first) (first ∷ rest)) OnionError.wrong_scope
  ok (record { traversal_keys = first ∷ rest; direction = direction; next_sequence = 0 })

-- `sequence.checked_add(1)` on a `u64`.
unfoldable pub next_u64 : ℕ → Result OnionError ℕ
next_u64 sequence =
    if ltb (sequence + 1) (2 ^ 64) then ok (sequence + 1) else err OnionError.out_of_window

module _ (aead : Aead) where
  -- The terminal layer under the last key, then one layer for each key before it, last to first.
  -- The code panics on an empty list of keys, which `new_sender` refuses.
  unfoldable pub seal_layers : List HopKeys → Direction → ℕ → ℕ → Bytes → Result OnionError Bytes
  seal_layers [] direction sequence layer_type payload = err OnionError.hop_limit
  seal_layers (key ∷ []) direction sequence layer_type payload =
      seal_compact aead key direction sequence layer_type payload
  seal_layers (key ∷ next ∷ rest) direction sequence layer_type payload =
      seal_layers (next ∷ rest) direction sequence layer_type payload >>= λ inner.
      seal_compact aead key direction sequence 0 inner

  -- `CircuitSender::seal`: a failure leaves the sequence number as it was.
  unfoldable pub try_seal : CircuitSender → CellType → Bytes → Result OnionError (WireCell × ℕ)
  try_seal s cell_type payload = do
    layers ←
        seal_layers s.traversal_keys s.direction s.next_sequence (cell_type_byte cell_type) payload
    cell ← from_compact layers
    next ← next_u64 s.next_sequence
    ok (cell, next)

  unfoldable pub seal :
      CircuitSender → CellType → Bytes → Result OnionError WireCell × CircuitSender
  seal s cell_type payload = elim (try_seal s cell_type payload) [
    | ok (cell, next) ↦ (ok cell, record s { next_sequence = next })
    | err e ↦ (err e, s)
  ]

pub record HopDuplex : Type 0 where
  pub keys : HopKeys
  pub forward_replay : ReplayWindow
  pub reverse_replay : ReplayWindow
  pub next_forward_sequence : ℕ
  pub next_reverse_sequence : ℕ

-- `HopDuplex::new`.
abbrev pub new_duplex : HopKeys → HopDuplex
new_duplex keys = record {
  keys = keys;
  forward_replay = empty_window;
  reverse_replay = empty_window;
  next_forward_sequence = 0;
  next_reverse_sequence = 0;
}

abbrev pub next_sequence_of : HopDuplex → Direction → ℕ
next_sequence_of d Direction.forward = d.next_forward_sequence
next_sequence_of d Direction.reverse = d.next_reverse_sequence

abbrev pub with_next_sequence : HopDuplex → Direction → ℕ → HopDuplex
with_next_sequence d Direction.forward n = record d { next_forward_sequence = n }
with_next_sequence d Direction.reverse n = record d { next_reverse_sequence = n }

module _ (aead : Aead) where
  -- `HopDuplex::open`.
  unfoldable pub duplex_open :
      HopDuplex → WireCell → Direction → ℕ → Result OnionError OpenedLayer × HopDuplex
  duplex_open d cell Direction.forward now =
      let (opened, window) = open_layer aead d.keys d.forward_replay cell Direction.forward now in
      (opened, record d { forward_replay = window })
  duplex_open d cell Direction.reverse now =
      let (opened, window) = open_layer aead d.keys d.reverse_replay cell Direction.reverse now in
      (opened, record d { reverse_replay = window })

  -- `HopDuplex::seal_layer`.
  unfoldable pub try_seal_layer :
      HopDuplex → Direction → ℕ → Bytes → Result OnionError (WireCell × ℕ)
  try_seal_layer d direction layer_type payload = do
    layers ← seal_compact aead d.keys direction (next_sequence_of d direction) layer_type payload
    cell ← from_compact layers
    next ← next_u64 (next_sequence_of d direction)
    ok (cell, next)

  unfoldable pub seal_layer :
      HopDuplex → Direction → ℕ → Bytes → Result OnionError WireCell × HopDuplex
  seal_layer d direction layer_type payload = elim (try_seal_layer d direction layer_type payload) [
    | ok (cell, next) ↦ (ok cell, with_next_sequence d direction next)
    | err e ↦ (err e, d)
  ]

  -- `HopDuplex::seal_terminal`.
  unfoldable pub seal_terminal :
      HopDuplex → Direction → CellType → Bytes → Result OnionError WireCell × HopDuplex
  seal_terminal d direction cell_type payload =
      seal_layer d direction (cell_type_byte cell_type) payload

  -- `HopDuplex::wrap`.
  unfoldable pub wrap : HopDuplex → Direction → WireCell → Result OnionError WireCell × HopDuplex
  wrap d direction inner = elim (compact inner) [
    | ok bytes ↦ seal_layer d direction 0 bytes
    | err e ↦ (err e, d)
  ]
