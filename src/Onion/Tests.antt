-- ===== src/Onion/Tests.antt =====
-- Runs of crates/peerless-onion-protocol/src/lib.rs at concrete circuits.
use peerless_sysytem_fw.Prelude.{
  ℕ, ◌+◌, ◌≡◌, refl, none, some, [], ◌∷◌, ◌++◌, Bytes, ok, err, arith, replicate, if◌then◌else◌,
}
use peerless_sysytem_fw.Prelude.Equality.{bytes_beq}
use peerless_sysytem_fw.Onion.Defs.{
  OnionError, Direction, CellType, direction_of_byte, direction_eq, cell_type_of_byte,
  max_payload_for_hops, cell_type_byte, direction_byte,
}
use peerless_sysytem_fw.Onion.Replay.{ReplayWindow, empty_window, check, commit}
use peerless_sysytem_fw.Onion.Replay.History.{
  Tracks, fresh, allowed, check-eq-allowed, commit-Tracks,
}
use peerless_sysytem_fw.Onion.Cell.{
  receive, open_layer, try_open, decode_layer, key_and_nonce, Aead, HopKeys, HopReceiver,
  new_receiver, WireCell, parse_cell_header, encode_cell_header,
}
use peerless_sysytem_fw.Onion.Cell.Codec.{IsWellFormed, parse-encode}
use peerless_sysytem_fw.Onion.Cell.Layer.{IsLawful}
use peerless_sysytem_fw.Onion.Cell.Receiver.{feed, Distinct, feed-Distinct}
use peerless_sysytem_fw.Onion.Circuit.{CircuitSender, seal}
use peerless_sysytem_fw.Onion.Circuit.Tunnel.{deliver, IsReady, seal-deliver}

-- A cipher that leaves the text as it is, with a constant tag that decryption tests.
abbrev open_tag : Bytes
open_tag = replicate 16 7

abbrev open_aead : Aead
open_aead = record {
  encrypt = λ key nonce aad text. some (text, open_tag);
  decrypt = λ key nonce aad text tag. if bytes_beq tag open_tag then some text else none;
}

open_aead-IsLawful : IsLawful open_aead
open_aead-IsLawful key nonce aad text = record {
  ciphertext = text;
  tag = open_tag;
  encrypted = refl;
  same_length = refl;
  tag_length = refl;
  decrypted = refl;
}

abbrev keys : ℕ → HopKeys
keys hop = record {
  circuit_id = replicate 16 9;
  hop = hop;
  epoch = 3;
  expires_at = 5000;
  forward_key = replicate 32 hop;
  reverse_key = replicate 32 (hop + 1);
  forward_nonce_prefix = replicate 4 1;
  reverse_nonce_prefix = replicate 4 2;
}

keys-IsWellFormed : (hop : ℕ) → IsWellFormed (keys hop)
keys-IsWellFormed hop = record {
  circuit_id_length = refl;
  epoch_u64 = omega arith;
  expires_at_u64 = omega arith;
}

abbrev hop_receiver : ℕ → HopReceiver
hop_receiver hop = new_receiver (keys hop) Direction.forward

abbrev sender : CircuitSender
sender = record {
  traversal_keys = keys 0 ∷ keys 1 ∷ keys 2 ∷ [];
  direction = Direction.forward;
  next_sequence = 0;
}

ready : (hop : ℕ) → IsReady Direction.forward 0 1000 (hop_receiver hop)
unfolding check
ready hop = record {
  well_formed = keys-IsWellFormed hop;
  same_direction = refl;
  admits = refl;
  unexpired = omega arith;
}

room : max_payload_for_hops 3 ≡ ok 817
unfolding max_payload_for_hops
room = refl

abbrev request : Bytes
request = b'G' ∷ b'E' ∷ b'T' ∷ []

seal-deliver_example :
    (sent : WireCell) × (seal open_aead sender CellType.cell_data request
      ≡ (ok sent, record sender { next_sequence = 1 }))
    × (deliver open_aead (hop_receiver 0 ∷ hop_receiver 1 ∷ hop_receiver 2 ∷ []) sent 1000
        ≡ ok (CellType.cell_data, request))
seal-deliver_example =
    seal-deliver open_aead sender (hop_receiver 0) (hop_receiver 1 ∷ hop_receiver 2 ∷ []) 1000 817
      CellType.cell_data request open_aead-IsLawful refl (ready 0, (ready 1, (ready 2, tt))) room
      (omega arith) (omega arith)

-- A cell of one layer, number 0, with an empty payload.
abbrev first_cell : WireCell
first_cell =
    encode_cell_header (keys 0) Direction.forward 0 19
    ++ (cell_type_byte CellType.padding ∷ 0 ∷ 0 ∷ [])
    ++ open_tag
    ++ replicate 955 0

feed-Distinct_example :
    Distinct
      (feed open_aead
        (new_receiver (keys 0) Direction.forward)
        ((first_cell, 1000) ∷ (first_cell, 1001) ∷ [])
        []).0
feed-Distinct_example =
    feed-Distinct open_aead (keys 0) Direction.forward
      ((first_cell, 1000) ∷ (first_cell, 1001) ∷ [])

-- The numbers 0, 3 and 1, in that order.
abbrev used_window : ReplayWindow
used_window = commit (commit (commit empty_window 0) 3) 1

used-Tracks : Tracks (1 ∷ 3 ∷ 0 ∷ []) used_window
unfolding commit
used-Tracks =
    commit-Tracks (3 ∷ 0 ∷ []) (commit (commit empty_window 0) 3) 1
      (commit-Tracks (0 ∷ []) (commit empty_window 0) 3
        (commit-Tracks [] empty_window 0 (fresh refl refl) tt) (omega arith))
      (omega arith)

check-eq-allowed_example : check used_window 3 ≡ allowed (1 ∷ 3 ∷ 0 ∷ []) used_window.highest 3
check-eq-allowed_example = check-eq-allowed (1 ∷ 3 ∷ 0 ∷ []) used_window 3 used-Tracks

used_replay : check used_window 3 ≡ err OnionError.replay
unfolding check commit
used_replay = refl

commit-Tracks_example : Tracks (2 ∷ 1 ∷ 3 ∷ 0 ∷ []) (commit used_window 2)
unfolding commit
commit-Tracks_example = commit-Tracks (1 ∷ 3 ∷ 0 ∷ []) used_window 2 used-Tracks (omega arith)

parse-encode_example :
    parse_cell_header (encode_cell_header (keys 1) Direction.reverse 8 19 ++ replicate 19 5)
    ≡ ok (record {
      direction = Direction.reverse;
      circuit_id = replicate 16 9;
      epoch = 3;
      expires_at = 5000;
      sequence = 8;
      ciphertext_len = 19;
    })
parse-encode_example =
    parse-encode (keys 1) Direction.reverse 8 19 (replicate 19 5) (keys-IsWellFormed 1)
      (omega arith) (omega arith) (omega arith) refl

-- The second copy of the cell is not opened.
feed-first_cell :
    (feed open_aead
      (new_receiver (keys 0) Direction.forward)
      ((first_cell, 1000) ∷ (first_cell, 1001) ∷ [])
      []).0
    ≡ 0 ∷ []
unfolding feed receive open_layer try_open check commit decode_layer parse_cell_header
    encode_cell_header cell_type_byte cell_type_of_byte direction_byte direction_of_byte
    direction_eq key_and_nonce
feed-first_cell = refl
