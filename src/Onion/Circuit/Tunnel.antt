-- ===== src/Onion/Circuit/Tunnel.antt =====
-- A cell from a sender through every relay of its circuit to the last hop.
use peerless_sysytem_fw.Prelude.{
  ℕ, suc, ◌+◌, ◌*◌, ◌^◌, ◌≤◌, ◌<◌, ◌≡◌, refl, ap, ◌∙◌, List, [], ◌∷◌, ◌++◌, map, Bytes, Result, ok,
  err, ◌>>=◌, arith, length, All, lt→ltb,
}
use peerless_sysytem_fw.Onion.Defs.{
  OnionError, Direction, CellType, cell_type_byte, max_payload_for_hops,
}
use peerless_sysytem_fw.Onion.Replay.{check}
use peerless_sysytem_fw.Onion.Cell.{
  Aead, HopKeys, HopReceiver, receive, OpenedLayer, WireCell, open_layer, try_open, from_compact,
}
use peerless_sysytem_fw.Onion.Cell.Codec.{IsWellFormed}
use peerless_sysytem_fw.Onion.Cell.Layer.{
  IsLawful, seal_compact-Sealed, try_open-Sealed, from_compact-Sealed, length-Sealed,
  decode_layer-terminal, decode_layer-forward, zeros_after,
}
use peerless_sysytem_fw.Onion.Circuit.{CircuitSender, seal_layers, try_seal, seal, next_u64}

-- Each hop opens the cell that the hop before it took out; only the last may find a terminal layer.
pub deliver : Aead → List HopReceiver → WireCell → ℕ → Result OnionError (CellType × Bytes)
deliver aead [] c now = err OnionError.hop_limit
deliver aead (r ∷ []) c now = elim (receive aead r c now).0 [
  | ok (OpenedLayer.terminal t payload) ↦ ok (t, payload)
  | ok (OpenedLayer.forward inner) ↦ err OnionError.hop_limit
  | err e ↦ err e
]
deliver aead (r ∷ next ∷ rest) c now = elim (receive aead r c now).0 [
  | ok (OpenedLayer.terminal t payload) ↦ err OnionError.hop_limit
  | ok (OpenedLayer.forward inner) ↦ deliver aead (next ∷ rest) inner now
  | err e ↦ err e
]

abbrev pub keys_of : List HopReceiver → List HopKeys
keys_of = map (λ r. r.keys)

-- A hop that will take number `sequence` in the direction at the time `now`.
pub record IsReady (direction : Direction) (sequence now : ℕ) (r : HopReceiver) : Type 0 where
  pub well_formed : IsWellFormed r.keys
  pub same_direction : r.expected_direction ≡ direction
  pub admits : check r.window sequence ≡ ok tt
  pub unexpired : now < r.keys.expires_at

receive-ok :
    (aead : Aead) (r : HopReceiver) (c : WireCell) (direction : Direction) (now sequence : ℕ)
    (opened : OpenedLayer)
    → r.expected_direction ≡ direction
    → try_open aead r.keys r.window c direction now ≡ ok (sequence, opened)
    → (receive aead r c now).0 ≡ ok opened
unfolding receive open_layer
receive-ok aead r c direction now sequence opened e h =
    let h' = ap (λ d. try_open aead r.keys r.window c d now) e ∙ h in
    rw (h', receive, open_layer) refl

module _ (aead : Aead) (lawful : IsLawful aead) (direction : Direction) (sequence now : ℕ)
    (t : CellType) (payload : Bytes) (sequence_u64 : sequence < 256 ^ 8) where
  record Tunnelled (r : HopReceiver) (rs : List HopReceiver) : Type 0 where
    bytes : Bytes
    sealed :
        seal_layers aead (r.keys ∷ keys_of rs) direction sequence (cell_type_byte t) payload
        ≡ ok bytes
    bytes_length : length bytes ≡ length payload + 69 * suc (length rs)
    cell_of : Bytes
    compacted : from_compact bytes ≡ ok cell_of
    delivered : deliver aead (r ∷ rs) cell_of now ≡ ok (t, payload)

  tunnel :
      (r : HopReceiver) (rs : List HopReceiver)
      → IsReady direction sequence now r
      → All (IsReady direction sequence now) rs
      → length payload + 69 * length rs ≤ 955
      → Tunnelled r rs
  unfolding seal_layers deliver
  tunnel r [] ready _ h =
      let (bytes, e, sealed) =
        seal_compact-Sealed aead lawful r.keys direction sequence (cell_type_byte t) payload
          (omega arith) in
      record {
        bytes = bytes;
        sealed = e;
        bytes_length =
            omega (arith, length-Sealed sealed ready.well_formed sequence_u64 (omega arith));
        cell_of = bytes ++ zeros_after payload;
        compacted = from_compact-Sealed sealed ready.well_formed sequence_u64 (omega arith);
        delivered =
            rw
              (
                receive-ok aead r _ direction now sequence (OpenedLayer.terminal t payload)
                    ready.same_direction
                    (try_open-Sealed sealed ready.well_formed sequence_u64 (omega arith) r.window
                        now ready.admits ready.unexpired
                      ∙ ap (λ d. d >>= λ o. ok (sequence, o))
                          (decode_layer-terminal t payload (omega arith))),
                deliver,
              )
              refl;
      }
  tunnel r (r' ∷ rs) ready (ready', readies) h =
      let inner = tunnel r' rs ready' readies (omega arith) in
      let (bytes, e, sealed) =
        seal_compact-Sealed aead lawful r.keys direction sequence 0 inner.bytes
          (omega (arith, inner.bytes_length)) in
      record {
        bytes = bytes;
        sealed = rw inner.sealed e;
        bytes_length = omega (
          arith,
          inner.bytes_length,
          length-Sealed sealed ready.well_formed sequence_u64 (omega (arith, inner.bytes_length)),
        );
        cell_of = bytes ++ zeros_after inner.bytes;
        compacted =
            from_compact-Sealed sealed ready.well_formed sequence_u64
              (omega (arith, inner.bytes_length));
        delivered =
            rw
              (
                receive-ok aead r _ direction now sequence (OpenedLayer.forward inner.cell_of)
                    ready.same_direction
                    (try_open-Sealed sealed ready.well_formed sequence_u64
                        (omega (arith, inner.bytes_length)) r.window now ready.admits
                        ready.unexpired
                      ∙ ap (λ d. d >>= λ o. ok (sequence, o))
                          (decode_layer-forward inner.bytes inner.cell_of
                            (omega (arith, inner.bytes_length)) inner.compacted)),
                deliver,
              )
              inner.delivered;
      }

payload_room : (hops m : ℕ) → max_payload_for_hops (suc hops) ≡ ok m → m + 69 * hops ≤ 955
unfolding max_payload_for_hops
payload_room hops m h = ground arith

-- With a lawful cipher, on a circuit of one to three hops whose keys the sender has in order: a payload
-- within `max_payload_for_hops` is sealed, if the sequence number does not overflow, and the sender
-- moves on to the next number. If every hop is ready for the number, each hop before the last takes
-- out the cell for the next one, and the last takes out the type and the payload that were sealed.
pub seal-deliver :
    (aead : Aead) (s : CircuitSender) (r : HopReceiver) (rs : List HopReceiver) (now m : ℕ)
    (t : CellType) (payload : Bytes)
    → IsLawful aead
    → s.traversal_keys ≡ keys_of (r ∷ rs)
    → All (IsReady s.direction s.next_sequence now) (r ∷ rs)
    → max_payload_for_hops (length (r ∷ rs)) ≡ ok m
    → length payload ≤ m
    → s.next_sequence + 1 < 2 ^ 64
    → (sent : WireCell) × (seal aead s t payload
        ≡ (ok sent, record s { next_sequence = s.next_sequence + 1 }))
      × (deliver aead (r ∷ rs) sent now ≡ ok (t, payload))
unfolding seal try_seal next_u64
seal-deliver aead s r rs now m t payload lawful same (ready, readies) room fits counted =
    let tun =
      tunnel aead lawful s.direction s.next_sequence now t payload (omega arith) r rs ready readies
        (omega (arith, payload_room (length rs) m room)) in
    let e : seal_layers aead s.traversal_keys s.direction s.next_sequence (cell_type_byte t) payload
        ≡ ok tun.bytes =
      rw same tun.sealed in
    (
      tun.cell_of,
      rw (e, tun.compacted, lt→ltb _ _ counted, seal, try_seal, next_u64) refl,
      tun.delivered,
    )
