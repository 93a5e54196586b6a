-- ===== src/Onion/Cell/Receiver.antt =====
-- A receiver over a run of cells, in whatever order and however often they arrive.
use peerless_sysytem_fw.Prelude.{
  ℕ, ◌<◌, ◌≡◌, refl, false, List, [], ◌∷◌, Result, ok, err, arith, Result-cases, inl, inr,
}
use peerless_sysytem_fw.Prelude.Slots.{seen}
use peerless_sysytem_fw.Onion.Defs.{OnionError, Direction}
use peerless_sysytem_fw.Onion.Replay.{ReplayWindow, check}
use peerless_sysytem_fw.Onion.Replay.History.{
  Tracks, fresh, commit-Tracks, check-InReach, check_unseen,
}
use peerless_sysytem_fw.Onion.Cell.{
  Aead, HopKeys, HopReceiver, new_receiver, WireCell, OpenedLayer, CellHeader, parse_cell_header,
  try_open, open_layer, receive,
}

-- What an opened layer says of its cell.
pub record OpenedAs (keys : HopKeys) (window : ReplayWindow) (c : WireCell) (now s : ℕ)
    : Type 0 where
  pub header : CellHeader
  pub parsed : parse_cell_header c ≡ ok header
  pub numbered : header.sequence ≡ s
  pub admitted : check window s ≡ ok tt
  pub unexpired : now < header.expires_at
  pub same_epoch : header.epoch ≡ keys.epoch

pub try_open-OpenedAs :
    (aead : Aead) (keys : HopKeys) (w : ReplayWindow) (c : WireCell) (d : Direction) (now : ℕ)
    {s : ℕ} {o : OpenedLayer}
    → try_open aead keys w c d now ≡ ok (s, o)
    → OpenedAs keys w c now s
unfolding try_open
try_open-OpenedAs aead keys w c d now h = elim (Result-cases (parse_cell_header c)) [
  | inl (header, p) ↦ record {
    header = header;
    parsed = p;
    numbered = ground arith;
    admitted = ground arith;
    unexpired = ground arith;
    same_epoch = ground arith;
  }
  | inr (e, p) ↦ absurd (ground arith)
]

-- The sequence number in a cell's header goes before those of the earlier cells.
abbrev with_number : Result OnionError CellHeader → List ℕ → List ℕ
with_number (ok header) history = header.sequence ∷ history
with_number (err e) history = history

abbrev pub note : WireCell → Result OnionError OpenedLayer → List ℕ → List ℕ
note c (ok opened) history = with_number (parse_cell_header c) history
note c (err e) history = history

-- The numbers of the cells that were opened, newest first, and the receiver after the run.
unfoldable pub feed : Aead → HopReceiver → List (WireCell × ℕ) → List ℕ → List ℕ × HopReceiver
feed aead r [] history = (history, r)
feed aead r ((c, now) ∷ cells) history =
    let (opened, r') = receive aead r c now in feed aead r' cells (note c opened history)

abbrev pub Distinct : List ℕ → Type 0
Distinct [] = Unit {0}
Distinct (s ∷ history) = (seen s history ≡ false) × Distinct history

abbrev IsSound : List ℕ → HopReceiver → Type 0
IsSound history r = Tracks history r.window × Distinct history

receive-IsSound :
    (aead : Aead) (r : HopReceiver) (c : WireCell) (now : ℕ) (history : List ℕ)
    → IsSound history r
    → let (opened, r') = receive aead r c now in IsSound (note c opened history) r'
unfolding receive open_layer
receive-IsSound aead r c now history (tracks, distinct) =
    elim (Result-cases (try_open aead r.keys r.window c r.expected_direction now)) [
      | inl ((s, o), e) ↦
          let found = try_open-OpenedAs aead r.keys r.window c r.expected_direction now e in
          rw (e, found.parsed, found.numbered, receive, open_layer)
            (
              commit-Tracks history r.window s tracks (check-InReach r.window s found.admitted),
              (check_unseen history r.window s tracks found.admitted, distinct),
            )
      | inr (x, e) ↦ rw (e, receive, open_layer) (tracks, distinct)
    ]

feed-IsSound :
    (aead : Aead) (r : HopReceiver) (cells : List (WireCell × ℕ)) (history : List ℕ)
    → IsSound history r
    → let (h, r') = feed aead r cells history in IsSound h r'
unfolding feed
feed-IsSound aead r [] history sound = sound
feed-IsSound aead r ((c, now) ∷ cells) history sound =
    feed-IsSound aead (receive aead r c now).1 cells (note c (receive aead r c now).0 history)
      (receive-IsSound aead r c now history sound)

-- Whatever cells arrive at a new receiver, in whatever order and at whatever times, no two of those
-- that it opens carry the same sequence number.
pub feed-Distinct :
    (aead : Aead) (keys : HopKeys) (d : Direction) (cells : List (WireCell × ℕ))
    → Distinct (feed aead (new_receiver keys d) cells []).0
feed-Distinct aead keys d cells =
    (feed-IsSound aead (new_receiver keys d) cells [] (fresh refl refl, tt)).1
