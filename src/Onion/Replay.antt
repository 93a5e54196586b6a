-- ===== src/Onion/Replay.antt =====
-- `ReplayWindow` of crates/peerless-onion-protocol/src/lib.rs: which sequence numbers a hop accepts.
-- The `u128` bitmap is the function from a bit's position to the bit; a shift to the left drops bits past 127.
pub mod History
use peerless_sysytem_fw.Prelude.{
  ℕ, ◌+◌, ◌-◌, ◌%◌, Bool, true, false, ◌&&◌, ◌||◌, Option, none, some, Result, ok, err, ltb, leb,
  ◌==◌, if◌then◌else◌,
}
use peerless_sysytem_fw.Onion.Defs.{OnionError, max_future_sequence_jump, replay_window_bits}

abbrev pub U128 : Type 0
U128 = ℕ → Bool

-- `1u128 << d`, which takes the distance modulo 128. A build that checks for overflow stops there
-- instead at a distance of 128 or more.
abbrev pub one_shl : ℕ → U128
one_shl d i = i == d % 128

-- `b << s`.
abbrev pub shl : U128 → ℕ → U128
shl b s i = ltb i 128 && (leb s i && b (i - s))

-- `a | b`.
abbrev pub or_bits : U128 → U128 → U128
or_bits a b i = a i || b i

pub record ReplayWindow : Type 0 where
  pub highest : Option ℕ
  pub bitmap : U128

-- `ReplayWindow::default()`.
abbrev pub empty_window : ReplayWindow
empty_window = record { highest = none; bitmap = λ i. false }

-- `bitmap & (1 << distance) != 0` reads one bit.
unfoldable pub check : ReplayWindow → ℕ → Result OnionError (Unit {0})
check w sequence = elim w.highest [
  | none ↦ if sequence == 0 then ok tt else err OnionError.out_of_window
  | some highest ↦
      if ltb highest sequence
      then (if leb (sequence - highest) max_future_sequence_jump
          then ok tt
          else err OnionError.out_of_window)
      else if leb replay_window_bits (highest - sequence)
      then err OnionError.out_of_window
      else if w.bitmap (highest - sequence)
      then err OnionError.replay
      else ok tt
]

unfoldable pub commit : ReplayWindow → ℕ → ReplayWindow
commit w sequence = elim w.highest [
  | none ↦ record { highest = some sequence; bitmap = one_shl 0 }
  | some highest ↦
      if ltb highest sequence
      then record {
        highest = some sequence;
        bitmap =
            if leb replay_window_bits (sequence - highest)
            then one_shl 0
            else or_bits (shl w.bitmap (sequence - highest)) (one_shl 0);
      }
      else record {
        highest = some highest;
        bitmap = or_bits w.bitmap (one_shl (highest - sequence));
      }
]
