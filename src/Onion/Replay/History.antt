-- ===== src/Onion/Replay/History.antt =====
-- The replay window against the history of the numbers that were accepted.
use peerless_sysytem_fw.Prelude.{
  ℕ, ◌+◌, ◌-◌, ◌≤◌, ◌<◌, ◌≡◌, refl, true, false, ◌||◌, Option, none, some, List, [], ◌∷◌, Result,
  ok, err, ltb, leb, ◌==◌, if◌then◌else◌, arith, Bool-cases, Option-cases, inl, inr,
}
use peerless_sysytem_fw.Prelude.Slots.{seen}
use peerless_sysytem_fw.Onion.Defs.{OnionError}
use peerless_sysytem_fw.Onion.Replay.{
  U128, ReplayWindow, empty_window, check, commit, one_shl, shl, or_bits,
}

abbrev pub Bounded : ℕ → List ℕ → Type 0
Bounded hi [] = Unit {0}
Bounded hi (x ∷ h) = (x ≤ hi) × Bounded hi h

pub Bounded-mono : {lo hi : ℕ} (h : List ℕ) → lo ≤ hi → Bounded lo h → Bounded hi h
Bounded-mono [] le b = tt
Bounded-mono (x ∷ h) le (b, bs) = (omega arith, Bounded-mono h le bs)

pub seen_above : (s hi : ℕ) (h : List ℕ) → Bounded hi h → hi < s → seen s h ≡ false
seen_above s hi [] b lt = refl
seen_above s hi (x ∷ h) (b, bs) lt = ground (arith, seen_above s hi h bs lt)

-- Bit d of the map says whether the number d below the highest has been accepted.
pub record Tracked (h : List ℕ) (hi : ℕ) (b : U128) : Type 0 where
  pub bounded : Bounded hi h
  pub reached : seen hi h ≡ true
  pub bits : (d : ℕ) → d < 128 → d ≤ hi → b d ≡ seen (hi - d) h
  pub high_bits : (d : ℕ) → hi < d → b d ≡ false

pub data Tracks (h : List ℕ) (w : ReplayWindow) : Type 0 where
  fresh : h ≡ [] → w ≡ empty_window → Tracks h w
  used : (hi : ℕ) → w.highest ≡ some hi → Tracked h hi w.bitmap → Tracks h w

-- A window by the rules of the protocol, on the history alone: the first number is 0, a number is at
-- most 64 ahead of the highest and less than 128 behind it, and no number is accepted twice.
pub allowed : List ℕ → Option ℕ → ℕ → Result OnionError (Unit {0})
allowed h none s = if s == 0 then ok tt else err OnionError.out_of_window
allowed h (some hi) s =
    if ltb (hi + 64) s || leb (s + 128) hi
    then err OnionError.out_of_window
    else if seen s h
    then err OnionError.replay
    else ok tt

-- `check` answers what the rules on the history answer, the error included, for every window that
-- tracks a history of accepted numbers.
pub check-eq-allowed :
    (h : List ℕ) (w : ReplayWindow) (s : ℕ) → Tracks h w → check w s ≡ allowed h w.highest s
unfolding check allowed
check-eq-allowed h w s (fresh _ e) = rw (e, check, allowed) refl
check-eq-allowed h w s (used hi e t) =
    rw (e, check, allowed) (ground (arith, t.bits (hi - s), seen_above s hi h))

first_Tracked : (s : ℕ) → Tracked (s ∷ []) s (one_shl 0)
first_Tracked s = record {
  bounded = (omega arith, tt);
  reached = ground arith;
  bits = λ d dl dh. ground arith;
  high_bits = λ d dl. ground arith;
}

ahead_Tracked :
    (h : List ℕ) (hi s : ℕ) (b : U128)
    → Tracked h hi b
    → hi < s
    → Tracked
        (s ∷ h)
        s
        (if leb 128 (s - hi) then one_shl 0 else or_bits (shl b (s - hi)) (one_shl 0))
ahead_Tracked h hi s b t lt = record {
  bounded = (omega arith, Bounded-mono h (omega arith) t.bounded);
  reached = ground arith;
  bits = λ d dl dh. ground (arith, t.bits (d - (s - hi)), seen_above (s - d) hi h t.bounded);
  high_bits = λ d dl. ground (arith, t.high_bits (d - (s - hi)));
}

behind_Tracked :
    (h : List ℕ) (hi s : ℕ) (b : U128)
    → Tracked h hi b
    → s ≤ hi
    → hi < s + 128
    → Tracked (s ∷ h) hi (or_bits b (one_shl (hi - s)))
behind_Tracked h hi s b t le near = record {
  bounded = (le, t.bounded);
  reached = ground arith;
  bits = λ d dl dh. ground (arith, t.bits d);
  high_bits = λ d dl. ground (arith, t.high_bits d);
}

-- The number is less than 128 behind the highest, if there is a highest.
abbrev pub InReach : Option ℕ → ℕ → Type 0
InReach none s = Unit {0}
InReach (some hi) s = hi < s + 128

-- `check` lets no other number pass.
pub check-InReach : (w : ReplayWindow) (s : ℕ) → check w s ≡ ok tt → InReach w.highest s
unfolding check
check-InReach w s c = elim (Option-cases w.highest) [
  | inl e ↦ rw e tt
  | inr (hi, e) ↦ rw e (ground (arith, e))
]

-- If a window tracks a history, then after `commit` of a number less than 128 behind the highest of
-- the window, or of any number if the window is fresh, it tracks the history with that number added.
pub commit-Tracks :
    (h : List ℕ) (w : ReplayWindow) (s : ℕ)
    → Tracks h w
    → InReach w.highest s
    → Tracks (s ∷ h) (commit w s)
unfolding commit
commit-Tracks h w s (fresh e f) near = used s (rw (f, commit)) (rw (e, f, commit) (first_Tracked s))
commit-Tracks h w s (used hi e t) near = elim (Bool-cases (ltb hi s)) [
  | inl above ↦
      used s (rw (e, above, commit))
        (rw (e, above, commit) (ahead_Tracked h hi s w.bitmap t (ground arith)))
  | inr below ↦
      used hi (rw (e, below, commit))
        (rw (e, below, commit) (behind_Tracked h hi s w.bitmap t (ground arith) (rw e at near)))
]

-- What the window accepts has not been accepted before.
pub check_unseen :
    (h : List ℕ) (w : ReplayWindow) (s : ℕ) → Tracks h w → check w s ≡ ok tt → seen s h ≡ false
unfolding check
check_unseen h w s (fresh e f) c = rw e
check_unseen h w s (used hi e t) c = ground (arith, e, t.bits (hi - s), seen_above s hi h t.bounded)
