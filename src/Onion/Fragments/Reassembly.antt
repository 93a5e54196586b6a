-- ===== src/Onion/Fragments/Reassembly.antt =====
-- The fragments of a message, in any order, give back the message.
use peerless_sysytem_fw.Prelude.{
  ℕ, zero, suc, ◌+◌, ◌≤◌, ◌<◌, ◌≡◌, refl, sym, ap, subst, ◌∙◌, true, false, ◌||◌, ◌&&◌, Option,
  none, some, List, [], ◌∷◌, ◌++◌, Bytes, Result, ok, arith, ltb, leb, length, get_elem?, replicate,
  inl, inr, Option-cases, ==_refl,
}
use peerless_sysytem_fw.Prelude.Equality.{bytes_eq}
use peerless_sysytem_fw.Prelude.Dict.{lookup, insert, lookup-insert_self}
use peerless_sysytem_fw.Onion.Defs.{OnionError}
use peerless_sysytem_fw.Onion.Fragments.{
  Fragment, number, fragment_message, validate, PartialMessage, Reassembler, entry_or_new, settle,
  fill, push,
}
use peerless_sysytem_fw.Onion.Fragments.Cut.{IsCut, cut}
use peerless_sysytem_fw.Prelude.Slots.{
  seen, is_none, slots, arrived, get_in_range, piece-le, arrived-le, get-slots_zero, set-slots_zero,
  arrived-add_zero, slots-missing_zero, slots-Full_zero, slots-none, arrived-none,
}

module _ (id bytes : Bytes) (cs : List Bytes) where
  abbrev entry_of : List ℕ → PartialMessage
  entry_of got = record {
    count = length cs;
    total_len = length bytes;
    received_bytes = arrived 0 got cs;
    fragments = slots 0 got cs;
  }

  abbrev piece_at : ℕ → Bytes → Fragment
  piece_at i c = record {
    message_id = id;
    index = i;
    count = length cs;
    total_len = length bytes;
    bytes = c;
  }

  -- The map holds the message with the pieces at these positions, or has room for it.
  record Held (got : List ℕ) (r : Reassembler) : Type 0 where
    room : (is_none (lookup id r) && leb 16 (length r)) ≡ false
    entry : (i : ℕ) (c : Bytes) → entry_or_new (lookup id r) (piece_at i c) ≡ entry_of got

  validate-piece :
      IsCut bytes cs
      → (i : ℕ) (c : Bytes) → get_elem? cs i ≡ some c
      → validate (piece_at i c) ≡ ok tt
  unfolding validate
  validate-piece is_cut i c h =
      let p = is_cut.piece i c h in
      let inside = get_in_range cs i c h in
      let few = is_cut.few in
      let short = is_cut.short in
      let single = is_cut.single in
      let within : length c ≤ length bytes =
        omega (arith, piece-le cs i c h, ap length is_cut.joined) in
      ground (arith, p, inside, few, short, single, within)

  fill-piece :
      IsCut bytes cs
      → (r : Reassembler) (got : List ℕ) (i : ℕ) (c : Bytes) → get_elem? cs i ≡ some c
      → seen i got ≡ false
      → fill r (entry_of got) (piece_at i c) ≡ settle r id (entry_of (i ∷ got))
  unfolding fill
  fill-piece is_cut r got i c h n =
      let added = arrived-add_zero i got cs c h n in
      let bound : ltb (length bytes) (arrived 0 (i ∷ got) cs) ≡ false =
        ground (arith, arrived-le 0 (i ∷ got) cs, ap length is_cut.joined) in
      rw
        (
          ==_refl (length cs),
          ==_refl (length bytes),
          get-slots_zero i got cs c h,
          n,
          set-slots_zero i got cs c h,
          sym added,
          bound,
        )
        refl

  push-piece :
      IsCut bytes cs
      → (r : Reassembler) (got : List ℕ) (i : ℕ) (c : Bytes) → Held got r
      → get_elem? cs i ≡ some c
      → seen i got ≡ false
      → push r (piece_at i c) ≡ settle (insert id (entry_of got) r) id (entry_of (i ∷ got))
  unfolding push
  push-piece is_cut r got i c held h n =
      rw (validate-piece is_cut i c h, held.room, held.entry i c, push)
        (fill-piece is_cut (insert id (entry_of got) r) got i c h n)

  -- A piece after which another is still missing.
  push-partial :
      IsCut bytes cs
      → (r : Reassembler) (got : List ℕ) (i j : ℕ) (c d : Bytes) → Held got r
      → get_elem? cs i ≡ some c
      → seen i got ≡ false
      → get_elem? cs j ≡ some d
      → seen j (i ∷ got) ≡ false
      → push r (piece_at i c)
        ≡ (ok none, insert id (entry_of (i ∷ got)) (insert id (entry_of got) r))
  unfolding settle
  push-partial is_cut r got i j c d held h n h' n' =
      push-piece is_cut r got i c held h n ∙ rw (slots-missing_zero j (i ∷ got) cs d h' n') refl

  -- The last piece.
  push-last :
      IsCut bytes cs
      → (r : Reassembler) (got : List ℕ) (i : ℕ) (c : Bytes) → Held got r
      → get_elem? cs i ≡ some c
      → seen i got ≡ false
      → ((j : ℕ) → j < length cs → seen j (i ∷ got) ≡ true)
      → (push r (piece_at i c)).0 ≡ ok (some bytes)
  unfolding settle
  push-last is_cut r got i c held h n full =
      let all_in = slots-Full_zero (i ∷ got) cs full in
      ap (λ t. t.0) (push-piece is_cut r got i c held h n)
      ∙ rw
          (
            all_in.0,
            all_in.1,
            all_in.2,
            ap length is_cut.joined,
            ==_refl (length bytes),
            is_cut.joined,
          )
          refl

  Held-insert : (got : List ℕ) (r : Reassembler) → Held got (insert id (entry_of got) r)
  Held-insert got r = record {
    room = rw (lookup-insert_self id (entry_of got) r) refl;
    entry = λ i c. rw (lookup-insert_self id (entry_of got) r) refl;
  }

  Held-new : (r : Reassembler) → lookup id r ≡ none → length r < 16 → Held [] r
  Held-new r absent few = record {
    room = ground (arith, absent);
    entry = λ i c. rw (absent, slots-none 0 cs, arrived-none 0 cs) refl;
  }

-- The fragments at some positions.
unfoldable pub pick : List Fragment → List ℕ → Option (List Fragment)
pick fs [] = some []
pick fs (i ∷ order) = elim (get_elem? fs i) [
  | none ↦ none
  | some f ↦ elim (pick fs order) [ none ↦ none | some rest ↦ some (f ∷ rest) ]
]

-- The positions are none of those before, and are not repeated.
unfoldable pub Fresh : List ℕ → List ℕ → Type 0
Fresh got [] = Unit {0}
Fresh got (i ∷ order) = (seen i got ≡ false) × Fresh (i ∷ got) order

-- What `push` answers to each fragment of a sequence.
unfoldable pub answers : Reassembler → List Fragment → List (Result OnionError (Option Bytes))
answers r [] = []
answers r (f ∷ fs) = (push r f).0 ∷ answers (push r f).1 fs

get-number :
    (id : Bytes) (count total at : ℕ) (cs : List Bytes) (i : ℕ) (f : Fragment)
    → get_elem? (number id count total at cs) i ≡ some f
    → (c : Bytes) × (get_elem? cs i ≡ some c)
      × (f
          ≡ record { message_id = id; index = at + i; count = count; total_len = total; bytes = c })
unfolding number
get-number id count total at [] i f h = absurd (ground arith)
get-number id count total at (c ∷ cs) zero f h = (c, refl, ground arith)
get-number id count total at (c ∷ cs) (suc i) f h =
    let (d, e, g) = get-number id count total (suc at) cs i f h in (d, e, ground (arith, g))

length-number :
    (id : Bytes) (count total at : ℕ) (cs : List Bytes)
    → length (number id count total at cs) ≡ length cs
unfolding number
length-number id count total at [] = refl
length-number id count total at (c ∷ cs) = ap suc (length-number id count total (suc at) cs)

pick_nothing : (fs rest : List Fragment) → pick fs [] ≡ some rest → rest ≡ []
unfolding pick
pick_nothing fs rest h = ground arith

record Picked (fs : List Fragment) (i : ℕ) (order : List ℕ) (sent : List Fragment) : Type 0 where
  first : Fragment
  found : get_elem? fs i ≡ some first
  rest : List Fragment
  picked : pick fs order ≡ some rest
  same : sent ≡ first ∷ rest

pick-Picked :
    (fs : List Fragment) (i : ℕ) (order : List ℕ) (sent : List Fragment)
    → pick fs (i ∷ order) ≡ some sent
    → Picked fs i order sent
unfolding pick
pick-Picked fs i order sent h = elim (Option-cases (get_elem? fs i)) [
  | inl e ↦ absurd (ground (arith, e))
  | inr (f, e) ↦ elim (Option-cases (pick fs order)) [
    | inl e' ↦ absurd (ground (arith, e, e'))
    | inr (rest, e') ↦ record {
      first = f;
      found = e;
      rest = rest;
      picked = e';
      same = ground (arith, e, e');
    }
  ]
]

module _ (id bytes : Bytes) (cs : List Bytes) (is_cut : IsCut bytes cs) where
  abbrev fragments : List Fragment
  fragments = number id (length cs) (length bytes) 0 cs

  found-piece :
      (i : ℕ) (f : Fragment)
      → get_elem? fragments i ≡ some f
      → (c : Bytes) × (get_elem? cs i ≡ some c) × (f ≡ piece_at id bytes cs i c)
  found-piece i f h =
      let (c, e, g) = get-number id (length cs) (length bytes) 0 cs i f h in
      (c, e, g ∙ ap (λ k. record (piece_at id bytes cs i c) { index = k }) (omega arith))

  answers-pieces :
      (order : List ℕ) (r : Reassembler) (got : List ℕ) (i : ℕ) (sent : List Fragment)
      → Held id bytes cs got r
      → Fresh got (i ∷ order)
      → ((j : ℕ) → j < length cs → (seen j got || seen j (i ∷ order)) ≡ true)
      → pick fragments (i ∷ order) ≡ some sent
      → answers r sent ≡ replicate (length order) (ok none) ++ ok (some bytes) ∷ []
  unfolding answers Fresh
  answers-pieces [] r got i sent held (n, _) covers p =
      let picked = pick-Picked fragments i [] sent p in
      let (c, e, g) = found-piece i picked.first picked.found in
      let none_left : picked.rest ≡ [] = pick_nothing fragments picked.rest picked.picked in
      let last =
        push-last id bytes cs is_cut r got i c held e n (λ j h. ground (arith, covers j h)) in
      rw (picked.same, none_left, g) (rw last refl)
  answers-pieces (k ∷ order) r got i sent held (n, (n', fresh)) covers p =
      let picked = pick-Picked fragments i (k ∷ order) sent p in
      let (c, e, g) = found-piece i picked.first picked.found in
      let next = pick-Picked fragments k order picked.rest picked.picked in
      let (d, e', _) = found-piece k next.first next.found in
      let answer = push-partial id bytes cs is_cut r got i k c d held e n e' n' in
      let later =
        answers-pieces order
          (insert id (entry_of id bytes cs (i ∷ got)) (insert id (entry_of id bytes cs got) r))
          (i ∷ got) k picked.rest
          (Held-insert id bytes cs (i ∷ got) (insert id (entry_of id bytes cs got) r)) (n', fresh)
          (λ j h. ground (arith, covers j h)) picked.picked in
      rw (picked.same, g, answer) (ap (◌∷◌ (ok none)) later)

-- Whatever message of at most 512 KiB is cut by `fragment_message`, and in whatever order its
-- fragments arrive, each once: a reassembler that does not hold the message and has room for one more
-- answers nothing until the last fragment, and then the message.
pub fragment-push :
    (id bytes : Bytes) (fs sent : List Fragment) (i : ℕ) (order : List ℕ) (r : Reassembler)
    → length bytes ≤ 524288
    → fragment_message id bytes ≡ ok fs
    → Fresh [] (i ∷ order)
    → ((j : ℕ) → j < length fs → seen j (i ∷ order) ≡ true)
    → pick fs (i ∷ order) ≡ some sent
    → lookup id r ≡ none
    → length r < 16
    → answers r sent ≡ replicate (length order) (ok none) ++ ok (some bytes) ∷ []
fragment-push id bytes fs sent i order r short cut_ok fresh covers picked absent room =
    let (cs, is_cut, e) = cut id bytes short in
    let same : number id (length cs) (length bytes) 0 cs ≡ fs = ground arith in
    answers-pieces id bytes cs is_cut order r [] i sent (Held-new id bytes cs r absent room) fresh
      (λ j h.
        covers j (omega (arith, ap length same, length-number id (length cs) (length bytes) 0 cs)))
      (subst (λ x. pick x (i ∷ order) ≡ some sent) (sym same) picked)
