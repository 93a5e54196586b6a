-- ===== src/Onion/Fragments/Tests.antt =====
-- Runs of the fragments of crates/peerless-onion-protocol/src/lib.rs at concrete messages.
use peerless_sysytem_fw.Prelude.{
  ℕ, ◌≤◌, ◌<◌, ◌≡◌, refl, true, none, some, [], ◌∷◌, Bytes, ok, err, arith, replicate, length,
}
use peerless_sysytem_fw.Prelude.Equality.{bytes_eq}
use peerless_sysytem_fw.Prelude.Dict.{lookup}
use peerless_sysytem_fw.Onion.Defs.{OnionError}
use peerless_sysytem_fw.Prelude.Slots.{seen}
use peerless_sysytem_fw.Onion.Fragments.{
  Fragment, validate, encode, decode, chunks, number, fragment_message, push,
}
use peerless_sysytem_fw.Onion.Fragments.Reassembly.{pick, Fresh, answers, fragment-push}
use peerless_sysytem_fw.Onion.Fragments.Codec.{decode-encode}
use peerless_sysytem_fw.Onion.Fragments.Capacity.{push-length, refused_fragment_holds_place}

abbrev message_id : Bytes
message_id = replicate 16 4

abbrev message : Bytes
message = replicate 928 7

abbrev fragment : ℕ → ℕ → Fragment
fragment i n = record {
  message_id = message_id;
  index = i;
  count = 2;
  total_len = 928;
  bytes = replicate n 7;
}

fragment_message-message :
    fragment_message message_id message ≡ ok (fragment 0 927 ∷ fragment 1 1 ∷ [])
unfolding fragment_message chunks number
fragment_message-message = refl

covered : (j : ℕ) → j < 2 → seen j (1 ∷ 0 ∷ []) ≡ true
covered j h = ground arith

fresh : Fresh [] (1 ∷ 0 ∷ [])
unfolding Fresh
fresh = (refl, (refl, tt))

picked :
    pick (fragment 0 927 ∷ fragment 1 1 ∷ []) (1 ∷ 0 ∷ [])
    ≡ some (fragment 1 1 ∷ fragment 0 927 ∷ [])
unfolding pick
picked = refl

-- The second fragment comes first.
fragment-push_example :
    answers [] (fragment 1 1 ∷ fragment 0 927 ∷ []) ≡ ok none ∷ ok (some message) ∷ []
fragment-push_example =
    fragment-push message_id message (fragment 0 927 ∷ fragment 1 1 ∷ [])
      (fragment 1 1 ∷ fragment 0 927 ∷ []) 1 (0 ∷ []) [] (omega arith) fragment_message-message
      fresh covered picked refl (omega arith)

fragment-valid : validate (fragment 1 1) ≡ ok tt
unfolding validate
fragment-valid = refl

decode-encode_example :
    (bytes : Bytes) × (encode (fragment 1 1) ≡ ok bytes)
    × (length bytes ≤ 955)
    × (decode bytes ≡ ok (fragment 1 1))
decode-encode_example = decode-encode (fragment 1 1) refl fragment-valid

push-length_example : length (push [] (fragment 1 1)).1 ≤ 16
push-length_example = push-length [] (fragment 1 1) (omega arith)

-- Two bytes of a message of one.
abbrev too_long : Fragment
too_long = record {
  message_id = message_id;
  index = 0;
  count = 2;
  total_len = 1;
  bytes = 5 ∷ 6 ∷ [];
}

too_long-valid : validate too_long ≡ ok tt
unfolding validate
too_long-valid = refl

refused_fragment_holds_place_example :
    ((push [] too_long).0 ≡ err OnionError.invalid_encoding)
    × (lookup message_id (push [] too_long).1
        ≡ some
            (record { count = 2; total_len = 1; received_bytes = 0; fragments = none ∷ none ∷ [] }))
refused_fragment_holds_place_example =
    refused_fragment_holds_place [] too_long too_long-valid refl (omega arith) (omega arith)
