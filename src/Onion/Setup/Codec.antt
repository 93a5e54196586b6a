-- ===== src/Onion/Setup/Codec.antt =====
-- The setup messages against their encoders.
use peerless_sysytem_fw.Prelude.{
  ℕ, ◌+◌, ◌^◌, ◌<◌, ◌≡◌, refl, ap, ◌∙◌, false, [], ◌∷◌, ◌++◌, Bytes, ok, arith, length, take, drop,
  replicate, be_bytes, length-append, take_at, drop_at, drop_past, from_be-be_bytes_eight, ==_refl,
}
use peerless_sysytem_fw.Onion.Cell.{nonzero}
use peerless_sysytem_fw.Onion.Setup.{
  SetupContext, setup_magic, response_magic, encode_context, parse_context, check_setup,
  encode_setup_request, parse_setup_request, setup_request_from_bytes, encode_setup_response,
  parse_setup_response, setup_response_from_bytes,
}

-- The lengths and ranges that the types of `SetupContext` state.
pub record IsWellFormed (context : SetupContext) : Type 0 where
  pub circuit_id_length : length context.circuit_id ≡ 16
  pub epoch_u64 : context.epoch < 256 ^ 8
  pub expires_at_u64 : context.expires_at < 256 ^ 8

-- Both messages, with the bytes of their magic, and the keys and zeros behind the context.
module _ (context : SetupContext) (w : IsWellFormed context) (a b c d : ℕ) where
  abbrev message : Bytes → Bytes
  message = encode_context (a ∷ b ∷ c ∷ d ∷ []) context

  abbrev tail : Bytes → Bytes
  tail rest = be_bytes 8 context.epoch ++ (be_bytes 8 context.expires_at ++ rest)

  parse_context-message : (rest : Bytes) → parse_context (message rest) ≡ context
  unfolding parse_context encode_context
  parse_context-message rest =
      rw
        (
          take_at 16 context.circuit_id (tail rest) w.circuit_id_length,
          drop_at 16 context.circuit_id (tail rest) w.circuit_id_length,
          drop_past 16 8 context.circuit_id (tail rest) w.circuit_id_length,
          from_be-be_bytes_eight context.epoch w.epoch_u64,
          from_be-be_bytes_eight context.expires_at w.expires_at_u64,
        )
        refl

  -- Past the context the message is what was put behind it.
  drop-message : (n : ℕ) (rest : Bytes) → drop (8 + (16 + (16 + n))) (message rest) ≡ drop n rest
  unfolding encode_context
  drop-message n rest =
      drop_past 8 (16 + (16 + n)) (a ∷ b ∷ c ∷ d ∷ 0 ∷ 1 ∷ context.hop ∷ 0 ∷ [])
        (context.circuit_id ++ tail rest) refl
      ∙ drop_past 16 (16 + n) context.circuit_id (tail rest) w.circuit_id_length
      ∙ drop_past 16 n (be_bytes 8 context.epoch ++ be_bytes 8 context.expires_at) rest refl

  check_setup-message :
      (n : ℕ) (rest : Bytes)
      → nonzero (drop n rest) ≡ false
      → check_setup (a ∷ b ∷ c ∷ d ∷ []) (8 + (16 + (16 + n))) (message rest) ≡ ok tt
  unfolding check_setup encode_context
  check_setup-message n rest zeros =
      rw (ap nonzero (drop-message n rest), zeros, ==_refl a, ==_refl b, ==_refl c, ==_refl d) refl

  length-message : (rest : Bytes) → length (message rest) ≡ 40 + length rest
  unfolding encode_context
  length-message rest =
      omega (arith, length-append context.circuit_id (tail rest), w.circuit_id_length)

-- For a context with a circuit id of 16 bytes and 64-bit times and for keys of 32 bytes, the encoded
-- setup request has the fixed size, is accepted by `from_bytes`, and parses to what was encoded.
pub parse_setup_request-encode :
    (context : SetupContext) (initiator_public relay_public : Bytes)
    → IsWellFormed context
    → length initiator_public ≡ 32
    → length relay_public ≡ 32
    → let bytes = encode_setup_request context initiator_public relay_public in
      (setup_request_from_bytes bytes ≡ ok bytes)
      × (parse_setup_request bytes
          ≡ ok (record {
            context = context;
            initiator_public = initiator_public;
            relay_public = relay_public;
          }))
unfolding encode_setup_request parse_setup_request setup_request_from_bytes
parse_setup_request-encode context i r w hi hr =
    let zeros : Bytes = replicate 24 0 in
    let rest : Bytes = i ++ (r ++ zeros) in
    let past : drop 64 rest ≡ zeros = drop_past 32 32 i (r ++ zeros) hi ∙ drop_at 32 r zeros hr in
    let checked = check_setup-message context w b'P' b'L' b'S' b'1' 64 rest (ap nonzero past) in
    let first =
      ap (take 32) (drop-message context w b'P' b'L' b'S' b'1' 0 rest)
      ∙ take_at 32 i (r ++ zeros) hi in
    let second =
      ap (take 32)
        (drop-message context w b'P' b'L' b'S' b'1' 32 rest ∙ drop_at 32 i (r ++ zeros) hi)
      ∙ take_at 32 r zeros hr in
    let size : length (encode_context setup_magic context rest) ≡ 128 = omega (
      arith,
      length-message context w b'P' b'L' b'S' b'1' rest,
      length-append i (r ++ zeros),
      length-append r zeros,
      hi,
      hr,
    ) in
    (
      rw (size, checked) refl,
      rw (checked, parse_context-message context w b'P' b'L' b'S' b'1' rest, first, second) refl,
    )

-- For a context with a circuit id of 16 bytes and 64-bit times, keys of 32 bytes and a confirmation of
-- 16, the encoded setup response has the fixed size, is accepted by `from_bytes`, and parses to what
-- was encoded.
pub parse_setup_response-encode :
    (context : SetupContext) (initiator_public responder_public relay_public confirmation : Bytes)
    → IsWellFormed context
    → length initiator_public ≡ 32
    → length responder_public ≡ 32
    → length relay_public ≡ 32
    → length confirmation ≡ 16
    → let bytes =
        encode_setup_response context initiator_public responder_public relay_public confirmation in
      (setup_response_from_bytes bytes ≡ ok bytes)
      × (parse_setup_response bytes
          ≡ ok (record {
            context = context;
            initiator_public = initiator_public;
            responder_public = responder_public;
            relay_public = relay_public;
            confirmation = confirmation;
          }))
unfolding encode_setup_response parse_setup_response setup_response_from_bytes
parse_setup_response-encode context i p r k w hi hp hr hk =
    let zeros : Bytes = replicate 8 0 in
    let after_relay : Bytes = k ++ zeros in
    let after_responder : Bytes = r ++ after_relay in
    let after_initiator : Bytes = p ++ after_responder in
    let rest : Bytes = i ++ after_initiator in
    let to_responder : drop 32 rest ≡ after_initiator = drop_at 32 i after_initiator hi in
    let to_relay : drop 64 rest ≡ after_responder =
      drop_past 32 32 i after_initiator hi ∙ drop_at 32 p after_responder hp in
    let to_confirmation : drop 96 rest ≡ after_relay =
      drop_past 32 64 i after_initiator hi
      ∙ drop_past 32 32 p after_responder hp
      ∙ drop_at 32 r after_relay hr in
    let past : drop 112 rest ≡ zeros =
      drop_past 32 80 i after_initiator hi
      ∙ drop_past 32 48 p after_responder hp
      ∙ drop_past 32 16 r after_relay hr
      ∙ drop_at 16 k zeros hk in
    let checked = check_setup-message context w b'P' b'L' b'R' b'1' 112 rest (ap nonzero past) in
    let first =
      ap (take 32) (drop-message context w b'P' b'L' b'R' b'1' 0 rest)
      ∙ take_at 32 i after_initiator hi in
    let second =
      ap (take 32) (drop-message context w b'P' b'L' b'R' b'1' 32 rest ∙ to_responder)
      ∙ take_at 32 p after_responder hp in
    let third =
      ap (take 32) (drop-message context w b'P' b'L' b'R' b'1' 64 rest ∙ to_relay)
      ∙ take_at 32 r after_relay hr in
    let fourth =
      ap (take 16) (drop-message context w b'P' b'L' b'R' b'1' 96 rest ∙ to_confirmation)
      ∙ take_at 16 k zeros hk in
    let size : length (encode_context response_magic context rest) ≡ 160 = omega (
      arith,
      length-message context w b'P' b'L' b'R' b'1' rest,
      length-append i after_initiator,
      length-append p after_responder,
      length-append r after_relay,
      length-append k zeros,
      hi,
      hp,
      hr,
      hk,
    ) in
    (
      rw (size, checked) refl,
      rw
          (
            checked,
            parse_context-message context w b'P' b'L' b'R' b'1' rest,
            first,
            second,
            third,
            fourth,
          )
          refl,
    )
