-- ===== src/Onion/Setup/Tests.antt =====
-- Runs of the setup messages of crates/peerless-onion-protocol/src/lib.rs at a concrete context.
use peerless_sysytem_fw.Prelude.{◌≡◌, refl, ok, err, arith, replicate}
use peerless_sysytem_fw.Onion.Defs.{OnionError}
use peerless_sysytem_fw.Onion.Setup.{
  SetupContext, validate_context, encode_setup_request, parse_setup_request,
  setup_request_from_bytes, encode_setup_response, parse_setup_response, setup_response_from_bytes,
}
use peerless_sysytem_fw.Onion.Setup.Codec.{
  IsWellFormed, parse_setup_request-encode, parse_setup_response-encode,
}

abbrev context : SetupContext
context = record { circuit_id = replicate 16 9; hop = 2; epoch = 3; expires_at = 5000 }

context-IsWellFormed : IsWellFormed context
context-IsWellFormed = record {
  circuit_id_length = refl;
  epoch_u64 = omega arith;
  expires_at_u64 = omega arith;
}

-- A context that is both late and past the last hop is refused as late.
validate_context-late : validate_context (record context { hop = 3 }) 5000 ≡ err OnionError.expired
unfolding validate_context
validate_context-late = refl

parse_setup_request-encode_example :
    let bytes = encode_setup_request context (replicate 32 1) (replicate 32 2) in
    (setup_request_from_bytes bytes ≡ ok bytes)
    × (parse_setup_request bytes
        ≡ ok (record {
          context = context;
          initiator_public = replicate 32 1;
          relay_public = replicate 32 2;
        }))
parse_setup_request-encode_example =
    parse_setup_request-encode context (replicate 32 1) (replicate 32 2) context-IsWellFormed refl
      refl

parse_setup_response-encode_example :
    let bytes =
      encode_setup_response context
        (replicate 32 1)
        (replicate 32 3)
        (replicate 32 2)
        (replicate 16 4) in
    (setup_response_from_bytes bytes ≡ ok bytes)
    × (parse_setup_response bytes
        ≡ ok (record {
          context = context;
          initiator_public = replicate 32 1;
          responder_public = replicate 32 3;
          relay_public = replicate 32 2;
          confirmation = replicate 16 4;
        }))
parse_setup_response-encode_example =
    parse_setup_response-encode context (replicate 32 1) (replicate 32 3) (replicate 32 2)
      (replicate 16 4) context-IsWellFormed refl refl refl refl
