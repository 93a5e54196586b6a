-- ===== src/Onion/Setup.antt =====
-- The fixed-size messages of the setup handshake of crates/peerless-onion-protocol/src/lib.rs. The key
-- agreement itself is X25519, HKDF and ChaCha20Poly1305 of other crates.
pub mod Codec
mod Tests
use peerless_sysytem_fw.Prelude.{
  ℕ, Bool, ◌||◌, not, List, [], ◌∷◌, ◌++◌, Bytes, Result, ok, err, ◌>>=◌, ◌>>◌, fail_if, leb, ◌==◌,
  if◌then◌else◌, length, take, drop, replicate, be_bytes, from_be, slice, byte_at,
}
use peerless_sysytem_fw.Prelude.Equality.{bytes_beq}
use peerless_sysytem_fw.Onion.Defs.{
  OnionError, protocol_version, setup_request_size, setup_response_size, max_hops,
}
use peerless_sysytem_fw.Onion.Cell.{nonzero}

pub record SetupContext : Type 0 where
  pub circuit_id : Bytes
  pub hop : ℕ
  pub epoch : ℕ
  pub expires_at : ℕ

-- `SetupContext::validate`.
unfoldable pub validate_context : SetupContext → ℕ → Result OnionError (Unit {0})
validate_context context now =
    fail_if (leb max_hops context.hop || leb context.expires_at now)
      (if leb context.expires_at now then OnionError.expired else OnionError.hop_limit)

abbrev pub setup_magic : Bytes
setup_magic = b'P' ∷ b'L' ∷ b'S' ∷ b'1' ∷ []

abbrev pub response_magic : Bytes
response_magic = b'P' ∷ b'L' ∷ b'R' ∷ b'1' ∷ []

pub record ParsedSetupRequest : Type 0 where
  pub context : SetupContext
  pub initiator_public : Bytes
  pub relay_public : Bytes

pub record ParsedSetupResponse : Type 0 where
  pub context : SetupContext
  pub initiator_public : Bytes
  pub responder_public : Bytes
  pub relay_public : Bytes
  pub confirmation : Bytes

-- The first 40 bytes of both messages; byte 7 stays 0.
unfoldable pub encode_context : Bytes → SetupContext → Bytes → Bytes
encode_context magic context rest =
    magic
    ++ (be_bytes 2 protocol_version
        ++ (context.hop
            ∷ 0
            ∷ (context.circuit_id
                ++ (be_bytes 8 context.epoch ++ (be_bytes 8 context.expires_at ++ rest)))))

unfoldable pub parse_context : Bytes → SetupContext
parse_context bytes = record {
  circuit_id = slice 8 24 bytes;
  hop = byte_at bytes 6;
  epoch = from_be (slice 24 32 bytes);
  expires_at = from_be (slice 32 40 bytes);
}

unfoldable pub encode_setup_request : SetupContext → Bytes → Bytes → Bytes
encode_setup_request context initiator_public relay_public =
    encode_context setup_magic context (initiator_public ++ (relay_public ++ replicate 24 0))

-- The tests that both parsers begin with: magic, byte 7, the bytes past the fields, the version.
unfoldable pub check_setup : Bytes → ℕ → Bytes → Result OnionError (Unit {0})
check_setup magic fields bytes = do
  fail_if
      (not (bytes_beq (take 4 bytes) magic)
        || (not (byte_at bytes 7 == 0) || nonzero (drop fields bytes)))
      OnionError.invalid_encoding
  fail_if (not (from_be (slice 4 6 bytes) == protocol_version)) OnionError.unsupported_version

unfoldable pub parse_setup_request : Bytes → Result OnionError ParsedSetupRequest
parse_setup_request bytes = do
  check_setup setup_magic 104 bytes
  ok (record {
    context = parse_context bytes;
    initiator_public = slice 40 72 bytes;
    relay_public = slice 72 104 bytes;
  })

unfoldable pub encode_setup_response : SetupContext → Bytes → Bytes → Bytes → Bytes → Bytes
encode_setup_response context initiator_public responder_public relay_public confirmation =
    encode_context response_magic context
      (initiator_public ++ (responder_public ++ (relay_public ++ (confirmation ++ replicate 8 0))))

unfoldable pub parse_setup_response : Bytes → Result OnionError ParsedSetupResponse
parse_setup_response bytes = do
  check_setup response_magic 152 bytes
  ok (record {
    context = parse_context bytes;
    initiator_public = slice 40 72 bytes;
    responder_public = slice 72 104 bytes;
    relay_public = slice 104 136 bytes;
    confirmation = slice 136 152 bytes;
  })

-- `SetupRequest::from_bytes`.
unfoldable pub setup_request_from_bytes : Bytes → Result OnionError Bytes
setup_request_from_bytes bytes = do
  fail_if (not (length bytes == setup_request_size)) OnionError.invalid_encoding
  parse_setup_request bytes
  ok bytes

-- `SetupResponse::from_bytes`.
unfoldable pub setup_response_from_bytes : Bytes → Result OnionError Bytes
setup_response_from_bytes bytes = do
  fail_if (not (length bytes == setup_response_size)) OnionError.invalid_encoding
  parse_setup_response bytes
  ok bytes
