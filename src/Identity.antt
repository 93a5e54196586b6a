-- ===== src/Identity.antt =====
-- Signing and verifying: crates/peerless-identity/src/lib.rs. The Ed25519 key pair and the protobuf
-- coding of keys are libp2p's, and SHA-256 is sha2's: `Crypto` holds them. A key pair is its encoding.
use peerless_sysytem_fw.Prelude.{Bool, true, Option, none, some, Bytes, Result, ok, err, ◌≡◌}
use peerless_sysytem_fw.Core.{NodeId, node_id_derive}

pub record Crypto : Type 0 where
  pub sha256 : Bytes → Bytes
  -- `Keypair::sign`.
  pub keypair_sign : Bytes → Bytes → Option Bytes
  -- `PublicKey::try_decode_protobuf` and `PublicKey::verify`; `none` if the key does not decode.
  pub key_verify : Bytes → Bytes → Bytes → Option Bool

pub data IdentityError : Type 0 where
  invalid_key : IdentityError

pub record NodeIdentity : Type 0 where
  pub node_id : NodeId
  pub keypair : Bytes
  pub public_key : Bytes

-- `NodeIdentity::sign`.
unfoldable pub sign : Crypto → NodeIdentity → Bytes → Result IdentityError Bytes
sign c identity message = elim (c.keypair_sign identity.keypair message) [
  | none ↦ err IdentityError.invalid_key
  | some signature ↦ ok signature
]

-- `verify`.
unfoldable pub verify : Crypto → Bytes → Bytes → Bytes → Result IdentityError Bool
verify c public_key message signature = elim (c.key_verify public_key message signature) [
  | none ↦ err IdentityError.invalid_key
  | some valid ↦ ok valid
]

-- What `load_or_generate` makes, by what libp2p documents: the identifier is derived from the public
-- key, every message can be signed, and the public key verifies the signature.
pub record IsGenuine (c : Crypto) (i : NodeIdentity) : Type 0 where
  pub derived : node_id_derive c.sha256 i.public_key ≡ i.node_id
  pub signature_of : Bytes → Bytes
  pub signs : (m : Bytes) → c.keypair_sign i.keypair m ≡ some (signature_of m)
  pub verifies : (m : Bytes) → c.key_verify i.public_key m (signature_of m) ≡ some true
