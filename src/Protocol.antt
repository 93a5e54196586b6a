-- ===== src/Protocol.antt =====
-- Signed envelopes and execution records: crates/peerless-protocol/src/lib.rs. JSON is serde's: a
-- `Json A` holds its two functions on a type.
pub mod Envelopes
pub mod Message
mod Tests
use peerless_sysytem_fw.Prelude.{
  ℕ, Bool, false, ◌||◌, not, Option, none, some, Bytes, Result, ok, err, ◌>>=◌, ◌>>◌, fail_if, ◌==◌,
  if◌then◌else◌,
}
use peerless_sysytem_fw.Prelude.Equality.{bytes_beq}
use peerless_sysytem_fw.Core.{ContentId, NodeId, node_id_derive}
use peerless_sysytem_fw.Identity.{Crypto, NodeIdentity, IdentityError, sign, verify}

pub record Json (A : Type 0) : Type 0 where
  pub to_vec : A → Option Bytes
  pub from_slice : Bytes → Option A

pub data ProtocolError : Type 0 where
  unsupported_version : ℕ → ProtocolError
  signer_mismatch invalid_signature json : ProtocolError
  identity : IdentityError → ProtocolError

abbrev pub or_json : {A : Type 0} → Option A → Result ProtocolError A
or_json none = err ProtocolError.json
or_json (some a) = ok a

abbrev pub or_identity : {A : Type 0} → Result IdentityError A → Result ProtocolError A
or_identity (ok a) = ok a
or_identity (err e) = err (ProtocolError.identity e)

pub record SignedEnvelope : Type 0 where
  pub version : ℕ
  pub signer : NodeId
  pub public_key : Bytes
  pub payload : Bytes
  pub signature : Bytes

pub record ExecutionRecord : Type 0 where
  pub task_id : Bytes
  pub executor : NodeId
  pub component : ContentId
  pub input : ContentId
  pub output : ContentId
  pub execution_hash : ContentId
  pub started_at : ℕ
  pub completed_at : ℕ

pub record SignedExecutionRecord : Type 0 where
  pub execution : ExecutionRecord
  pub signer : NodeId
  pub public_key : Bytes
  pub signature : Bytes

module _ (c : Crypto) where
  module _ {A : Type 0} (codec : Json A) where
    -- `SignedEnvelope::seal`.
    unfoldable pub seal_envelope : A → NodeIdentity → Result ProtocolError SignedEnvelope
    seal_envelope value i = do
      payload ← or_json (codec.to_vec value)
      signature ← or_identity (sign c i payload)
      ok (record {
        version = 1;
        signer = i.node_id;
        public_key = i.public_key;
        payload = payload;
        signature = signature;
      })

    -- `SignedEnvelope::open_with_signer`.
    unfoldable pub open_with_signer : SignedEnvelope → Result ProtocolError (A × NodeId)
    open_with_signer e = do
      fail_if (not (e.version == 1)) (ProtocolError.unsupported_version e.version)
      fail_if (not (bytes_beq (node_id_derive c.sha256 e.public_key) e.signer))
          ProtocolError.signer_mismatch
      valid ← or_identity (verify c e.public_key e.payload e.signature)
      fail_if (not valid) ProtocolError.invalid_signature
      value ← or_json (codec.from_slice e.payload)
      ok (value, e.signer)

  -- `SignedExecutionRecord::seal`.
  unfoldable pub seal_record :
      Json ExecutionRecord
      → ExecutionRecord
      → NodeIdentity
      → Result ProtocolError SignedExecutionRecord
  seal_record codec execution i = do
    payload ← or_json (codec.to_vec execution)
    signature ← or_identity (sign c i payload)
    ok (record {
      execution = execution;
      signer = i.node_id;
      public_key = i.public_key;
      signature = signature;
    })

  -- `SignedExecutionRecord::verify`.
  unfoldable pub verify_record :
      Json ExecutionRecord → SignedExecutionRecord → Result ProtocolError Bool
  verify_record codec r =
      let checked : Result ProtocolError Bool = do
        payload ← or_json (codec.to_vec r.execution)
        or_identity (verify c r.public_key payload r.signature)
      in if not (bytes_beq (node_id_derive c.sha256 r.public_key) r.signer)
          || not (bytes_beq r.execution.executor r.signer)
        then ok false
        else checked
