-- ===== src/Protocol/Envelopes.antt =====
-- An envelope that was sealed opens to its value; one that opens was signed by the key of its signer.
use peerless_sysytem_fw.Prelude.{◌≡◌, refl, true, some, Bytes, ok, arith}
use peerless_sysytem_fw.Prelude.Equality.{bytes_beq_iff, bytes_eq}
use peerless_sysytem_fw.Core.{NodeId, node_id_derive}
use peerless_sysytem_fw.Identity.{Crypto, NodeIdentity, IsGenuine, sign, verify}
use peerless_sysytem_fw.Protocol.{
  Json, SignedEnvelope, ExecutionRecord, SignedExecutionRecord, seal_envelope, open_with_signer,
  seal_record, verify_record,
}

-- A value that serde writes and reads back, sealed by a genuine identity, opens to the value and the
-- identity's node id.
pub open-seal :
    {A : Type 0} (c : Crypto) (json : Json A) (value : A) (i : NodeIdentity) (bytes : Bytes)
    → IsGenuine c i
    → json.to_vec value ≡ some bytes
    → json.from_slice bytes ≡ some value
    → (e : SignedEnvelope) × (seal_envelope c json value i ≡ ok e)
      × (open_with_signer c json e ≡ ok (value, i.node_id))
unfolding seal_envelope open_with_signer sign verify
open-seal c json value i bytes g written parsed = (
  record {
    version = 1;
    signer = i.node_id;
    public_key = i.public_key;
    payload = bytes;
    signature = g.signature_of bytes;
  },
  rw (written, g.signs bytes, sign) refl,
  rw ((bytes_beq_iff _ _).1 g.derived, g.verifies bytes, verify) (rw parsed refl),
)

-- Whatever envelope opens has version 1, a signer derived from its public key, and a signature of
-- its payload by that key; the payload decodes to the value that is returned with the signer.
pub open_authentic :
    {A : Type 0} (c : Crypto) (json : Json A) (e : SignedEnvelope) {value : A} {signer : NodeId}
    → open_with_signer c json e ≡ ok (value, signer)
    → (e.version ≡ 1)
      × (node_id_derive c.sha256 e.public_key ≡ signer)
      × (e.signer ≡ signer)
      × (c.key_verify e.public_key e.payload e.signature ≡ some true)
      × (json.from_slice e.payload ≡ some value)
unfolding open_with_signer verify
open_authentic c json e h =
    ground (arith, bytes_beq_iff (node_id_derive c.sha256 e.public_key) e.signer)

-- A record that serde writes, sealed by a genuine identity that it names as its executor, verifies.
pub verify_record-seal :
    (c : Crypto) (json : Json ExecutionRecord) (r : ExecutionRecord) (i : NodeIdentity)
    (bytes : Bytes)
    → IsGenuine c i
    → r.executor ≡ i.node_id
    → json.to_vec r ≡ some bytes
    → (s : SignedExecutionRecord) × (seal_record c json r i ≡ ok s)
      × (verify_record c json s ≡ ok true)
unfolding seal_record verify_record sign verify
verify_record-seal c json r i bytes g own written = (
  record {
    execution = r;
    signer = i.node_id;
    public_key = i.public_key;
    signature = g.signature_of bytes;
  },
  rw (written, g.signs bytes, sign) refl,
  rw ((bytes_beq_iff _ _).1 g.derived, (bytes_beq_iff _ _).1 own, written, g.verifies bytes, verify)
      refl,
)

-- A record that verifies names as its executor its signer, which its public key derives, and carries
-- a signature by that key of the record's bytes.
pub verify_record_authentic :
    (c : Crypto) (json : Json ExecutionRecord) (s : SignedExecutionRecord)
    → verify_record c json s ≡ ok true
    → (node_id_derive c.sha256 s.public_key ≡ s.signer)
      × (s.execution.executor ≡ s.signer)
      × ((bytes : Bytes) × (json.to_vec s.execution ≡ some bytes)
          × (c.key_verify s.public_key bytes s.signature ≡ some true))
unfolding verify_record verify
verify_record_authentic c json s h = ground (
  arith,
  bytes_beq_iff (node_id_derive c.sha256 s.public_key) s.signer,
  bytes_beq_iff s.execution.executor s.signer,
)
