-- ===== src/Protocol/Tests.antt =====
-- Runs of crates/peerless-protocol/src/lib.rs at a concrete identity and record.
use peerless_sysytem_fw.Prelude.{◌≡◌, refl, ap, true, none, some, [], ◌∷◌, ◌++◌, Bytes, ok}
use peerless_sysytem_fw.Prelude.Equality.{bytes_beq, bytes_beq_iff}
use peerless_sysytem_fw.Core.{node_id_derive}
use peerless_sysytem_fw.Identity.{Crypto, NodeIdentity, IsGenuine, verify}
use peerless_sysytem_fw.Protocol.{
  Json, SignedEnvelope, ExecutionRecord, SignedExecutionRecord, seal_envelope, open_with_signer,
  seal_record, verify_record,
}
use peerless_sysytem_fw.Protocol.Envelopes.{
  open-seal, open_authentic, verify_record-seal, verify_record_authentic,
}

-- A signature is the key followed by the message; a key pair is its public key.
abbrev open_crypto : Crypto
open_crypto = record {
  sha256 = λ b. 1 ∷ b;
  keypair_sign = λ key m. some (key ++ m);
  key_verify = λ key m s. some (bytes_beq s (key ++ m));
}

abbrev alice : NodeIdentity
alice = record { node_id = 1 ∷ 5 ∷ []; keypair = 5 ∷ []; public_key = 5 ∷ [] }

alice-IsGenuine : IsGenuine open_crypto alice
unfolding node_id_derive
alice-IsGenuine = record {
  derived = refl;
  signature_of = λ m. 5 ∷ m;
  signs = λ m. refl;
  verifies = λ m. ap some ((bytes_beq_iff (5 ∷ m) (5 ∷ m)).1 refl);
}

abbrev raw : Json Bytes
raw = record { to_vec = λ b. some b; from_slice = λ b. some b }

abbrev envelope : SignedEnvelope
envelope = record {
  version = 1;
  signer = alice.node_id;
  public_key = alice.public_key;
  payload = 8 ∷ [];
  signature = 5 ∷ 8 ∷ [];
}

open-seal_example :
    (e : SignedEnvelope) × (seal_envelope open_crypto raw (8 ∷ []) alice ≡ ok e)
    × (open_with_signer open_crypto raw e ≡ ok (8 ∷ [], alice.node_id))
open-seal_example = open-seal open_crypto raw (8 ∷ []) alice (8 ∷ []) alice-IsGenuine refl refl

envelope-opens : open_with_signer open_crypto raw envelope ≡ ok (8 ∷ [], alice.node_id)
unfolding open_with_signer verify node_id_derive
envelope-opens = refl

open_authentic_example :
    (envelope.version ≡ 1)
    × (node_id_derive open_crypto.sha256 envelope.public_key ≡ alice.node_id)
    × (envelope.signer ≡ alice.node_id)
    × (open_crypto.key_verify envelope.public_key envelope.payload envelope.signature ≡ some true)
    × (raw.from_slice envelope.payload ≡ some (8 ∷ []))
open_authentic_example = open_authentic open_crypto raw envelope envelope-opens

abbrev execution : ExecutionRecord
execution = record {
  task_id = b't' ∷ [];
  executor = alice.node_id;
  component = 2 ∷ [];
  input = 3 ∷ [];
  output = 4 ∷ [];
  execution_hash = 1 ∷ 2 ∷ 3 ∷ 4 ∷ [];
  started_at = 100;
  completed_at = 200;
}

-- The task and the output stand for the record.
abbrev brief : Json ExecutionRecord
brief = record { to_vec = λ r. some (r.task_id ++ r.output); from_slice = λ b. none }

abbrev signed : SignedExecutionRecord
signed = record {
  execution = execution;
  signer = alice.node_id;
  public_key = alice.public_key;
  signature = 5 ∷ b't' ∷ 4 ∷ [];
}

verify_record-seal_example :
    (s : SignedExecutionRecord) × (seal_record open_crypto brief execution alice ≡ ok s)
    × (verify_record open_crypto brief s ≡ ok true)
verify_record-seal_example =
    verify_record-seal open_crypto brief execution alice (b't' ∷ 4 ∷ []) alice-IsGenuine refl refl

signed-verifies : verify_record open_crypto brief signed ≡ ok true
unfolding verify_record verify node_id_derive
signed-verifies = refl

verify_record_authentic_example :
    (node_id_derive open_crypto.sha256 signed.public_key ≡ signed.signer)
    × (signed.execution.executor ≡ signed.signer)
    × ((bytes : Bytes) × (brief.to_vec signed.execution ≡ some bytes)
        × (open_crypto.key_verify signed.public_key bytes signed.signature ≡ some true))
verify_record_authentic_example = verify_record_authentic open_crypto brief signed signed-verifies
