-- ===== src/Ledger/Block.antt =====
-- The data of crates/peerless-ledger/src/lib.rs: events, blocks, memberships, with their hashes and
-- signatures. `serde_json` is a parameter, `Serde`; a writer may fail.
use peerless_sysytem_fw.Prelude.{
  ℕ, Bool, true, false, ◌&&◌, Option, none, some, List, [], ◌∷◌, Bytes, Result, ok, err, ◌>>=◌,
  traverse, ltb, leb, ◌==◌, if◌then◌else◌,
}
use peerless_sysytem_fw.Prelude.Equality.{bytes_beq}
use peerless_sysytem_fw.Core.{ContentId, NodeId, node_id_derive}
use peerless_sysytem_fw.Identity.{Crypto, NodeIdentity, IdentityError, sign, verify}
use peerless_sysytem_fw.Protocol.{ExecutionRecord}
use peerless_sysytem_fw.Ledger.Merkle.{Hash, MerkleProof, merkle_proof}

pub data LedgerError : Type 0 where
  io json invalid_quorum no_quorum wrong_leader invalid_block : LedgerError
  from_identity : IdentityError → LedgerError

pub data LedgerEvent : Type 0 where
  node_joined node_revoked : NodeId → LedgerEvent
  task_created : Bytes → LedgerEvent
  task_accepted : Bytes → NodeId → LedgerEvent
  task_completed : ExecutionRecord → LedgerEvent
  task_verified : Bytes → ContentId → LedgerEvent
  content_published : ContentId → NodeId → LedgerEvent
  state_checkpoint : Bytes → ContentId → LedgerEvent

pub record SignedEvent : Type 0 where
  pub event : LedgerEvent
  pub signer : NodeId
  pub public_key : Bytes
  pub signature : Bytes

pub record ConsensusSignature : Type 0 where
  pub signer : NodeId
  pub public_key : Bytes
  pub signature : Bytes

pub record ConsensusProof : Type 0 where
  pub network_id : Bytes
  pub signatures : List ConsensusSignature

pub record Block : Type 0 where
  pub version : ℕ
  pub previous : Option Hash
  pub height : ℕ
  pub timestamp : ℕ
  pub events_root : Hash
  pub events : List SignedEvent
  pub consensus : ConsensusProof

pub record Membership : Type 0 where
  pub network_id : Bytes
  pub member : NodeId
  pub issuer : NodeId
  pub permissions : List Bytes
  pub expires_at : Option ℕ
  pub issuer_public_key : Bytes
  pub signature : Bytes

pub record Invitation : Type 0 where
  pub version : ℕ
  pub membership : Membership
  pub bootstrap : List Bytes
  pub issued_at : ℕ

-- `serde_json::to_vec` at the types of the ledger.
pub record Serde : Type 0 where
  pub event_json : LedgerEvent → Option Bytes
  pub signed_event_json : SignedEvent → Option Bytes
  pub block_json : Block → Option Bytes
  pub block_pretty_json : Block → Option Bytes
  pub proposal_json : ℕ → Option Hash → ℕ → ℕ → Hash → Option Bytes
  pub membership_json : Bytes → NodeId → NodeId → List Bytes → Option ℕ → Option Bytes

abbrev pub or_json : {A : Type 0} → Option A → Result LedgerError A
or_json none = err LedgerError.json
or_json (some a) = ok a

abbrev pub or_identity : {A : Type 0} → Result IdentityError A → Result LedgerError A
or_identity (ok a) = ok a
or_identity (err e) = err (LedgerError.from_identity e)

-- `HashSet<NodeId>::contains`.
abbrev pub contains : List NodeId → NodeId → Bool
contains [] n = false
contains (m ∷ ms) n = if bytes_beq n m then true else contains ms n

-- `expires_at.is_none_or(|expiry| expiry > now)`.
abbrev pub unexpired : Option ℕ → ℕ → Bool
unexpired none now = true
unexpired (some expiry) now = ltb now expiry

module _ (c : Crypto) (serde : Serde) where
  -- `SignedEvent::seal`.
  unfoldable pub seal_event : LedgerEvent → NodeIdentity → Result LedgerError SignedEvent
  seal_event event i = do
    payload ← or_json (serde.event_json event)
    signature ← or_identity (sign c i payload)
    ok (record {
      event = event;
      signer = i.node_id;
      public_key = i.public_key;
      signature = signature;
    })

  -- `SignedEvent::verify`: the signature is read only if the key belongs to the signer.
  unfoldable pub verify_event : SignedEvent → Result LedgerError Bool
  verify_event e =
      let checked : Result LedgerError Bool = do
        payload ← or_json (serde.event_json e.event)
        or_identity (verify c e.public_key payload e.signature)
      in if bytes_beq (node_id_derive c.sha256 e.public_key) e.signer then checked else ok false

  -- `SignedEvent::hash`.
  unfoldable pub event_hash : SignedEvent → Result LedgerError Hash
  event_hash e = do bytes ← or_json (serde.signed_event_json e); ok (c.sha256 bytes)

  -- `Block::proposal_bytes`.
  unfoldable pub proposal_bytes : Block → Result LedgerError Bytes
  proposal_bytes b =
      or_json (serde.proposal_json b.version b.previous b.height b.timestamp b.events_root)

  -- `Block::hash`.
  unfoldable pub block_hash : Block → Result LedgerError Hash
  block_hash b = do bytes ← or_json (serde.block_json b); ok (c.sha256 bytes)

  -- `Block::proof`.
  unfoldable pub block_proof : Block → ℕ → Option MerkleProof
  block_proof b index = elim (traverse event_hash b.events) [
    | ok leaves ↦ merkle_proof c.sha256 leaves index
    | err e ↦ none
  ]

  -- `Membership::payload`.
  unfoldable pub membership_payload : Membership → Result LedgerError Bytes
  membership_payload m =
      or_json (serde.membership_json m.network_id m.member m.issuer m.permissions m.expires_at)

  -- `Membership::issue`.
  unfoldable pub issue_membership :
      Bytes → NodeId → List Bytes → Option ℕ → NodeIdentity → Result LedgerError Membership
  unfolding membership_payload
  issue_membership network_id member permissions expires_at issuer =
      let value : Membership = record {
        network_id = network_id;
        member = member;
        issuer = issuer.node_id;
        permissions = permissions;
        expires_at = expires_at;
        issuer_public_key = issuer.public_key;
        signature = [];
      } in
      do
        payload ← membership_payload value
        signature ← or_identity (sign c issuer payload)
        ok (record value { signature = signature })

  -- `Membership::verify`.
  unfoldable pub verify_membership : Membership → List NodeId → ℕ → Result LedgerError Bool
  unfolding membership_payload
  verify_membership m trusted now =
      let checked : Result LedgerError Bool = do
        payload ← membership_payload m
        or_identity (verify c m.issuer_public_key payload m.signature)
      in if contains trusted m.issuer
          && (bytes_beq (node_id_derive c.sha256 m.issuer_public_key) m.issuer
              && unexpired m.expires_at now)
        then checked
        else ok false

  -- `Invitation::issue`.
  unfoldable pub issue_invitation :
      Bytes
      → NodeId
      → List Bytes
      → Option ℕ
      → List Bytes
      → ℕ
      → NodeIdentity
      → Result LedgerError Invitation
  issue_invitation network_id member permissions expires_at bootstrap issued_at issuer = do
    membership ← issue_membership network_id member permissions expires_at issuer
    ok (record {
      version = 1;
      membership = membership;
      bootstrap = bootstrap;
      issued_at = issued_at;
    })

  -- `Invitation::verify_for`.
  unfoldable pub verify_for : Invitation → NodeId → ℕ → Result LedgerError Bool
  verify_for i member now =
      let checked = verify_membership i.membership (i.membership.issuer ∷ []) now in
      if i.version == 1 && (leb i.issued_at now && bytes_beq i.membership.member member)
      then checked
      else ok false
