-- ===== src/Auth.antt =====
-- Scopes, policies and key descriptors of crates/peerless-anonymous-auth/src/lib.rs. RFC 9578 tokens,
-- RSA, serde_json and SHA-256 are parameters. Times are Unix seconds; `checked_add` and `checked_mul`
-- on `u64` are tests against 2 ^ 64.
pub mod Nonces
pub mod Issuer
pub mod Verifier
mod Tests
use peerless_sysytem_fw.Prelude.{
  ℕ, ◌+◌, ◌*◌, ◌/◌, ◌^◌, ◌≡◌, ◌↔◌, refl, Bool, true, false, ◌&&◌, ◌||◌, not, Option, none, some,
  List, [], ◌∷◌, Bytes, Result, ok, err, ◌>>=◌, ◌>>◌, fail_if, ltb, leb, ◌==◌, if◌then◌else◌,
  length, arith, ==_iff,
}
use peerless_sysytem_fw.Prelude.Equality.{Eq, bytes_beq, bytes_beq_iff}
use peerless_sysytem_fw.Core.{NodeId, node_id_derive}
use peerless_sysytem_fw.Identity.{Crypto, NodeIdentity, sign, verify}
use peerless_sysytem_fw.Ledger.Block.{contains}

abbrev pub protocol_version : ℕ
protocol_version = 1

abbrev pub max_network_bytes : ℕ
max_network_bytes = 128

abbrev pub max_permission_bytes : ℕ
max_permission_bytes = 128

pub data AnonymousAuthError : Type 0 where
  invalid_policy invalid_scope unauthorized_membership revoked issuance_limit : AnonymousAuthError
  key_limit expired invalid_encoding verification_failed replay_or_capacity : AnonymousAuthError

pub record AuthorizationScope : Type 0 where
  pub version : ℕ
  pub network_id : Bytes
  pub permission : Bytes
  pub epoch : ℕ
  pub expires_at : ℕ
  pub issuer_key_id : Bytes

pub record CredentialPolicy : Type 0 where
  pub epoch_seconds : ℕ
  pub max_issues_per_member_epoch : ℕ
  pub max_active_scope_keys : ℕ
  pub max_nullifiers : ℕ

pub record ScopeKeyDescriptor : Type 0 where
  pub scope : AuthorizationScope
  pub public_key : Bytes
  pub governance_issuer : NodeId
  pub governance_public_key : Bytes
  pub signature : Bytes

abbrev pub is_empty : Bytes → Bool
is_empty [] = true
is_empty (b ∷ bs) = false

-- `validate_public_class`.
unfoldable pub validate_public_class : Bytes → Bytes → Result AnonymousAuthError (Unit {0})
validate_public_class network_id permission =
    fail_if
      (is_empty network_id
        || (ltb max_network_bytes (length network_id)
            || (is_empty permission || ltb max_permission_bytes (length permission))))
      AnonymousAuthError.invalid_scope

-- `AuthorizationScope::validate`.
unfoldable pub validate_scope : AuthorizationScope → Result AnonymousAuthError (Unit {0})
validate_scope s =
    fail_if
      (not (s.version == protocol_version)
        || (is_empty s.network_id
            || (ltb max_network_bytes (length s.network_id)
                || (is_empty s.permission || ltb max_permission_bytes (length s.permission)))))
      AnonymousAuthError.invalid_scope

-- `CredentialPolicy::validate`.
unfoldable pub validate_policy : CredentialPolicy → Result AnonymousAuthError CredentialPolicy
validate_policy p =
    if p.epoch_seconds == 0
      || (p.max_issues_per_member_epoch == 0
          || (p.max_active_scope_keys == 0
              || (ltb 32 p.max_active_scope_keys || p.max_nullifiers == 0)))
    then err AnonymousAuthError.invalid_policy
    else ok p

-- `epoch.checked_add(1)` and `checked_mul(epoch_seconds)`.
unfoldable pub expiry_of : ℕ → ℕ → Result AnonymousAuthError ℕ
expiry_of epoch epoch_seconds =
    if ltb (epoch + 1) (2 ^ 64) && ltb ((epoch + 1) * epoch_seconds) (2 ^ 64)
    then ok ((epoch + 1) * epoch_seconds)
    else err AnonymousAuthError.invalid_scope

-- `CredentialPolicy::epoch`.
unfoldable pub epoch : CredentialPolicy → ℕ → Result AnonymousAuthError (ℕ × ℕ)
epoch p now = do
  validate_policy p
  expires_at ← expiry_of (now / p.epoch_seconds) p.epoch_seconds
  ok (now / p.epoch_seconds, expires_at)

-- The derived equality of scopes.
abbrev pub scope_beq : AuthorizationScope → AuthorizationScope → Bool
scope_beq a b =
    a.version == b.version
    && (bytes_beq a.network_id b.network_id
        && (bytes_beq a.permission b.permission
            && (a.epoch == b.epoch
                && (a.expires_at == b.expires_at && bytes_beq a.issuer_key_id b.issuer_key_id))))

pub scope_beq_iff : (a b : AuthorizationScope) → (scope_beq a b ≡ true) ↔ (a ≡ b)
scope_beq_iff a b = (
  λ h. ground (
    arith,
    bytes_beq_iff a.network_id b.network_id,
    bytes_beq_iff a.permission b.permission,
    bytes_beq_iff a.issuer_key_id b.issuer_key_id,
    ==_iff a.version b.version,
    ==_iff a.epoch b.epoch,
    ==_iff a.expires_at b.expires_at,
  ),
  λ h. ground (
    arith,
    bytes_beq_iff a.network_id b.network_id,
    bytes_beq_iff a.permission b.permission,
    bytes_beq_iff a.issuer_key_id b.issuer_key_id,
    ==_iff a.version b.version,
    ==_iff a.epoch b.epoch,
    ==_iff a.expires_at b.expires_at,
  ),
)

instance abbrev pub scope_eq : Eq AuthorizationScope
scope_eq = record { beq = scope_beq; beq_iff = scope_beq_iff }

-- The derived equality of descriptors.
abbrev pub descriptor_beq : ScopeKeyDescriptor → ScopeKeyDescriptor → Bool
descriptor_beq a b =
    scope_beq a.scope b.scope
    && (bytes_beq a.public_key b.public_key
        && (bytes_beq a.governance_issuer b.governance_issuer
            && (bytes_beq a.governance_public_key b.governance_public_key
                && bytes_beq a.signature b.signature)))

-- `key_id`.
unfoldable pub key_id : (Bytes → Bytes) → Bytes → Result AnonymousAuthError Bytes
key_id sha256 public_key =
    if ltb 1024 (length public_key)
    then err AnonymousAuthError.invalid_encoding
    else ok (sha256 public_key)

abbrev pub or_encoding : {A : Type 0} → Option A → Result AnonymousAuthError A
or_encoding none = err AnonymousAuthError.invalid_encoding
or_encoding (some a) = ok a

abbrev pub or_failed : {E A : Type 0} → Result E A → Result AnonymousAuthError A
or_failed (ok a) = ok a
or_failed (err e) = err AnonymousAuthError.verification_failed

module _ (c : Crypto) (payload : AuthorizationScope → Bytes → NodeId → Bytes → Option Bytes) where
  -- `ScopeKeyDescriptor::issue`.
  unfoldable pub issue_descriptor :
      AuthorizationScope → Bytes → NodeIdentity → Result AnonymousAuthError ScopeKeyDescriptor
  issue_descriptor scope public_key issuer = do
    bytes ← or_encoding (payload scope public_key issuer.node_id issuer.public_key)
    signature ← or_failed (sign c issuer bytes)
    ok (record {
      scope = scope;
      public_key = public_key;
      governance_issuer = issuer.node_id;
      governance_public_key = issuer.public_key;
      signature = signature;
    })

  -- `ScopeKeyDescriptor::verify`.
  unfoldable pub verify_descriptor :
      ScopeKeyDescriptor → List NodeId → Result AnonymousAuthError Bool
  verify_descriptor d trusted =
      let checked : Result AnonymousAuthError Bool = do
        bytes ←
            or_encoding (payload d.scope d.public_key d.governance_issuer d.governance_public_key)
        or_failed (verify c d.governance_public_key bytes d.signature)
      in if contains trusted d.governance_issuer
          && bytes_beq (node_id_derive c.sha256 d.governance_public_key) d.governance_issuer
        then checked
        else ok false
