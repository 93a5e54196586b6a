-- ===== src/Auth/Issuer.antt =====
-- `AnonymousIssuer::issue` of crates/peerless-anonymous-auth/src/lib.rs: the membership and the request
-- are tested, the member's counter for the epoch goes up, and RSA answers. The issuer's private keys
-- stand as the results of `private_decrypt` by truncated key identifier.
pub mod Rotation
pub mod Limit
pub mod History
use peerless_sysytem_fw.Prelude.{
  or_zero, ℕ, ◌+◌, ◌*◌, ◌≡◌, Bool, true, false, ◌&&◌, ◌||◌, not, Option, none, some, List, [], ◌∷◌,
  Bytes, Result, ok, err, ◌>>=◌, ◌>>◌, fail_if, ltb, leb, ◌==◌, if◌then◌else◌, length, drop,
  byte_at, ◌↔◌, ==_iff, arith,
}
use peerless_sysytem_fw.Prelude.Equality.{Eq, bytes_eq, bytes_beq, bytes_beq_iff}
use peerless_sysytem_fw.Prelude.Dict.{Dict, lookup, insert, retain}
use peerless_sysytem_fw.Core.{NodeId}
use peerless_sysytem_fw.Identity.{Crypto}
use peerless_sysytem_fw.Ledger.Block.{LedgerError, Membership, Serde, contains, verify_membership}
use peerless_sysytem_fw.Auth.{
  AnonymousAuthError, AuthorizationScope, CredentialPolicy, ScopeKeyDescriptor, scope_eq,
  validate_scope, validate_policy, epoch, key_id, or_encoding,
}
use peerless_sysytem_fw.Auth.Verifier.{PrivacyPass, or_scope, key_eq}

abbrev pub max_request_bytes : ℕ
max_request_bytes = 512

abbrev pub public_request_bytes : ℕ
public_request_bytes = 259

abbrev pub public_response_bytes : ℕ
public_response_bytes = 256

pub record BlindCredentialRequest : Type 0 where
  pub scope : AuthorizationScope
  pub request : Bytes

-- The derived equality of a member and an epoch.
abbrev pub counter_beq : NodeId × ℕ → NodeId × ℕ → Bool
counter_beq a b = bytes_beq a.0 b.0 && a.1 == b.1

pub counter_beq_iff : (a b : NodeId × ℕ) → (counter_beq a b ≡ true) ↔ (a ≡ b)
counter_beq_iff a b = (
  λ h. ground (arith, bytes_beq_iff a.0 b.0, ==_iff a.1 b.1),
  λ h. ground (arith, bytes_beq_iff a.0 b.0, ==_iff a.1 b.1),
)

instance abbrev pub counter_eq : Eq (NodeId × ℕ)
counter_eq = record { beq = counter_beq; beq_iff = counter_beq_iff }

abbrev pub or_unauthorized : {A : Type 0} → Result LedgerError A → Result AnonymousAuthError A
or_unauthorized (ok a) = ok a
or_unauthorized (err e) = err AnonymousAuthError.unauthorized_membership

-- Sixteen bits, the high byte first.
abbrev pub token_type_of : Bytes → ℕ
token_type_of request = byte_at request 0 * 256 + byte_at request 1

-- RSA's private operation, and the value of `TokenType::Public`.
pub record Rsa : Type 1 where
  pub PrivateKey : Type 0
  pub private_decrypt : PrivateKey → Bytes → Option Bytes
  pub public_token_type : ℕ

module _ (l : PrivacyPass) (rsa : Rsa) where
  open rsa use {PrivateKey}

  pub record AnonymousIssuer : Type 0 where
    pub policy : CredentialPolicy
    pub keys : Dict ℕ PrivateKey
    pub descriptors : Dict AuthorizationScope ScopeKeyDescriptor
    pub issuance : Dict (NodeId × ℕ) ℕ

  -- `AnonymousIssuer::new`.
  unfoldable pub new_issuer : CredentialPolicy → Result AnonymousAuthError AnonymousIssuer
  new_issuer p = do
    policy ← validate_policy p
    ok (record { policy = policy; keys = []; descriptors = []; issuance = [] })

  abbrev pub answer : Option Bytes → Result AnonymousAuthError Bytes
  answer none = err AnonymousAuthError.verification_failed
  answer (some response) =
      if length response == public_response_bytes
      then ok response
      else err AnonymousAuthError.verification_failed

  -- The private operation on the blinded message.
  unfoldable pub sign_blinded : Dict ℕ PrivateKey → ℕ → Bytes → Result AnonymousAuthError Bytes
  sign_blinded keys truncated request = elim (lookup truncated keys) [
    | none ↦ err AnonymousAuthError.invalid_scope
    | some key ↦ answer (rsa.private_decrypt key (drop 3 request))
  ]

  -- The member's counter goes up before the private operation, whether that succeeds or not.
  unfoldable pub issue_checked :
      AnonymousIssuer → NodeId → Bytes → ℕ → ℕ → Result AnonymousAuthError Bytes × AnonymousIssuer
  issue_checked i member request truncated current =
      let issuance = retain (λ key count. leb current key.1) i.issuance in
      let count = or_zero (lookup (member, current) issuance) in
      if leb i.policy.max_issues_per_member_epoch count
      then (err AnonymousAuthError.issuance_limit, record i { issuance = issuance })
      else (
        sign_blinded i.keys truncated request,
        record i { issuance = insert (member, current) (count + 1) issuance },
      )

  module _ (c : Crypto) (serde : Serde) where
    -- The tests of `issue` in the code's order, to the truncated identifier and the epoch.
    unfoldable pub check_request :
        AnonymousIssuer
        → Membership
        → List NodeId
        → List NodeId
        → BlindCredentialRequest
        → ℕ
        → Result AnonymousAuthError (ℕ × ℕ)
    check_request i m trusted revoked r now = do
      validate_scope r.scope
      fail_if (contains revoked m.member) AnonymousAuthError.revoked
      verified ← or_unauthorized (verify_membership c serde m trusted now)
      fail_if
          (not verified
            || (not (bytes_beq m.network_id r.scope.network_id)
                || not (contains m.permissions r.scope.permission)))
          AnonymousAuthError.unauthorized_membership
      current ← epoch i.policy now
      fail_if (not (r.scope.epoch == current.0) || not (r.scope.expires_at == current.1))
          AnonymousAuthError.invalid_scope
      fail_if (ltb max_request_bytes (length r.request)) AnonymousAuthError.invalid_encoding
      descriptor ← or_scope (lookup r.scope i.descriptors)
      id ← key_id c.sha256 descriptor.public_key
      fail_if (not (bytes_beq id r.scope.issuer_key_id)) AnonymousAuthError.invalid_scope
      fail_if
          (not (length r.request == public_request_bytes)
            || not (token_type_of r.request == rsa.public_token_type))
          AnonymousAuthError.invalid_encoding
      key ← or_encoding (l.from_spki descriptor.public_key)
      truncated ← or_encoding (l.truncated_id key)
      fail_if (not (byte_at r.request 2 == truncated)) AnonymousAuthError.invalid_scope
      ok (truncated, current.0)

    -- `issue`.
    unfoldable pub issue :
        AnonymousIssuer
        → Membership
        → List NodeId
        → List NodeId
        → BlindCredentialRequest
        → ℕ
        → Result AnonymousAuthError Bytes × AnonymousIssuer
    issue i m trusted revoked r now = elim (check_request i m trusted revoked r now) [
      | err e ↦ (err e, i)
      | ok (truncated, current) ↦ issue_checked i m.member r.request truncated current
    ]
