-- ===== src/Auth/Issuer/Rotation.antt =====
-- The keys of `AnonymousIssuer`: `challenge` and `prune` of crates/peerless-anonymous-auth/src/lib.rs.
-- The keys that RSA generates, one for each attempt, are an argument; `none` is a failure.
use peerless_sysytem_fw.Prelude.{
  ℕ, zero, suc, ◌&&◌, Option, none, some, List, [], ◌∷◌, Bytes, Result, ok, err, ◌>>◌, leb, ◌==◌,
  if◌then◌else◌, length,
}
use peerless_sysytem_fw.Prelude.Equality.{bytes_eq, bytes_beq}
use peerless_sysytem_fw.Prelude.Dict.{Dict, lookup, insert, erase, retain}
use peerless_sysytem_fw.Core.{NodeId}
use peerless_sysytem_fw.Identity.{Crypto, NodeIdentity}
use peerless_sysytem_fw.Auth.{
  AnonymousAuthError, AuthorizationScope, ScopeKeyDescriptor, scope_eq, validate_scope,
  validate_public_class, epoch, issue_descriptor,
}
use peerless_sysytem_fw.Auth.Verifier.{PrivacyPass, key_eq, expired_of, id_of}
use peerless_sysytem_fw.Auth.Issuer.{Rsa, AnonymousIssuer, counter_eq}

abbrev pub max_key_attempts : ℕ
max_key_attempts = 100

pub record AnonymousChallenge : Type 0 where
  pub scope : AuthorizationScope
  pub issuer_public_key : Bytes
  pub governance_issuer : NodeId
  pub governance_public_key : Bytes
  pub descriptor_signature : Bytes

abbrev pub challenge_of : ScopeKeyDescriptor → AnonymousChallenge
challenge_of d = record {
  scope = d.scope;
  issuer_public_key = d.public_key;
  governance_issuer = d.governance_issuer;
  governance_public_key = d.governance_public_key;
  descriptor_signature = d.signature;
}

-- `find` among the descriptors.
abbrev pub find_class :
    Bytes → Bytes → ℕ → ℕ → Dict AuthorizationScope ScopeKeyDescriptor → Option ScopeKeyDescriptor
find_class network permission epoch expires_at [] = none
find_class network permission epoch expires_at ((scope, d) ∷ descriptors) =
    if bytes_beq d.scope.network_id network
      && (bytes_beq d.scope.permission permission
          && (d.scope.epoch == epoch && d.scope.expires_at == expires_at))
    then some d
    else find_class network permission epoch expires_at descriptors

module _ (l : PrivacyPass) (rsa : Rsa) where
  open rsa use {PrivateKey}

  -- A generated key with its public encoding and truncated identifier.
  pub record Generated : Type 0 where
    pub private_key : PrivateKey
    pub public_key : Bytes
    pub truncated : ℕ

  abbrev pub without_id : Option ℕ → Dict ℕ PrivateKey → Dict ℕ PrivateKey
  without_id none keys = keys
  without_id (some id) keys = erase id keys

  abbrev pub drop_keys :
      List (AuthorizationScope × Bytes) → AnonymousIssuer l rsa → AnonymousIssuer l rsa
  drop_keys [] i = i
  drop_keys ((scope, der) ∷ expired) i =
      drop_keys expired (record i {
        keys = without_id (id_of l der) i.keys;
        descriptors = erase scope i.descriptors;
      })

  -- `retain` on the counters; where the epoch cannot be told, all stay.
  abbrev pub drop_counters :
      Result AnonymousAuthError (ℕ × ℕ) → AnonymousIssuer l rsa → AnonymousIssuer l rsa
  drop_counters (err e) i = i
  drop_counters (ok current) i = record i {
    issuance = retain (λ key count. leb current.0 key.1) i.issuance;
  }

  -- `AnonymousIssuer::prune`.
  unfoldable pub prune_issuer : AnonymousIssuer l rsa → ℕ → AnonymousIssuer l rsa
  prune_issuer i now =
      drop_counters (epoch i.policy now) (drop_keys (expired_of now i.descriptors) i)

  -- The loop of attempts: the first key whose identifier is free.
  abbrev pub generate :
      ℕ → (ℕ → Option Generated) → Dict ℕ PrivateKey → Result AnonymousAuthError Generated
  generate zero attempt keys = err AnonymousAuthError.key_limit
  generate (suc attempts) attempt keys =
      let later = generate attempts attempt keys in
      elim (attempt attempts) [
        | none ↦ err AnonymousAuthError.verification_failed
        | some key ↦ elim (lookup key.truncated keys) [ none ↦ ok key | some taken ↦ later ]
      ]

  module _ (c : Crypto) (payload : AuthorizationScope → Bytes → NodeId → Bytes → Option Bytes) where
    abbrev pub new_scope : Bytes → Bytes → ℕ × ℕ → Bytes → AuthorizationScope
    new_scope network permission current public_key = record {
      version = 1;
      network_id = network;
      permission = permission;
      epoch = current.0;
      expires_at = current.1;
      issuer_key_id = c.sha256 public_key;
    }

    abbrev pub described :
        AnonymousIssuer l rsa
        → Result AnonymousAuthError ScopeKeyDescriptor
        → Result AnonymousAuthError AnonymousChallenge × AnonymousIssuer l rsa
    described i (err e) = (err e, i)
    described i (ok d) =
        (ok (challenge_of d), record i { descriptors = insert d.scope d i.descriptors })

    -- A key that was generated stays with the issuer, whether or not its descriptor can be signed.
    abbrev pub with_key :
        AnonymousIssuer l rsa
        → NodeIdentity
        → Bytes
        → Bytes
        → ℕ × ℕ
        → Result AnonymousAuthError Generated
        → Result AnonymousAuthError AnonymousChallenge × AnonymousIssuer l rsa
    with_key i governance network permission current (err e) = (err e, i)
    with_key i governance network permission current (ok key) =
        let scope = new_scope network permission current key.public_key in
        let descriptor : Result AnonymousAuthError ScopeKeyDescriptor = do
          validate_scope scope
          issue_descriptor c payload scope key.public_key governance
        in described (record i { keys = insert key.truncated key.private_key i.keys }) descriptor

    -- The common challenge once the issuer is pruned.
    unfoldable pub challenge_in :
        AnonymousIssuer l rsa
        → NodeIdentity
        → Bytes
        → Bytes
        → (ℕ → Option Generated)
        → Result AnonymousAuthError (ℕ × ℕ)
        → Result AnonymousAuthError AnonymousChallenge × AnonymousIssuer l rsa
    challenge_in i governance network permission attempt (err e) = (err e, i)
    challenge_in i governance network permission attempt (ok current) =
        elim (find_class network permission current.0 current.1 i.descriptors) [
          | some existing ↦ (ok (challenge_of existing), i)
          | none ↦
              if leb i.policy.max_active_scope_keys (length i.descriptors)
              then (err AnonymousAuthError.key_limit, i)
              else with_key i governance network permission current
                  (generate max_key_attempts attempt i.keys)
        ]

    abbrev pub challenge_class :
        AnonymousIssuer l rsa
        → NodeIdentity
        → Bytes
        → Bytes
        → ℕ
        → (ℕ → Option Generated)
        → Result AnonymousAuthError (Unit {0})
        → Result AnonymousAuthError AnonymousChallenge × AnonymousIssuer l rsa
    challenge_class i governance network permission now attempt (err e) = (err e, i)
    challenge_class i governance network permission now attempt (ok valid) =
        challenge_in (prune_issuer i now) governance network permission attempt (epoch i.policy now)

    -- `challenge`.
    unfoldable pub challenge :
        AnonymousIssuer l rsa
        → NodeIdentity
        → Bytes
        → Bytes
        → ℕ
        → (ℕ → Option Generated)
        → Result AnonymousAuthError AnonymousChallenge × AnonymousIssuer l rsa
    challenge i governance network permission now attempt =
        challenge_class i governance network permission now attempt
          (validate_public_class network permission)
