-- ===== src/Auth/Verifier.antt =====
-- `AnonymousVerifier` of crates/peerless-anonymous-auth/src/lib.rs. The token library is `PrivacyPass`;
-- of its `redeem_token` it is relied on that it spends the token's nonce (`Redeems`).
pub mod Kept
pub mod Once
use peerless_sysytem_fw.Prelude.{
  ℕ, ◌+◌, ◌≡◌, ◌⊎◌, refl, Bool, true, false, ◌&&◌, ◌||◌, not, Option, none, some, List, [], ◌∷◌,
  ◌++◌, Bytes, Result, ok, err, ◌>>=◌, ◌>>◌, fail_if, ltb, leb, ◌==◌, ==_iff, if◌then◌else◌, length,
  map,
}
use peerless_sysytem_fw.Prelude.Equality.{Eq, bytes_eq, bytes_beq}
use peerless_sysytem_fw.Prelude.Dict.{Dict, lookup, insert, erase, retain}
use peerless_sysytem_fw.Core.{NodeId}
use peerless_sysytem_fw.Identity.{Crypto}
use peerless_sysytem_fw.Auth.{
  AnonymousAuthError, AuthorizationScope, CredentialPolicy, ScopeKeyDescriptor, scope_eq,
  validate_scope, validate_policy, expiry_of, epoch, key_id, or_encoding, verify_descriptor,
  descriptor_beq,
}
use peerless_sysytem_fw.Auth.Nonces.{BoundedNonceStore, reserve, commit, release}

abbrev pub public_token_bytes : ℕ
public_token_bytes = 354

instance abbrev pub key_eq : Eq ℕ
key_eq = record { beq = ◌==◌; beq_iff = ==_iff }

pub data RedeemTokenError : Type 0 where
  double_spending other : RedeemTokenError

-- The token library.
pub record PrivacyPass : Type 1 where
  pub Key : Type 0
  pub Token : Type 0
  -- `PublicKey::from_spki`, `public_key_to_truncated_token_key_id` and `serialize_public_key`.
  pub from_spki : Bytes → Option Key
  pub truncated_id : Key → Option ℕ
  pub serialize : Key → Option Bytes
  -- `PublicToken::tls_deserialize` of all of the bytes, and the parts of a token.
  pub decode : Bytes → Option Token
  pub token_key_id : Token → Bytes
  pub challenge_digest : Token → Bytes
  pub nonce : Token → Bytes
  -- The digest of the challenge that names the scope.
  pub scope_digest : AuthorizationScope → Option Bytes
  -- `OriginServer::redeem_token`, with the clock reading that the nonce store takes.
  pub redeem_token :
      Dict ℕ (List Key)
      → BoundedNonceStore
      → Token
      → ℕ
      → Result RedeemTokenError (Unit {0}) × BoundedNonceStore

-- What the library does with the nonce store: a token is accepted only if its nonce was reserved, which
-- is then committed; if it is refused, its nonce was not reserved, or it was and may be released.
pub record Redeems (l : PrivacyPass) : Type 0 where
  pub accepted :
      (keys : Dict ℕ (List l.Key)) (s : BoundedNonceStore) (t : l.Token) (now : ℕ)
      → (l.redeem_token keys s t now).0 ≡ ok tt
      → ((reserve s (l.nonce t) now).0 ≡ true)
        × ((l.redeem_token keys s t now).1 ≡ commit (reserve s (l.nonce t) now).1 (l.nonce t))
  pub refused :
      (keys : Dict ℕ (List l.Key)) (s : BoundedNonceStore) (t : l.Token) (now : ℕ)
      (e : RedeemTokenError)
      → (l.redeem_token keys s t now).0 ≡ err e
      → ((l.redeem_token keys s t now).1 ≡ s)
        ⊎ (((l.redeem_token keys s t now).1 ≡ (reserve s (l.nonce t) now).1)
            ⊎ ((l.redeem_token keys s t now).1 ≡ release (reserve s (l.nonce t) now).1 (l.nonce t)))

pub record AnonymousPresentation : Type 0 where
  pub scope : AuthorizationScope
  pub token : Bytes

abbrev pub or_scope : {A : Type 0} → Option A → Result AnonymousAuthError A
or_scope none = err AnonymousAuthError.invalid_scope
or_scope (some a) = ok a

-- The descriptors that have expired.
abbrev pub expired_of :
    ℕ → Dict AuthorizationScope ScopeKeyDescriptor → List (AuthorizationScope × Bytes)
expired_of now [] = []
expired_of now ((scope, d) ∷ descriptors) =
    if leb scope.expires_at now
    then (scope, d.public_key) ∷ expired_of now descriptors
    else expired_of now descriptors

abbrev pub or_empty {ℓ} : {A : Type ℓ} → Option (List A) → List A
or_empty none = []
or_empty (some xs) = xs

abbrev pub is_nil {ℓ} : {A : Type ℓ} → List A → Bool
is_nil [] = true
is_nil (x ∷ xs) = false

module _ (l : PrivacyPass) where
  open l use {Key, Token}

  -- `AnonymousVerifier`; its token server has no state.
  pub record AnonymousVerifier : Type 0 where
    pub policy : CredentialPolicy
    pub keys : Dict ℕ (List Key)
    pub descriptors : Dict AuthorizationScope ScopeKeyDescriptor
    pub nonces : BoundedNonceStore

  -- `AnonymousVerifier::new`.
  unfoldable pub new_verifier : CredentialPolicy → Result AnonymousAuthError AnonymousVerifier
  new_verifier p = do
    policy ← validate_policy p
    ok (record {
      policy = policy;
      keys = [];
      descriptors = [];
      nonces = record {
        values = [];
        max_entries = policy.max_nullifiers;
        retention_seconds = policy.epoch_seconds;
      };
    })

  -- `OriginKeyStore::insert`.
  unfoldable pub insert_key : ℕ → Key → Dict ℕ (List Key) → Dict ℕ (List Key)
  insert_key id key keys = insert id (or_empty (lookup id keys) ++ key ∷ []) keys

  -- `serialize_public_key(key).map(|der| der != expected).unwrap_or(true)`.
  abbrev pub is_other : Bytes → Option Bytes → Bool
  is_other expected none = true
  is_other expected (some der) = not (bytes_beq der expected)

  abbrev pub other_keys : Bytes → List Key → List Key
  other_keys expected [] = []
  other_keys expected (key ∷ keys) =
      if is_other expected (l.serialize key)
      then key ∷ other_keys expected keys
      else other_keys expected keys

  -- `MemoryOriginKeyStore::remove_exact`.
  unfoldable pub remove_exact : ℕ → Bytes → Dict ℕ (List Key) → Dict ℕ (List Key)
  remove_exact id expected keys = elim (lookup id keys) [
    | none ↦ keys
    | some values ↦
        if is_nil (other_keys expected values)
        then erase id keys
        else insert id (other_keys expected values) keys
  ]

  -- `from_spki` and the truncated identifier, where both succeed.
  abbrev pub id_of : Bytes → Option ℕ
  id_of der = elim (l.from_spki der) [ none ↦ none | some key ↦ l.truncated_id key ]

  abbrev pub without_key : Option ℕ → Bytes → Dict ℕ (List Key) → Dict ℕ (List Key)
  without_key none der keys = keys
  without_key (some id) der keys = remove_exact id der keys

  abbrev pub drop_expired :
      List (AuthorizationScope × Bytes) → AnonymousVerifier → AnonymousVerifier
  drop_expired [] v = v
  drop_expired ((scope, der) ∷ expired) v = drop_expired expired (record v {
    descriptors = erase scope v.descriptors;
    keys = without_key (id_of der) der v.keys;
  })

  -- `AnonymousVerifier::prune`.
  unfoldable pub prune : AnonymousVerifier → ℕ → AnonymousVerifier
  prune v now = drop_expired (expired_of now v.descriptors) v

  -- The tests of `redeem` before it prunes.
  unfoldable pub check_presentation :
      CredentialPolicy
      → AnonymousPresentation
      → Bytes
      → Bytes
      → ℕ
      → Result AnonymousAuthError (Unit {0})
  check_presentation policy p network permission now = do
    validate_scope p.scope
    fail_if
        (not (bytes_beq p.scope.network_id network)
          || not (bytes_beq p.scope.permission permission))
        AnonymousAuthError.invalid_scope
    current ← epoch policy now
    fail_if (not (p.scope.epoch == current.0) || not (p.scope.expires_at == current.1))
        AnonymousAuthError.expired

  -- The tests after it, up to the token that is redeemed.
  unfoldable pub check_token :
      (Bytes → Bytes) → AnonymousVerifier → AnonymousPresentation → Result AnonymousAuthError Token
  check_token sha256 v p = do
    fail_if (not (length p.token == public_token_bytes)) AnonymousAuthError.invalid_encoding
    descriptor ← or_scope (lookup p.scope v.descriptors)
    id ← key_id sha256 descriptor.public_key
    fail_if (not (bytes_beq id p.scope.issuer_key_id)) AnonymousAuthError.invalid_scope
    token ← or_encoding (l.decode p.token)
    fail_if (not (bytes_beq (l.token_key_id token) p.scope.issuer_key_id))
        AnonymousAuthError.invalid_scope
    validate_scope p.scope
    digest ← or_scope (l.scope_digest p.scope)
    fail_if (not (bytes_beq (l.challenge_digest token) digest)) AnonymousAuthError.invalid_scope
    ok token

  abbrev pub or_replay : Result RedeemTokenError (Unit {0}) → Result AnonymousAuthError (Unit {0})
  or_replay (ok done) = ok tt
  or_replay (err RedeemTokenError.double_spending) = err AnonymousAuthError.replay_or_capacity
  or_replay (err RedeemTokenError.other) = err AnonymousAuthError.verification_failed

  unfoldable pub redeem_pruned :
      (Bytes → Bytes)
      → AnonymousVerifier
      → AnonymousPresentation
      → ℕ
      → Result AnonymousAuthError (Unit {0}) × AnonymousVerifier
  redeem_pruned sha256 v p wall = elim (check_token sha256 v p) [
    | err e ↦ (err e, v)
    | ok token ↦
        let (result, nonces) = l.redeem_token v.keys v.nonces token wall in
        (or_replay result, record v { nonces = nonces })
  ]

  -- `redeem`; `wall` is what the nonce store's clock reads.
  unfoldable pub redeem :
      (Bytes → Bytes)
      → AnonymousVerifier
      → AnonymousPresentation
      → Bytes
      → Bytes
      → ℕ
      → ℕ
      → Result AnonymousAuthError (Unit {0}) × AnonymousVerifier
  redeem sha256 v p network permission now wall =
      elim (check_presentation v.policy p network permission now) [
        | err e ↦ (err e, v)
        | ok checked ↦ redeem_pruned sha256 (prune v now) p wall
      ]

  module _ (c : Crypto) (payload : AuthorizationScope → Bytes → NodeId → Bytes → Option Bytes) where
    -- The tests of `add_descriptor` before it prunes, to the key and its identifier.
    unfoldable pub check_descriptor :
        CredentialPolicy
        → ScopeKeyDescriptor
        → List NodeId
        → ℕ
        → Result AnonymousAuthError (Key × ℕ)
    check_descriptor policy d trusted now = do
      validate_scope d.scope
      expected ← expiry_of d.scope.epoch policy.epoch_seconds
      fail_if (not (d.scope.expires_at == expected)) AnonymousAuthError.invalid_scope
      fail_if (leb d.scope.expires_at now) AnonymousAuthError.expired
      verified ← verify_descriptor c payload d trusted
      fail_if (not verified) AnonymousAuthError.unauthorized_membership
      id ← key_id c.sha256 d.public_key
      fail_if (not (bytes_beq id d.scope.issuer_key_id)) AnonymousAuthError.invalid_scope
      key ← or_encoding (l.from_spki d.public_key)
      truncated ← or_encoding (l.truncated_id key)
      ok (key, truncated)

    -- The rest of `add_descriptor`.
    unfoldable pub add_checked :
        AnonymousVerifier
        → ScopeKeyDescriptor
        → Key × ℕ
        → Result AnonymousAuthError (Unit {0}) × AnonymousVerifier
    add_checked v d key = elim (lookup d.scope v.descriptors) [
      | some existing ↦
          (if descriptor_beq existing d then ok tt else err AnonymousAuthError.invalid_scope, v)
      | none ↦
          if leb v.policy.max_active_scope_keys (length v.descriptors)
          then (err AnonymousAuthError.key_limit, v)
          else (
            ok tt,
            record v {
              descriptors = insert d.scope d v.descriptors;
              keys = insert_key key.1 key.0 v.keys;
            },
          )
    ]

    -- `add_descriptor`.
    unfoldable pub add_descriptor :
        AnonymousVerifier
        → ScopeKeyDescriptor
        → List NodeId
        → ℕ
        → Result AnonymousAuthError (Unit {0}) × AnonymousVerifier
    add_descriptor v d trusted now = elim (check_descriptor v.policy d trusted now) [
      | err e ↦ (err e, v)
      | ok key ↦ add_checked (prune v now) d key
    ]
