-- ===== src/Auth/Tests.antt =====
-- Runs of the anonymous credentials (crates/peerless-anonymous-auth/src/lib.rs) with tokens that are
-- their nonces and signatures that anyone can make.
use peerless_sysytem_fw.Prelude.{
  ℕ, ◌≡◌, ◌≢◌, refl, Bool, true, false, Option, none, some, List, [], ◌∷◌, ◌++◌, Bytes, Result, ok,
  err, arith, inl, inr, replicate, take, byte_at,
}
use peerless_sysytem_fw.Core.{NodeId, node_id_derive}
use peerless_sysytem_fw.Identity.{Crypto, NodeIdentity, sign, verify}
use peerless_sysytem_fw.Ledger.Block.{Serde, verify_membership, membership_payload}
use peerless_sysytem_fw.Auth.{
  AuthorizationScope, CredentialPolicy, ScopeKeyDescriptor, validate_scope, validate_policy,
  expiry_of, epoch, key_id, verify_descriptor,
}
use peerless_sysytem_fw.Auth.Nonces.{BoundedNonceStore, reserve, commit}
use peerless_sysytem_fw.Auth.Verifier.{
  PrivacyPass, Redeems, RedeemTokenError, AnonymousVerifier, AnonymousPresentation, new_verifier,
  prune, check_presentation, check_token, redeem_pruned, redeem, check_descriptor, add_checked,
  add_descriptor, insert_key,
}
use peerless_sysytem_fw.Auth.Verifier.Once.{Event, steps, redeem_once}
use peerless_sysytem_fw.Auth.Issuer.{
  Rsa, AnonymousIssuer, issue, issue_checked, check_request, sign_blinded,
}
use peerless_sysytem_fw.Auth.Issuer.Limit.{Call}
use peerless_sysytem_fw.Auth.Issuer.Rotation.{Generated, challenge, challenge_in, prune_issuer}
use peerless_sysytem_fw.Auth.Issuer.History as Issuing
use peerless_sysytem_fw.Auth.{validate_public_class, issue_descriptor}

abbrev same : Bytes → Bytes
same b = b

abbrev spend :
    BoundedNonceStore
    → Bytes
    → Bool × BoundedNonceStore
    → Result RedeemTokenError (Unit {0}) × BoundedNonceStore
spend s nonce (true, s') = (ok tt, commit s' nonce)
spend s nonce (false, s') = (err RedeemTokenError.double_spending, s')

abbrev tokens : PrivacyPass
tokens = record {
  Key = Bytes;
  Token = Bytes;
  from_spki = λ der. some der;
  truncated_id = λ key. some (byte_at key 0);
  serialize = λ key. some key;
  decode = λ b. some b;
  token_key_id = λ t. 7 ∷ [];
  challenge_digest = λ t. [];
  nonce = λ t. take 1 t;
  scope_digest = λ s. some [];
  redeem_token = λ keys s t now. spend s (take 1 t) (reserve s (take 1 t) now);
}

spend-ok :
    (s : BoundedNonceStore) (nonce : Bytes) (r : Bool × BoundedNonceStore)
    → (spend s nonce r).0 ≡ ok tt
    → (r.0 ≡ true) × ((spend s nonce r).1 ≡ commit r.1 nonce)
spend-ok s nonce (true, s') h = (refl, refl)
spend-ok s nonce (false, s') h = absurd (ground arith)

spend-err :
    (s : BoundedNonceStore) (nonce : Bytes) (r : Bool × BoundedNonceStore) (e : RedeemTokenError)
    → (spend s nonce r).0 ≡ err e
    → (spend s nonce r).1 ≡ r.1
spend-err s nonce (true, s') e h = absurd (ground arith)
spend-err s nonce (false, s') e h = refl

tokens-Redeems : Redeems tokens
tokens-Redeems = record {
  accepted = λ keys s t now h. spend-ok s (take 1 t) (reserve s (take 1 t) now) h;
  refused = λ keys s t now e h. inr (inl (spend-err s (take 1 t) (reserve s (take 1 t) now) e h));
}

abbrev open_crypto : Crypto
open_crypto = record {
  sha256 = same;
  keypair_sign = λ key m. some (key ++ m);
  key_verify = λ key m s. some true;
}

abbrev policy : CredentialPolicy
policy = record {
  epoch_seconds = 300;
  max_issues_per_member_epoch = 1;
  max_active_scope_keys = 2;
  max_nullifiers = 3;
}

abbrev scope : AuthorizationScope
scope = record {
  version = 1;
  network_id = b'n' ∷ [];
  permission = b'x' ∷ [];
  epoch = 0;
  expires_at = 300;
  issuer_key_id = 7 ∷ [];
}

abbrev descriptor : ScopeKeyDescriptor
descriptor = record {
  scope = scope;
  public_key = 7 ∷ [];
  governance_issuer = 9 ∷ [];
  governance_public_key = 9 ∷ [];
  signature = [];
}

abbrev payload : AuthorizationScope → Bytes → NodeId → Bytes → Option Bytes
payload s key issuer issuer_key = some []

abbrev presentation : ℕ → AnonymousPresentation
presentation n = record { scope = scope; token = n ∷ replicate 353 0 }

abbrev verifier : AnonymousVerifier tokens
verifier = record {
  policy = policy;
  keys = [];
  descriptors = [];
  nonces = record { values = []; max_entries = 3; retention_seconds = 300 };
}

abbrev set_up : List (Event tokens tokens-Redeems same open_crypto payload)
set_up = Event.added descriptor ((9 ∷ []) ∷ []) 10 ∷ []

abbrev in_between : List (Event tokens tokens-Redeems same open_crypto payload)
in_between = Event.redeemed (presentation 2) (b'n' ∷ []) (b'x' ∷ []) 20 20 ∷ []

accepted_once :
    (redeem tokens same
      (steps tokens tokens-Redeems same open_crypto payload verifier set_up)
      (presentation 1)
      (b'n' ∷ [])
      (b'x' ∷ [])
      12
      12).0
    ≡ ok tt
unfolding redeem redeem_pruned check_presentation check_token add_descriptor add_checked
    check_descriptor prune epoch expiry_of validate_scope validate_policy key_id verify_descriptor
    verify node_id_derive insert_key reserve commit
accepted_once = refl

redeem_once_example :
    (redeem tokens same
      (steps tokens tokens-Redeems same open_crypto payload
        (redeem tokens same
          (steps tokens tokens-Redeems same open_crypto payload verifier set_up)
          (presentation 1)
          (b'n' ∷ [])
          (b'x' ∷ [])
          12
          12).1
        in_between)
      (presentation 1)
      (b'n' ∷ [])
      (b'x' ∷ [])
      25
      25).0
    ≢ ok tt
unfolding new_verifier validate_policy
redeem_once_example =
    redeem_once tokens tokens-Redeems same open_crypto payload policy verifier set_up in_between
      (presentation 1) (presentation 1) (b'n' ∷ []) (b'x' ∷ []) (b'n' ∷ []) (b'x' ∷ []) 12 12 25 25
      (1 ∷ replicate 353 0) (1 ∷ replicate 353 0) refl accepted_once (omega arith, tt) (omega arith)
      refl refl refl

-- When the nonce store's clock has gone on by the epoch's length since the first time, and the caller
-- still gives a time of the same epoch, the presentation is accepted again.
accepted_twice :
    (redeem tokens same
      (redeem tokens same
        (steps tokens tokens-Redeems same open_crypto payload verifier set_up)
        (presentation 1)
        (b'n' ∷ [])
        (b'x' ∷ [])
        12
        12).1
      (presentation 1)
      (b'n' ∷ [])
      (b'x' ∷ [])
      25
      312).0
    ≡ ok tt
unfolding redeem redeem_pruned check_presentation check_token add_descriptor add_checked
    check_descriptor prune epoch expiry_of validate_scope validate_policy key_id verify_descriptor
    verify node_id_derive insert_key reserve commit
accepted_twice = refl

-- The private operation returns what it is given.
abbrev plain_rsa : Rsa
plain_rsa = record { PrivateKey = Bytes; private_decrypt = λ key b. some b; public_token_type = 2 }

abbrev brief_serde : Serde
brief_serde = record {
  event_json = λ e. none;
  signed_event_json = λ e. none;
  block_json = λ b. none;
  block_pretty_json = λ b. none;
  proposal_json = λ version previous height timestamp events_root. none;
  membership_json = λ network_id member issuer permissions expires_at. some [];
}

abbrev issuer : AnonymousIssuer tokens plain_rsa
issuer = record { policy = policy; keys = []; descriptors = []; issuance = [] }

-- Every attempt generates the key of the scope.
abbrev attempt : ℕ → Option (Generated tokens plain_rsa)
attempt n = some (record { private_key = []; public_key = 7 ∷ []; truncated = 7 })

abbrev governor : NodeIdentity
governor = record { node_id = 9 ∷ []; keypair = []; public_key = 9 ∷ [] }

abbrev call : ℕ → Call tokens plain_rsa open_crypto brief_serde
call now = record {
  membership = record {
    network_id = b'n' ∷ [];
    member = 4 ∷ [];
    issuer = 9 ∷ [];
    permissions = (b'x' ∷ []) ∷ [];
    expires_at = none;
    issuer_public_key = 9 ∷ [];
    signature = [];
  };
  trusted = (9 ∷ []) ∷ [];
  revoked = [];
  request = record { scope = scope; request = 0 ∷ 2 ∷ 7 ∷ replicate 256 0 };
  now = now;
}

abbrev asked : List (Issuing.Event tokens plain_rsa open_crypto brief_serde payload)
asked =
    Issuing.Event.challenged governor (b'n' ∷ []) (b'x' ∷ []) 4 attempt
    ∷ Issuing.Event.called (call 5)
    ∷ Issuing.Event.pruned 6
    ∷ Issuing.Event.called (call 7)
    ∷ []

-- The first call is answered, the second is over the limit.
issued_one :
    Issuing.issued tokens plain_rsa open_crypto brief_serde payload (4 ∷ []) 0 issuer asked ≡ 1
unfolding issue issue_checked check_request sign_blinded validate_scope epoch validate_policy
    expiry_of key_id verify_membership membership_payload verify node_id_derive challenge
    challenge_in prune_issuer validate_public_class issue_descriptor sign
issued_one = refl
