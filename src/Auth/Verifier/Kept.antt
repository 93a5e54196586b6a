-- ===== src/Auth/Verifier/Kept.antt =====
-- What `redeem` and `add_descriptor` of crates/peerless-anonymous-auth/src/lib.rs do to the policy and
-- to the nonces.
use peerless_sysytem_fw.Prelude.{
  ==_iff, ℕ, ◌/◌, ◌<◌, ◌≡◌, refl, sym, ap, ◌∙◌, subst, true, Option, some, List, [], ◌∷◌, Bytes,
  Result, ok, err, leb, length, arith, inl, inr, Bool-cases, Option-cases, Result-cases,
}
use peerless_sysytem_fw.Prelude.Dict.{Dict, lookup}
use peerless_sysytem_fw.Core.{NodeId}
use peerless_sysytem_fw.Identity.{Crypto}
use peerless_sysytem_fw.Auth.{
  AuthorizationScope, CredentialPolicy, ScopeKeyDescriptor, scope_eq, validate_policy, epoch,
}
use peerless_sysytem_fw.Auth.Nonces.{
  BoundedNonceStore, Spent, reserve-Spent, release-Spent, commit-Spent, reserve, commit, release,
}
use peerless_sysytem_fw.Auth.Verifier.{
  PrivacyPass, Redeems, RedeemTokenError, AnonymousVerifier, AnonymousPresentation, expired_of,
  drop_expired, prune, check_presentation, check_token, redeem_pruned, redeem, check_descriptor,
  add_checked, add_descriptor, or_replay,
}

module _ (l : PrivacyPass) (lawful : Redeems l) (sha256 : Bytes → Bytes) where
  drop_expired-same :
      (expired : List (AuthorizationScope × Bytes)) (v : AnonymousVerifier l)
      → ((drop_expired l expired v).policy ≡ v.policy)
        × ((drop_expired l expired v).nonces ≡ v.nonces)
  drop_expired-same [] v = (refl, refl)
  drop_expired-same ((scope, der) ∷ expired) v = drop_expired-same expired _

  prune-same :
      (v : AnonymousVerifier l) (now : ℕ)
      → ((prune l v now).policy ≡ v.policy) × ((prune l v now).nonces ≡ v.nonces)
  unfolding prune
  prune-same v now = drop_expired-same (expired_of now v.descriptors) v

  retention-same :
      (s : BoundedNonceStore) (nonce : Bytes) (now : ℕ)
      → (reserve s nonce now).1.retention_seconds ≡ s.retention_seconds
  unfolding reserve
  retention-same s nonce now = ground arith

  -- What `redeem_token` leaves of a spent nonce and of the retention time.
  redeem_token-kept :
      (keys : Dict ℕ (List l.Key)) (s : BoundedNonceStore) (t : l.Token) (now : ℕ)
      → ((l.redeem_token keys s t now).1.retention_seconds ≡ s.retention_seconds)
        × ((nonce : Bytes) (until : ℕ)
            → now < until
            → Spent nonce until s
            → Spent nonce until (l.redeem_token keys s t now).1)
  unfolding commit release
  redeem_token-kept keys s t now = elim (Result-cases (l.redeem_token keys s t now).0) [
    | inl (done, e) ↦
        let a = lawful.accepted keys s t now e in
        rw a.1 (
          retention-same s (l.nonce t) now,
          λ nonce until h p.
              commit-Spent nonce (l.nonce t) until _
                (reserve-Spent nonce (l.nonce t) until now s h p),
        )
    | inr (failure, e) ↦ elim (lawful.refused keys s t now failure e) [
      | inl same ↦ rw same (refl, λ nonce until h p. p)
      | inr (inl kept) ↦ rw kept (
        retention-same s (l.nonce t) now,
        λ nonce until h p. reserve-Spent nonce (l.nonce t) until now s h p,
      )
      | inr (inr released) ↦ rw released (
        retention-same s (l.nonce t) now,
        λ nonce until h p.
            release-Spent nonce (l.nonce t) until _
              (reserve-Spent nonce (l.nonce t) until now s h p),
      )
    ]
  ]

  check_presentation-epoch :
      (policy : CredentialPolicy) (p : AnonymousPresentation) (network permission : Bytes) (now : ℕ)
      (done : Unit {0})
      → check_presentation l policy p network permission now ≡ ok done
      → (0 < policy.epoch_seconds) × (p.scope.epoch ≡ now / policy.epoch_seconds)
  unfolding check_presentation epoch validate_policy
  check_presentation-epoch policy p network permission now done h =
      ground
        (arith, ==_iff p.scope.epoch (now / policy.epoch_seconds), ==_iff policy.epoch_seconds 0)

  check_token-decode :
      (v : AnonymousVerifier l) (p : AnonymousPresentation) (t : l.Token)
      → check_token l sha256 v p ≡ ok t
      → l.decode p.token ≡ some t
  unfolding check_token
  check_token-decode v p t h = ground arith

  or_replay-ok : (r : Result RedeemTokenError (Unit {0})) → or_replay l r ≡ ok tt → r ≡ ok tt
  or_replay-ok (ok done) h = refl
  or_replay-ok (err RedeemTokenError.double_spending) h = absurd (ground arith)
  or_replay-ok (err RedeemTokenError.other) h = absurd (ground arith)

  -- What an accepted presentation did.
  pub record Accepted (v v' : AnonymousVerifier l) (p : AnonymousPresentation) (now wall : ℕ)
      : Type 0 where
    pub token : l.Token
    pub decoded : l.decode p.token ≡ some token
    pub seconds : 0 < v.policy.epoch_seconds
    pub in_epoch : p.scope.epoch ≡ now / v.policy.epoch_seconds
    pub granted : (reserve v.nonces (l.nonce token) wall).0 ≡ true
    pub spent : v'.nonces ≡ commit (reserve v.nonces (l.nonce token) wall).1 (l.nonce token)

  pub redeem-Accepted :
      (v : AnonymousVerifier l) (p : AnonymousPresentation) (network permission : Bytes)
      (now wall : ℕ)
      → (redeem l sha256 v p network permission now wall).0 ≡ ok tt
      → Accepted v (redeem l sha256 v p network permission now wall).1 p now wall
  unfolding redeem redeem_pruned
  redeem-Accepted v p network permission now wall h =
      elim (Result-cases (check_presentation l v.policy p network permission now)) [
        | inr (failure, e) ↦ absurd (ground arith)
        | inl (done, e) ↦
            let pruned = prune l v now in
            let same = (prune-same v now).1 in
            let of_epoch = check_presentation-epoch v.policy p network permission now done e in
            elim (Result-cases (check_token l sha256 pruned p)) [
              | inr (failure, e') ↦ absurd (ground arith)
              | inl (t, e') ↦
                  let h1 = rw (e, redeem) at h in
                  let result =
                    or_replay-ok (l.redeem_token pruned.keys pruned.nonces t wall).0
                      (rw (e', redeem_pruned) at h1) in
                  let a = lawful.accepted pruned.keys pruned.nonces t wall result in
                  record {
                    token = t;
                    decoded = check_token-decode pruned p t e';
                    seconds = of_epoch.0;
                    in_epoch = of_epoch.1;
                    granted = subst (λ s. (reserve s (l.nonce t) wall).0 ≡ true) same a.0;
                    spent =
                        rw (e, redeem)
                          (rw (e', redeem_pruned)
                            (subst
                              (λ s.
                                (l.redeem_token pruned.keys pruned.nonces t wall).1
                                ≡ commit (reserve s (l.nonce t) wall).1 (l.nonce t))
                              same a.1));
                  }
            ]
      ]

  -- Between two states: the policy stays, and what is spent until after `now` stays spent.
  pub record Keeps (v v' : AnonymousVerifier l) (now : ℕ) : Type 0 where
    pub policy_same : v'.policy ≡ v.policy
    pub retention_kept : v'.nonces.retention_seconds ≡ v.nonces.retention_seconds
    pub spent_kept :
        (nonce : Bytes) (until : ℕ)
        → now < until
        → Spent nonce until v.nonces
        → Spent nonce until v'.nonces

  Keeps-same :
      (v v' : AnonymousVerifier l) (now : ℕ)
      → v'.policy ≡ v.policy
      → v'.nonces ≡ v.nonces
      → Keeps v v' now
  Keeps-same v v' now policy nonces = record {
    policy_same = policy;
    retention_kept = ap (λ s. s.retention_seconds) nonces;
    spent_kept = λ nonce until h p. subst (Spent nonce until) (sym nonces) p;
  }

  pub redeem-Keeps :
      (v : AnonymousVerifier l) (p : AnonymousPresentation) (network permission : Bytes)
      (now wall : ℕ)
      → Keeps v (redeem l sha256 v p network permission now wall).1 wall
  unfolding redeem redeem_pruned
  redeem-Keeps v p network permission now wall =
      let pruned = prune l v now in
      let same = prune-same v now in
      elim (Result-cases (check_presentation l v.policy p network permission now)) [
        | inr (failure, e) ↦ rw (e, redeem) (Keeps-same v v wall refl refl)
        | inl (done, e) ↦ elim (Result-cases (check_token l sha256 pruned p)) [
          | inr (failure, e') ↦
              rw (e, redeem) (rw (e', redeem_pruned) (Keeps-same v pruned wall same.0 same.1))
          | inl (t, e') ↦
              let kept = redeem_token-kept pruned.keys pruned.nonces t wall in
              rw (e, redeem)
                (rw (e', redeem_pruned)
                  (record {
                    policy_same = same.0;
                    retention_kept = kept.0 ∙ ap (λ s. s.retention_seconds) same.1;
                    spent_kept = λ nonce until h p'.
                        kept.1 nonce until h (subst (Spent nonce until) (sym same.1) p');
                  }))
        ]
      ]

  module _ (c : Crypto) (payload : AuthorizationScope → Bytes → NodeId → Bytes → Option Bytes) where
    add_checked-same :
        (v : AnonymousVerifier l) (d : ScopeKeyDescriptor) (key : l.Key × ℕ)
        → ((add_checked l c payload v d key).1.policy ≡ v.policy)
          × ((add_checked l c payload v d key).1.nonces ≡ v.nonces)
    unfolding add_checked
    add_checked-same v d key = elim (Option-cases (lookup d.scope v.descriptors)) [
      | inr (existing, e) ↦ rw (e, add_checked) (refl, refl)
      | inl e ↦ elim (Bool-cases (leb v.policy.max_active_scope_keys (length v.descriptors))) [
        | inl full ↦ rw (e, add_checked, full) (refl, refl)
        | inr room ↦ rw (e, add_checked, room) (refl, refl)
      ]
    ]

    pub add_descriptor-Keeps :
        (v : AnonymousVerifier l) (d : ScopeKeyDescriptor) (trusted : List NodeId) (now wall : ℕ)
        → Keeps v (add_descriptor l c payload v d trusted now).1 wall
    unfolding add_descriptor add_checked
    add_descriptor-Keeps v d trusted now wall =
        let same = prune-same v now in
        elim (Result-cases (check_descriptor l c payload v.policy d trusted now)) [
          | inr (failure, e) ↦ rw (e, add_descriptor) (Keeps-same v v wall refl refl)
          | inl (key, e) ↦
              let (policy, nonces) = add_checked-same (prune l v now) d key in
              rw (e, add_descriptor) (Keeps-same v _ wall (policy ∙ same.0) (nonces ∙ same.1))
        ]
