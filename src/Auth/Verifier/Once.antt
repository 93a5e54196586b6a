-- ===== src/Auth/Verifier/Once.antt =====
-- No nonce is redeemed twice while the nonce store keeps it, which is for an epoch's length of the
-- store's own clock; `redeem` of crates/peerless-anonymous-auth/src/lib.rs.
use native.Mathlib.Nat.{div-add-mod, mod-lt, mul_comm}
use peerless_sysytem_fw.Prelude.{
  ℕ, ◌+◌, ◌*◌, ◌/◌, ◌≤◌, ◌<◌, ◌≡◌, ◌≢◌, refl, sym, ap, ◌∙◌, subst, true, Option, some, List, [],
  ◌∷◌, Bytes, ok, All, arith,
}
use peerless_sysytem_fw.Core.{NodeId}
use peerless_sysytem_fw.Identity.{Crypto}
use peerless_sysytem_fw.Auth.{
  AuthorizationScope, CredentialPolicy, ScopeKeyDescriptor, scope_eq, validate_policy,
}
use peerless_sysytem_fw.Auth.Nonces.{
  Spent, Spent-refused, commit-reserve, reserve, saturating_add, u64_max,
}
use peerless_sysytem_fw.Auth.Verifier.{
  PrivacyPass, Redeems, AnonymousVerifier, AnonymousPresentation, new_verifier, redeem,
  add_descriptor,
}
use peerless_sysytem_fw.Auth.Verifier.Kept.{
  redeem-Accepted, Keeps, redeem-Keeps, add_descriptor-Keeps,
}

epoch_start-le : (now seconds : ℕ) → now / seconds * seconds ≤ now
epoch_start-le now seconds =
    omega (arith, div-add-mod now seconds, mul_comm (now / seconds) seconds)

epoch_end-lt : (now seconds : ℕ) → 0 < seconds → now < now / seconds * seconds + seconds
epoch_end-lt now seconds h =
    omega (arith, h, div-add-mod now seconds, mul_comm (now / seconds) seconds, mod-lt now h)

same_epoch-lt :
    (now now' seconds : ℕ) → 0 < seconds → now / seconds ≡ now' / seconds → now' < now + seconds
same_epoch-lt now now' seconds h e =
    omega (arith, epoch_start-le now seconds, epoch_end-lt now' seconds h, ap (λ k. k * seconds) e)

module _ (l : PrivacyPass) (lawful : Redeems l) (sha256 : Bytes → Bytes) where
  module _ (c : Crypto) (payload : AuthorizationScope → Bytes → NodeId → Bytes → Option Bytes) where
    -- What is done to a verifier: `redeem` has the caller's time, for the scope, and reads the clock
    -- of the nonce store, for the nonce.
    pub data Event : Type 0 where
      added : ScopeKeyDescriptor → List NodeId → ℕ → Event
      redeemed : AnonymousPresentation → Bytes → Bytes → ℕ → ℕ → Event

    -- The nonce store's clock reads no later time.
    abbrev pub NoLater : ℕ → Event → Type 0
    NoLater wall (Event.added d trusted now) = Unit {0}
    NoLater wall (Event.redeemed p network permission now read) = read ≤ wall

    abbrev pub step : AnonymousVerifier l → Event → AnonymousVerifier l
    step v (Event.added d trusted now) = (add_descriptor l c payload v d trusted now).1
    step v (Event.redeemed p network permission now wall) =
        (redeem l sha256 v p network permission now wall).1

    abbrev pub steps : AnonymousVerifier l → List Event → AnonymousVerifier l
    steps v [] = v
    steps v (e ∷ es) = steps (step v e) es

    step-Keeps :
        (v : AnonymousVerifier l) (e : Event) (wall : ℕ)
        → NoLater wall e
        → (read : ℕ) × (read ≤ wall) × Keeps l lawful sha256 v (step v e) read
    step-Keeps v (Event.added d trusted now) wall h =
        (0, omega arith, add_descriptor-Keeps l lawful sha256 c payload v d trusted now 0)
    step-Keeps v (Event.redeemed p network permission now read) wall h =
        (read, h, redeem-Keeps l lawful sha256 v p network permission now read)

    step-policy :
        (v : AnonymousVerifier l) (e : Event)
        → ((step v e).policy ≡ v.policy)
          × ((step v e).nonces.retention_seconds ≡ v.nonces.retention_seconds)
    step-policy v (Event.added d trusted now) =
        let kept = add_descriptor-Keeps l lawful sha256 c payload v d trusted now 0 in
        (kept.policy_same, kept.retention_kept)
    step-policy v (Event.redeemed p network permission now read) =
        let kept = redeem-Keeps l lawful sha256 v p network permission now read in
        (kept.policy_same, kept.retention_kept)

    steps-policy :
        (v : AnonymousVerifier l) (es : List Event)
        → ((steps v es).policy ≡ v.policy)
          × ((steps v es).nonces.retention_seconds ≡ v.nonces.retention_seconds)
    steps-policy v [] = (refl, refl)
    steps-policy v (e ∷ es) =
        let later = steps-policy (step v e) es in
        let first = step-policy v e in (later.0 ∙ first.0, later.1 ∙ first.1)

    steps-Spent :
        (v : AnonymousVerifier l) (es : List Event) (nonce : Bytes) (wall until : ℕ)
        → wall < until
        → All (NoLater wall) es
        → Spent nonce until v.nonces
        → Spent nonce until (steps v es).nonces
    steps-Spent v [] nonce wall until early a p = p
    steps-Spent v (e ∷ es) nonce wall until early (h, a) p =
        let (read, in_time, kept) = step-Keeps v e wall h in
        steps-Spent (step v e) es nonce wall until early a
          (kept.spent_kept nonce until (omega (arith, early, in_time)) p)

    new_verifier-policy :
        (policy : CredentialPolicy) (v : AnonymousVerifier l)
        → new_verifier l policy ≡ ok v
        → v.policy ≡ policy
    unfolding new_verifier validate_policy
    new_verifier-policy policy v h = ground arith

    new_verifier-retention :
        (policy : CredentialPolicy) (v : AnonymousVerifier l)
        → new_verifier l policy ≡ ok v
        → v.nonces.retention_seconds ≡ policy.epoch_seconds
    unfolding new_verifier validate_policy
    new_verifier-retention policy v h = ground arith

    -- Take any history of a new verifier, a presentation that it accepts when its nonce store's clock
    -- reads `wall`, and any later events. While that clock reads less than the sum of `wall` and the
    -- policy's epoch, which saturates at `u64::MAX`, and has not read a later time in between, no
    -- presentation with the same nonce is accepted, whatever times the callers give.
    pub redeem_once :
        (policy : CredentialPolicy) (v : AnonymousVerifier l) (before between : List Event)
        (p p' : AnonymousPresentation) (network permission network' permission' : Bytes)
        (now wall now' wall' : ℕ) (t t' : l.Token)
        → new_verifier l policy ≡ ok v
        → (redeem l sha256 (steps v before) p network permission now wall).0 ≡ ok tt
        → All (NoLater wall') between
        → wall' < saturating_add wall policy.epoch_seconds
        → l.decode p.token ≡ some t
        → l.decode p'.token ≡ some t'
        → l.nonce t ≡ l.nonce t'
        → (redeem l sha256
            (steps (redeem l sha256 (steps v before) p network permission now wall).1 between)
            p'
            network'
            permission'
            now'
            wall').0
          ≢ ok tt
    redeem_once policy v before between p p' network permission network' permission' now wall now'
          wall' t t' fresh first times in_time decoded decoded' nonces second =
        let v1 = steps v before in
        let kept1 = steps-policy v before in
        let a = redeem-Accepted l lawful sha256 v1 p network permission now wall first in
        let v2 = (redeem l sha256 v1 p network permission now wall).1 in
        let v3 = steps v2 between in
        let b = redeem-Accepted l lawful sha256 v3 p' network' permission' now' wall' second in
        let nonce : l.nonce b.token ≡ l.nonce a.token = ground (arith, a.decoded, b.decoded) in
        let retention : v1.nonces.retention_seconds ≡ policy.epoch_seconds =
          kept1.1 ∙ new_verifier-retention policy v fresh in
        let until : ℕ = saturating_add wall v1.nonces.retention_seconds in
        let early : wall' < until =
          subst (λ r. wall' < saturating_add wall r) (sym retention) in_time in
        let spent : Spent (l.nonce a.token) until v2.nonces =
          subst (Spent (l.nonce a.token) until) (sym a.spent)
            (commit-reserve (l.nonce a.token) wall v1.nonces a.granted) in
        let spent3 = steps-Spent v2 between (l.nonce a.token) wall' until early times spent in
        let refused = Spent-refused (l.nonce a.token) until wall' v3.nonces early spent3 in
        let granted = subst (λ n. (reserve v3.nonces n wall').0 ≡ true) nonce b.granted in
        absurd (ground (arith, refused, granted))

    -- In particular a nonce is not redeemed twice in one epoch, if from the first presentation to the
    -- second the nonce store's clock goes on by no more than the callers' times do.
    redeem_once_in_epoch :
        (policy : CredentialPolicy) (v : AnonymousVerifier l) (before between : List Event)
        (p p' : AnonymousPresentation) (network permission network' permission' : Bytes)
        (now wall now' wall' : ℕ) (t t' : l.Token)
        → new_verifier l policy ≡ ok v
        → (redeem l sha256 (steps v before) p network permission now wall).0 ≡ ok tt
        → All (NoLater wall') between
        → wall' + now ≤ wall + now'
        → wall' < u64_max
        → p.scope.epoch ≡ p'.scope.epoch
        → l.decode p.token ≡ some t
        → l.decode p'.token ≡ some t'
        → l.nonce t ≡ l.nonce t'
        → (redeem l sha256
            (steps (redeem l sha256 (steps v before) p network permission now wall).1 between)
            p'
            network'
            permission'
            now'
            wall').0
          ≢ ok tt
    redeem_once_in_epoch policy v before between p p' network permission network' permission' now
          wall now' wall' t t' fresh first times slower u64 same decoded decoded' nonces second =
        let v1 = steps v before in
        let v2 = (redeem l sha256 v1 p network permission now wall).1 in
        let a = redeem-Accepted l lawful sha256 v1 p network permission now wall first in
        let b =
          redeem-Accepted l lawful sha256 (steps v2 between) p' network' permission' now' wall'
            second in
        let seconds : ℕ = policy.epoch_seconds in
        let policy1 : v1.policy.epoch_seconds ≡ seconds =
          ap (λ q. q.epoch_seconds)
            ((steps-policy v before).0 ∙ new_verifier-policy policy v fresh) in
        let policy3 : (steps v2 between).policy.epoch_seconds ≡ seconds =
          ap (λ q. q.epoch_seconds)
            ((steps-policy v2 between).0
              ∙ (redeem-Keeps l lawful sha256 v1 p network permission now wall).policy_same)
          ∙ policy1 in
        let epochs : now / seconds ≡ now' / seconds =
          ap (λ k. now / k) (sym policy1)
          ∙ sym a.in_epoch
          ∙ same
          ∙ b.in_epoch
          ∙ ap (λ k. now' / k) policy3 in
        let near : now' < now + seconds =
          same_epoch-lt now now' seconds (subst (λ k. 0 < k) policy1 a.seconds) epochs in
        redeem_once policy v before between p p' network permission network' permission' now wall
          now' wall' t t' fresh first times (ground (arith, slower, near, u64)) decoded decoded'
          nonces second
