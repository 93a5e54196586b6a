-- ===== src/Auth/Issuer/History.antt =====
-- No member is issued more credentials in an epoch than the policy allows, whatever happens to the keys.
use peerless_sysytem_fw.Prelude.{ℕ, ◌+◌, ◌/◌, ◌≡◌, ◌&&◌, Option, List, [], ◌∷◌, Bytes, ◌==◌}
use peerless_sysytem_fw.Prelude.Equality.{bytes_beq}
use peerless_sysytem_fw.Core.{NodeId}
use peerless_sysytem_fw.Identity.{Crypto, NodeIdentity}
use peerless_sysytem_fw.Ledger.Block.{Serde}
use peerless_sysytem_fw.Auth.{AuthorizationScope}
use peerless_sysytem_fw.Auth.Verifier.{PrivacyPass}
use peerless_sysytem_fw.Auth.Issuer.{Rsa, AnonymousIssuer, counter_eq}
use peerless_sysytem_fw.Auth.Issuer.Rotation.{Generated, prune_issuer, challenge}
use peerless_sysytem_fw.Auth.Issuer.Limit.{is_ok, one_if, counter_of, Call, made}

module _ (l : PrivacyPass) (rsa : Rsa) where
  -- The counters and the policy stay.
  abbrev Same : AnonymousIssuer l rsa → AnonymousIssuer l rsa → Type 0
  Same i i' = (i'.issuance ≡ i.issuance) × (i'.policy ≡ i.policy)

  -- The counter of a member and an epoch stays.
  abbrev Kept : NodeId → ℕ → AnonymousIssuer l rsa → AnonymousIssuer l rsa → Type 0
  Kept n k i i' = (counter_of l rsa n k i' ≡ counter_of l rsa n k i) × (i'.policy ≡ i.policy)

  module _ (c : Crypto) (serde : Serde)
      (payload : AuthorizationScope → Bytes → NodeId → Bytes → Option Bytes) where
    -- What is asked of an issuer, with its time.
    pub data Event : Type 0 where
      called : Call l rsa c serde → Event
      challenged : NodeIdentity → Bytes → Bytes → ℕ → (ℕ → Option (Generated l rsa)) → Event
      pruned : ℕ → Event

    abbrev pub time_of : Event → ℕ
    time_of (Event.called call) = call.now
    time_of (Event.challenged governance network permission now attempt) = now
    time_of (Event.pruned now) = now

    abbrev pub step : AnonymousIssuer l rsa → Event → AnonymousIssuer l rsa
    step i (Event.called call) = (made l rsa c serde i call).1
    step i (Event.challenged governance network permission now attempt) =
        (challenge l rsa c payload i governance network permission now attempt).1
    step i (Event.pruned now) = prune_issuer l rsa i now

    -- One if the event issues a credential to the member in the epoch.
    abbrev pub issues : NodeId → ℕ → AnonymousIssuer l rsa → Event → ℕ
    issues n k i (Event.called call) = one_if (
        is_ok (made l rsa c serde i call).0
        && (bytes_beq call.membership.member n && call.now / i.policy.epoch_seconds == k))
    issues n k i (Event.challenged governance network permission now attempt) = 0
    issues n k i (Event.pruned now) = 0

    abbrev pub issued : NodeId → ℕ → AnonymousIssuer l rsa → List Event → ℕ
    issued n k i [] = 0
    issued n k i (e ∷ events) = issues n k i e + issued n k (step i e) events
