-- ===== src/Auth/Issuer/Limit.antt =====
-- `issue` raises the counter of its member and epoch, and no counter above the limit.
use peerless_sysytem_fw.Prelude.{
  or_zero, ℕ, ◌+◌, ◌/◌, ◌≤◌, ◌≡◌, ◌≢◌, refl, sym, subst, Bool, true, false, ◌&&◌, List, [], ◌∷◌,
  Bytes, Result, ok, err, leb, ◌==◌, ==_iff, ==_refl, arith, inl, inr, Bool-cases, Result-cases,
}
use peerless_sysytem_fw.Prelude.Equality.{bytes_eq, bytes_beq, bytes_beq_iff}
use peerless_sysytem_fw.Prelude.Dict.{Dict, lookup, retain, lookup-insert_self, lookup-insert_ne}
use peerless_sysytem_fw.Core.{NodeId}
use peerless_sysytem_fw.Identity.{Crypto}
use peerless_sysytem_fw.Ledger.Block.{Membership, Serde}
use peerless_sysytem_fw.Auth.{AnonymousAuthError, epoch}
use peerless_sysytem_fw.Auth.Verifier.{PrivacyPass}
use peerless_sysytem_fw.Auth.Issuer.{
  Rsa, AnonymousIssuer, BlindCredentialRequest, counter_eq, counter_beq, counter_beq_iff,
  issue_checked, check_request, issue,
}

pub lookup-retain_current :
    (current k : ℕ) (n : NodeId) (d : Dict (NodeId × ℕ) ℕ)
    → current ≤ k
    → lookup (n, k) (retain (λ key count. leb current key.1) d) ≡ lookup (n, k) d
lookup-retain_current current k n [] h = refl
lookup-retain_current current k n (((m, j), count) ∷ d) h = ground (
  arith,
  lookup-retain_current current k n d h,
  counter_beq_iff (n, k) (m, j),
  ==_iff k j,
  bytes_beq_iff n m,
)

counter_beq-ne : (a b : NodeId × ℕ) → counter_beq a b ≡ false → b ≢ a
counter_beq-ne a b h p =
    let q : counter_beq a b ≡ true = (counter_beq_iff a b).1 (sym p) in
    absurd (ground (arith, q, h))

abbrev pub is_ok : Result AnonymousAuthError Bytes → Bool
is_ok (ok response) = true
is_ok (err e) = false

abbrev pub one_if : Bool → ℕ
one_if true = 1
one_if false = 0

module _ (l : PrivacyPass) (rsa : Rsa) where
  abbrev pub counter_of : NodeId → ℕ → AnonymousIssuer l rsa → ℕ
  counter_of n k i = or_zero (lookup (n, k) i.issuance)

  -- A success raises the counter of its member and epoch, and no counter above the limit.
  abbrev CounterOf : NodeId → ℕ → AnonymousIssuer l rsa → NodeId → ℕ → Bytes → ℕ → Type 0
  CounterOf n k i member current request truncated =
      (counter_of n k i
          + one_if (
              is_ok (issue_checked l rsa i member request truncated current).0
              && (bytes_beq member n && current == k))
        ≤ counter_of n k (issue_checked l rsa i member request truncated current).1)
      × (counter_of n k (issue_checked l rsa i member request truncated current).1
          ≤ i.policy.max_issues_per_member_epoch)
      × ((issue_checked l rsa i member request truncated current).1.policy ≡ i.policy)

  issue_checked-own :
      (i : AnonymousIssuer l rsa) (request : Bytes) (truncated : ℕ) (n : NodeId) (k : ℕ)
      → counter_of n k i ≤ i.policy.max_issues_per_member_epoch
      → CounterOf n k i n k request truncated
  unfolding issue_checked
  issue_checked-own i request truncated n k bounded =
      let kept_issuance = retain (λ key count. leb k key.1) i.issuance in
      let kept = lookup-retain_current k k n i.issuance (omega arith) in
      let self =
        lookup-insert_self (n, k) (or_zero (lookup (n, k) kept_issuance) + 1) kept_issuance in
      ground (arith, kept, self, (bytes_beq_iff n n).1 refl, ==_refl k)

  issue_checked-count :
      (i : AnonymousIssuer l rsa) (member : NodeId) (request : Bytes) (truncated current : ℕ)
      (n : NodeId) (k : ℕ)
      → current ≤ k
      → counter_of n k i ≤ i.policy.max_issues_per_member_epoch
      → CounterOf n k i member current request truncated
  unfolding issue_checked
  issue_checked-count i member request truncated current n k h bounded =
      let kept_issuance = retain (λ key count. leb current key.1) i.issuance in
      let kept = lookup-retain_current current k n i.issuance h in
      let raised = or_zero (lookup (member, current) kept_issuance) + 1 in
      elim (Bool-cases (counter_beq (member, current) (n, k))) [
        | inl same ↦
            let e = (counter_beq_iff (member, current) (n, k)).0 same in
            subst (λ p. CounterOf n k i p.0 p.1 request truncated) (sym e)
              (issue_checked-own i request truncated n k bounded)
        | inr other ↦
            let differ : (n, k) ≢ (member, current) =
              counter_beq-ne (member, current) (n, k) other in
            let unchanged = lookup-insert_ne (n, k) (member, current) raised kept_issuance differ in
            ground (arith, kept, unchanged, other)
      ]

  module _ (c : Crypto) (serde : Serde) where
    check_request-epoch :
        (i : AnonymousIssuer l rsa) (m : Membership) (trusted revoked : List NodeId)
        (r : BlindCredentialRequest) (now truncated current : ℕ)
        → check_request l rsa c serde i m trusted revoked r now ≡ ok (truncated, current)
        → current ≡ now / i.policy.epoch_seconds
    unfolding check_request epoch
    check_request-epoch i m trusted revoked r now truncated current h = ground arith

    pub record Call : Type 0 where
      pub membership : Membership
      pub trusted : List NodeId
      pub revoked : List NodeId
      pub request : BlindCredentialRequest
      pub now : ℕ

    abbrev pub made :
        AnonymousIssuer l rsa → Call → Result AnonymousAuthError Bytes × AnonymousIssuer l rsa
    made i call =
        issue l rsa c serde i call.membership call.trusted call.revoked call.request call.now

    pub made-count :
        (i : AnonymousIssuer l rsa) (call : Call) (n : NodeId) (k : ℕ)
        → call.now / i.policy.epoch_seconds ≤ k
        → counter_of n k i ≤ i.policy.max_issues_per_member_epoch
        → (counter_of n k i
              + one_if (
                  is_ok (made i call).0
                  && (bytes_beq call.membership.member n && call.now / i.policy.epoch_seconds == k))
            ≤ counter_of n k (made i call).1)
          × (counter_of n k (made i call).1 ≤ i.policy.max_issues_per_member_epoch)
          × ((made i call).1.policy ≡ i.policy)
    unfolding issue
    made-count i call n k h bounded =
        elim (Result-cases (
          check_request l rsa c serde i call.membership call.trusted call.revoked call.request
            call.now)) [
              | inr (failure, e) ↦ rw (e, issue) (omega arith, bounded, refl)
              | inl ((truncated, current), e) ↦
                  let now =
                    check_request-epoch i call.membership call.trusted call.revoked call.request
                      call.now truncated current e in
                  rw (e, issue)
                    (rw (sym now) (
                      issue_checked-count i call.membership.member call.request.request truncated
                        current n k (omega (arith, now, h)) bounded))
            ]
