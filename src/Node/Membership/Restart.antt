-- ===== src/Node/Membership/Restart.antt =====
-- What a restart asks of the file of issued memberships.
use peerless_sysytem_fw.Prelude.{
  ℕ, suc, ◌≡◌, Bool, true, false, Option, none, some, List, [], ◌∷◌, Bytes, ok, arith, inl, inr,
  Result-cases,
}
use peerless_sysytem_fw.Identity.{Crypto, NodeIdentity}
use peerless_sysytem_fw.Protocol.{Json}
use peerless_sysytem_fw.Ledger.Block.{
  Block, Membership, Invitation, Serde, unexpired, verify_membership,
}
use peerless_sysytem_fw.Node.Membership.{
  Roster, register_issued_membership, register_all, reregister, reactivate, open_roster,
}

-- Each membership is unexpired when the clock is read for it.
abbrev pub AllUnexpired : (ℕ → ℕ) → List Membership → Type 0
AllUnexpired clock [] = Unit {0}
AllUnexpired clock (m ∷ ms) =
    (unexpired m.expires_at (clock 0) ≡ true) × AllUnexpired (λ n. clock (suc n)) ms

module _ (c : Crypto) (serde : Serde) (identity : NodeIdentity)
    (json : Json (List Membership)) where
  registered-unexpired :
      (replaced : Bytes → Bool) (m : Membership) (at : ℕ) (persist : Bool) (r r' : Roster)
      → register_issued_membership c serde identity json replaced m at persist r ≡ ok r'
      → unexpired m.expires_at at ≡ true
  unfolding register_issued_membership verify_membership
  registered-unexpired replaced m at persist r r' h = ground arith

  register_all-unexpired :
      (clock : ℕ → ℕ) (ms : List Membership) (r r' : Roster)
      → register_all c serde identity json clock ms r ≡ ok r'
      → AllUnexpired clock ms
  register_all-unexpired clock [] r r' h = tt
  register_all-unexpired clock (m ∷ ms) r r' h =
      elim (Result-cases
        (register_issued_membership c serde identity json (λ bytes. true) m (clock 0) false r)) [
          | inl (r'', e) ↦ (
            registered-unexpired (λ bytes. true) m (clock 0) false r r'' e,
            register_all-unexpired (λ n. clock (suc n)) ms r'' r' (rw e at h),
          )
          | inr (p, e) ↦ absurd (ground arith)
        ]

  reregister-unexpired :
      (clock : ℕ → ℕ) (bytes : Bytes) (ms : List Membership) (r r' : Roster)
      → json.from_slice bytes ≡ some ms
      → reregister c serde identity json clock (some bytes) r ≡ ok r'
      → AllUnexpired clock ms
  reregister-unexpired clock bytes ms r r' parsed h =
      let registered : register_all c serde identity json clock ms r ≡ ok r' = ground arith in
      register_all-unexpired clock ms r r' registered

  -- A node opens with a file of issued memberships only if every one of them is unexpired when it is
  -- registered again: one that has expired since it was issued keeps the node from starting.
  pub open_roster-unexpired :
      (invitation_json : Json Invitation) (at : ℕ) (clock : ℕ → ℕ) (blocks : List Block)
      (file : Option Bytes) (bytes : Bytes) (ms : List Membership) (r : Roster)
      → json.from_slice bytes ≡ some ms
      → open_roster c serde identity invitation_json json at clock blocks file (some bytes) ≡ ok r
      → AllUnexpired clock ms
  unfolding open_roster
  open_roster-unexpired invitation_json at clock blocks file bytes ms r parsed h =
      let first : Roster = record {
        membership = none;
        issued_memberships = [];
        revoked_members = [];
        membership_file = file;
        issued_memberships_file = some bytes;
      } in
      elim (Result-cases (reactivate c serde identity invitation_json at file first)) [
        | inl (r1, e1) ↦
            elim (Result-cases (reregister c serde identity json clock (some bytes) r1)) [
              | inl (r2, e2) ↦ reregister-unexpired clock bytes ms r1 r2 parsed e2
              | inr (p, e2) ↦ absurd (ground arith)
            ]
        | inr (p, e) ↦ absurd (ground arith)
      ]
