-- ===== src/Node/Membership/Registered.antt =====
-- A node's roster follows its ledger when the node opens and when it registers a membership.
use peerless_sysytem_fw.Prelude.{
  ltb, ℕ, suc, ◌≡◌, ◌≢◌, ◌∙◌, subst, Bool, true, false, Option, none, some, List, [], ◌∷◌, Bytes,
  ok, arith, length, inl, inr, Bool-cases, Option-cases, Result-cases,
}
use peerless_sysytem_fw.Prelude.Equality.{bytes_eq}
use peerless_sysytem_fw.Prelude.Dict.{insert, lookup-insert_ne}
use peerless_sysytem_fw.Core.{NodeId}
use peerless_sysytem_fw.Identity.{Crypto, NodeIdentity}
use peerless_sysytem_fw.Protocol.{Json}
use peerless_sysytem_fw.Ledger.Block.{Block, Membership, Invitation, Serde, contains}
use peerless_sysytem_fw.Node.Membership.{
  MembershipPolicy, Roster, access_to, access_of, refresh_revocations_from_ledger,
  register_issued_membership, enforce_membership, activate_invitation, install_invitation,
  open_roster, register_all, reactivate, reregister, read_json, max_issued_memberships,
}
use peerless_sysytem_fw.Node.Membership.Revoked.{refresh-Follows, Follows}

module _ (c : Crypto) (serde : Serde) (identity : NodeIdentity)
    (json : Json (List Membership)) where
  pub registered-shape :
      (replaced : Bytes → Bool) (m : Membership) (at : ℕ) (persist : Bool) (r r' : Roster)
      (active : MembershipPolicy)
      → r.membership ≡ some active
      → register_issued_membership c serde identity json replaced m at persist r ≡ ok r'
      → (contains r.revoked_members m.member ≡ false)
        × (r'.revoked_members ≡ r.revoked_members)
        × (r'.membership
            ≡ some
                (record active { permissions = insert m.member (access_of m) active.permissions }))
  unfolding register_issued_membership
  registered-shape replaced m at persist r r' active e h = ground arith

  pub registered_member :
      (replaced : Bytes → Bool) (m : Membership) (at : ℕ) (persist : Bool) (r r' : Roster)
      → register_issued_membership c serde identity json replaced m at persist r ≡ ok r'
      → (active : MembershipPolicy) × (r.membership ≡ some active)
  unfolding register_issued_membership
  registered_member replaced m at persist r r' h = elim (Option-cases r.membership) [
    | inl e ↦ absurd (ground arith)
    | inr (active, e) ↦ (active, e)
  ]

  pub register_issued_membership-fresh :
      (replaced : Bytes → Bool) (m : Membership) (at : ℕ) (persist : Bool) (r r' : Roster)
      → register_issued_membership c serde identity json replaced m at persist r ≡ ok r'
      → r'.revoked_members ≡ r.revoked_members
  register_issued_membership-fresh replaced m at persist r r' h =
      let (active, e) = registered_member replaced m at persist r r' h in
      (registered-shape replaced m at persist r r' active e h).1

  pub register_issued_membership-Follows :
      (replaced : Bytes → Bool) (m : Membership) (at : ℕ) (persist : Bool) (blocks : List Block)
      (r r' : Roster)
      → Follows blocks r
      → register_issued_membership c serde identity json replaced m at persist r ≡ ok r'
      → Follows blocks r'
  register_issued_membership-Follows replaced m at persist blocks r r' f h =
      let (active, e) = registered_member replaced m at persist r r' h in
      let shape = registered-shape replaced m at persist r r' active e h in
      record {
        marked = shape.1 ∙ f.marked;
        purged = λ n revoked.
            let still : contains r.revoked_members n ≡ true = ground (arith, shape.1) in
            let other : n ≢ m.member = λ p. absurd (ground (arith, shape.0)) in
            rw shape.2 (
              lookup-insert_ne n m.member (access_of m) active.permissions other
              ∙ subst (λ p. access_to n p ≡ none) e (f.purged n still));
      }

  register_all-fresh :
      (clock : ℕ → ℕ) (ms : List Membership) (r r' : Roster)
      → register_all c serde identity json clock ms r ≡ ok r'
      → r'.revoked_members ≡ r.revoked_members
  register_all-fresh clock [] r r' h = ground arith
  register_all-fresh clock (m ∷ ms) r r' h =
      elim (Result-cases
        (register_issued_membership c serde identity json (λ bytes. true) m (clock 0) false r)) [
          | inl (r'', e) ↦
              register_all-fresh (λ n. clock (suc n)) ms r'' r' (rw e at h)
              ∙ register_issued_membership-fresh (λ bytes. true) m (clock 0) false r r'' e
          | inr (p, e) ↦ absurd (ground arith)
        ]

  pub enforce_membership-fresh :
      (network_id : Bytes) (certificates : List Membership) (trusted : List NodeId) (at : ℕ)
      (r r' : Roster)
      → enforce_membership c serde network_id certificates trusted at r ≡ ok r'
      → r'.revoked_members ≡ r.revoked_members
  unfolding enforce_membership
  enforce_membership-fresh network_id certificates trusted at r r' h = ground arith

  pub install_invitation-fresh :
      (invitation_json : Json Invitation) (replaced : Bytes → Bool) (i : Invitation) (at : ℕ)
      (r r' : Roster)
      → install_invitation c serde identity invitation_json replaced i at r ≡ ok r'
      → r'.revoked_members ≡ r.revoked_members
  unfolding install_invitation activate_invitation enforce_membership
  install_invitation-fresh invitation_json replaced i at r r' h = ground arith

  pub reactivate-fresh :
      (invitation_json : Json Invitation) (at : ℕ) (file : Option Bytes) (r r' : Roster)
      → reactivate c serde identity invitation_json at file r ≡ ok r'
      → r'.revoked_members ≡ r.revoked_members
  unfolding activate_invitation enforce_membership
  reactivate-fresh invitation_json at none r r' h = ground arith
  reactivate-fresh invitation_json at (some bytes) r r' h = ground arith

  pub reregister-fresh :
      (clock : ℕ → ℕ) (file : Option Bytes) (r r' : Roster)
      → reregister c serde identity json clock file r ≡ ok r'
      → r'.revoked_members ≡ r.revoked_members
  reregister-fresh clock none r r' h = ground arith
  reregister-fresh clock (some bytes) r r' h =
      elim (Result-cases (read_json c serde identity json bytes)) [
        | inl (ms, e) ↦ elim (Bool-cases (ltb max_issued_memberships (length ms))) [
          | inl over ↦ absurd (ground arith)
          | inr within ↦ register_all-fresh clock ms r r' (ground arith)
        ]
        | inr (p, e) ↦ absurd (ground arith)
      ]

  pub open_roster-Follows :
      (invitation_json : Json Invitation) (at : ℕ) (clock : ℕ → ℕ) (blocks : List Block)
      (file issued_file : Option Bytes) (r : Roster)
      → open_roster c serde identity invitation_json json at clock blocks file issued_file ≡ ok r
      → Follows blocks r
  unfolding open_roster
  open_roster-Follows invitation_json at clock blocks file issued_file r h =
      let first : Roster = record {
        membership = none;
        issued_memberships = [];
        revoked_members = [];
        membership_file = file;
        issued_memberships_file = issued_file;
      } in
      elim (Result-cases (reactivate c serde identity invitation_json at file first)) [
        | inl (r1, e1) ↦
            elim (Result-cases (reregister c serde identity json clock issued_file r1)) [
              | inl (r2, e2) ↦
                  let same : r ≡ refresh_revocations_from_ledger blocks r2 = ground arith in
                  rw same (
                    refresh-Follows blocks r2 (
                      reregister-fresh clock issued_file r1 r2 e2
                      ∙ reactivate-fresh invitation_json at file first r1 e1))
              | inr (p, e2) ↦ absurd (ground arith)
            ]
        | inr (p, e) ↦ absurd (ground arith)
      ]
