-- ===== src/Node/Membership/Invited.antt =====
-- An invitation that a node issues admits its member, and its issuer, at the member's node.
use peerless_sysytem_fw.Prelude.{
  ℕ, ◌*◌, ◌≤◌, ◌≡◌, ◌≢◌, refl, sym, ap, ◌∙◌, true, false, Option, some, List, [], ◌∷◌, Bytes, ok,
  leb, ltb, length, arith,
}
use peerless_sysytem_fw.Prelude.Equality.{bytes_eq, bytes_beq_iff}
use peerless_sysytem_fw.Prelude.Dict.{insert, lookup-insert_self, lookup-insert_ne}
use peerless_sysytem_fw.Identity.{Crypto, NodeIdentity, IsGenuine, sign, verify}
use peerless_sysytem_fw.Protocol.{Json}
use peerless_sysytem_fw.Protocol.Message.{any_permission}
use peerless_sysytem_fw.Ledger.Block.{
  Membership, Invitation, Serde, unexpired, issue_membership, issue_invitation, verify_membership,
  verify_for, membership_payload,
}
use peerless_sysytem_fw.Node.Membership.{
  MembershipPolicy, Roster, access_to, access_of, has_membership_at, enforce_membership,
  activate_invitation, install_invitation,
}

module _ (c : Crypto) (serde : Serde) (issuer : NodeIdentity) (g : IsGenuine c issuer)
    (network_id : Bytes) (member : NodeIdentity) (permissions : List Bytes) (expires_at : Option ℕ)
    (bootstrap : List Bytes) (at at' : ℕ) (payload : Bytes)
    (written : serde.membership_json network_id member.node_id issuer.node_id permissions expires_at
      ≡ some payload)
    (later : at ≤ at') (current : unexpired expires_at at' ≡ true) where
  abbrev certificate : Membership
  certificate = record {
    network_id = network_id;
    member = member.node_id;
    issuer = issuer.node_id;
    permissions = permissions;
    expires_at = expires_at;
    issuer_public_key = issuer.public_key;
    signature = g.signature_of payload;
  }

  abbrev pub invitation : Invitation
  invitation = record {
    version = 1;
    membership = certificate;
    bootstrap = bootstrap;
    issued_at = at;
  }

  issued :
      issue_invitation c serde network_id member.node_id permissions expires_at bootstrap at issuer
      ≡ ok invitation
  unfolding issue_invitation issue_membership sign membership_payload
  issued = rw (written, g.signs payload, sign) refl

  certificate-verified : verify_membership c serde certificate (issuer.node_id ∷ []) at' ≡ ok true
  unfolding verify_membership verify membership_payload
  certificate-verified =
      rw
        (
          (bytes_beq_iff issuer.node_id issuer.node_id).1 refl,
          (bytes_beq_iff _ _).1 g.derived,
          current,
          written,
          g.verifies payload,
          verify,
        )
        refl

  verified : verify_for c serde invitation member.node_id at' ≡ ok true
  unfolding verify_for
  verified =
      let in_order : leb at at' ≡ true = ground arith in
      rw (in_order, (bytes_beq_iff member.node_id member.node_id).1 refl, certificate-verified) refl

  abbrev invited_policy : MembershipPolicy
  invited_policy = record {
    network_id = network_id;
    permissions =
        insert issuer.node_id
          (record { permissions = any_permission ∷ []; expires_at = expires_at })
          ((member.node_id, access_of certificate) ∷ []);
  }

  activated :
      (r : Roster)
      → activate_invitation c serde member invitation at' r
        ≡ ok (record r { membership = some invited_policy })
  unfolding activate_invitation enforce_membership
  activated r =
      rw (verified, (bytes_beq_iff network_id network_id).1 refl, certificate-verified) refl

  -- What a genuine issuer invites another node to, the member's node installs, at any later time at
  -- which the invitation is unexpired, with the file written: it then has the membership, with exactly
  -- the permissions and the expiry of the invitation, and gives its issuer every permission.
  pub install_invitation-issue :
      (json : Json Invitation) (bytes : Bytes) (r : Roster) (i : Invitation)
      → issue_invitation c serde network_id member.node_id permissions expires_at bootstrap at
          issuer
        ≡ ok i
      → json.to_vec i ≡ some bytes
      → length bytes ≤ 1024 * 1024
      → member.node_id ≢ issuer.node_id
      → (r' : Roster) × (install_invitation c serde member json (λ b. true) i at' r ≡ ok r')
        × (access_to member.node_id r'.membership
            ≡ some (record { permissions = permissions; expires_at = expires_at }))
        × (access_to issuer.node_id r'.membership
            ≡ some (record { permissions = any_permission ∷ []; expires_at = expires_at }))
        × (r'.membership_file ≡ some bytes)
        × (has_membership_at member.node_id at' r' ≡ true)
  unfolding install_invitation has_membership_at
  install_invitation-issue json bytes r i h encoded short other =
      let same : i ≡ invitation = ground (arith, issued) in
      let encoded' : json.to_vec invitation ≡ some bytes =
        ap (λ x. json.to_vec x) (sym same) ∙ encoded in
      let fits : ltb (1024 * 1024) (length bytes) ≡ false = ground arith in
      let held : access_to member.node_id (some invited_policy) ≡ some (access_of certificate) =
        lookup-insert_ne member.node_id issuer.node_id _
          ((member.node_id, access_of certificate) ∷ []) other
        ∙ lookup-insert_self member.node_id (access_of certificate) [] in
      (
        record r { membership_file = some bytes; membership = some invited_policy },
        rw (same, verified, encoded', fits) (activated (record r { membership_file = some bytes })),
        held,
        lookup-insert_self issuer.node_id _ ((member.node_id, access_of certificate) ∷ []),
        refl,
        rw (held, current) refl,
      )
