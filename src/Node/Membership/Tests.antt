-- ===== src/Node/Membership/Tests.antt =====
-- Runs of the node's membership (crates/peerless-node/src/lib.rs) with signatures that anyone can make.
use peerless_sysytem_fw.Prelude.{
  ℕ, ◌≡◌, refl, ap, true, none, some, List, [], ◌∷◌, ◌++◌, Bytes, ok, err, arith,
}
use peerless_sysytem_fw.Prelude.Equality.{bytes_beq, bytes_beq_iff}
use peerless_sysytem_fw.Core.{node_id_derive}
use peerless_sysytem_fw.Identity.{Crypto, NodeIdentity, IsGenuine, sign, verify}
use peerless_sysytem_fw.Protocol.{Json}
use peerless_sysytem_fw.Protocol.Message.{any_permission}
use peerless_sysytem_fw.Ledger.Block.{
  LedgerEvent, SignedEvent, Block, Membership, Invitation, Serde, issue_invitation,
  issue_membership, membership_payload, verify_membership,
}
use peerless_sysytem_fw.Node.Membership.{
  NodeError, Refusal, Roster, access_to, has_membership_at, install_invitation, open_roster,
  refresh_revocations_from_ledger, apply_revocations, activate_invitation, enforce_membership,
  register_issued_membership, candidate,
}
use peerless_sysytem_fw.Ledger.Block.{verify_for}
use peerless_sysytem_fw.Node.Membership.Restart.{AllUnexpired, open_roster-unexpired}
use peerless_sysytem_fw.Node.Membership.Invited.{install_invitation-issue}

abbrev open_crypto : Crypto
open_crypto = record {
  sha256 = λ b. 1 ∷ b;
  keypair_sign = λ key m. some (key ++ m);
  key_verify = λ key m s. some (bytes_beq s (key ++ m));
}

abbrev identity : ℕ → NodeIdentity
identity n = record { node_id = 1 ∷ n ∷ []; keypair = n ∷ []; public_key = n ∷ [] }

identity-IsGenuine : (n : ℕ) → IsGenuine open_crypto (identity n)
unfolding node_id_derive
identity-IsGenuine n = record {
  derived = refl;
  signature_of = λ m. n ∷ m;
  signs = λ m. refl;
  verifies = λ m. ap some ((bytes_beq_iff (n ∷ m) (n ∷ m)).1 refl);
}

abbrev brief_serde : Serde
brief_serde = record {
  event_json = λ e. none;
  signed_event_json = λ e. none;
  block_json = λ b. none;
  block_pretty_json = λ b. none;
  proposal_json = λ version previous height timestamp events_root. none;
  membership_json =
      λ network_id member issuer permissions expires_at. some (network_id ++ (member ++ issuer));
}

abbrev empty_roster : Roster
empty_roster = record {
  membership = none;
  issued_memberships = [];
  revoked_members = [];
  membership_file = none;
  issued_memberships_file = none;
}

abbrev invitation_json : Json Invitation
invitation_json = record { to_vec = λ i. some (7 ∷ []); from_slice = λ b. none }

abbrev network : Bytes
network = b'n' ∷ []

-- Five invites six until 1000, at 10; six installs it at 500.
abbrev invited : Invitation
invited = record {
  version = 1;
  membership = record {
    network_id = network;
    member = 1 ∷ 6 ∷ [];
    issuer = 1 ∷ 5 ∷ [];
    permissions = (b'x' ∷ []) ∷ [];
    expires_at = some 1000;
    issuer_public_key = 5 ∷ [];
    signature = 5 ∷ (network ++ (1 ∷ 6 ∷ 1 ∷ 5 ∷ []));
  };
  bootstrap = [];
  issued_at = 10;
}

install_invitation-issue_example :
    (r : Roster) × (install_invitation open_crypto brief_serde
        (identity 6)
        invitation_json
        (λ b. true)
        invited
        500
        empty_roster
      ≡ ok r)
    × (access_to (1 ∷ 6 ∷ []) r.membership
        ≡ some (record { permissions = (b'x' ∷ []) ∷ []; expires_at = some 1000 }))
    × (access_to (1 ∷ 5 ∷ []) r.membership
        ≡ some (record { permissions = any_permission ∷ []; expires_at = some 1000 }))
    × (r.membership_file ≡ some (7 ∷ []))
    × (has_membership_at (1 ∷ 6 ∷ []) 500 r ≡ true)
unfolding issue_invitation issue_membership membership_payload sign
install_invitation-issue_example =
    install_invitation-issue open_crypto brief_serde (identity 5) (identity-IsGenuine 5) network
      (identity 6) ((b'x' ∷ []) ∷ []) (some 1000) [] 10 500 (network ++ (1 ∷ 6 ∷ 1 ∷ 5 ∷ [])) refl
      (omega arith) refl invitation_json (7 ∷ []) empty_roster invited refl refl (omega arith)
      (λ p. absurd (ground arith))

abbrev event : LedgerEvent → SignedEvent
event e = record { event = e; signer = []; public_key = []; signature = [] }

abbrev block : List SignedEvent → Block
block events = record {
  version = 1;
  previous = none;
  height = 0;
  timestamp = 0;
  events_root = [];
  events = events;
  consensus = record { network_id = network; signatures = [] };
}

-- Six is revoked, seven is revoked and joins again.
abbrev chain : List Block
chain =
    block (
      event (LedgerEvent.node_revoked (1 ∷ 6 ∷ []))
      ∷ event (LedgerEvent.node_revoked (1 ∷ 7 ∷ []))
      ∷ [])
    ∷ block (event (LedgerEvent.node_joined (1 ∷ 7 ∷ [])) ∷ [])
    ∷ []

-- The node was invited by five; its file of issued memberships holds one for six.
abbrev stored_json : Json Invitation
stored_json = record { to_vec = λ i. none; from_slice = λ b. some invited }

abbrev issued_to_seven : Membership
issued_to_seven = record {
  network_id = network;
  member = 1 ∷ 7 ∷ [];
  issuer = 1 ∷ 6 ∷ [];
  permissions = [];
  expires_at = some 900;
  issuer_public_key = 6 ∷ [];
  signature = 6 ∷ (network ++ (1 ∷ 7 ∷ 1 ∷ 6 ∷ []));
}

abbrev issued_json : Json (List Membership)
issued_json = record { to_vec = λ i. none; from_slice = λ b. some (issued_to_seven ∷ []) }

abbrev clock : ℕ → ℕ
clock n = 600

abbrev registered : Roster
registered = record {
  membership = some (record {
    network_id = network;
    permissions =
        (1 ∷ 6 ∷ [], record { permissions = (b'x' ∷ []) ∷ []; expires_at = some 1000 })
        ∷ (1 ∷ 5 ∷ [], record { permissions = any_permission ∷ []; expires_at = some 1000 })
        ∷ (1 ∷ 7 ∷ [], record { permissions = []; expires_at = some 900 })
        ∷ [];
  });
  issued_memberships = issued_to_seven ∷ [];
  revoked_members = [];
  membership_file = some [];
  issued_memberships_file = some [];
}

opened :
    open_roster open_crypto brief_serde
      (identity 6)
      stored_json
      issued_json
      500
      clock
      chain
      (some [])
      (some [])
    ≡ ok (refresh_revocations_from_ledger chain registered)
unfolding open_roster activate_invitation enforce_membership register_issued_membership verify_for
    verify_membership verify node_id_derive membership_payload candidate
opened = refl

-- At 950 the membership of seven has expired, and the node does not open.
opened_late :
    open_roster open_crypto brief_serde
      (identity 6)
      stored_json
      issued_json
      500
      (λ n. 950)
      chain
      (some [])
      (some [])
    ≡ err (NodeError.rejected Refusal.invalid_local)
unfolding open_roster activate_invitation enforce_membership register_issued_membership verify_for
    verify_membership verify node_id_derive membership_payload candidate
opened_late = refl

open_roster-unexpired_example : AllUnexpired clock (issued_to_seven ∷ [])
open_roster-unexpired_example =
    open_roster-unexpired open_crypto brief_serde (identity 6) issued_json stored_json 500 clock
      chain (some []) [] (issued_to_seven ∷ []) (refresh_revocations_from_ledger chain registered)
      refl opened

revoked_is_out :
    access_to (1 ∷ 6 ∷ []) (refresh_revocations_from_ledger chain registered).membership ≡ none
unfolding refresh_revocations_from_ledger apply_revocations
revoked_is_out = refl

-- Seven keeps its access.
others_stay :
    ¬ (access_to (1 ∷ 7 ∷ []) (refresh_revocations_from_ledger chain registered).membership ≡ none)
unfolding refresh_revocations_from_ledger apply_revocations
others_stay p = absurd (ground arith)
