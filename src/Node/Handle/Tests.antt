-- ===== src/Node/Handle/Tests.antt =====
-- Runs of `handle` (crates/peerless-node/src/lib.rs) with signatures that anyone can make.
use peerless_sysytem_fw.Prelude.{
  ℕ, ◌+◌, ◌*◌, ◌≤◌, ◌≡◌, ◌⊎◌, refl, true, false, none, some, List, [], ◌∷◌, ◌++◌, Bytes, ok, err,
  length,
}
use peerless_sysytem_fw.Prelude.Equality.{bytes_eq}
use peerless_sysytem_fw.Core.{node_id_derive}
use peerless_sysytem_fw.Identity.{Crypto, NodeIdentity, verify}
use peerless_sysytem_fw.Protocol.{Json, SignedEnvelope, open_with_signer}
use peerless_sysytem_fw.Protocol.Message.{Message, any_permission}
use peerless_sysytem_fw.Node.Budget.{count_of}
use peerless_sysytem_fw.Ledger.Block.{
  LedgerEvent, Block, Membership, Invitation, Serde, verify_for, verify_membership,
  membership_payload,
}
use peerless_sysytem_fw.Node.Membership.{
  MembershipPolicy, Roster, open_roster, activate_invitation, enforce_membership,
  refresh_revocations_from_ledger, apply_revocations, install_invitation, allows,
}
use peerless_sysytem_fw.Node.Membership.Revoked.{revokes, last_word}
use peerless_sysytem_fw.Node.Membership.Lives.{Lives}
use peerless_sysytem_fw.Node.Tasks.{Floats, ExecuteError}
use peerless_sysytem_fw.Node.Uploads.Bounds.{reserved, held}
use peerless_sysytem_fw.Node.Handle.{Node, Moment, opened_node, permits, handle}
use peerless_sysytem_fw.Node.Handle.Gate.{
  OnlyBudget, IsAuthorized, handle-IsAuthorized, handle-revoked,
}
use peerless_sysytem_fw.Node.Handle.Limits.{handle_all, handle_all_bounded}

abbrev same : Bytes → Bytes
same b = b

-- A public key verifies every signature; a node is its key.
abbrev open_crypto : Crypto
open_crypto = record {
  sha256 = λ b. b;
  keypair_sign = λ key m. some (key ++ m);
  key_verify = λ key m s. some true;
}

abbrev thousandths : Floats
thousandths = record {
  Float = ℕ;
  is_finite = λ x. true;
  is_positive = λ x. true;
  at_most_one = λ x. true;
  in_unit_range = λ x. true;
}

abbrev start_json : Json (Message ℕ)
start_json = record {
  to_vec = λ m. none;
  from_slice = λ b. some (Message.content_start b 70000 65536);
}

abbrev envelope : ℕ → SignedEnvelope
envelope n = record {
  version = 1;
  signer = n ∷ [];
  public_key = n ∷ [];
  payload = 7 ∷ 8 ∷ [];
  signature = [];
}

abbrev moment : ℕ → Moment ℕ
moment at = record {
  spent_at = at;
  allowed_at = at;
  offered_at = at;
  observed_at = at;
  measured_at = at;
  host = record {
    cpu_cores = 4;
    available_cpu = 500;
    load = 500;
    available_memory = 0;
    available_storage = 0;
  };
  calls = record {
    opens = true;
    progress = [];
    fails_at = none;
    links = true;
    removes = true;
    reads = true;
    syncs = true;
  };
  raced = none;
  fuel = 3;
  candidate = λ n. (7 ∷ [], n ∷ []);
  sequence = 0;
  reads = true;
  merges = true;
  marked = ok tt;
  invokes = λ task component raw limit. err ExecuteError.run_failed;
  produced = λ output. err ExecuteError.run_failed;
  recorded = ok tt;
}

-- The first signer may do everything until 1000; the second is no member.
abbrev policy : MembershipPolicy
policy = record {
  network_id = b'n' ∷ [];
  permissions = (1 ∷ [], record { permissions = any_permission ∷ []; expires_at = some 1000 }) ∷ [];
}

abbrev node : Node
node = opened_node (some policy) [] [] 0

abbrev served : List (Moment ℕ × SignedEnvelope)
served =
    (moment 1, envelope 1)
    ∷ (moment 2, envelope 2)
    ∷ (moment 3, envelope 1)
    ∷ (moment 2000, envelope 1)
    ∷ []

handle_all_bounded_example :
    let n = handle_all same same thousandths (9 ∷ []) open_crypto start_json node served in
    (n.request_budget.global ≤ 16384)
    × (count_of (1 ∷ []) n.request_budget.identities ≤ 4096)
    × (length n.uploads ≤ 4)
    × (reserved n.uploads ≤ 512 * 1024 * 1024)
    × (held n.uploads ≤ 512 * 1024 * 1024 + 4 * 65535)
    × (length n.tasks.pending ≤ 1)
handle_all_bounded_example =
    handle_all_bounded same same thousandths (9 ∷ []) open_crypto start_json (some policy) [] [] 0
      served (1 ∷ [])

handle-IsAuthorized_example :
    OnlyBudget node
      (handle same same thousandths (9 ∷ []) open_crypto start_json (moment 1) node (envelope 1)).1
    ⊎ IsAuthorized same same thousandths
        (9 ∷ [])
        open_crypto
        start_json
        (moment 1)
        node
        (envelope 1)
handle-IsAuthorized_example =
    handle-IsAuthorized same same thousandths (9 ∷ []) open_crypto start_json (moment 1) node
      (envelope 1)

abbrev brief_serde : Serde
brief_serde = record {
  event_json = λ e. none;
  signed_event_json = λ e. none;
  block_json = λ b. none;
  block_pretty_json = λ b. none;
  proposal_json = λ version previous height timestamp events_root. none;
  membership_json = λ network_id member issuer permissions expires_at. some [];
}

abbrev own_identity : NodeIdentity
own_identity = record { node_id = 9 ∷ []; keypair = []; public_key = 9 ∷ [] }

-- The first signer invited the node, and is revoked.
abbrev invited : Invitation
invited = record {
  version = 1;
  membership = record {
    network_id = b'n' ∷ [];
    member = 9 ∷ [];
    issuer = 1 ∷ [];
    permissions = [];
    expires_at = none;
    issuer_public_key = 1 ∷ [];
    signature = [];
  };
  bootstrap = [];
  issued_at = 0;
}

abbrev chain : List Block
chain =
    record {
      version = 1;
      previous = none;
      height = 0;
      timestamp = 0;
      events_root = [];
      events =
          record {
            event = LedgerEvent.node_revoked (1 ∷ []);
            signer = [];
            public_key = [];
            signature = [];
          }
          ∷ [];
      consensus = record { network_id = b'n' ∷ []; signatures = [] };
    }
    ∷ []

abbrev invited_json : Json Invitation
invited_json = record { to_vec = λ i. none; from_slice = λ b. some invited }

abbrev no_json : Json (List Membership)
no_json = record { to_vec = λ i. none; from_slice = λ b. none }

abbrev own_policy : MembershipPolicy
own_policy = record {
  network_id = b'n' ∷ [];
  permissions = (9 ∷ [], record { permissions = []; expires_at = none }) ∷ [];
}

abbrev roster : Roster
roster = record {
  membership = some own_policy;
  issued_memberships = [];
  revoked_members = (1 ∷ []) ∷ [];
  membership_file = some [];
  issued_memberships_file = none;
}

opened :
    open_roster open_crypto brief_serde own_identity invited_json no_json 5
      (λ n. 5)
      chain
      (some [])
      none
    ≡ ok roster
unfolding open_roster activate_invitation enforce_membership verify_for verify_membership verify
    node_id_derive membership_payload refresh_revocations_from_ledger apply_revocations
opened = refl

handle-revoked_example :
    OnlyBudget
      (opened_node (some own_policy) [] [] 0)
      (handle same same thousandths
        (9 ∷ [])
        open_crypto
        start_json
        (moment 1)
        (opened_node (some own_policy) [] [] 0)
        (envelope 1)).1
unfolding revokes last_word open_with_signer verify node_id_derive
handle-revoked_example =
    handle-revoked same same thousandths (9 ∷ []) open_crypto brief_serde own_identity no_json
      (chain, roster) own_policy start_json (moment 1) (opened_node (some own_policy) [] [] 0)
      (envelope 1) (Message.content_start (7 ∷ 8 ∷ []) 70000 65536) (1 ∷ [])
      (Lives.opened invited_json 5 (λ n. 5) chain (some []) none roster opened) refl refl refl refl

-- The roster after the revoked signer's invitation is installed once more.
abbrev reinstalled : Roster
reinstalled = record roster {
  membership = some (record own_policy {
    permissions =
        own_policy.permissions
        ++ (1 ∷ [], record { permissions = any_permission ∷ []; expires_at = none }) ∷ [];
  });
  membership_file = some [];
}

-- The invitation gives the revoked signer every permission again, and nothing more is asked of the
-- ledger until its next block.
revoked_returns :
    install_invitation open_crypto brief_serde own_identity
      (record { to_vec = λ i. some []; from_slice = λ b. none })
      (λ b. true)
      invited
      5
      roster
    ≡ ok reinstalled
unfolding install_invitation activate_invitation enforce_membership verify_for verify_membership
    verify node_id_derive membership_payload
revoked_returns = refl

revoked_may : permits reinstalled.membership (1 ∷ []) (b'x' ∷ []) 6 ≡ true
unfolding permits allows
revoked_may = refl

revoked_Lives : Lives open_crypto brief_serde own_identity no_json false (chain, reinstalled)
revoked_Lives =
    Lives.installed true chain roster reinstalled
      (record { to_vec = λ i. some []; from_slice = λ b. none }) (λ b. true) invited 5
      (Lives.opened invited_json 5 (λ n. 5) chain (some []) none roster opened) revoked_returns
