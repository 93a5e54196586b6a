-- ===== src/Node/Membership.antt =====
-- Membership and revocation of crates/peerless-node/src/lib.rs: what a node allows to whom, which
-- memberships it issued, whom its ledger revokes, and the two files that hold this over a restart.
-- Clock readings are arguments; so is whether `atomic_replace` succeeds, for the bytes it is given.
pub mod Revoked
pub mod Registered
pub mod Lives
pub mod Restart
pub mod Invited
mod Tests
use peerless_sysytem_fw.Prelude.{
  ℕ, suc, ◌*◌, Bool, true, false, ◌&&◌, ◌||◌, not, Option, none, some, List, [], ◌∷◌, ◌++◌, Bytes,
  Result, ok, err, ◌>>=◌, ◌>>◌, fail_if, ltb, leb, if◌then◌else◌, length,
}
use peerless_sysytem_fw.Prelude.Equality.{bytes_eq, bytes_beq}
use peerless_sysytem_fw.Prelude.Dict.{Dict, lookup, insert, retain}
use peerless_sysytem_fw.Core.{NodeId}
use peerless_sysytem_fw.Identity.{Crypto, NodeIdentity}
use peerless_sysytem_fw.Protocol.{Json}
use peerless_sysytem_fw.Protocol.Message.{any_permission}
use peerless_sysytem_fw.Ledger.Merkle.{Hash}
use peerless_sysytem_fw.Ledger.Block.{
  LedgerError, LedgerEvent, SignedEvent, Block, Membership, Invitation, Serde, contains, unexpired,
  verify_membership, issue_invitation, verify_for,
}
use peerless_sysytem_fw.Ledger.Chain.{Verifier, append}

abbrev pub max_membership_file_bytes : ℕ
max_membership_file_bytes = 1024 * 1024

abbrev pub max_issued_memberships : ℕ
max_issued_memberships = 4096

-- The texts of `NodeError::Rejected`.
pub data Refusal : Type 0 where
  invalid_invitation oversized_invitation invalid_persisted revoked_member invalid_local
        issued_limit :
      Refusal
  oversized_issued another_network oversized_file : Refusal

pub data NodeError : Type 0 where
  rejected : Refusal → NodeError
  membership_required protocol storage : NodeError
  ledger : LedgerError → NodeError

abbrev pub or_ledger : {A : Type 0} → Result LedgerError A → Result NodeError A
or_ledger (ok a) = ok a
or_ledger (err e) = err (NodeError.ledger e)

abbrev pub or_protocol : {A : Type 0} → Option A → Result NodeError A
or_protocol none = err NodeError.protocol
or_protocol (some a) = ok a

pub record MemberAccess : Type 0 where
  pub permissions : List Bytes
  pub expires_at : Option ℕ

pub record MembershipPolicy : Type 0 where
  pub network_id : Bytes
  pub permissions : Dict NodeId MemberAccess

-- `MemberAccess::allows`.
unfoldable pub allows : MemberAccess → Bytes → ℕ → Bool
allows access permission at =
    unexpired access.expires_at at
    && (contains access.permissions any_permission || contains access.permissions permission)

-- The fields of `Inner` that membership uses, and the contents of the two files.
pub record Roster : Type 0 where
  pub membership : Option MembershipPolicy
  pub issued_memberships : List Membership
  pub revoked_members : List NodeId
  pub membership_file : Option Bytes
  pub issued_memberships_file : Option Bytes

abbrev pub access_of : Membership → MemberAccess
access_of m = record { permissions = m.permissions; expires_at = m.expires_at }

-- The membership in place of the one of the same member, if there is one.
abbrev pub replace_issued : Membership → List Membership → Option (List Membership)
replace_issued m [] = none
replace_issued m (known ∷ issued) =
    if bytes_beq known.member m.member
    then some (m ∷ issued)
    else elim (replace_issued m issued) [ none ↦ none | some rest ↦ some (known ∷ rest) ]

unfoldable pub candidate : Membership → List Membership → Result NodeError (List Membership)
candidate m issued = elim (replace_issued m issued) [
  | some replaced ↦ ok replaced
  | none ↦
      if leb max_issued_memberships (length issued)
      then err (NodeError.rejected Refusal.issued_limit)
      else ok (issued ++ m ∷ [])
]

-- `revoked.insert` and `revoked.remove`.
abbrev pub remove : NodeId → List NodeId → List NodeId
remove n [] = []
remove n (m ∷ revoked) = if bytes_beq m n then remove n revoked else m ∷ remove n revoked

abbrev pub mark : List (NodeId × Bool) → List NodeId → List NodeId
mark [] revoked = revoked
mark ((n, is_revoked) ∷ changes) revoked =
    mark changes (if is_revoked then n ∷ revoked else remove n revoked)

abbrev pub purge : List NodeId → Option MembershipPolicy → Option MembershipPolicy
purge revoked none = none
purge revoked (some policy) = some (record policy {
  permissions = retain (λ member access. not (contains revoked member)) policy.permissions;
})

unfoldable pub apply_revocations : List (NodeId × Bool) → Roster → Roster
apply_revocations changes r =
    let revoked = mark changes r.revoked_members in
    record r { revoked_members = revoked; membership = purge revoked r.membership }

abbrev pub change_of : LedgerEvent → List (NodeId × Bool)
change_of (LedgerEvent.node_revoked member) = (member, true) ∷ []
change_of (LedgerEvent.node_joined member) = (member, false) ∷ []
change_of (LedgerEvent.task_created task_id) = []
change_of (LedgerEvent.task_accepted task_id node) = []
change_of (LedgerEvent.task_completed record_) = []
change_of (LedgerEvent.task_verified task_id output) = []
change_of (LedgerEvent.content_published id node) = []
change_of (LedgerEvent.state_checkpoint document id) = []

abbrev pub changes_of : List SignedEvent → List (NodeId × Bool)
changes_of [] = []
changes_of (e ∷ events) = change_of e.event ++ changes_of events

abbrev pub ledger_changes : List Block → List (NodeId × Bool)
ledger_changes [] = []
ledger_changes (b ∷ blocks) = changes_of b.events ++ ledger_changes blocks

unfoldable pub refresh_revocations_from_ledger : List Block → Roster → Roster
refresh_revocations_from_ledger blocks r = apply_revocations (ledger_changes blocks) r

abbrev pub access_to : NodeId → Option MembershipPolicy → Option MemberAccess
access_to n none = none
access_to n (some policy) = lookup n policy.permissions

-- `is_some_and(|access| access.expires_at.is_none_or(|expiry| expiry > at))`.
abbrev pub lasts : Option MemberAccess → ℕ → Bool
lasts none at = false
lasts (some access) at = unexpired access.expires_at at

-- `has_membership_at`, of the node with the identifier.
unfoldable pub has_membership_at : NodeId → ℕ → Roster → Bool
has_membership_at node_id at r = lasts (access_to node_id r.membership) at

module _ (c : Crypto) (serde : Serde) where
  unfoldable pub append_ledger_block :
      Verifier
      → (Hash → Bytes → Result LedgerError (Unit {0}))
      → List Block
      → Roster
      → Block
      → Result NodeError (List Block × Roster)
  append_ledger_block verifier created blocks r b = do
    appended ← or_ledger (append c serde verifier created blocks b)
    ok (appended.1, apply_revocations (changes_of b.events) r)

  -- The loop of `enforce_membership`.
  abbrev pub certified :
      Bytes
      → List NodeId
      → ℕ
      → List Membership
      → Dict NodeId MemberAccess
      → Result NodeError (Dict NodeId MemberAccess)
  certified network_id trusted at [] permissions = ok permissions
  certified network_id trusted at (m ∷ certificates) permissions = do
    valid ←
        (if bytes_beq m.network_id network_id
          then or_ledger (verify_membership c serde m trusted at)
          else ok false)
    certified network_id trusted at certificates
        (if valid then insert m.member (access_of m) permissions else permissions)

  unfoldable pub enforce_membership :
      Bytes → List Membership → List NodeId → ℕ → Roster → Result NodeError Roster
  enforce_membership network_id certificates trusted at r = do
    permissions ← certified network_id trusted at certificates []
    ok (record r {
      membership = some (record { network_id = network_id; permissions = permissions });
    })

  -- The issuer has every permission for as long as the membership lasts.
  abbrev pub add_issuer : Membership → Option MembershipPolicy → Option MembershipPolicy
  add_issuer m none = none
  add_issuer m (some policy) = some (record policy {
    permissions =
        insert m.issuer (record { permissions = any_permission ∷ []; expires_at = m.expires_at })
          policy.permissions;
  })

  module _ (identity : NodeIdentity) where
    unfoldable pub activate_invitation : Invitation → ℕ → Roster → Result NodeError Roster
    activate_invitation i at r = do
      valid ← or_ledger (verify_for c serde i identity.node_id at)
      fail_if (not valid) (NodeError.rejected Refusal.invalid_persisted)
      r' ←
          enforce_membership i.membership.network_id (i.membership ∷ []) (i.membership.issuer ∷ [])
            at r
      ok (record r' { membership = add_issuer i.membership r'.membership })

    unfoldable pub install_invitation :
        Json Invitation → (Bytes → Bool) → Invitation → ℕ → Roster → Result NodeError Roster
    install_invitation json replaced i at r = do
      valid ← or_ledger (verify_for c serde i identity.node_id at)
      fail_if (not valid) (NodeError.rejected Refusal.invalid_invitation)
      bytes ← or_protocol (json.to_vec i)
      fail_if (ltb max_membership_file_bytes (length bytes))
          (NodeError.rejected Refusal.oversized_invitation)
      fail_if (not (replaced bytes)) NodeError.storage
      activate_invitation i at (record r { membership_file = some bytes })

    -- The bytes that are written if the membership is to be persisted.
    abbrev pub issued_bytes :
        Json (List Membership) → Bool → List Membership → Result NodeError (Option Bytes)
    issued_bytes json false issued = ok none
    issued_bytes json true issued = do
      bytes ← or_protocol (json.to_vec issued)
      fail_if (ltb max_membership_file_bytes (length bytes))
          (NodeError.rejected Refusal.oversized_issued)
      ok (some bytes)

    abbrev pub active_policy : Option MembershipPolicy → Result NodeError MembershipPolicy
    active_policy none = err NodeError.membership_required
    active_policy (some policy) = ok policy

    -- What the file holds after `atomic_replace`, which may fail.
    abbrev pub write_issued :
        (Bytes → Bool) → Option Bytes → Option Bytes → Result NodeError (Option Bytes)
    write_issued replaced none file = ok file
    write_issued replaced (some bytes) file =
        if replaced bytes then ok (some bytes) else err NodeError.storage

    unfoldable pub register_issued_membership :
        Json (List Membership)
        → (Bytes → Bool)
        → Membership
        → ℕ
        → Bool
        → Roster
        → Result NodeError Roster
    register_issued_membership json replaced m at persist r = do
      fail_if (contains r.revoked_members m.member) (NodeError.rejected Refusal.revoked_member)
      valid ←
          (if bytes_beq m.issuer identity.node_id
            then or_ledger (verify_membership c serde m (identity.node_id ∷ []) at)
            else ok false)
      fail_if (not valid) (NodeError.rejected Refusal.invalid_local)
      issued ← candidate m r.issued_memberships
      bytes ← issued_bytes json persist issued
      active ← active_policy r.membership
      fail_if (not (bytes_beq active.network_id m.network_id))
          (NodeError.rejected Refusal.another_network)
      file ← write_issued replaced bytes r.issued_memberships_file
      ok (record r {
        membership =
            some (record active { permissions = insert m.member (access_of m) active.permissions });
        issued_memberships = issued;
        issued_memberships_file = file;
      })

    -- `issue_invitation`; only a node in a network keeps and persists what it issues.
    unfoldable pub invite :
        Json (List Membership)
        → (Bytes → Bool)
        → Bytes
        → NodeId
        → List Bytes
        → Option ℕ
        → List Bytes
        → ℕ
        → ℕ
        → ℕ
        → Roster
        → Result NodeError (Invitation × Roster)
    invite json replaced network_id member permissions expires_at bootstrap at at' at'' r = do
      i ←
          or_ledger (
            issue_invitation c serde network_id member permissions expires_at bootstrap at identity)
      r' ←
          (if has_membership_at identity.node_id at' r
            then register_issued_membership json replaced i.membership at'' true r
            else ok r)
      ok (i, r')

    -- `read_bounded_file` and `serde_json::from_slice`.
    abbrev pub read_json : {A : Type 0} → Json A → Bytes → Result NodeError A
    read_json json bytes = do
      fail_if (ltb max_membership_file_bytes (length bytes))
          (NodeError.rejected Refusal.oversized_file)
      or_protocol (json.from_slice bytes)

    abbrev pub register_all :
        Json (List Membership) → (ℕ → ℕ) → List Membership → Roster → Result NodeError Roster
    register_all json clock [] r = ok r
    register_all json clock (m ∷ memberships) r = do
      r' ← register_issued_membership json (λ bytes. true) m (clock 0) false r
      register_all json (λ n. clock (suc n)) memberships r'

    abbrev pub reactivate : Json Invitation → ℕ → Option Bytes → Roster → Result NodeError Roster
    reactivate json at none r = ok r
    reactivate json at (some bytes) r = do i ← read_json json bytes; activate_invitation i at r

    abbrev pub reregister :
        Json (List Membership) → (ℕ → ℕ) → Option Bytes → Roster → Result NodeError Roster
    reregister json clock none r = ok r
    reregister json clock (some bytes) r = do
      memberships ← read_json json bytes
      fail_if (ltb max_issued_memberships (length memberships))
          (NodeError.rejected Refusal.issued_limit)
      register_all json clock memberships r

    -- What `open` makes of the two files and the ledger's blocks. The clock is read for the
    -- invitation and for each membership.
    unfoldable pub open_roster :
        Json Invitation
        → Json (List Membership)
        → ℕ
        → (ℕ → ℕ)
        → List Block
        → Option Bytes
        → Option Bytes
        → Result NodeError Roster
    open_roster invitation_json json at clock blocks membership_file issued_memberships_file = do
      r ← reactivate invitation_json at membership_file (record {
        membership = none;
        issued_memberships = [];
        revoked_members = [];
        membership_file = membership_file;
        issued_memberships_file = issued_memberships_file;
      })
      r' ← reregister json clock issued_memberships_file r
      ok (refresh_revocations_from_ledger blocks r')
