-- ===== src/Node/Membership/Lives.antt =====
-- Whom the ledger revokes has no access, in every state that the membership operations of a node
-- (crates/peerless-node/src/lib.rs) lead to in which nothing has replaced the policy since `open` or
-- since the last block.
use peerless_sysytem_fw.Prelude.{
  ℕ, ◌≡◌, refl, ◌∙◌, Bool, true, false, Option, none, List, [], ◌∷◌, Bytes, Result, ok,
}
use peerless_sysytem_fw.Prelude.Equality.{bytes_eq}
use peerless_sysytem_fw.Core.{NodeId}
use peerless_sysytem_fw.Identity.{Crypto, NodeIdentity}
use peerless_sysytem_fw.Protocol.{ExecutionRecord, Json}
use peerless_sysytem_fw.Ledger.Merkle.{Hash}
use peerless_sysytem_fw.Ledger.Block.{
  LedgerError, LedgerEvent, SignedEvent, Block, Membership, Invitation, Serde,
}
use peerless_sysytem_fw.Ledger.Chain.{Verifier, append}
use peerless_sysytem_fw.Node.Membership.{
  Roster, access_to, changes_of, ledger_changes, append_ledger_block, register_issued_membership,
  enforce_membership, install_invitation, open_roster,
}
use peerless_sysytem_fw.Node.Membership.Revoked.{
  contains-mark, append_ledger_block-Follows, append-Marked, Marked, Follows, revokes,
}
use peerless_sysytem_fw.Node.Membership.Registered.{
  open_roster-Follows, register_issued_membership-Follows, register_issued_membership-fresh,
  enforce_membership-fresh, install_invitation-fresh,
}

module _ (c : Crypto) (serde : Serde) (identity : NodeIdentity)
    (json : Json (List Membership)) where
  -- The ledger and the roster of a node from `open` on, at whatever times, and whatever fails. The
  -- Boolean is true while neither `enforce_membership` nor `install_invitation` has replaced the
  -- policy since `open` or since the last block was appended.
  pub data Lives : Bool → List Block × Roster → Type 0 where
    opened :
        (invitation_json : Json Invitation) (at : ℕ) (clock : ℕ → ℕ) (blocks : List Block)
        (file issued_file : Option Bytes) (r : Roster)
        → open_roster c serde identity invitation_json json at clock blocks file issued_file ≡ ok r
        → Lives true (blocks, r)
    registered :
        (kept : Bool) (blocks : List Block) (r r' : Roster) (replaced : Bytes → Bool)
        (m : Membership) (at : ℕ) (persist : Bool)
        → Lives kept (blocks, r)
        → register_issued_membership c serde identity json replaced m at persist r ≡ ok r'
        → Lives kept (blocks, r')
    enforced :
        (kept : Bool) (blocks : List Block) (r r' : Roster) (network_id : Bytes)
        (certificates : List Membership) (trusted : List NodeId) (at : ℕ)
        → Lives kept (blocks, r)
        → enforce_membership c serde network_id certificates trusted at r ≡ ok r'
        → Lives false (blocks, r')
    installed :
        (kept : Bool) (blocks : List Block) (r r' : Roster) (invitation_json : Json Invitation)
        (replaced : Bytes → Bool) (i : Invitation) (at : ℕ)
        → Lives kept (blocks, r)
        → install_invitation c serde identity invitation_json replaced i at r ≡ ok r'
        → Lives false (blocks, r')
    appended :
        (kept : Bool) (blocks : List Block) (r : Roster) (s : List Block × Roster)
        (verifier : Verifier) (created : Hash → Bytes → Result LedgerError (Unit {0})) (b : Block)
        → Lives kept (blocks, r)
        → append_ledger_block c serde verifier created blocks r b ≡ ok s
        → Lives true s
    -- A block of `append_ledger_event`, which `execute` calls.
    recorded :
        (kept : Bool) (blocks : List Block) (r : Roster) (verifier : Verifier)
        (created : Hash → Bytes → Result LedgerError (Unit {0})) (b : Block)
        (file : Hash × List Block) (e : SignedEvent) (completed : ExecutionRecord)
        → Lives kept (blocks, r)
        → b.events ≡ e ∷ []
        → e.event ≡ LedgerEvent.task_completed completed
        → append c serde verifier created blocks b ≡ ok file
        → Lives kept (file.1, r)

  completed_changes :
      (b : Block) (e : SignedEvent) (completed : ExecutionRecord)
      → b.events ≡ e ∷ []
      → e.event ≡ LedgerEvent.task_completed completed
      → changes_of b.events ≡ []
  completed_changes b e completed only same = rw only (rw same)

  Lives-Marked : (kept : Bool) (s : List Block × Roster) → Lives kept s → Marked s.0 s.1
  Lives-Marked _ s (opened invitation_json at clock blocks file issued_file r h) =
      (open_roster-Follows c serde identity json invitation_json at clock blocks file issued_file r
        h).marked
  Lives-Marked _ s (registered kept blocks r r' replaced m at persist l h) =
      register_issued_membership-fresh c serde identity json replaced m at persist r r' h
      ∙ Lives-Marked kept (blocks, r) l
  Lives-Marked _ s (enforced kept blocks r r' network_id certificates trusted at l h) =
      enforce_membership-fresh c serde identity json network_id certificates trusted at r r' h
      ∙ Lives-Marked kept (blocks, r) l
  Lives-Marked _ s (installed kept blocks r r' invitation_json replaced i at l h) =
      install_invitation-fresh c serde identity json invitation_json replaced i at r r' h
      ∙ Lives-Marked kept (blocks, r) l
  Lives-Marked _ s (appended kept blocks r s' verifier created b l h) =
      (append_ledger_block-Follows c serde verifier created blocks r b s'
        (Lives-Marked kept (blocks, r) l) h).marked
  Lives-Marked _ s (recorded kept blocks r verifier created b file e completed l only same h) =
      append-Marked c serde verifier created blocks r b file
        (completed_changes b e completed only same) h (Lives-Marked kept (blocks, r) l)

  Lives-Follows :
      (kept : Bool) (s : List Block × Roster) → Lives kept s → kept ≡ true → Follows s.0 s.1
  Lives-Follows _ s (opened invitation_json at clock blocks file issued_file r h) k =
      open_roster-Follows c serde identity json invitation_json at clock blocks file issued_file r h
  Lives-Follows _ s (registered kept blocks r r' replaced m at persist l h) k =
      register_issued_membership-Follows c serde identity json replaced m at persist blocks r r'
        (Lives-Follows kept (blocks, r) l k) h
  Lives-Follows _ s (enforced kept blocks r r' network_id certificates trusted at l h) k = cc
  Lives-Follows _ s (installed kept blocks r r' invitation_json replaced i at l h) k = cc
  Lives-Follows _ s (appended kept blocks r s' verifier created b l h) k =
      append_ledger_block-Follows c serde verifier created blocks r b s'
        (Lives-Marked kept (blocks, r) l) h
  Lives-Follows _ s (recorded kept blocks r verifier created b file e completed l only same h) k =
      record {
        marked =
            append-Marked c serde verifier created blocks r b file
              (completed_changes b e completed only same) h (Lives-Marked kept (blocks, r) l);
        purged = (Lives-Follows kept (blocks, r) l k).purged;
      }

  -- If nothing has replaced the policy since `open` or since the last block, a member of whom the
  -- node's ledger says last that it was revoked has no access.
  pub revoked_has_no_access :
      (s : List Block × Roster) (n : NodeId)
      → Lives true s
      → revokes s.0 n ≡ true
      → access_to n s.1.membership ≡ none
  unfolding revokes
  revoked_has_no_access s n l h =
      let f = Lives-Follows true s l refl in
      f.purged n (rw f.marked (contains-mark n (ledger_changes s.0) [] ∙ h))
