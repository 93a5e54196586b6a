-- ===== src/Node/Membership/Revoked.antt =====
-- A node's roster follows its ledger when a block is appended.
use peerless_sysytem_fw.Prelude.{
  ◌≡◌, refl, sym, ap, ◌∙◌, Bool, true, false, not, Option, none, some, List, [], ◌∷◌, ◌++◌, Bytes,
  Result, ok, arith, if◌then◌else◌, inl, inr, Result-cases,
}
use peerless_sysytem_fw.Prelude.Equality.{bytes_eq, bytes_beq, bytes_beq_iff}
use peerless_sysytem_fw.Prelude.Dict.{Dict, lookup, retain}
use peerless_sysytem_fw.Core.{NodeId}
use peerless_sysytem_fw.Identity.{Crypto}
use peerless_sysytem_fw.Ledger.Merkle.{Hash}
use peerless_sysytem_fw.Ledger.Block.{LedgerError, Block, Serde, contains}
use peerless_sysytem_fw.Ledger.Chain.{Verifier, append}
use peerless_sysytem_fw.Node.Membership.{
  MemberAccess, MembershipPolicy, Roster, access_to, mark, remove, purge, ledger_changes,
  changes_of, apply_revocations, refresh_revocations_from_ledger, append_ledger_block,
}

-- What the last change of a member says, or what held before any.
unfoldable pub last_word : NodeId → Bool → List (NodeId × Bool) → Bool
last_word n before [] = before
last_word n before ((m, is_revoked) ∷ changes) =
    last_word n (if bytes_beq m n then is_revoked else before) changes

-- The ledger's last word on a member is `NodeRevoked`.
unfoldable pub revokes : List Block → NodeId → Bool
revokes blocks n = last_word n false (ledger_changes blocks)

contains-remove :
    (n m : NodeId) (revoked : List NodeId)
    → contains (remove n revoked) m ≡ (if bytes_beq n m then false else contains revoked m)
contains-remove n m [] = ground arith
contains-remove n m (x ∷ revoked) =
    ground
      (arith, contains-remove n m revoked, bytes_beq_iff x n, bytes_beq_iff m x, bytes_beq_iff n m)

pub contains-mark :
    (n : NodeId) (changes : List (NodeId × Bool)) (revoked : List NodeId)
    → contains (mark changes revoked) n ≡ last_word n (contains revoked n) changes
unfolding last_word
contains-mark n [] revoked = refl
contains-mark n ((m, true) ∷ changes) revoked =
    contains-mark n changes (m ∷ revoked)
    ∙ ap (λ b. last_word n b changes) (ground (arith, bytes_beq_iff n m, bytes_beq_iff m n))
contains-mark n ((m, false) ∷ changes) revoked =
    contains-mark n changes (remove m revoked)
    ∙ ap (λ b. last_word n b changes) (contains-remove m n revoked)

mark-append :
    (xs ys : List (NodeId × Bool)) (revoked : List NodeId)
    → mark (xs ++ ys) revoked ≡ mark ys (mark xs revoked)
mark-append [] ys revoked = refl
mark-append ((n, is_revoked) ∷ xs) ys revoked =
    mark-append xs ys (if is_revoked then n ∷ revoked else remove n revoked)

mark-ledger_append :
    (blocks : List Block) (b : Block) (revoked : List NodeId)
    → mark (ledger_changes (blocks ++ b ∷ [])) revoked
      ≡ mark (changes_of b.events) (mark (ledger_changes blocks) revoked)
mark-ledger_append [] b revoked = mark-append (changes_of b.events) [] revoked
mark-ledger_append (x ∷ blocks) b revoked =
    mark-append (changes_of x.events) (ledger_changes (blocks ++ b ∷ [])) revoked
    ∙ mark-ledger_append blocks b (mark (changes_of x.events) revoked)
    ∙ ap (mark (changes_of b.events))
        (sym (mark-append (changes_of x.events) (ledger_changes blocks) revoked))

lookup-retain_out :
    (n : NodeId) (revoked : List NodeId) (d : Dict NodeId MemberAccess)
    → contains revoked n ≡ true
    → lookup n (retain (λ member access. not (contains revoked member)) d) ≡ none
lookup-retain_out n revoked [] h = refl
lookup-retain_out n revoked ((m, access) ∷ d) h =
    ground (arith, lookup-retain_out n revoked d h, bytes_beq_iff n m)

access_to-purge :
    (n : NodeId) (revoked : List NodeId) (membership : Option MembershipPolicy)
    → contains revoked n ≡ true
    → access_to n (purge revoked membership) ≡ none
access_to-purge n revoked none h = refl
access_to-purge n revoked (some policy) h = lookup-retain_out n revoked policy.permissions h

-- The set of revoked members is what the ledger says.
abbrev pub Marked : List Block → Roster → Type 0
Marked blocks r = r.revoked_members ≡ mark (ledger_changes blocks) []

-- The roster follows the ledger.
pub record Follows (blocks : List Block) (r : Roster) : Type 0 where
  pub marked : Marked blocks r
  pub purged : (n : NodeId) → contains r.revoked_members n ≡ true → access_to n r.membership ≡ none

pub refresh-Follows :
    (blocks : List Block) (r : Roster)
    → r.revoked_members ≡ []
    → Follows blocks (refresh_revocations_from_ledger blocks r)
unfolding refresh_revocations_from_ledger apply_revocations
refresh-Follows blocks r fresh = record {
  marked = ap (mark (ledger_changes blocks)) fresh;
  purged = λ n. access_to-purge n (mark (ledger_changes blocks) r.revoked_members) r.membership;
}

apply-Follows :
    (blocks : List Block) (b : Block) (r : Roster)
    → Marked blocks r
    → Follows (blocks ++ b ∷ []) (apply_revocations (changes_of b.events) r)
unfolding apply_revocations
apply-Follows blocks b r marked = record {
  marked = ap (mark (changes_of b.events)) marked ∙ sym (mark-ledger_append blocks b []);
  purged = λ n. access_to-purge n (mark (changes_of b.events) r.revoked_members) r.membership;
}

module _ (c : Crypto) (serde : Serde) where
  append-blocks :
      (verifier : Verifier) (created : Hash → Bytes → Result LedgerError (Unit {0}))
      (blocks : List Block) (b : Block) (file : Hash × List Block)
      → append c serde verifier created blocks b ≡ ok file
      → file.1 ≡ blocks ++ b ∷ []
  unfolding append
  append-blocks verifier created blocks b file h = ground arith

  appended-shape :
      (verifier : Verifier) (created : Hash → Bytes → Result LedgerError (Unit {0}))
      (blocks : List Block) (r : Roster) (b : Block) (s : List Block × Roster)
      → append_ledger_block c serde verifier created blocks r b ≡ ok s
      → (s.0 ≡ blocks ++ b ∷ []) × (s.1 ≡ apply_revocations (changes_of b.events) r)
  unfolding append_ledger_block
  appended-shape verifier created blocks r b s h =
      elim (Result-cases (append c serde verifier created blocks b)) [
        | inl (file, e) ↦ ground (arith, append-blocks verifier created blocks b file e)
        | inr (p, e) ↦ absurd (ground arith)
      ]

  pub append_ledger_block-Follows :
      (verifier : Verifier) (created : Hash → Bytes → Result LedgerError (Unit {0}))
      (blocks : List Block) (r : Roster) (b : Block) (s : List Block × Roster)
      → Marked blocks r
      → append_ledger_block c serde verifier created blocks r b ≡ ok s
      → Follows s.0 s.1
  append_ledger_block-Follows verifier created blocks r b s f h =
      let shape = appended-shape verifier created blocks r b s h in
      rw (shape.0, shape.1) (apply-Follows blocks b r f)

  pub append-Marked :
      (verifier : Verifier) (created : Hash → Bytes → Result LedgerError (Unit {0}))
      (blocks : List Block) (r : Roster) (b : Block) (file : Hash × List Block)
      → changes_of b.events ≡ []
      → append c serde verifier created blocks b ≡ ok file
      → Marked blocks r
      → Marked file.1 r
  append-Marked verifier created blocks r b file unchanged h marked =
      rw (append-blocks verifier created blocks b file h) (
        marked
        ∙ sym (
            mark-ledger_append blocks b []
            ∙ ap (λ changes. mark changes (mark (ledger_changes blocks) [])) unchanged))
