-- ===== src/Ledger/Chain.antt =====
-- `Ledger` of crates/peerless-ledger/src/lib.rs. The directory is a list of files, by name. What the
-- file system answers to `atomic_create` is an argument; SHA-256 and serde are parameters.
pub mod Reopen
use peerless_sysytem_fw.Prelude.{
  ℕ, suc, ◌+◌, ◌*◌, ◌^◌, Bool, true, false, ◌&&◌, ◌||◌, not, Option, none, some, List, [], ◌∷◌,
  ◌++◌, Bytes, Result, ok, err, ◌>>=◌, ◌>>◌, fail_if, traverse, ltb, leb, ◌==◌, if◌then◌else◌,
  length, all,
}
use peerless_sysytem_fw.Prelude.Equality.{bytes_beq}
use peerless_sysytem_fw.Core.{option_eq}
use peerless_sysytem_fw.Identity.{Crypto}
use peerless_sysytem_fw.Ledger.Merkle.{Hash, merkle_root}
use peerless_sysytem_fw.Ledger.Block.{
  LedgerError, SignedEvent, Block, Serde, or_json, verify_event, event_hash, block_hash,
}

abbrev pub max_block_bytes : ℕ
max_block_bytes = 16 * 1024 * 1024

-- `blocks.last()`.
abbrev pub last_block : List Block → Option Block
last_block [] = none
last_block (b ∷ []) = some b
last_block (b ∷ b' ∷ bs) = last_block (b' ∷ bs)

-- `Some(known)` differs from the value (`is_some_and(|known| known != x)`).
abbrev pub known_differs : Option Bytes → Bytes → Bool
known_differs none x = false
known_differs (some known) x = not (bytes_beq known x)

-- `Some(known)` is later than the value.
abbrev pub known_later : Option ℕ → ℕ → Bool
known_later none t = false
known_later (some known) t = ltb t known

-- The timestamp of the last block, if there is one.
abbrev pub timestamp_of : Option Block → Option ℕ
timestamp_of none = none
timestamp_of (some b) = some b.timestamp

-- What the loop of `Ledger::open` carries from block to block.
pub record Cursor : Type 0 where
  pub next_height : ℕ
  pub previous : Option Hash
  pub network_id : Option Bytes
  pub last_timestamp : Option ℕ

abbrev pub start : Cursor
start = record { next_height = 0; previous = none; network_id = none; last_timestamp = none }

-- The part of a `ConsensusEngine` that `append` calls.
abbrev pub Verifier : Type 0
Verifier = Block → Result LedgerError Bool

module _ (c : Crypto) (serde : Serde) where
  -- `events.iter().map(SignedEvent::hash).collect()` and `merkle_root`.
  unfoldable pub root_of : List SignedEvent → Result LedgerError Hash
  root_of events = do
    leaves ← traverse (event_hash c serde) events
    ok (merkle_root c.sha256 leaves)

  -- One block of the loop of `Ledger::open`.
  unfoldable pub check_block : Cursor → Block → Result LedgerError Cursor
  check_block cur b = do
    fail_if
        (not (b.version == 1)
          || (not (b.height == cur.next_height)
              || not (option_eq bytes_beq b.previous cur.previous)))
        LedgerError.invalid_block
    root ← root_of b.events
    fail_if
        (not (bytes_beq b.events_root root)
          || (known_differs cur.network_id b.consensus.network_id
              || known_later cur.last_timestamp b.timestamp))
        LedgerError.invalid_block
    hash ← block_hash c serde b
    ok (record {
      next_height = suc cur.next_height;
      previous = some hash;
      network_id = some b.consensus.network_id;
      last_timestamp = some b.timestamp;
    })

  unfoldable pub check_from : Cursor → List Block → Result LedgerError Cursor
  check_from cur [] = ok cur
  check_from cur (b ∷ bs) = check_block cur b >>= λ cur'. check_from cur' bs

  -- The check of the blocks that `Ledger::open` has read, sorted by file name.
  unfoldable pub check_chain : List Block → Result LedgerError Cursor
  check_chain = check_from start

  -- `self.blocks.last().map(Block::hash).transpose()`.
  unfoldable pub last_hash : List Block → Result LedgerError (Option Hash)
  last_hash blocks = elim (last_block blocks) [
    | none ↦ ok none
    | some b ↦ block_hash c serde b >>= λ h. ok (some h)
  ]

  -- `Ledger::next_block`.
  unfoldable pub next_block : List Block → List SignedEvent → ℕ → Bytes → Result LedgerError Block
  next_block blocks events timestamp network_id = do
    previous ← last_hash blocks
    root ← root_of events
    ok (record {
      version = 1;
      previous = previous;
      height = length blocks;
      timestamp = timestamp;
      events_root = root;
      events = events;
      consensus = record { network_id = network_id; signatures = [] };
    })

  -- The tests of `Ledger::append`, in the code's order.
  unfoldable pub accepts : Verifier → List Block → Block → Result LedgerError (Unit {0})
  accepts verifier blocks b = do
    valid_events ← traverse (verify_event c serde) b.events
    fail_if (not (b.height == length blocks)) LedgerError.invalid_block
    previous ← last_hash blocks
    fail_if
        (not (option_eq bytes_beq b.previous previous)
          || (not (b.version == 1) || known_later (timestamp_of (last_block blocks)) b.timestamp))
        LedgerError.invalid_block
    root ← root_of b.events
    fail_if (not (bytes_beq b.events_root root)) LedgerError.invalid_block
    agreed ← verifier b
    fail_if (not agreed || not (all (λ valid. valid) valid_events)) LedgerError.invalid_block

  -- `Ledger::append`: the blocks after it, and the file that it wrote. `created` is what
  -- `atomic_create` answers to the block's name and bytes.
  unfoldable pub append :
      Verifier
      → (Hash → Bytes → Result LedgerError (Unit {0}))
      → List Block
      → Block
      → Result LedgerError (Hash × List Block)
  append verifier created blocks b = do
    accepts verifier blocks b
    hash ← block_hash c serde b
    bytes ← or_json (serde.block_pretty_json b)
    fail_if (ltb max_block_bytes (length bytes)) LedgerError.invalid_block
    created hash bytes
    ok (hash, blocks ++ b ∷ [])
