-- ===== src/Ledger/Chain/Reopen.antt =====
-- `append` against `open`: which appended chains are accepted when the ledger is opened again.
use peerless_sysytem_fw.Prelude.{
  ℕ, suc, ◌+◌, ◌≡◌, refl, subst, ◌∙◌, true, false, inl, inr, Option, some, List, [], ◌∷◌, ◌++◌,
  Bytes, Result, ok, err, ◌>>=◌, ◌==◌, if◌then◌else◌, length, arith, Result-cases,
}
use peerless_sysytem_fw.Prelude.Equality.{bytes_beq}
use peerless_sysytem_fw.Core.{option_eq}
use peerless_sysytem_fw.Identity.{Crypto}
use peerless_sysytem_fw.Ledger.Merkle.{Hash}
use peerless_sysytem_fw.Ledger.Block.{LedgerError, Block, Serde, block_hash}
use peerless_sysytem_fw.Ledger.Chain.{
  Verifier, Cursor, start, check_block, check_from, check_chain, last_hash, last_block,
  timestamp_of, known_differs, known_later, root_of, accepts, append,
}

-- The cursor behind a block at the height.
abbrev pub moved_to : ℕ → Hash → Block → Cursor
moved_to height hash b = record {
  next_height = suc height;
  previous = some hash;
  network_id = some b.consensus.network_id;
  last_timestamp = some b.timestamp;
}

module _ (c : Crypto) (serde : Serde) where
  check_from-append :
      (cur : Cursor) (bs : List Block) (b : Block)
      → check_from c serde cur (bs ++ b ∷ [])
        ≡ (check_from c serde cur bs >>= λ cur'. check_block c serde cur' b)
  unfolding check_from
  check_from-append cur [] b = elim (Result-cases (check_block c serde cur b)) [
    | inl (cur', e) ↦ rw e refl
    | inr (x, e) ↦ rw e refl
  ]
  check_from-append cur (x ∷ bs) b = elim (Result-cases (check_block c serde cur x)) [
    | inl (cur', e) ↦ rw e (check_from-append cur' bs b)
    | inr (err', e) ↦ rw e refl
  ]

  -- What a cursor is behind a block.
  record Behind (cur : Cursor) (b : Block) (cur' : Cursor) : Type 0 where
    hash : Hash
    hashed : block_hash c serde b ≡ ok hash
    moved : cur' ≡ record {
      next_height = suc cur.next_height;
      previous = some hash;
      network_id = some b.consensus.network_id;
      last_timestamp = some b.timestamp;
    }

  check_block-Behind :
      (cur cur' : Cursor) (b : Block) → check_block c serde cur b ≡ ok cur' → Behind cur b cur'
  unfolding check_block
  check_block-Behind cur cur' b e = elim (Result-cases (root_of c serde b.events)) [
    | inl (root, r) ↦ elim (Result-cases (block_hash c serde b)) [
      | inl (h, hh) ↦ record { hash = h; hashed = hh; moved = ground arith }
      | inr (x, hh) ↦ absurd (ground arith)
    ]
    | inr (x, r) ↦ absurd (ground arith)
  ]

  -- The cursor that has passed the blocks says of the last one what `append` looks up.
  record Passed (cur : Cursor) (n : ℕ) (bs : List Block) : Type 0 where
    heights : cur.next_height ≡ n + length bs
    hashes : last_hash c serde bs ≡ ok cur.previous
    times : cur.last_timestamp ≡ timestamp_of (last_block bs)

  check_from-Passed :
      (cur cur' : Cursor) (b : Block) (bs : List Block)
      → check_from c serde cur (b ∷ bs) ≡ ok cur'
      → Passed cur' cur.next_height (b ∷ bs)
  unfolding check_from last_hash
  check_from-Passed cur cur' b [] e = elim (Result-cases (check_block c serde cur b)) [
    | inl (one, f) ↦
        let at = check_block-Behind cur one b f in
        let same : one ≡ cur' = ground arith in
        record {
          heights = ground (arith, at.moved);
          hashes = rw at.hashed (ground (arith, at.moved));
          times = ground (arith, at.moved);
        }
    | inr (x, f) ↦ absurd (ground arith)
  ]
  check_from-Passed cur cur' b (b' ∷ bs) e = elim (Result-cases (check_block c serde cur b)) [
    | inl (one, f) ↦
        let at = check_block-Behind cur one b f in
        let later = check_from-Passed one cur' b' bs (rw f at e) in
        record {
          heights = ground (arith, at.moved, later.heights);
          hashes = later.hashes;
          times = later.times;
        }
    | inr (x, f) ↦ absurd (ground arith)
  ]

  check_chain-Passed :
      (cur : Cursor) (bs : List Block) → check_chain c serde bs ≡ ok cur → Passed cur 0 bs
  unfolding check_chain check_from last_hash
  check_chain-Passed cur [] e = record {
    heights = ground arith;
    hashes = ground arith;
    times = ground arith;
  }
  check_chain-Passed cur (b ∷ bs) e = check_from-Passed start cur b bs e

  -- What `append` has tested of a block that it accepts.
  record Accepted (bs : List Block) (b : Block) (previous : Option Hash) : Type 0 where
    height : (b.height == length bs) ≡ true
    linked : option_eq bytes_beq b.previous previous ≡ true
    version : (b.version == 1) ≡ true
    in_time : known_later (timestamp_of (last_block bs)) b.timestamp ≡ false
    root : Hash
    rooted : root_of c serde b.events ≡ ok root
    same_root : bytes_beq b.events_root root ≡ true

  accepts-Accepted :
      (verifier : Verifier) (bs : List Block) (b : Block) (previous : Option Hash)
      → last_hash c serde bs ≡ ok previous
      → accepts c serde verifier bs b ≡ ok tt
      → Accepted bs b previous
  unfolding accepts
  accepts-Accepted verifier bs b previous l a = elim (Result-cases (root_of c serde b.events)) [
    | inl (root, r) ↦ record {
      height = ground arith;
      linked = ground arith;
      version = ground arith;
      in_time = ground arith;
      root = root;
      rooted = r;
      same_root = ground arith;
    }
    | inr (x, r) ↦ absurd (ground arith)
  ]

  check_chain-append :
      (bs : List Block) (b : Block) (cur : Cursor)
      → check_chain c serde bs ≡ ok cur
      → check_chain c serde (bs ++ b ∷ []) ≡ check_block c serde cur b
  unfolding check_chain
  check_chain-append bs b cur e = check_from-append start bs b ∙ rw e refl

  check-Accepted :
      (bs : List Block) (b : Block) (cur : Cursor) (hash : Hash)
      → Passed cur 0 bs
      → Accepted bs b cur.previous
      → block_hash c serde b ≡ ok hash
      → check_block c serde cur b ≡ (
          if known_differs cur.network_id b.consensus.network_id
          then err LedgerError.invalid_block
          else ok (moved_to (length bs) hash b))
  unfolding check_block
  check-Accepted bs b cur hash p t h =
      rw (t.version, t.linked, t.rooted, t.same_root, h)
        (ground (arith, p.heights, p.times, t.height, t.in_time))

  -- A chain that `open` accepts, with a block appended, is accepted again if and only if the block is
  -- of the network of the chain's last block, or is the first: `append` does not look at that.
  pub append_reopens :
      (verifier : Verifier) (created : Hash → Bytes → Result LedgerError (Unit {0}))
      (bs bs' : List Block) (b : Block) (hash : Hash) (cur : Cursor)
      → check_chain c serde bs ≡ ok cur
      → append c serde verifier created bs b ≡ ok (hash, bs')
      → check_chain c serde bs' ≡ (
          if known_differs cur.network_id b.consensus.network_id
          then err LedgerError.invalid_block
          else ok (moved_to (length bs) hash b))
  unfolding append
  append_reopens verifier created bs bs' b hash cur e a =
      let p = check_chain-Passed cur bs e in
      let tested : accepts c serde verifier bs b ≡ ok tt = ground arith in
      let hashed : block_hash c serde b ≡ ok hash = ground arith in
      let longer : bs ++ b ∷ [] ≡ bs' = ground arith in
      let t = accepts-Accepted verifier bs b cur.previous p.hashes tested in
      subst
        (λ x. check_chain c serde x ≡ (
          if known_differs cur.network_id b.consensus.network_id
          then err LedgerError.invalid_block
          else ok (moved_to (length bs) hash b)))
        longer (check_chain-append bs b cur e ∙ check-Accepted bs b cur hash p t hashed)
