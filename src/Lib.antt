-- ===== src/Lib.antt =====
-- Verification library of peerless, a peer-to-peer network of nodes that share content, run each
-- other's tasks, keep a ledger by quorum and carry anonymous traffic through relays.
--
-- Parts of the program and their modules:
--   * Core: crates/peerless-core/src/lib.rs. Identifiers, tasks, requirements, capabilities; the
--     derived equality of tasks is `task_eq`.
--   * Identity: crates/peerless-identity/src/lib.rs. `sign` and `verify` over libp2p's keys.
--   * Protocol: crates/peerless-protocol/src/lib.rs. `SignedEnvelope::seal` and `open_with_signer`
--     are `seal_envelope` and `open_with_signer`; `SignedExecutionRecord::seal` and `verify` are
--     `seal_record` and `verify_record`; `Protocol.Message` is `Message`. Every message of a node comes in an envelope.
--   * Onion: crates/peerless-onion-protocol/src/lib.rs. `Onion.Defs` has constants, errors and the
--     byte codes; `Onion.Replay` is `ReplayWindow`; `Onion.Cell` has the header codec,
--     `seal_compact`, `open_layer` (its tests are `try_open`) and `HopReceiver`; `Onion.Circuit` has
--     `CircuitSender` and `HopDuplex`. A sender wraps a payload in one layer for each hop, a relay
--     opens one layer and passes on the cell inside. `Onion.Fragments` has
--     `fragment_message` and `Reassembler`, for messages longer than a cell, and `Onion.Setup`
--     the messages of the setup handshake.
--   * Ledger: crates/peerless-ledger/src/lib.rs. `Ledger.Merkle` has `merkle_root`, `merkle_proof`
--     and `MerkleProof::verify`; `Ledger.Block` events, blocks, memberships and invitations;
--     `Ledger.Consensus` `QuorumConsensus` and `BftConsensus`; `Ledger.Chain` the loop of
--     `Ledger::open` (`check_chain`), `next_block` and `append`.
--   * Storage: crates/peerless-storage/src/lib.rs. `atomic_replace`, `atomic_create`, `read_limited` and
--     `FileCas` over a map of files. `with_temporary` is the write of the temporary file that they
--     share; what the operating system answers is a `Calls`.
--   * Node: crates/peerless-node/src/lib.rs. `Node.Budget` is `consume_request_budget`; `Node.Tasks`
--     has `capability`, `accept_offer`, the arm of `handle` for `TaskCancel`, and `execute` in the two
--     parts around the run (`begin_execute`, `finish_execute`), with `eligible` and
--     `task_memory_limit` of crates/peerless-compute/src/lib.rs; `Node.Uploads` the arms of `handle`
--     for chunked contents; `Node.Membership` invitations, issued memberships, revocations and what
--     `open` reads of them (`open_roster`; `issue_invitation` of the node is `invite`); `Node.Handle`
--     is `handle`: an envelope is opened, its signer spends its budget and is held against the
--     membership, and `respond` serves the message from tasks, uploads and the content store.
--   * Compute: `verify_outputs` of crates/peerless-compute/src/lib.rs.
--   * Auth: crates/peerless-anonymous-auth/src/lib.rs. `Auth` has scopes, policies and key descriptors;
--     `Auth.Nonces` is `BoundedNonceStore`; `Auth.Verifier` is `AnonymousVerifier`, whose `redeem`
--     spends a token's nonce, with the caller's time for the scope and the nonce store's clock apart;
--     `Auth.Issuer` has `issue` of `AnonymousIssuer`, `Auth.Issuer.Rotation` its `challenge` and
--     `prune`.
--   * Prelude: lists, Boolean tests, byte strings, maps and results that the parts share.
--
-- How state and errors are modelled: a struct is a record, a `&mut self` method returns the record
-- after it, `Result` is `Prelude.Result` with `?` as its bind, and an error path says what state it
-- leaves. Integers are natural numbers; the widths of the onion cell's fields are hypotheses
-- (`IsWellFormed`, `sequence < 256 ^ 8`), `checked_add` is `next_u64`, and the
-- bitmap's `1u128 << distance` takes the distance modulo 128, which is what a build without overflow
-- checks does. Strings, hashes, keys and
-- cells are byte strings. The clock is an argument of every operation that reads it.
--
-- Loops: the two loops over Merkle levels run on fuel, which is the number of leaves; each round at
-- least halves a level of more than one hash, and a theorem states that this is enough. A message is
-- cut into fragments on fuel, its length in bytes; each round takes at least one byte. The search for a
-- temporary file name runs on fuel; one more than the number of files is enough.
-- An issuer makes at most 100 attempts at a key, as the code does. All other loops are
-- recursion on a list.
--
-- Parameters: SHA-256 and the key operations (`Crypto`), ChaCha20Poly1305 (`Aead`), serde_json
-- (`Json`, `Serde`), hex, RFC 9578 tokens (`PrivacyPass`), RSA (`Rsa`), floats (`Floats`), the host's resources (`Host`), the runtime that invokes
-- a component, the answers of
-- the file system, and the writes to the metadata. What is relied on of them is a hypothesis:
-- `IsGenuine` for an identity, `Redeems` for
-- the token server, `IsLawful` for the cipher, 32-byte digests. That no
-- other content has the hash of the one that is stored is a hypothesis where a stored content is read
-- back; no theorem assumes that SHA-256 is injective or that a cipher or signature cannot be forged.
--
-- Not modelled: sockets and libp2p (crates/peerless-network), SQLite (metadata.rs),
-- automerge documents (crates/peerless-state), wasmtime, the browser bindings and the
-- command line; of the modelled crates, the key agreement of the onion setup, the
-- loading of keys, the creation of directories, the placement of tasks by floats, the
-- credentials' client, and the node's network orchestration.
pub mod Prelude
pub mod Core
pub mod Identity
pub mod Protocol
pub mod Onion
pub mod Ledger
pub mod Compute
pub mod Storage
pub mod Auth
pub mod Node
