-- ===== src/Node/Handle.antt =====
-- `handle` of crates/peerless-node/src/lib.rs: an envelope is opened, its signer spends its budget and
-- is held against the membership, and the message is served from uploads, tasks and content store. What
-- the outside answers while one request is served is a `Moment`; an execution runs to its end within its
-- request. The response is the one before it is sealed; metadata and state documents are not modelled.
pub mod Gate
pub mod Limits
mod Tests
use peerless_sysytem_fw.Prelude.{
  ℕ, ◌+◌, Bool, true, false, ◌&&◌, not, Option, none, some, List, [], ◌∷◌, Bytes, Result, ok, err,
  ◌>>=◌, ◌>>◌, if◌then◌else◌,
}
use peerless_sysytem_fw.Prelude.Equality.{bytes_eq}
use peerless_sysytem_fw.Prelude.Dict.{Dict}
use peerless_sysytem_fw.Core.{NodeId, ContentId, Task, content_id_of, content_id_verify}
use peerless_sysytem_fw.Identity.{Crypto}
use peerless_sysytem_fw.Protocol.{
  Json, ProtocolError, SignedEnvelope, SignedExecutionRecord, open_with_signer,
}
use peerless_sysytem_fw.Protocol.Message.{Message, permission_for}
use peerless_sysytem_fw.Storage.{CasError, Calls, FilePath, Files, final, put, get, contains}
use peerless_sysytem_fw.Node.Budget.{RequestBudget, consume_request_budget}
use peerless_sysytem_fw.Node.Membership.{MemberAccess, MembershipPolicy, allows, access_to}
use peerless_sysytem_fw.Node.Tasks.{
  Floats, Host, Tasks, CompletedTask, Reply, ExecuteError, Begun, accept_offer, cancel,
  begin_execute, finish_execute, task_memory_limit,
}
use peerless_sysytem_fw.Node.Uploads.{
  Uploads, Completed, content_start, content_chunk, content_complete,
}

-- The fields of `Inner` that `handle` uses.
pub record Node : Type 0 where
  pub request_budget : RequestBudget
  pub membership : Option MembershipPolicy
  pub uploads : Uploads
  pub tasks : Tasks
  pub files : Files

-- The node that `open` makes; the completed tasks are those of the metadata.
abbrev pub opened_node : Option MembershipPolicy → Files → Dict Bytes CompletedTask → ℕ → Node
opened_node membership files completed now = record {
  request_budget = record { window_started_at = now; global = 0; identities = [] };
  membership = membership;
  uploads = [];
  tasks = record { pending = []; completed = completed };
  files = files;
}

-- What the clock, the host, the file system and the run of a task answer during one request.
pub record Moment (Float : Type 0) : Type 0 where
  pub spent_at : ℕ
  pub allowed_at : ℕ
  pub offered_at : ℕ
  pub observed_at : ℕ
  pub measured_at : ℕ
  pub host : Host Float
  pub calls : Calls
  pub raced : Option Bytes
  pub fuel : ℕ
  pub candidate : ℕ → FilePath
  pub sequence : ℕ
  pub reads : Bool
  pub merges : Bool
  -- Of the run of a task: the first write to the metadata, the output that the runtime computes from
  -- the component, the input and the memory limit, and the signed record of a stored output.
  pub marked : Result ExecuteError (Unit {0})
  pub invokes : Task → Bytes → Bytes → ℕ → Result ExecuteError Bytes
  pub produced : ContentId → Result ExecuteError SignedExecutionRecord
  pub recorded : Result ExecuteError (Unit {0})

pub data Response (Float : Type 0) : Type 0 where
  over_budget unauthorized content_mismatch over_upload_budget invalid_chunk : Response Float
  upload_mismatch upload_incomplete content_not_found unverified_ledger_block : Response Float
  has_content : ContentId → Response Float
  content : ContentId → Bytes → Response Float
  -- The public capability, by its expiry.
  capability : ℕ → Response Float
  task_reply : Bytes → Reply → Response Float
  echo : Message Float → Response Float

pub data HandleError : Type 0 where
  protocol : ProtocolError → HandleError
  storage : CasError → HandleError
  execution : ExecuteError → HandleError
  state : HandleError

-- `is_some_and(|access| access.allows(required, now()))`.
abbrev pub access_allows : Option MemberAccess → Bytes → ℕ → Bool
access_allows none permission at = false
access_allows (some access) permission at = allows access permission at

-- A node outside every network allows everything.
unfoldable pub permits : Option MembershipPolicy → NodeId → Bytes → ℕ → Bool
permits none signer permission at = true
permits (some policy) signer permission at =
    access_allows (access_to signer (some policy)) permission at

abbrev pub answer_put :
    {Float : Type 0} → ContentId → Result CasError ContentId → Result HandleError (Response Float)
answer_put id (ok stored) = ok (Response.has_content id)
answer_put id (err e) = err (HandleError.storage e)

abbrev pub answer_get :
    {Float : Type 0} → ContentId → Result CasError Bytes → Result HandleError (Response Float)
answer_get id (ok bytes) = ok (Response.content id bytes)
answer_get id (err e) = err (HandleError.storage e)

abbrev pub answer_run :
    {Float : Type 0}
    → Bytes
    → Result ExecuteError SignedExecutionRecord
    → Result HandleError (Response Float)
answer_run id (ok result) = ok (Response.task_reply id (Reply.task_result result))
answer_run id (err e) = err (HandleError.execution e)

-- Errors of the content store are among those of the run.
abbrev pub or_run_failed : {A : Type 0} → Result CasError A → Result ExecuteError A
or_run_failed (ok a) = ok a
or_run_failed (err e) = err ExecuteError.run_failed

abbrev pub or_unsafe : Option ℕ → Result ExecuteError ℕ
or_unsafe none = err ExecuteError.run_failed
or_unsafe (some limit) = ok limit

module _ (sha256 : Bytes → Bytes) (hex_encode : Bytes → Bytes) (f : Floats) (node : NodeId) where
  open f use {Float}

  unfoldable pub store :
      Moment Float → Node → ContentId → Bytes → Result HandleError (Response Float) × Node
  store m n id bytes =
      let (result, states) =
        put sha256 hex_encode m.calls m.raced m.fuel m.candidate m.sequence n.files bytes in
      (answer_put id result, record n { files = final n.files states })

  unfoldable pub finish_transfer :
      Moment Float
      → Node
      → ContentId
      → Completed × Uploads
      → Result HandleError (Response Float) × Node
  finish_transfer m n id (Completed.stored bytes, uploads) =
      store m (record n { uploads = uploads }) id bytes
  finish_transfer m n id (Completed.mismatch, uploads) =
      (ok Response.upload_mismatch, record n { uploads = uploads })
  finish_transfer m n id (Completed.incomplete, uploads) =
      (ok Response.upload_incomplete, record n { uploads = uploads })

  -- The run of `execute` up to its output.
  unfoldable pub output_of : Moment Float → Files → Task → Result ExecuteError Bytes
  output_of m files task = do
    m.marked
    component ← or_run_failed (get sha256 hex_encode m.reads files task.component)
    raw ← or_run_failed (get sha256 hex_encode m.reads files task.input)
    limit ← or_unsafe (task_memory_limit task)
    m.invokes task component raw limit

  -- The output is stored before the record of it is signed.
  unfoldable pub keep_output :
      Moment Float
      → Files
      → Result ExecuteError Bytes
      → Result ExecuteError SignedExecutionRecord × Files
  keep_output m files (err e) = (err e, files)
  keep_output m files (ok bytes) =
      let (stored, states) =
        put sha256 hex_encode m.calls m.raced m.fuel m.candidate m.sequence files bytes in
      (or_run_failed stored >>= m.produced, final files states)

  unfoldable pub run_task :
      Moment Float
      → Node
      → Bytes
      → NodeId
      → Begun × Tasks
      → Result HandleError (Response Float) × Node
  run_task m n id signer (Begun.answered result, tasks) =
      (ok (Response.task_reply id (Reply.task_result result)), record n { tasks = tasks })
  run_task m n id signer (Begun.refused e, tasks) =
      (err (HandleError.execution e), record n { tasks = tasks })
  run_task m n id signer (Begun.started task, tasks) =
      let (produced, files) = keep_output m n.files (output_of m n.files task) in
      let (result, tasks') = finish_execute tasks id signer task produced m.recorded in
      (answer_run id result, record n { tasks = tasks'; files = files })

  -- The `match` on the message.
  unfoldable pub respond :
      Moment Float → Node → Message Float → NodeId → Result HandleError (Response Float) × Node
  respond m n (Message.content id bytes) signer =
      if content_id_verify sha256 id bytes
      then store m n id bytes
      else (ok Response.content_mismatch, n)
  respond m n (Message.content_start id total_size chunk_size) signer =
      let (valid, uploads) = content_start n.uploads (signer, id) total_size chunk_size in
      (
        ok (if valid then Response.has_content id else Response.over_upload_budget),
        record n { uploads = uploads },
      )
  respond m n (Message.content_chunk id index bytes chunk_hash) signer =
      let (valid, uploads) = content_chunk sha256 n.uploads (signer, id) index bytes chunk_hash in
      (
        ok (if valid then Response.has_content chunk_hash else Response.invalid_chunk),
        record n { uploads = uploads },
      )
  respond m n (Message.content_complete id) signer =
      finish_transfer m n id (content_complete sha256 n.uploads (signer, id))
  respond m n (Message.task_offer task requester expires_at) signer =
      let (reply, tasks) =
        accept_offer f node (contains sha256 hex_encode n.files) m.host n.tasks task requester
          expires_at signer m.offered_at m.observed_at m.measured_at in
      (ok (Response.task_reply task.task_id reply), record n { tasks = tasks })
  respond m n (Message.task_commit task_id) signer =
      run_task m n task_id signer (begin_execute n.tasks task_id signer m.offered_at m.observed_at)
  respond m n (Message.task_cancel task_id) signer =
      let (reply, tasks) = cancel n.tasks task_id signer in
      (ok (Response.task_reply task_id reply), record n { tasks = tasks })
  respond m n (Message.get_content id) signer =
      (answer_get id (get sha256 hex_encode m.reads n.files id), n)
  respond m n (Message.check_content id) signer = (
    ok (
        if contains sha256 hex_encode n.files id
        then Response.has_content id
        else Response.content_not_found),
    n,
  )
  respond m n Message.get_capability signer = (ok (Response.capability (m.observed_at + 30000)), n)
  respond m n (Message.state_snapshot document snapshot) signer = (
    (if m.merges
        then ok (Response.has_content (content_id_of sha256 snapshot))
        else err HandleError.state),
    n,
  )
  respond m n (Message.ledger_block block) signer = (ok Response.unverified_ledger_block, n)
  respond m n message signer = (ok (Response.echo message), n)

  -- `handle` once the envelope is opened.
  unfoldable pub admit :
      Moment Float → Node → Message Float → NodeId → Result HandleError (Response Float) × Node
  admit m n message signer =
      let (granted, budget) = consume_request_budget n.request_budget signer m.spent_at in
      let spent : Node = record n { request_budget = budget } in
      if not granted
      then (ok Response.over_budget, spent)
      else if not (permits n.membership signer (permission_for message) m.allowed_at)
      then (ok Response.unauthorized, spent)
      else respond m spent message signer

  module _ (c : Crypto) (json : Json (Message Float)) where
    unfoldable pub handle :
        Moment Float → Node → SignedEnvelope → Result HandleError (Response Float) × Node
    handle m n envelope = elim (open_with_signer c json envelope) [
      | ok (message, signer) ↦ admit m n message signer
      | err e ↦ (err (HandleError.protocol e), n)
    ]
