-- ===== src/Node/Tasks.antt =====
-- Task admission and execution of crates/peerless-node/src/lib.rs, with `eligible` and
-- `task_memory_limit` of crates/peerless-compute/src/lib.rs. Clock readings are arguments, in the
-- order in which the code takes them. Floats, the host's resources, the content store, the WASM run
-- and the writes to ledger and metadata are arguments.
pub mod Slots
pub mod Running
use peerless_sysytem_fw.Prelude.{
  ℕ, ◌+◌, ◌-◌, ◌*◌, Bool, true, false, ◌&&◌, ◌||◌, not, Option, none, some, List, [], ◌∷◌, Bytes,
  Result, ok, err, ◌>>=◌, ◌>>◌, ltb, leb, ◌==◌, if◌then◌else◌, length,
}
use peerless_sysytem_fw.Prelude.Equality.{bytes_eq, bytes_beq}
use peerless_sysytem_fw.Prelude.Dict.{Dict, lookup, insert, erase, retain}
use peerless_sysytem_fw.Core.{
  NodeId, ContentId, Task, task_eq, NodeCapability, PowerState, supports, is_fresh_at,
}
use peerless_sysytem_fw.Protocol.{SignedExecutionRecord}

abbrev pub default_task_memory_limit : ℕ
default_task_memory_limit = 64 * 1024 * 1024

abbrev pub max_task_memory_limit : ℕ
max_task_memory_limit = 512 * 1024 * 1024

abbrev pub host_memory_reserve : ℕ
host_memory_reserve = 1024 * 1024 * 1024

abbrev pub max_concurrent_tasks : ℕ
max_concurrent_tasks = 1

-- `task_memory_limit`: the larger of the declared and the default minimum, if it is allowed.
unfoldable pub task_memory_limit : Task → Option ℕ
task_memory_limit task =
    let declared = task.requirements.minimum_memory in
    let limit : ℕ =
      if ltb declared default_task_memory_limit then default_task_memory_limit else declared in
    if leb limit max_task_memory_limit then some limit else none

-- `deadline.is_none_or(|deadline| deadline > now)`.
abbrev pub in_time : Option ℕ → ℕ → Bool
in_time none now = true
in_time (some deadline) now = ltb now deadline

-- The comparisons of `f64` that `eligible` makes.
pub record Floats : Type 1 where
  pub Float : Type 0
  pub is_finite : Float → Bool
  pub is_positive : Float → Bool
  pub at_most_one : Float → Bool
  pub in_unit_range : Float → Bool

-- `task_memory_limit(task).is_some_and(|limit| available >= limit)`.
abbrev pub memory_fits : Option ℕ → ℕ → Bool
memory_fits none available = false
memory_fits (some limit) available = leb limit available

module _ (f : Floats) where
  open f use {Float, is_finite, is_positive, at_most_one, in_unit_range}

  -- `eligible`.
  unfoldable pub eligible : Task → NodeCapability Float → ℕ → Bool
  eligible task node now =
      is_fresh_at node now
      && (is_finite node.available_cpu
          && (is_positive node.available_cpu
              && (at_most_one node.available_cpu
                  && (is_finite node.load
                      && (in_unit_range node.load
                          && (memory_fits (task_memory_limit task) node.available_memory
                              && (leb task.requirements.minimum_storage node.available_storage
                                  && (supports node task.requirements.runtime
                                      && (ltb 0 node.task_slots
                                          && in_time task.deadline now)))))))))

pub record PendingTask : Type 0 where
  pub task : Task
  pub requester : NodeId
  pub lease_expires_at : ℕ
  pub running : Bool

pub record CompletedTask : Type 0 where
  pub task : Task
  pub requester : NodeId
  pub result : SignedExecutionRecord

-- The two maps of `Inner` that hold tasks.
pub record Tasks : Type 0 where
  pub pending : Dict Bytes PendingTask
  pub completed : Dict Bytes CompletedTask

-- A reservation that `capability` retains.
abbrev pub is_live : ℕ → PendingTask → Bool
is_live now r = r.running || (ltb now r.lease_expires_at && in_time r.task.deadline now)

-- `pending.retain(...)` in `capability`.
unfoldable pub purge : ℕ → Dict Bytes PendingTask → Dict Bytes PendingTask
purge now = retain (λ id r. is_live now r)

abbrev pub limit_or_zero : Option ℕ → ℕ
limit_or_zero none = 0
limit_or_zero (some n) = n

-- `pending.values().filter_map(task_memory_limit).sum()`.
unfoldable pub reserved_memory : Dict Bytes PendingTask → ℕ
reserved_memory [] = 0
reserved_memory ((id, r) ∷ pending) =
    limit_or_zero (task_memory_limit r.task) + reserved_memory pending

-- What `sysinfo` reads of the host.
pub record Host (Float : Type 0) : Type 0 where
  pub cpu_cores : ℕ
  pub available_cpu : Float
  pub load : Float
  pub available_memory : ℕ
  pub available_storage : ℕ

abbrev pub runtimes : List Bytes
runtimes =
    (b'w' ∷ b'a' ∷ b's' ∷ b'm' ∷ b't' ∷ b'i' ∷ b'm' ∷ b'e' ∷ b'-' ∷ b'c' ∷ b'o' ∷ b'm' ∷ b'p' ∷ b'o'
      ∷ b'n' ∷ b'e' ∷ b'n' ∷ b't' ∷ b'-' ∷ b'v' ∷ b'1' ∷ [])
    ∷ (b'w' ∷ b'a' ∷ b's' ∷ b'm' ∷ b't' ∷ b'i' ∷ b'm' ∷ b'e' ∷ b'-' ∷ b'b' ∷ b'y' ∷ b't' ∷ b'e'
        ∷ b's' ∷ b'-' ∷ b'v' ∷ b'1' ∷ [])
    ∷ []

-- `capability`, over the reservations that it has purged.
unfoldable pub capability :
    {Float : Type 0} → NodeId → Host Float → Dict Bytes PendingTask → ℕ → NodeCapability Float
capability node host pending now = record {
  node = node;
  cpu_cores = host.cpu_cores;
  available_cpu = host.available_cpu;
  available_memory = host.available_memory - host_memory_reserve - reserved_memory pending;
  available_storage = host.available_storage;
  runtimes = runtimes;
  power = PowerState.unknown;
  load = host.load;
  task_slots = max_concurrent_tasks - length pending;
  expires_at = now + 30000;
}

-- The reasons of the `TaskReject`s and the `TaskError`s.
pub data Reason : Type 0 where
  invalid collision no_capacity : Reason
  cancelled already_running not_requester : Reason

pub data Reply : Type 0 where
  accept : Reply
  reject : Reason → Reply
  task_error : Reason → Reply
  task_result : SignedExecutionRecord → Reply

-- `existing.requester == requester && existing.task == task`.
abbrev pub same_offer : NodeId → Task → NodeId → Task → Reply
same_offer requester task requester' task' =
    if bytes_beq requester' requester && task_eq task' task
    then Reply.accept
    else Reply.reject Reason.collision

abbrev pub is_empty : Bytes → Bool
is_empty [] = true
is_empty (b ∷ bs) = false

module _ (f : Floats) (node : NodeId) (in_store : ContentId → Bool) where
  open f use {Float}

  -- The offer once `capability` has purged the reservations.
  unfoldable pub reserve : Host Float → Tasks → Task → NodeId → ℕ → ℕ → ℕ → Reply × Tasks
  reserve host s task requester expires_at observed_at measured_at =
      elim (lookup task.task_id s.pending) [
        | some existing ↦ (same_offer requester task existing.requester existing.task, s)
        | none ↦
            if not (eligible f task (capability node host s.pending measured_at) observed_at)
              || leb max_concurrent_tasks (length s.pending)
            then (Reply.reject Reason.no_capacity, s)
            else (
              Reply.accept,
              record s {
                pending =
                    insert task.task_id
                      (record {
                        task = task;
                        requester = requester;
                        lease_expires_at = expires_at;
                        running = false;
                      })
                      s.pending;
              },
            )
      ]

  -- `accept_offer`, but for its metadata. The clock is read for the offer's expiry, for `eligible`, and
  -- in `capability`.
  unfoldable pub accept_offer :
      Host Float → Tasks → Task → NodeId → ℕ → NodeId → ℕ → ℕ → ℕ → Reply × Tasks
  accept_offer host s task requester expires_at signer now observed_at measured_at =
      if is_empty task.task_id
        || (not (bytes_beq requester signer)
            || (not (ltb now expires_at)
                || (not (in_store task.component) || not (in_store task.input))))
      then (Reply.reject Reason.invalid, s)
      else elim (lookup task.task_id s.completed) [
        | some existing ↦ (same_offer requester task existing.requester existing.task, s)
        | none ↦
            reserve host (record s { pending = purge measured_at s.pending }) task requester
              expires_at observed_at measured_at
      ]

-- The arm of `handle` for `TaskCancel`.
unfoldable pub cancel : Tasks → Bytes → NodeId → Reply × Tasks
cancel s id signer = elim (lookup id s.pending) [
  | none ↦ (Reply.task_error Reason.not_requester, s)
  | some r ↦
      if bytes_beq r.requester signer && not r.running
      then (Reply.task_error Reason.cancelled, record s { pending = erase id s.pending })
      else if bytes_beq r.requester signer
      then (Reply.task_error Reason.already_running, s)
      else (Reply.task_error Reason.not_requester, s)
]

pub data ExecuteError : Type 0 where
  commit_not_requester unexpected_response lease_expired task_running : ExecuteError
  run_failed : ExecuteError

-- What `execute` does before it releases the lock: it answers at once, or it starts the task.
pub data Begun : Type 0 where
  answered : SignedExecutionRecord → Begun
  refused : ExecuteError → Begun
  started : Task → Begun

-- The first part of `execute`; the lease and the deadline are held against two clock readings.
unfoldable pub begin_execute : Tasks → Bytes → NodeId → ℕ → ℕ → Begun × Tasks
begin_execute s id signer now later = elim (lookup id s.completed) [
  | some done ↦ (
    if bytes_beq done.requester signer
        then Begun.answered done.result
        else Begun.refused ExecuteError.commit_not_requester,
    s,
  )
  | none ↦ elim (lookup id s.pending) [
    | none ↦ (Begun.refused ExecuteError.unexpected_response, s)
    | some r ↦
        if not (bytes_beq r.requester signer)
        then (Begun.refused ExecuteError.commit_not_requester, s)
        else if leb r.lease_expires_at now || not (in_time r.task.deadline later)
        then (Begun.refused ExecuteError.lease_expired, record s { pending = erase id s.pending })
        else if r.running
        then (Begun.refused ExecuteError.task_running, s)
        else (
          Begun.started r.task,
          record s { pending = insert id (record r { running = true }) s.pending },
        )
  ]
]

-- The rest of `execute`: `produced` is the signed result or the error of the run, `recorded` whether
-- the writes behind the cache entry succeed. The reservation goes whatever happens.
unfoldable pub finish_execute :
    Tasks
    → Bytes
    → NodeId
    → Task
    → Result ExecuteError SignedExecutionRecord
    → Result ExecuteError (Unit {0})
    → Result ExecuteError SignedExecutionRecord × Tasks
finish_execute s id signer task (err e) recorded =
    (err e, record s { pending = erase id s.pending })
finish_execute s id signer task (ok result) recorded = (
  recorded >>= λ _. ok result,
  record {
    pending = erase id s.pending;
    completed = insert id (record { task = task; requester = signer; result = result }) s.completed;
  },
)
