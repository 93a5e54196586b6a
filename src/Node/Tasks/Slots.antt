-- ===== src/Node/Tasks/Slots.antt =====
-- The task slot of crates/peerless-node/src/lib.rs: who holds it, and when it is free.
use peerless_sysytem_fw.Prelude.{
  ℕ, ◌≤◌, Bool, true, false, List, [], ◌∷◌, Bytes, Result, ok, err, arith, length, inl, inr,
  Option-cases,
}
use peerless_sysytem_fw.Prelude.Equality.{bytes_eq}
use peerless_sysytem_fw.Prelude.Dict.{
  lookup, length-erase-le, length-retain-le, length-insert-le, length-insert_present,
}
use peerless_sysytem_fw.Core.{NodeId, ContentId, Task}
use peerless_sysytem_fw.Protocol.{SignedExecutionRecord}
use peerless_sysytem_fw.Node.Tasks.{
  Floats, Tasks, is_live, purge, Host, reserve, accept_offer, cancel, ExecuteError, begin_execute,
  finish_execute,
}

abbrev pub IsWithinSlots : Tasks → Type 0
IsWithinSlots s = length s.pending ≤ 1

pub cancel-slots :
    (s : Tasks) (id : Bytes) (signer : NodeId)
    → IsWithinSlots s
    → IsWithinSlots (cancel s id signer).1
unfolding cancel
cancel-slots s id signer h = ground (arith, length-erase-le id s.pending)

pub begin_execute-slots :
    (s : Tasks) (id : Bytes) (signer : NodeId) (now later : ℕ)
    → IsWithinSlots s
    → IsWithinSlots (begin_execute s id signer now later).1
unfolding begin_execute
begin_execute-slots s id signer now later h = elim (Option-cases (lookup id s.pending)) [
  | inr (r, e) ↦ ground (
    arith,
    e,
    length-erase-le id s.pending,
    length-insert_present id (record r { running = true }) r s.pending e,
  )
  | inl e ↦ ground (arith, e)
]

pub finish_execute-slots :
    (s : Tasks) (id : Bytes) (signer : NodeId) (task : Task)
    (produced : Result ExecuteError SignedExecutionRecord)
    (recorded : Result ExecuteError (Unit {0}))
    → IsWithinSlots s
    → IsWithinSlots (finish_execute s id signer task produced recorded).1
unfolding finish_execute
finish_execute-slots s id signer task (ok r) recorded h =
    ground (arith, length-erase-le id s.pending)
finish_execute-slots s id signer task (err r) recorded h =
    ground (arith, length-erase-le id s.pending)

module _ (f : Floats) (node : NodeId) (in_store : ContentId → Bool) where
  open f use {Float}

  reserve-slots :
      (host : Host Float) (s : Tasks) (task : Task) (requester : NodeId)
      (expires_at observed_at measured_at : ℕ)
      → IsWithinSlots s
      → IsWithinSlots
          (reserve f node in_store host s task requester expires_at observed_at measured_at).1
  unfolding reserve
  reserve-slots host s task requester expires_at observed_at measured_at h = ground (
    arith,
    length-insert-le task.task_id
        (record {
          task = task;
          requester = requester;
          lease_expires_at = expires_at;
          running = false;
        })
        s.pending,
  )

  pub accept_offer-slots :
      (host : Host Float) (s : Tasks) (task : Task) (requester : NodeId) (expires_at : ℕ)
      (signer : NodeId) (now observed_at measured_at : ℕ)
      → IsWithinSlots s
      → IsWithinSlots
          (accept_offer f node in_store host s task requester expires_at signer now observed_at
            measured_at).1
  unfolding accept_offer purge
  accept_offer-slots host s task requester expires_at signer now observed_at measured_at h =
      let kept = record s { pending = purge measured_at s.pending } in
      ground (
        arith,
        length-retain-le (λ id r. is_live measured_at r) s.pending,
        reserve-slots host kept task requester expires_at observed_at measured_at,
      )

  -- What a node does to its tasks; the execution's end carries what the run and the writes behind it
  -- returned.
  pub data Event : Type 0 where
    offered : Host Float → Task → NodeId → ℕ → NodeId → ℕ → ℕ → ℕ → Event
    cancelled : Bytes → NodeId → Event
    committed : Bytes → NodeId → ℕ → ℕ → Event
    finished :
        Bytes
        → NodeId
        → Task
        → Result ExecuteError SignedExecutionRecord
        → Result ExecuteError (Unit {0})
        → Event

  unfoldable pub step : Tasks → Event → Tasks
  step s (Event.offered host task requester expires_at signer now observed_at measured_at) =
      (accept_offer f node in_store host s task requester expires_at signer now observed_at
        measured_at).1
  step s (Event.cancelled id signer) = (cancel s id signer).1
  step s (Event.committed id signer now later) = (begin_execute s id signer now later).1
  step s (Event.finished id signer task produced recorded) =
      (finish_execute s id signer task produced recorded).1

  abbrev pub steps : Tasks → List Event → Tasks
  steps s [] = s
  steps s (e ∷ es) = steps (step s e) es

  step-slots : (s : Tasks) (e : Event) → IsWithinSlots s → IsWithinSlots (step s e)
  unfolding step
  step-slots s (Event.offered host task requester expires_at signer now observed_at measured_at) h =
      accept_offer-slots host s task requester expires_at signer now observed_at measured_at h
  step-slots s (Event.cancelled id signer) h = cancel-slots s id signer h
  step-slots s (Event.committed id signer now later) h = begin_execute-slots s id signer now later h
  step-slots s (Event.finished id signer task produced recorded) h =
      finish_execute-slots s id signer task produced recorded h

  -- Whatever offers, cancellations, commits and ends of executions come, in whatever order, tasks that
  -- hold at most one reservation hold at most one afterwards.
  pub steps-slots : (s : Tasks) (es : List Event) → IsWithinSlots s → IsWithinSlots (steps s es)
  steps-slots s [] h = h
  steps-slots s (e ∷ es) h = steps-slots (step s e) es (step-slots s e h)
