-- ===== src/Node/Tasks/Running.antt =====
-- Running tasks of crates/peerless-node/src/lib.rs: what each operation does to a reservation whose
-- task runs.
use peerless_sysytem_fw.Prelude.{
  ℕ, ◌≤◌, ◌≡◌, ◌≢◌, Bool, true, false, none, some, List, [], ◌∷◌, Bytes, arith, leb, length, inl,
  inr, Bool-cases, Option-cases, ◌⊎◌, subst, All, ok, err,
}
use peerless_sysytem_fw.Prelude.Equality.{bytes_eq, bytes_beq, bytes_beq_iff}
use peerless_sysytem_fw.Prelude.Dict.{Dict, lookup, erase, lookup-erase_ne, lookup-insert_ne}
use peerless_sysytem_fw.Node.Tasks.Slots.{Event, step, steps, IsWithinSlots}
use peerless_sysytem_fw.Core.{NodeId, ContentId, Task}
use peerless_sysytem_fw.Node.Tasks.{
  Floats, PendingTask, Tasks, purge, Host, reserve, accept_offer, cancel, ExecuteError, Begun,
  begin_execute, finish_execute, in_time,
}

abbrev pub Runs : Bytes → PendingTask → Tasks → Type 0
Runs id r s = (lookup id s.pending ≡ some r) × (r.running ≡ true)

lookup-purge :
    (id : Bytes) (r : PendingTask) (at : ℕ) (d : Dict Bytes PendingTask)
    → lookup id d ≡ some r
    → r.running ≡ true
    → lookup id (purge at d) ≡ some r
unfolding purge
lookup-purge id r at [] h t = absurd (ground arith)
lookup-purge id r at ((j, w) ∷ d) h t = ground (arith, lookup-purge id r at d)

-- A `TaskCancel` leaves every running task's reservation as it is.
cancel-Runs :
    (s : Tasks) (id : Bytes) (signer : NodeId) (j : Bytes) (r : PendingTask)
    → Runs j r s
    → Runs j r (cancel s id signer).1
unfolding cancel
cancel-Runs s id signer j r h = elim (Bool-cases (bytes_beq j id)) [
  | inl e ↦ let p = (bytes_beq_iff j id).0 e in ground (arith, p, h.0, h.1)
  | inr n ↦ ground (arith, lookup-erase_ne j id s.pending, bytes_beq_iff j id)
]

-- The commit does not come from the requester after the lease or the deadline.
abbrev pub InTime : PendingTask → NodeId → ℕ → ℕ → Type 0
InTime r signer now later =
    (r.requester ≢ signer)
    ⊎ ((leb r.lease_expires_at now ≡ false) × (in_time r.task.deadline later ≡ true))

begin_execute-Runs_same :
    (s : Tasks) (signer : NodeId) (now later : ℕ) (j : Bytes) (r : PendingTask)
    → Runs j r s
    → InTime r signer now later
    → Runs j r (begin_execute s j signer now later).1
unfolding begin_execute
begin_execute-Runs_same s signer now later j r h k =
    ground (arith, h.0, h.1, bytes_beq_iff r.requester signer)

begin_execute-Runs_other :
    (s : Tasks) (id : Bytes) (signer : NodeId) (now later : ℕ) (j : Bytes) (r : PendingTask)
    → Runs j r s
    → j ≢ id
    → Runs j r (begin_execute s id signer now later).1
unfolding begin_execute
begin_execute-Runs_other s id signer now later j r h n = elim (Option-cases (lookup id s.pending)) [
  | inl e ↦ ground (arith, e, h.0, h.1)
  | inr (w, e) ↦ ground (
    arith,
    e,
    h.0,
    h.1,
    lookup-erase_ne j id s.pending n,
    lookup-insert_ne j id (record w { running = true }) s.pending n,
  )
]

module _ (f : Floats) (node : NodeId) (in_store : ContentId → Bool) where
  open f use {Float}

  reserve-Runs :
      (host : Host Float) (s : Tasks) (task : Task) (requester : NodeId)
      (expires_at observed_at measured_at : ℕ) (j : Bytes) (r : PendingTask)
      → Runs j r s
      → Runs j r
          (reserve f node in_store host s task requester expires_at observed_at measured_at).1
  unfolding reserve
  reserve-Runs host s task requester expires_at observed_at measured_at j r h =
      elim (Bool-cases (bytes_beq j task.task_id)) [
        | inl e ↦ let p = (bytes_beq_iff j task.task_id).0 e in ground (arith, p, h.0, h.1)
        | inr n ↦ ground (
          arith,
          h.0,
          h.1,
          bytes_beq_iff j task.task_id,
          lookup-insert_ne j task.task_id
              (record {
                task = task;
                requester = requester;
                lease_expires_at = expires_at;
                running = false;
              })
              s.pending,
        )
      ]

  accept_offer-Runs :
      (host : Host Float) (s : Tasks) (task : Task) (requester : NodeId) (expires_at : ℕ)
      (signer : NodeId) (now observed_at measured_at : ℕ) (j : Bytes) (r : PendingTask)
      → Runs j r s
      → Runs j r
          (accept_offer f node in_store host s task requester expires_at signer now observed_at
            measured_at).1
  unfolding accept_offer
  accept_offer-Runs host s task requester expires_at signer now observed_at measured_at j r h =
      let kept = record s { pending = purge measured_at s.pending } in
      let held : Runs j r kept = (lookup-purge j r measured_at s.pending h.0 h.1, h.1) in
      ground (
        arith,
        h.0,
        h.1,
        reserve-Runs host kept task requester expires_at observed_at measured_at j r held,
      )

  -- An event that leaves the run of `j` alone: not its end, and no late commit of its requester.
  unfoldable pub Spares : Bytes → PendingTask → Event f node in_store → Type 0
  Spares j r (Event.offered host task requester expires_at signer now observed_at measured_at) =
      Unit {0}
  Spares j r (Event.cancelled id signer) = Unit {0}
  Spares j r (Event.committed id signer now later) =
      (j ≢ id) ⊎ ((j ≡ id) × InTime r signer now later)
  Spares j r (Event.finished id signer task produced recorded) = j ≢ id

  step-Runs :
      (s : Tasks) (e : Event f node in_store) (j : Bytes) (r : PendingTask)
      → Runs j r s
      → Spares j r e
      → Runs j r (step f node in_store s e)
  unfolding step finish_execute Spares
  step-Runs s (Event.offered host task requester expires_at signer now observed_at measured_at) j r
        h k =
      accept_offer-Runs host s task requester expires_at signer now observed_at measured_at j r h
  step-Runs s (Event.cancelled id signer) j r h k = cancel-Runs s id signer j r h
  step-Runs s (Event.committed id signer now later) j r h (inl n) =
      begin_execute-Runs_other s id signer now later j r h n
  step-Runs s (Event.committed id signer now later) j r h (inr (e, k)) =
      subst (λ i. Runs j r (begin_execute s i signer now later).1) e
        (begin_execute-Runs_same s signer now later j r h k)
  step-Runs s (Event.finished id signer task (ok x) recorded) j r h k =
      ground (arith, h.0, h.1, lookup-erase_ne j id s.pending k)
  step-Runs s (Event.finished id signer task (err x) recorded) j r h k =
      ground (arith, h.0, h.1, lookup-erase_ne j id s.pending k)

  -- A running task keeps its reservation, with requester and lease unchanged, through any sequence of
  -- offers, cancellations, commits and ends of executions that holds neither its own end nor a commit
  -- of it by its requester after its lease or its deadline.
  pub steps-Runs :
      (s : Tasks) (es : List (Event f node in_store)) (j : Bytes) (r : PendingTask)
      → Runs j r s
      → All (Spares j r) es
      → Runs j r (steps f node in_store s es)
  steps-Runs s [] j r h k = h
  steps-Runs s (e ∷ es) j r h (k, ks) =
      steps-Runs (step f node in_store s e) es j r (step-Runs s e j r h k) ks

length-erase_one :
    (id : Bytes) (w : PendingTask) (d : Dict Bytes PendingTask)
    → lookup id d ≡ some w
    → length d ≤ 1
    → length (erase id d) ≡ 0
length-erase_one id w [] h b = absurd (ground arith)
length-erase_one id w ((j, x) ∷ []) h b = ground arith
length-erase_one id w ((j, x) ∷ (y ∷ d)) h b = absurd (omega arith)

-- If a task runs, holds the only reservation and is not yet completed, then a second commit of it by
-- its requester at or after the lease's end is refused as expired, and no reservation is left,
-- although the task still runs.
pub late_commit_frees_slot :
    (s : Tasks) (id : Bytes) (r : PendingTask) (now later : ℕ)
    → Runs id r s
    → IsWithinSlots s
    → lookup id s.completed ≡ none
    → r.lease_expires_at ≤ now
    → ((begin_execute s id r.requester now later).0 ≡ Begun.refused ExecuteError.lease_expired)
      × (length (begin_execute s id r.requester now later).1.pending ≡ 0)
unfolding begin_execute
late_commit_frees_slot s id r now later h b c l =
    ground (
      arith,
      h.0,
      h.1,
      length-erase_one id r s.pending h.0 b,
      bytes_beq_iff r.requester r.requester,
    )
