-- ===== src/Node/Handle/Limits.antt =====
-- The bounds of the request budget, the uploads and the task slots hold together, whatever is handled.
use peerless_sysytem_fw.Prelude.{
  ℕ, ◌+◌, ◌*◌, ◌≤◌, Option, List, [], ◌∷◌, Bytes, arith, length, inl, inr, Bool-cases, Result-cases,
}
use peerless_sysytem_fw.Prelude.Dict.{Dict}
use peerless_sysytem_fw.Core.{NodeId, ContentId, content_id_verify}
use peerless_sysytem_fw.Identity.{Crypto}
use peerless_sysytem_fw.Protocol.{Json, SignedEnvelope, open_with_signer}
use peerless_sysytem_fw.Protocol.Message.{Message, permission_for}
use peerless_sysytem_fw.Storage.{Files, contains}
use peerless_sysytem_fw.Node.Membership.{MembershipPolicy}
use peerless_sysytem_fw.Node.Budget.{consume_request_budget, count_of}
use peerless_sysytem_fw.Node.Budget.Limits.{IsBounded, consume_request_budget-IsBounded}
use peerless_sysytem_fw.Node.Tasks.{Floats, Begun, Tasks, CompletedTask, begin_execute}
use peerless_sysytem_fw.Node.Tasks.Slots.{
  IsWithinSlots, accept_offer-slots, begin_execute-slots, finish_execute-slots, cancel-slots,
}
use peerless_sysytem_fw.Node.Uploads.{Uploads, Completed, Request, content_complete, serve_upload}
use peerless_sysytem_fw.Node.Uploads.Bounds.{
  IsWithinBudget, serve_upload-IsWithinBudget, reserved, held, held-le,
}
use peerless_sysytem_fw.Node.Handle.{
  Node, Moment, opened_node, permits, admit, handle, respond, run_task, keep_output, output_of,
  finish_transfer, store,
}

pub record IsWithinLimits (n : Node) : Type 0 where
  pub budget : IsBounded n.request_budget
  pub uploads : IsWithinBudget n.uploads
  pub tasks : IsWithinSlots n.tasks

module _ (sha256 hex_encode : Bytes → Bytes) (f : Floats) (node : NodeId) where
  open f use {Float}

  finish_transfer-IsWithinLimits :
      (m : Moment Float) (n : Node) (id : ContentId) (done : Completed × Uploads)
      → IsWithinBudget done.1
      → IsWithinLimits n
      → IsWithinLimits (finish_transfer sha256 hex_encode f node m n id done).1
  unfolding finish_transfer store
  finish_transfer-IsWithinLimits m n id (Completed.stored bytes, uploads) u w = record {
    budget = w.budget;
    uploads = u;
    tasks = w.tasks;
  }
  finish_transfer-IsWithinLimits m n id (Completed.mismatch, uploads) u w = record {
    budget = w.budget;
    uploads = u;
    tasks = w.tasks;
  }
  finish_transfer-IsWithinLimits m n id (Completed.incomplete, uploads) u w = record {
    budget = w.budget;
    uploads = u;
    tasks = w.tasks;
  }

  run_task-IsWithinLimits :
      (m : Moment Float) (n : Node) (id : Bytes) (signer : NodeId) (begun : Begun × Tasks)
      → IsWithinSlots begun.1
      → IsWithinLimits n
      → IsWithinLimits (run_task sha256 hex_encode f node m n id signer begun).1
  unfolding run_task
  run_task-IsWithinLimits m n id signer (Begun.answered result, tasks) t w = record {
    budget = w.budget;
    uploads = w.uploads;
    tasks = t;
  }
  run_task-IsWithinLimits m n id signer (Begun.refused e, tasks) t w = record {
    budget = w.budget;
    uploads = w.uploads;
    tasks = t;
  }
  run_task-IsWithinLimits m n id signer (Begun.started task, tasks) t w = record {
    budget = w.budget;
    uploads = w.uploads;
    tasks =
        finish_execute-slots tasks id signer task
          (keep_output sha256 hex_encode f node m n.files
            (output_of sha256 hex_encode f node m n.files task)).0
          m.recorded t;
  }

  respond-IsWithinLimits :
      (m : Moment Float) (n : Node) (message : Message Float) (signer : NodeId)
      → IsWithinLimits n
      → IsWithinLimits (respond sha256 hex_encode f node m n message signer).1
  unfolding respond store serve_upload
  respond-IsWithinLimits m n (Message.content id bytes) signer w =
      elim (Bool-cases (content_id_verify sha256 id bytes)) [
        | inl good ↦ rw good (record { budget = w.budget; uploads = w.uploads; tasks = w.tasks })
        | inr bad ↦ rw bad w
      ]
  respond-IsWithinLimits m n (Message.content_start id total_size chunk_size) signer w = record {
    budget = w.budget;
    tasks = w.tasks;
    uploads =
        serve_upload-IsWithinBudget sha256 n.uploads
          (Request.start (signer, id) total_size chunk_size) w.uploads;
  }
  respond-IsWithinLimits m n (Message.content_chunk id index bytes chunk_hash) signer w = record {
    budget = w.budget;
    tasks = w.tasks;
    uploads =
        serve_upload-IsWithinBudget sha256 n.uploads
          (Request.chunk (signer, id) index bytes chunk_hash) w.uploads;
  }
  respond-IsWithinLimits m n (Message.content_complete id) signer w =
      finish_transfer-IsWithinLimits m n id (content_complete sha256 n.uploads (signer, id))
        (serve_upload-IsWithinBudget sha256 n.uploads (Request.complete (signer, id)) w.uploads) w
  respond-IsWithinLimits m n (Message.task_offer task requester expires_at) signer w = record {
    budget = w.budget;
    uploads = w.uploads;
    tasks =
        accept_offer-slots f node (contains sha256 hex_encode n.files) m.host n.tasks task requester
          expires_at signer m.offered_at m.observed_at m.measured_at w.tasks;
  }
  respond-IsWithinLimits m n (Message.task_commit task_id) signer w =
      run_task-IsWithinLimits m n task_id signer
        (begin_execute n.tasks task_id signer m.offered_at m.observed_at)
        (begin_execute-slots n.tasks task_id signer m.offered_at m.observed_at w.tasks) w
  respond-IsWithinLimits m n (Message.task_cancel task_id) signer w = record {
    budget = w.budget;
    uploads = w.uploads;
    tasks = cancel-slots n.tasks task_id signer w.tasks;
  }
  respond-IsWithinLimits m n (Message.get_content id) signer w = w
  respond-IsWithinLimits m n (Message.check_content id) signer w = w
  respond-IsWithinLimits m n Message.get_capability signer w = w
  respond-IsWithinLimits m n (Message.state_snapshot document snapshot) signer w = w
  respond-IsWithinLimits m n (Message.ledger_block block) signer w = w
  respond-IsWithinLimits m n (Message.capability value) signer w = w
  respond-IsWithinLimits m n (Message.task_accept task_id) signer w = w
  respond-IsWithinLimits m n (Message.task_reject task_id reason) signer w = w
  respond-IsWithinLimits m n (Message.task_started task_id executor) signer w = w
  respond-IsWithinLimits m n (Message.task_error task_id reason) signer w = w
  respond-IsWithinLimits m n (Message.has_content id) signer w = w
  respond-IsWithinLimits m n (Message.task_result result) signer w = w

  admit-IsWithinLimits :
      (m : Moment Float) (n : Node) (message : Message Float) (signer : NodeId)
      → IsWithinLimits n
      → IsWithinLimits (admit sha256 hex_encode f node m n message signer).1
  unfolding admit
  admit-IsWithinLimits m n message signer w =
      let spent : Node = record n {
        request_budget = (consume_request_budget n.request_budget signer m.spent_at).1;
      } in
      let held : IsWithinLimits spent = record {
        budget = consume_request_budget-IsBounded n.request_budget signer m.spent_at w.budget;
        uploads = w.uploads;
        tasks = w.tasks;
      } in
      elim (Bool-cases (consume_request_budget n.request_budget signer m.spent_at).0) [
        | inr refused ↦ rw refused held
        | inl granted ↦
            elim (Bool-cases (permits n.membership signer (permission_for message) m.allowed_at)) [
              | inr forbidden ↦ rw (granted, forbidden) held
              | inl permitted ↦
                  rw (granted, permitted) (respond-IsWithinLimits m spent message signer held)
            ]
      ]

  module _ (c : Crypto) (json : Json (Message Float)) where
    handle-IsWithinLimits :
        (m : Moment Float) (n : Node) (e : SignedEnvelope)
        → IsWithinLimits n
        → IsWithinLimits (handle sha256 hex_encode f node c json m n e).1
    unfolding handle
    handle-IsWithinLimits m n e w = elim (Result-cases (open_with_signer c json e)) [
      | inl ((message, signer), opened) ↦
          rw (opened, handle) (admit-IsWithinLimits m n message signer w)
      | inr (p, failed) ↦ rw (failed, handle) w
    ]

    -- The node after a list of envelopes, each with its moment.
    abbrev pub handle_all : Node → List (Moment Float × SignedEnvelope) → Node
    handle_all n [] = n
    handle_all n ((m, e) ∷ later) =
        handle_all (handle sha256 hex_encode f node c json m n e).1 later

    handle_all-IsWithinLimits :
        (n : Node) (served : List (Moment Float × SignedEnvelope))
        → IsWithinLimits n
        → IsWithinLimits (handle_all n served)
    handle_all-IsWithinLimits n [] w = w
    handle_all-IsWithinLimits n ((m, e) ∷ later) w =
        handle_all-IsWithinLimits (handle sha256 hex_encode f node c json m n e).1 later
          (handle-IsWithinLimits m n e w)

    opened_node-IsWithinLimits :
        (membership : Option MembershipPolicy) (files : Files)
        (completed : Dict Bytes CompletedTask) (now : ℕ)
        → IsWithinLimits (opened_node membership files completed now)
    unfolding reserved
    opened_node-IsWithinLimits membership files completed now = record {
      budget = record { global_bounded = omega arith; each_bounded = λ n. omega arith };
      uploads = record { unique = tt; few = omega arith; announced = omega arith; sized = tt };
      tasks = omega arith;
    }

    -- From `open` on, whatever envelopes a node handles, from whomever and at whatever times, and
    -- whatever fails while it does, its request counters stay within 16384 in all and 4096 for each
    -- identity, it has at most 4 uploads, which announced at most 512 MiB and hold at most 65535 bytes
    -- each beyond that, and it has at most one task reserved.
    pub handle_all_bounded :
        (membership : Option MembershipPolicy) (files : Files)
        (completed : Dict Bytes CompletedTask) (now : ℕ)
        (served : List (Moment Float × SignedEnvelope)) (identity : NodeId)
        → let n = handle_all (opened_node membership files completed now) served in
          (n.request_budget.global ≤ 16384)
          × (count_of identity n.request_budget.identities ≤ 4096)
          × (length n.uploads ≤ 4)
          × (reserved n.uploads ≤ 512 * 1024 * 1024)
          × (held n.uploads ≤ 512 * 1024 * 1024 + 4 * 65535)
          × (length n.tasks.pending ≤ 1)
    handle_all_bounded membership files completed now served identity =
        let n = handle_all (opened_node membership files completed now) served in
        let w =
          handle_all-IsWithinLimits (opened_node membership files completed now) served
            (opened_node-IsWithinLimits membership files completed now) in
        (
          w.budget.global_bounded,
          w.budget.each_bounded identity,
          w.uploads.few,
          w.uploads.announced,
          omega (arith, w.uploads.few, w.uploads.announced, held-le n.uploads w.uploads.sized),
          w.tasks,
        )
