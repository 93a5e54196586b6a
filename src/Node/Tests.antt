-- ===== src/Node/Tests.antt =====
-- Runs of the node's budget and tasks (crates/peerless-node/src/lib.rs) at concrete requests and tasks.
use peerless_sysytem_fw.Prelude.{
  ℕ, ◌≤◌, ◌≡◌, refl, inr, Bool, true, false, none, List, [], ◌∷◌, arith, length, All,
}
use peerless_sysytem_fw.Core.{NodeId, ContentId, NetworkRequirement, VerificationPolicy, Task}
use peerless_sysytem_fw.Node.Budget.{RequestBudget, consume_request_budget, roll, spend}
use peerless_sysytem_fw.Node.Budget.Limits.{IsBounded, serve, grants_to, serve_limits}
use peerless_sysytem_fw.Node.Tasks.{
  Floats, PendingTask, Tasks, Host, ExecuteError, Begun, begin_execute, cancel,
}
use peerless_sysytem_fw.Node.Tasks.Slots.{Event, steps, steps-slots, IsWithinSlots}
use peerless_sysytem_fw.Node.Tasks.Running.{Runs, Spares, steps-Runs, late_commit_frees_slot}

abbrev alice : NodeId
alice = 1 ∷ []

abbrev bob : NodeId
bob = 2 ∷ []

-- One more request and the window is full.
abbrev busy : RequestBudget
busy = record { window_started_at = 1000; global = 16383; identities = (alice, 4095) ∷ [] }

busy-IsBounded : IsBounded busy
busy-IsBounded = record { global_bounded = omega arith; each_bounded = λ n. ground arith }

abbrev requests : List (NodeId × ℕ)
requests = (alice, 1001) ∷ (bob, 1002) ∷ (alice, 1003) ∷ []

serve_limits_example :
    (grants_to alice (serve busy requests).0 ≤ 4096) × (length (serve busy requests).0 ≤ 16384)
serve_limits_example =
    serve_limits busy requests alice busy-IsBounded (omega arith, (omega arith, (omega arith, tt)))

serve-busy : (serve busy requests).0 ≡ alice ∷ []
unfolding serve consume_request_budget roll spend
serve-busy = refl

abbrev task : ℕ → Task
task n = record {
  task_id = b't' ∷ n ∷ [];
  component = 3 ∷ [];
  input = 4 ∷ [];
  requirements = record {
    minimum_memory = 0;
    minimum_storage = 0;
    runtime = b'w' ∷ [];
    estimated_cpu_cost = 0;
    network = NetworkRequirement.none_needed;
  };
  verification = VerificationPolicy.trust_executor;
  deadline = none;
}

abbrev held : Bool → PendingTask
held running = record {
  task = task 1;
  requester = alice;
  lease_expires_at = 500;
  running = running;
}

abbrev one_task : Bool → Tasks
one_task running = record { pending = ((task 1).task_id, held running) ∷ []; completed = [] }

-- Floats in thousandths.
abbrev thousandths : Floats
thousandths = record {
  Float = ℕ;
  is_finite = λ x. true;
  is_positive = λ x. true;
  at_most_one = λ x. true;
  in_unit_range = λ x. true;
}

abbrev host : Host ℕ
host = record {
  cpu_cores = 4;
  available_cpu = 500;
  load = 500;
  available_memory = 0;
  available_storage = 0;
}

abbrev stored : ContentId → Bool
stored id = true

abbrev events : List (Event thousandths bob stored)
events =
    Event.committed (task 1).task_id alice 200 200
    ∷ Event.offered host (task 2) bob 900 bob 600 600 600
    ∷ Event.cancelled (task 1).task_id alice
    ∷ []

steps-slots_example : IsWithinSlots (steps thousandths bob stored (one_task false) events)
steps-slots_example = steps-slots thousandths bob stored (one_task false) events (omega arith)

events-Spares : All (Spares thousandths bob stored (task 1).task_id (held true)) events
unfolding Spares
events-Spares = (inr (refl, inr (refl, refl)), (tt, (tt, tt)))

steps-Runs_example :
    Runs (task 1).task_id (held true) (steps thousandths bob stored (one_task true) events)
steps-Runs_example =
    steps-Runs thousandths bob stored (one_task true) events (task 1).task_id (held true)
      (refl, refl) events-Spares

late_commit_frees_slot_example :
    let (begun, s) = begin_execute (one_task true) (task 1).task_id alice 700 700 in
    (begun ≡ Begun.refused ExecuteError.lease_expired) × (length s.pending ≡ 0)
late_commit_frees_slot_example =
    late_commit_frees_slot (one_task true) (task 1).task_id (held true) 700 700 (refl, refl)
      (omega arith) refl (omega arith)

-- A task that runs is not cancelled; one that waits is.
cancel-running : (cancel (one_task true) (task 1).task_id alice).1 ≡ one_task true
unfolding cancel
cancel-running = refl

cancel-waiting : (cancel (one_task false) (task 1).task_id alice).1.pending ≡ []
unfolding cancel
cancel-waiting = refl
