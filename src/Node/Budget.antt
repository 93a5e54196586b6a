-- ===== src/Node/Budget.antt =====
-- `RequestBudget` and `consume_request_budget` of crates/peerless-node/src/lib.rs. The `u32` counters
-- stay below the limits, so they do not wrap (`Budget/Limits`).
pub mod Limits
use peerless_sysytem_fw.Prelude.{
  or_zero, ℕ, ◌+◌, ◌-◌, Bool, true, false, Option, none, some, List, [], Bytes, leb, if◌then◌else◌,
}
use peerless_sysytem_fw.Prelude.Equality.{bytes_eq}
use peerless_sysytem_fw.Prelude.Dict.{Dict, lookup, insert}
use peerless_sysytem_fw.Core.{NodeId}

abbrev pub request_window_millis : ℕ
request_window_millis = 60000

abbrev pub max_requests_per_identity : ℕ
max_requests_per_identity = 4096

abbrev pub max_requests_global : ℕ
max_requests_global = 16384

pub record RequestBudget : Type 0 where
  pub window_started_at : ℕ
  pub global : ℕ
  pub identities : Dict Bytes ℕ

abbrev pub count_of : NodeId → Dict Bytes ℕ → ℕ
count_of signer identities = or_zero (lookup signer identities)

-- A window of a minute starts anew.
unfoldable pub roll : RequestBudget → ℕ → RequestBudget
roll b at =
    if leb request_window_millis (at - b.window_started_at)
    then record { window_started_at = at; global = 0; identities = [] }
    else b

unfoldable pub spend : RequestBudget → NodeId → Bool × RequestBudget
spend b signer =
    if leb max_requests_global b.global
    then (false, b)
    else if leb max_requests_per_identity (count_of signer b.identities)
    then (false, b)
    else (
      true,
      record b {
        global = b.global + 1;
        identities = insert signer (count_of signer b.identities + 1) b.identities;
      },
    )

-- `consume_request_budget`.
unfoldable pub consume_request_budget : RequestBudget → NodeId → ℕ → Bool × RequestBudget
consume_request_budget b signer at = spend (roll b at) signer
