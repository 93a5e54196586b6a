-- ===== src/Protocol/Message.antt =====
-- `Message` of crates/peerless-protocol/src/lib.rs, and `permission_for` of
-- crates/peerless-node/src/lib.rs. Strings are their UTF-8 bytes; floats are a parameter.
use peerless_sysytem_fw.Prelude.{ℕ, [], ◌∷◌, Bytes}
use peerless_sysytem_fw.Core.{NodeId, ContentId, Task, NodeCapability}
use peerless_sysytem_fw.Protocol.{SignedExecutionRecord}

pub data Message (Float : Type 0) : Type 0 where
  get_capability : Message Float
  capability : NodeCapability Float → Message Float
  task_offer : Task → NodeId → ℕ → Message Float
  task_accept : Bytes → Message Float
  task_reject : Bytes → Bytes → Message Float
  task_commit : Bytes → Message Float
  task_started : Bytes → NodeId → Message Float
  task_error : Bytes → Bytes → Message Float
  task_cancel : Bytes → Message Float
  has_content check_content get_content : ContentId → Message Float
  content : ContentId → Bytes → Message Float
  content_start : ContentId → ℕ → ℕ → Message Float
  content_chunk : ContentId → ℕ → Bytes → ContentId → Message Float
  content_complete : ContentId → Message Float
  task_result : SignedExecutionRecord → Message Float
  state_snapshot : Bytes → Bytes → Message Float
  ledger_block : Bytes → Message Float

-- "*", "observe", "content", "execute", "state" and "ledger".
abbrev pub any_permission : Bytes
any_permission = 42 ∷ []

abbrev pub observe_permission : Bytes
observe_permission = 111 ∷ 98 ∷ 115 ∷ 101 ∷ 114 ∷ 118 ∷ 101 ∷ []

abbrev pub content_permission : Bytes
content_permission = 99 ∷ 111 ∷ 110 ∷ 116 ∷ 101 ∷ 110 ∷ 116 ∷ []

abbrev pub execute_permission : Bytes
execute_permission = 101 ∷ 120 ∷ 101 ∷ 99 ∷ 117 ∷ 116 ∷ 101 ∷ []

abbrev pub state_permission : Bytes
state_permission = 115 ∷ 116 ∷ 97 ∷ 116 ∷ 101 ∷ []

abbrev pub ledger_permission : Bytes
ledger_permission = 108 ∷ 101 ∷ 100 ∷ 103 ∷ 101 ∷ 114 ∷ []

unfoldable pub permission_for : {Float : Type 0} → Message Float → Bytes
permission_for Message.get_capability = observe_permission
permission_for (Message.capability value) = observe_permission
permission_for (Message.has_content id) = content_permission
permission_for (Message.check_content id) = content_permission
permission_for (Message.get_content id) = content_permission
permission_for (Message.content id bytes) = content_permission
permission_for (Message.content_start id total_size chunk_size) = content_permission
permission_for (Message.content_chunk id index bytes chunk_hash) = content_permission
permission_for (Message.content_complete id) = content_permission
permission_for (Message.task_offer task requester expires_at) = execute_permission
permission_for (Message.task_accept task_id) = execute_permission
permission_for (Message.task_reject task_id reason) = execute_permission
permission_for (Message.task_commit task_id) = execute_permission
permission_for (Message.task_started task_id executor) = execute_permission
permission_for (Message.task_error task_id reason) = execute_permission
permission_for (Message.task_cancel task_id) = execute_permission
permission_for (Message.task_result result) = execute_permission
permission_for (Message.state_snapshot document snapshot) = state_permission
permission_for (Message.ledger_block block) = ledger_permission
