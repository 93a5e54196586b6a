-- ===== src/Core.antt =====
-- Domain types of crates/peerless-core/src/lib.rs. Identifiers and strings are their bytes; the
-- floats of `NodeCapability` are left abstract by the type parameter of that record.
use peerless_sysytem_fw.Prelude.{
  ℕ, Bool, true, false, ◌&&◌, Option, none, some, List, Bytes, ltb, leb, ◌==◌, any,
}
use peerless_sysytem_fw.Prelude.Equality.{bytes_beq}

abbrev pub ContentId : Type 0
ContentId = Bytes

abbrev pub NodeId : Type 0
NodeId = Bytes

module _ (sha256 : Bytes → Bytes) where
  -- `ContentId::of`.
  unfoldable pub content_id_of : Bytes → ContentId
  content_id_of bytes = sha256 bytes

  -- `ContentId::verify`.
  unfoldable pub content_id_verify : ContentId → Bytes → Bool
  unfolding content_id_of
  content_id_verify id bytes = bytes_beq id (content_id_of bytes)

  -- `NodeId::derive`.
  unfoldable pub node_id_derive : Bytes → NodeId
  node_id_derive public_key = sha256 public_key

pub data NetworkRequirement : Type 0 where
  none_needed optional required : NetworkRequirement

unfoldable pub network_requirement_eq : NetworkRequirement → NetworkRequirement → Bool
network_requirement_eq NetworkRequirement.none_needed NetworkRequirement.none_needed = true
network_requirement_eq NetworkRequirement.optional NetworkRequirement.optional = true
network_requirement_eq NetworkRequirement.required NetworkRequirement.required = true
network_requirement_eq _ _ = false

pub record Requirements : Type 0 where
  pub minimum_memory : ℕ
  pub minimum_storage : ℕ
  pub runtime : Bytes
  pub estimated_cpu_cost : ℕ
  pub network : NetworkRequirement

pub data VerificationPolicy : Type 0 where
  trust_executor : VerificationPolicy
  replicate_by : ℕ → VerificationPolicy
  quorum : ℕ → ℕ → VerificationPolicy

unfoldable pub verification_policy_eq : VerificationPolicy → VerificationPolicy → Bool
verification_policy_eq VerificationPolicy.trust_executor VerificationPolicy.trust_executor = true
verification_policy_eq (VerificationPolicy.replicate_by a) (VerificationPolicy.replicate_by b) =
    a == b
verification_policy_eq (VerificationPolicy.quorum a b) (VerificationPolicy.quorum c d) =
    a == c && b == d
verification_policy_eq _ _ = false

pub record Task : Type 0 where
  pub task_id : Bytes
  pub component : ContentId
  pub input : ContentId
  pub requirements : Requirements
  pub verification : VerificationPolicy
  pub deadline : Option ℕ

abbrev pub option_eq {ℓ} : {A : Type ℓ} → (A → A → Bool) → Option A → Option A → Bool
option_eq eq none none = true
option_eq eq (some a) (some b) = eq a b
option_eq eq _ _ = false

unfoldable pub requirements_eq : Requirements → Requirements → Bool
requirements_eq a b =
    a.minimum_memory == b.minimum_memory
    && (a.minimum_storage == b.minimum_storage
        && (bytes_beq a.runtime b.runtime
            && (a.estimated_cpu_cost == b.estimated_cpu_cost
                && network_requirement_eq a.network b.network)))

-- The derived `PartialEq` of `Task`.
unfoldable pub task_eq : Task → Task → Bool
unfolding requirements_eq verification_policy_eq network_requirement_eq
task_eq a b =
    bytes_beq a.task_id b.task_id
    && (bytes_beq a.component b.component
        && (bytes_beq a.input b.input
            && (requirements_eq a.requirements b.requirements
                && (verification_policy_eq a.verification b.verification
                    && option_eq ◌==◌ a.deadline b.deadline))))

pub record ReplicationPolicy : Type 0 where
  pub minimum_replicas : ℕ
  pub target_replicas : ℕ

-- `ReplicationPolicy::validate`.
unfoldable pub replication_policy_validate : ReplicationPolicy → Bool
replication_policy_validate p = ltb 0 p.minimum_replicas && leb p.minimum_replicas p.target_replicas

pub data PowerState : Type 0 where
  ac battery unknown : PowerState

pub record NodeCapability (Float : Type 0) : Type 0 where
  pub node : NodeId
  pub cpu_cores : ℕ
  pub available_cpu : Float
  pub available_memory : ℕ
  pub available_storage : ℕ
  pub runtimes : List Bytes
  pub power : PowerState
  pub load : Float
  pub task_slots : ℕ
  pub expires_at : ℕ

module _ {Float : Type 0} where
  -- `NodeCapability::supports`.
  unfoldable pub supports : NodeCapability Float → Bytes → Bool
  supports c runtime = any (λ candidate. bytes_beq candidate runtime) c.runtimes

  -- `NodeCapability::is_fresh_at`.
  unfoldable pub is_fresh_at : NodeCapability Float → ℕ → Bool
  is_fresh_at c now = ltb now c.expires_at
