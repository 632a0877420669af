-- ===== src/Registry.antt =====
-- The agent registry, `Registry` of enterprise/control/registry.py, in explicit state passing. Its
-- monotonic clock is counted in microseconds and read once by a call, and once more where a failed
-- write is undone.
pub mod Snapshot
pub mod Calls
pub mod Undo
pub mod Invariant
pub mod History
pub mod Settled
pub mod Preserved
pub mod Attached
pub mod Rollback
pub mod Views
pub mod Delivery
use fabric_shortcut_proxy.Prelude.{ℕ, String, Bool, Option, List}
use fabric_shortcut_proxy.Prelude.Int.{ℤ}
use fabric_shortcut_proxy.Dict.{Dict}
use fabric_shortcut_proxy.Placement.{PlacementConfig}
use fabric_shortcut_proxy.WorkQueue.Task.{MaterializeTask}

-- What a claimed task tells its agent, beside the task.
pub record TaskOffer : Type 0 where
  pub task_id : String
  pub request_id : String
  pub claim_token : String
  pub attempt : ℕ
  pub claim_expires_at_ms : ℕ
  pub membership_version : ℕ
  pub worker_fence : ℕ
  pub task : MaterializeTask

-- The payload that is set gives the kind.
pub data ControlCommand : Type 0 where
  drain : ℕ → ControlCommand
  reload : String → ControlCommand
  materialize : TaskOffer → ControlCommand
  publish : String → ℕ → ControlCommand

pub record AgentHealth : Type 0 where
  pub mem_bytes : ℕ
  pub cache_bytes : ℕ
  pub inflight : ℕ

pub record AgentRecord : Type 0 where
  pub agent_id : String
  pub lease_id : String
  pub host : String
  pub port : ℕ
  pub os : String
  pub version : String
  pub capacity_hint : ℕ
  pub registered_at : ℕ
  pub last_seen : ℕ
  pub advertise_host : String
  pub health : AgentHealth
  pub serving_tables : List String
  pub epochs : Dict ℕ
  pub capabilities : List String
  pub shard_index : ℤ
  pub contract_version : String
  pub pool_id : String
  pub location : String
  pub storage_profile : String
  pub tenant_id : String
  pub upgrade_ring : String
  pub allowed_connection_ids : List String
  pub allowed_table_patterns : List String
  pub commands : List ControlCommand
  pub draining : Bool

-- An entry of the durable snapshot: the record with ages in the place of its two times.
pub record AgentSnapshot : Type 0 where
  pub fields : AgentRecord
  pub registered_age_ms : ℕ
  pub last_seen_age_ms : ℕ

pub record RegisterRequest : Type 0 where
  pub agent_id : String
  pub host : String
  pub port : ℕ
  pub os : String
  pub version : String
  pub capacity_hint : ℕ
  pub advertise_host : String
  pub contract_version : String
  pub capabilities : List String
  pub shard_index : ℤ

pub record HeartbeatRequest : Type 0 where
  pub agent_id : String
  pub lease_id : String
  pub health : AgentHealth
  pub serving_tables : List String
  pub epochs : Dict ℕ

-- `is_attached` is `_durable_lease is not None`; `saved` is what the lease's state holds.
pub record Registry : Type 0 where
  pub heartbeat_ms : ℕ
  pub miss_limit : ℕ
  pub agents : Dict AgentRecord
  pub placement : PlacementConfig
  pub is_attached : Bool
  pub saved : Option (List AgentSnapshot)

-- Readers of texts that are not the registry's own: the release of a semantic version, the two
-- numbers of a contract version, and the check of a host against the allow list.
pub record Readers : Type 0 where
  pub release_of : String → Option String
  pub version_tuple : String → Option (ℕ × ℕ)
  pub host_allowed : String → Bool

-- How a durable write ends, and when; a failed one is undone at that time.
pub record Write : Type 0 where
  pub succeeds : Bool
  pub ends_at : ℕ
