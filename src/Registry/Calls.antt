-- ===== src/Registry/Calls.antt =====
-- The calls of `Registry` in enterprise/control/registry.py.
use fabric_shortcut_proxy.Prelude.{
  ℕ, ◌-◌, ◌*◌, String, str_eq, Bool, true, false, not, ◌&&◌, ◌||◌, Option, none, some, List, [],
  ◌∷◌, ◌++◌, if◌then◌else◌, leb, ◌==◌, sorted_set,
}
use fabric_shortcut_proxy.Prelude.Int.{is_below_minus_one}
use fabric_shortcut_proxy.Dict.{Dict, lookup, insert, remove}
use fabric_shortcut_proxy.Placement.{
  PlacementConfig, MaterializerPool, pool_for_identity, validate_agent_version, VersionError,
}
use fabric_shortcut_proxy.Registry.{
  AgentRecord, AgentSnapshot, Registry, Readers, Write, RegisterRequest, HeartbeatRequest,
  ControlCommand, drain, reload, materialize, publish,
}
use fabric_shortcut_proxy.Registry.Snapshot.{placed, snapshot, persist, restore}

pub data RegisterError : Type 0 where
  bad_port bad_shard_index incompatible_contract host_not_allowed : RegisterError
  version_refused : VersionError → RegisterError

pub data RegisterResult : Type 0 where
  registered_as : String → ℕ → RegisterResult
  refused : RegisterError → RegisterResult
  write_failed : RegisterResult

unfoldable pub refused_version : Option VersionError → Option RegisterError
refused_version none = none
refused_version (some e) = some (version_refused e)

in_contract : Option (ℕ × ℕ) → Bool
in_contract none = false
in_contract (some (major, minor)) = major == 1 && leb minor 1

abbrev pub or_limit : Option ℕ → ℕ → ℕ
or_limit none d = d
or_limit (some n) d = n

pool_heartbeat : Option MaterializerPool → ℕ → ℕ
pool_heartbeat none d = d
pool_heartbeat (some pool) d = or_limit pool.heartbeat_ms d

pool_miss_limit : Option MaterializerPool → ℕ → ℕ
pool_miss_limit none d = d
pool_miss_limit (some pool) d = or_limit pool.heartbeat_miss_limit d

abbrev pub is_drain : ControlCommand → Bool
is_drain (drain grace) = true
is_drain (reload reason) = false
is_drain (materialize offer) = false
is_drain (publish table epoch) = false

-- `heartbeat_timeout_seconds`, in microseconds.
unfoldable pub heartbeat_timeout : Registry → String → ℕ
unfolding pool_heartbeat pool_miss_limit pool_for_identity
heartbeat_timeout r agent_id =
    let pool = pool_for_identity r.placement agent_id in
    pool_heartbeat pool r.heartbeat_ms * 1000 * pool_miss_limit pool r.miss_limit

unfoldable pub is_record_alive : Registry → AgentRecord → ℕ → Bool
unfolding heartbeat_timeout
is_record_alive r a now = leb (now - a.last_seen) (heartbeat_timeout r a.agent_id)

unfoldable pub found_alive : Registry → ℕ → Option AgentRecord → Bool
found_alive r now none = false
found_alive r now (some a) = is_record_alive r a now

unfoldable pub is_alive : ℕ → String → Registry → Bool
unfolding found_alive is_record_alive
is_alive now agent_id r = found_alive r now (lookup agent_id r.agents)

dead_among : Registry → ℕ → Dict AgentRecord → List String
dead_among r now [] = []
dead_among r now ((id, a) ∷ d) =
    let rest = dead_among r now d in if is_record_alive r a now then rest else a.agent_id ∷ rest

unfoldable pub dead_agents : ℕ → Registry → List String
unfolding dead_among
dead_agents now r = dead_among r now r.agents

unfoldable pub with_command : ControlCommand → AgentRecord → AgentRecord
with_command cmd a = record a {
  commands = a.commands ++ cmd ∷ [];
  draining = a.draining || is_drain cmd;
}

unfoldable pub broadcast_to : ControlCommand → Dict AgentRecord → Dict AgentRecord
unfolding with_command
broadcast_to cmd [] = []
broadcast_to cmd ((id, a) ∷ d) = (id, with_command cmd a) ∷ broadcast_to cmd d

unfoldable pub beaten : ℕ → HeartbeatRequest → AgentRecord → AgentRecord
beaten now req a = record a {
  last_seen = now;
  health = req.health;
  serving_tables = req.serving_tables;
  epochs = req.epochs;
  commands = [];
}

module _ (read : Readers) where
  -- `contract_compatible`; this Manager uses 1.1 and accepts 1.0.
  contract_compatible : String → Bool
  unfolding in_contract
  contract_compatible value = in_contract (read.version_tuple value)

  unfoldable pub refuse_registration : Registry → RegisterRequest → Option RegisterError
  unfolding contract_compatible refused_version
  refuse_registration r req =
      let advertised = if str_eq req.advertise_host "" then req.host else req.advertise_host in
      if not (leb 1 req.port && leb req.port 65535)
      then some bad_port
      else if is_below_minus_one req.shard_index
      then some bad_shard_index
      else if not (contract_compatible req.contract_version)
      then some incompatible_contract
      else if not (read.host_allowed req.host) || not (read.host_allowed advertised)
      then some host_not_allowed
      else refused_version
          (validate_agent_version read.release_of r.placement req.agent_id req.version)

  unfoldable pub registered : ℕ → String → PlacementConfig → RegisterRequest → AgentRecord
  unfolding placed
  registered now lease c req = placed c (record {
    agent_id = req.agent_id;
    lease_id = lease;
    host = req.host;
    port = req.port;
    os = req.os;
    version = req.version;
    capacity_hint = req.capacity_hint;
    registered_at = now;
    last_seen = now;
    advertise_host = req.advertise_host;
    health = record { mem_bytes = 0; cache_bytes = 0; inflight = 0 };
    serving_tables = [];
    epochs = [];
    capabilities = sorted_set req.capabilities;
    shard_index = req.shard_index;
    contract_version = req.contract_version;
    pool_id = "";
    location = "";
    storage_profile = "";
    tenant_id = "";
    upgrade_ring = "";
    allowed_connection_ids = [];
    allowed_table_patterns = [];
    commands = [];
    draining = false;
  })

  -- A change of the agents, made durable or undone; `snapshot now` is what was there before.
  unfoldable pub commit_agents : ℕ → Write → Dict AgentRecord → Registry → Registry × Bool
  unfolding persist snapshot
  commit_agents now w agents r =
      persist read now w (snapshot now r.agents) (record r { agents = agents })

  unfoldable pub registration : ℕ → String → Bool → RegisterResult
  registration cadence lease true = registered_as lease cadence
  registration cadence lease false = write_failed

  unfoldable pub register_if :
      ℕ
      → Write
      → String
      → RegisterRequest
      → Option RegisterError
      → Registry
      → Registry × RegisterResult
  unfolding registered commit_agents registration pool_heartbeat pool_for_identity
  register_if now w lease req (some e) r = (r, refused e)
  register_if now w lease req none r =
      let outcome =
        commit_agents now w (insert req.agent_id (registered now lease r.placement req) r.agents)
          r in
      let cadence = pool_heartbeat (pool_for_identity r.placement req.agent_id) r.heartbeat_ms in
      (outcome.0, registration cadence lease outcome.1)

  -- The token of the lease is drawn by the caller.
  unfoldable pub register :
      ℕ → Write → String → RegisterRequest → Registry → Registry × RegisterResult
  unfolding refuse_registration register_if
  register now w lease req r = register_if now w lease req (refuse_registration r req) r

  -- The commands that a heartbeat delivers; `none` for `LeaseError` and for a failed write.
  unfoldable pub delivered_if : Bool → List ControlCommand → Option (List ControlCommand)
  delivered_if true cmds = some cmds
  delivered_if false cmds = none

  unfoldable pub heartbeat_found :
      ℕ
      → Write
      → HeartbeatRequest
      → Option AgentRecord
      → Registry
      → Registry × Option (List ControlCommand)
  unfolding commit_agents beaten delivered_if
  heartbeat_found now w req none r = (r, none)
  heartbeat_found now w req (some a) r =
      let outcome = commit_agents now w (insert req.agent_id (beaten now req a) r.agents) r in
      if not (str_eq a.lease_id req.lease_id)
      then (r, none)
      else (outcome.0, delivered_if outcome.1 a.commands)

  unfoldable pub heartbeat :
      ℕ → Write → HeartbeatRequest → Registry → Registry × Option (List ControlCommand)
  unfolding heartbeat_found
  heartbeat now w req r = heartbeat_found now w req (lookup req.agent_id r.agents) r

  unfoldable pub queue_found :
      ℕ → Write → String → ControlCommand → Option AgentRecord → Registry → Registry × Bool
  unfolding commit_agents with_command
  queue_found now w id cmd none r = (r, false)
  queue_found now w id cmd (some a) r =
      commit_agents now w (insert id (with_command cmd a) r.agents) r

  unfoldable pub queue_command : ℕ → Write → String → ControlCommand → Registry → Registry × Bool
  unfolding queue_found
  queue_command now w id cmd r = queue_found now w id cmd (lookup id r.agents) r

  -- `broadcast`, with whether it returns.
  unfoldable pub broadcast : ℕ → Write → ControlCommand → Registry → Registry × Bool
  unfolding broadcast_to commit_agents
  broadcast now w cmd r = commit_agents now w (broadcast_to cmd r.agents) r

  unfoldable pub remove_found : ℕ → Write → String → Option AgentRecord → Registry → Registry × Bool
  unfolding commit_agents
  remove_found now w id none r = (r, false)
  remove_found now w id (some a) r = commit_agents now w (remove id r.agents) r

  unfoldable pub remove_agent : ℕ → Write → String → Registry → Registry × Bool
  unfolding remove_found
  remove_agent now w id r = remove_found now w id (lookup id r.agents) r

  unfoldable pub attach_saved : ℕ → Option (List AgentSnapshot) → Registry → Registry
  unfolding restore
  attach_saved now none r = r
  attach_saved now (some s) r = restore read now s r

  -- `attach_durable_state` with `restore=True`; the write may fail, and then nothing is undone.
  unfoldable pub attach_durable_state :
      ℕ → Bool → Option (List AgentSnapshot) → Registry → Registry × Bool
  unfolding attach_saved snapshot
  attach_durable_state now succeeds durable r =
      let r' = attach_saved now durable (record r { is_attached = true; saved = durable }) in
      if succeeds then (record r' { saved = some (snapshot now r'.agents) }, true) else (r', false)

  unfoldable pub detach_durable_state : Registry → Registry
  detach_durable_state r = record r { is_attached = false }
