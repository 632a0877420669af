-- ===== src/Tests/RegistryTests.antt =====
-- enterprise/control/registry.py at concrete inputs.
use fabric_shortcut_proxy.Prelude.{
  ℕ, true, false, none, some, List, [], ◌∷◌, ◌++◌, ◌≡◌, refl, arith, sorted_set,
}
use fabric_shortcut_proxy.Prelude.Int.{negsuc}
use fabric_shortcut_proxy.Dict.{lookup, insert}
use fabric_shortcut_proxy.Placement.{PlacementConfig, pool_for_identity, validate_agent_version}
use fabric_shortcut_proxy.Registry.{
  Registry, Readers, Write, RegisterRequest, HeartbeatRequest, ControlCommand, drain, reload,
}
use fabric_shortcut_proxy.Registry.Snapshot.{snapshot, restore}
use fabric_shortcut_proxy.Registry.Calls.{heartbeat}
use fabric_shortcut_proxy.Registry.History.{
  Event, registers, beats, sends, sends_all, run, run_all, log_after,
}
use fabric_shortcut_proxy.Registry.Invariant.{IsWell, IsWell-later}
use fabric_shortcut_proxy.Registry.Preserved.{run-IsWell}
use fabric_shortcut_proxy.Registry.Attached.{
  Operation, call, attach, detach, operate_all, operations-IsWell,
}
use fabric_shortcut_proxy.Registry.Delivery.{no_log, delivered_in_order}
use fabric_shortcut_proxy.Registry.Rollback.{AsBefore, failed_write_undone}

abbrev no_placement : PlacementConfig
no_placement = record {
  pools = [];
  connections = [];
  tables = [];
  stores = [];
  serving_endpoints = [];
  tenants = [];
  agent_versions = none;
  active_storage_profile = "";
}

abbrev fresh : Registry
fresh = record {
  heartbeat_ms = 2000;
  miss_limit = 3;
  agents = [];
  placement = no_placement;
  is_attached = true;
  saved = none;
}

abbrev pub readers : Readers
readers = record {
  release_of = λ v. some v;
  version_tuple = λ v. some (1, 1);
  host_allowed = λ h. true;
}

abbrev request : RegisterRequest
request = record {
  agent_id = "agent-1";
  host = "10.0.0.1";
  port = 9000;
  os = "linux";
  version = "1.2.0";
  capacity_hint = 2;
  advertise_host = "";
  contract_version = "1.1";
  capabilities = "materializer" ∷ [];
  shard_index = negsuc 0;
}

abbrev beat : HeartbeatRequest
beat = record {
  agent_id = "agent-1";
  lease_id = "L1";
  health = record { mem_bytes = 0; cache_bytes = 0; inflight = 0 };
  serving_tables = [];
  epochs = [];
}

abbrev pub works : ℕ → Write
works t = record { succeeds = true; ends_at = t }

abbrev breaks : ℕ → Write
breaks t = record { succeeds = false; ends_at = t }

-- A registration, two commands, a heartbeat that fails to be saved, and one more command.
abbrev events : List Event
events =
    record { now = 1000000; write = works 1000000; call = registers "L1" request }
    ∷ record { now = 1000500; write = works 1000600; call = sends "agent-1" (reload "a") }
    ∷ record { now = 1000700; write = works 1000700; call = sends_all (drain 50) }
    ∷ record { now = 1002000; write = breaks 1900000; call = beats beat }
    ∷ record { now = 1900000; write = works 1900000; call = sends "agent-1" (reload "b") }
    ∷ []

abbrev three_commands : List ControlCommand
three_commands = reload "a" ∷ drain 50 ∷ reload "b" ∷ []

three_delivered :
    (heartbeat readers 2000000 (works 2000000) beat (run_all readers events fresh)).1
    ≡ some three_commands
unfolding heartbeat run_all lookup insert validate_agent_version pool_for_identity snapshot restore
    sorted_set
three_delivered = refl

delivered_in_order_example :
    let log = log_after readers "agent-1" events fresh no_log in
    ("L1" ≡ log.lease) × (log.sent ≡ log.received ++ three_commands)
delivered_in_order_example =
    delivered_in_order readers 0 events fresh 2000000 (works 2000000) beat three_commands refl
      (omega arith) three_delivered

-- The failed heartbeat of `events`, where it stands.
abbrev pub one_agent : Registry
one_agent =
    run readers (record { now = 1000000; write = works 1000000; call = registers "L1" request })
      fresh

one_agent_attached : one_agent.is_attached ≡ true
unfolding run lookup insert validate_agent_version pool_for_identity snapshot
one_agent_attached = refl

pub one_agent-IsWell : IsWell readers 1002000 one_agent
one_agent-IsWell = IsWell-later readers 1000000 1002000 one_agent (omega arith) (
    run-IsWell readers 1000000 (works 1000000) (registers "L1" request) fresh (omega arith)
      (record { distinct = tt; settled = tt }))

-- A Manager registers an agent, loses its lease, and takes over what another Manager has saved.
abbrev takeover : List (ℕ × Operation)
takeover =
    (1000000, call (works 1000000) (registers "L1" request))
    ∷ (2000000, detach)
    ∷ (3000000, attach true (some (snapshot 1000000 one_agent.agents)))
    ∷ []

operations-IsWell_example : IsWell readers 3000000 (operate_all readers takeover fresh)
operations-IsWell_example =
    operations-IsWell readers 0 takeover fresh
      (omega arith, omega arith, (omega arith, omega arith, (omega arith, omega arith, tt)))
      (record { distinct = tt; settled = tt })

failed_write_undone_example : AsBefore 1002000 1900000 (lookup "agent-1" one_agent.agents) (
    lookup "agent-1"
      (run readers
        (record { now = 1002000; write = breaks 1900000; call = beats beat })
        one_agent).agents)
failed_write_undone_example =
    failed_write_undone readers 1002000 (breaks 1900000) (beats beat) one_agent "agent-1"
      (omega arith) one_agent-IsWell one_agent_attached refl
