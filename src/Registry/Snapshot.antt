-- ===== src/Registry/Snapshot.antt =====
-- `_snapshot_locked`, `_restore_locked` and `_persist_locked` of enterprise/control/registry.py.
use fabric_shortcut_proxy.Prelude.{
  ℕ, ◌-◌, ◌*◌, ◌/◌, Bool, true, false, Option, none, some, List, [], ◌∷◌, if◌then◌else◌,
  text_before, sorted_set,
}
use fabric_shortcut_proxy.Prelude.Sort.{sort_by}
use fabric_shortcut_proxy.Dict.{Dict, insert}
use fabric_shortcut_proxy.Placement.{
  PlacementConfig, MaterializerPool, pool_for_identity, validate_agent_version, VersionError,
  agent_version_unsupported, unknown_ring,
}
use fabric_shortcut_proxy.Registry.{AgentRecord, AgentSnapshot, Registry, Readers, Write}

-- The fields that a record takes from the pool of its agent.
unfoldable pub placed_in : Option MaterializerPool → AgentRecord → AgentRecord
placed_in none r = record r {
  pool_id = "";
  location = "";
  storage_profile = "";
  tenant_id = "";
  upgrade_ring = "";
  allowed_connection_ids = [];
  allowed_table_patterns = [];
}
placed_in (some pool) r = record r {
  pool_id = pool.pool_id;
  location = pool.location;
  storage_profile = pool.storage_profile;
  tenant_id = pool.tenant_id;
  upgrade_ring = pool.upgrade_ring;
  allowed_connection_ids = sorted_set pool.allowed_connection_ids;
  allowed_table_patterns = pool.allowed_table_patterns;
}

unfoldable pub placed : PlacementConfig → AgentRecord → AgentRecord
unfolding placed_in
placed c r = placed_in (pool_for_identity c r.agent_id) r

unfoldable pub snapshot_of : ℕ → AgentRecord → AgentSnapshot
snapshot_of now r = record {
  fields = record r { registered_at = 0; last_seen = 0 };
  registered_age_ms = (now - r.registered_at) / 1000;
  last_seen_age_ms = (now - r.last_seen) / 1000;
}

abbrev pub id_before : AgentSnapshot → AgentSnapshot → Bool
id_before a b = text_before a.fields.agent_id b.fields.agent_id

unfoldable pub snapshots : ℕ → Dict AgentRecord → List AgentSnapshot
unfolding snapshot_of
snapshots now [] = []
snapshots now ((id, r) ∷ d) = snapshot_of now r ∷ snapshots now d

unfoldable pub snapshot : ℕ → Dict AgentRecord → List AgentSnapshot
unfolding snapshots sort_by
snapshot now d = sort_by id_before (snapshots now d)

unfoldable pub restored : PlacementConfig → ℕ → AgentSnapshot → AgentRecord
unfolding placed
restored c now s = placed c (record s.fields {
  registered_at = now - s.registered_age_ms * 1000;
  last_seen = now - s.last_seen_age_ms * 1000;
  capabilities = sorted_set s.fields.capabilities;
})

-- An agent of an unsupported version is left out; an unknown ring raises.
unfoldable pub add_restored :
    Option VersionError → AgentRecord → Dict AgentRecord → Option (Dict AgentRecord)
add_restored none r d = some (insert r.agent_id r d)
add_restored (some agent_version_unsupported) r d = some d
add_restored (some unknown_ring) r d = none

abbrev pub bind_agents :
    Option (Dict AgentRecord)
    → (Dict AgentRecord → Option (Dict AgentRecord))
    → Option (Dict AgentRecord)
bind_agents none f = none
bind_agents (some d) f = f d

module _ (read : Readers) where
  unfoldable pub version_of : PlacementConfig → AgentSnapshot → Option VersionError
  version_of c s = validate_agent_version read.release_of c s.fields.agent_id s.fields.version

  unfoldable pub restore_agents :
      PlacementConfig → ℕ → List AgentSnapshot → Dict AgentRecord → Option (Dict AgentRecord)
  unfolding add_restored restored version_of
  restore_agents c now [] d = some d
  restore_agents c now (s ∷ ss) d =
      bind_agents (add_restored (version_of c s) (restored c now s) d) (restore_agents c now ss)

  unfoldable pub keep_or : Registry → Option (Dict AgentRecord) → Registry
  keep_or r none = r
  keep_or r (some d) = record r { agents = d }

  -- `_restore_locked`; if it raises, the agents stay as they are.
  unfoldable pub restore : ℕ → List AgentSnapshot → Registry → Registry
  unfolding restore_agents keep_or
  restore now before r = keep_or r (restore_agents r.placement now before [])

  -- `_persist_locked`, with whether it returns.
  unfoldable pub persist : ℕ → Write → List AgentSnapshot → Registry → Registry × Bool
  unfolding snapshot restore
  persist now w before r =
      if r.is_attached
      then if w.succeeds
        then (record r { saved = some (snapshot now r.agents) }, true)
        else (restore w.ends_at before r, false)
      else (r, true)
