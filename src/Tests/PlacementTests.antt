-- ===== src/Tests/PlacementTests.antt =====
-- enterprise/control/placement.py at concrete inputs.
use fabric_shortcut_proxy.Prelude.{[], ◌∷◌, ◌≡◌, refl, none, some, All, false}
use fabric_shortcut_proxy.Dict.{lookup}
use fabric_shortcut_proxy.Placement.{
  PlacementConfig, MaterializerPolicy, MaterializerPool, no_policy, residency_policy_violation,
  tenant_isolation_violation,
}
use fabric_shortcut_proxy.Placement.Rules.{
  validate_dispatch, staging_profile, policy_pools, parent_tenant_differs,
}
use fabric_shortcut_proxy.Placement.Tenants.{IsIsolated}
use fabric_shortcut_proxy.Placement.Residency.{IsContained}
use fabric_shortcut_proxy.Placement.Dispatch.{PoolUses, dispatch-IsIsolated, dispatch-IsContained}

abbrev west_pool : MaterializerPool
west_pool = record {
  pool_id = "west";
  identities = "agent-1" ∷ [];
  location = "eu-west";
  storage_profile = "lake";
  allowed_connection_ids = "sales" ∷ [];
  allowed_table_patterns = [];
  max_concurrency = some 2;
  heartbeat_ms = none;
  heartbeat_miss_limit = none;
  claim_lease_seconds = none;
  tenant_id = "acme";
  upgrade_ring = "";
}

abbrev west_policy : MaterializerPolicy
west_policy = record no_policy {
  tenant_id = "acme";
  required_pool = "west";
  required_storage_profile = "lake";
  residency_locations = "eu-west" ∷ [];
  serving_endpoints = "west-serving" ∷ [];
  source_max_concurrency = some 3;
}

abbrev west_config : PlacementConfig
west_config = record {
  pools = ("west", west_pool) ∷ [];
  connections = ("sales", west_policy) ∷ [];
  tables = [];
  stores = ("lake", record { location = "eu-west"; provider = "azure"; tenant_id = "acme" }) ∷ [];
  serving_endpoints =
      (
        "west-serving",
        record {
          location = "eu-west";
          storage_profile = "lake";
          url = "https://serving";
          tenant_id = "acme";
        },
      )
      ∷ [];
  tenants = "acme" ∷ [];
  agent_versions = none;
  active_storage_profile = "lake";
}

other_store_refused :
    validate_dispatch (record west_config { active_storage_profile = "other" }) west_policy "sales"
    ≡ some residency_policy_violation
unfolding validate_dispatch lookup
other_store_refused = refl

other_tenant_refused :
    validate_dispatch west_config (record west_policy { tenant_id = "rival" }) "sales"
    ≡ some tenant_isolation_violation
unfolding validate_dispatch lookup
other_tenant_refused = refl

west_passes : validate_dispatch west_config west_policy "sales" ≡ none
unfolding validate_dispatch lookup
west_passes = refl

west_known : lookup "sales" west_config.connections ≡ some west_policy
unfolding lookup
west_known = refl

dispatch-IsIsolated_example :
    IsIsolated west_config west_policy
    × (parent_tenant_differs (lookup "sales" west_config.connections) "acme" ≡ false)
dispatch-IsIsolated_example = dispatch-IsIsolated west_config west_policy "sales" refl west_passes

dispatch-IsContained_example :
    IsContained west_config ("eu-west" ∷ []) west_policy
    × ("lake" ≡ west_config.active_storage_profile)
    × (staging_profile west_policy ≡ "lake")
    × All (PoolUses west_config "lake") (policy_pools west_policy)
dispatch-IsContained_example = dispatch-IsContained west_config west_policy "sales" refl west_passes
