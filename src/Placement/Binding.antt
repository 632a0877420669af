-- ===== src/Placement/Binding.antt =====
-- `bind_runtime_store` and `bind_serving_store` of `PlacementConfig` in
-- enterprise/control/placement.py.
use fabric_shortcut_proxy.Prelude.{
  String, str_eq, Bool, true, false, not, ◌&&◌, ◌||◌, Option, none, some, List, [], ◌∷◌, ◌++◌, map,
}
use fabric_shortcut_proxy.Dict.{Dict, lookup}
use fabric_shortcut_proxy.Placement.{
  MaterializerPolicy, PlacementConfig, StoreProfile, ServingEndpoint, Violation,
  residency_policy_violation, is_empty,
}
use fabric_shortcut_proxy.Placement.Rules.{
  ◌also◌, refuse, validate_tenant, validate_residency, validate_dispatch,
}

-- All policies of the configuration, each for no connection.
abbrev pub check_policies : PlacementConfig → List MaterializerPolicy → Option Violation
check_policies c [] = none
check_policies c (p ∷ ps) = validate_dispatch c p "" also check_policies c ps

provider_differs : String → Option StoreProfile → Bool
provider_differs provider none = true
provider_differs provider (some s) = not (str_eq s.provider provider)

-- The profile stays active if a policy is refused.
unfoldable pub bind_runtime_store :
    PlacementConfig → String → String → PlacementConfig × Option Violation
unfolding validate_dispatch provider_differs
bind_runtime_store c profile_id provider =
    let c' = record c { active_storage_profile = profile_id } in
    (
      c',
      refuse (not (is_empty profile_id) && provider_differs provider (lookup profile_id c.stores))
            residency_policy_violation
          also check_policies c' (map (λ e. e.1) c.connections ++ map (λ e. e.1) c.tables),
    )

abbrev endpoint_serves : Option StoreProfile → String → Option ServingEndpoint → Bool
endpoint_serves none profile_id e = false
endpoint_serves (some s) profile_id none = false
endpoint_serves (some s) profile_id (some e) =
    str_eq e.storage_profile profile_id && str_eq e.location s.location

-- Every connection's policy, checked for its connection.
abbrev pub check_connections : PlacementConfig → Dict MaterializerPolicy → Option Violation
check_connections c [] = none
check_connections c ((id, p) ∷ ps) =
    validate_tenant c p id also validate_residency c p id also check_connections c ps

abbrev keep_on_refusal : PlacementConfig → PlacementConfig → Option Violation → PlacementConfig
keep_on_refusal old new none = new
keep_on_refusal old new (some v) = old

-- The profile becomes active only if nothing is refused.
unfoldable pub bind_serving_store :
    PlacementConfig → String → String → String → PlacementConfig × Option Violation
unfolding provider_differs validate_tenant validate_residency
bind_serving_store c profile_id provider endpoint_id =
    let profile = lookup profile_id c.stores in
    let outcome =
      refuse
        (provider_differs provider profile
          || not (endpoint_serves profile profile_id (lookup endpoint_id c.serving_endpoints)))
        residency_policy_violation
      also check_connections c c.connections in
    (keep_on_refusal c (record c { active_storage_profile = profile_id }) outcome, outcome)
