-- ===== src/Placement/Rules.antt =====
-- The rules of `PlacementConfig` in enterprise/control/placement.py that a policy is checked by. A
-- rule gives the violation that it raises, or none; the first one that is raised counts.
use fabric_shortcut_proxy.Prelude.{
  String, str_eq, Bool, true, false, not, ◌&&◌, ◌||◌, Option, none, some, List, [], ◌∷◌, ◌++◌,
  if◌then◌else◌, all, contains, is_nil, map,
}
use fabric_shortcut_proxy.Dict.{lookup}
use fabric_shortcut_proxy.Placement.{
  MaterializerPolicy, PlacementConfig, MaterializerPool, StoreProfile, ServingEndpoint, Violation,
  residency_policy_violation, tenant_isolation_violation, key_error, is_empty,
}

abbrev pub refuse : Bool → Violation → Option Violation
refuse true v = some v
refuse false v = none

-- One rule after the other.
infixr 20 ◌also◌
abbrev pub ◌also◌ : Option Violation → Option Violation → Option Violation
none also w = w
(some v) also w = some v

abbrev pub check_each : (String → Option Violation) → List String → Option Violation
check_each rule [] = none
check_each rule (x ∷ xs) = rule x also check_each rule xs

-- No name of a list may have a fault.
abbrev pub forbid : (String → Bool) → Violation → List String → Option Violation
forbid bad v xs = check_each (λ x. refuse (bad x) v) xs

unfoldable pub validate_task_tenant :
    PlacementConfig → String → MaterializerPolicy → Option Violation
validate_task_tenant c tenant_id policy =
    if is_nil c.tenants
    then refuse (not (is_empty tenant_id)) tenant_isolation_violation
    else refuse (is_empty tenant_id || not (str_eq tenant_id policy.tenant_id))
        tenant_isolation_violation

abbrev pub parent_tenant_differs : Option MaterializerPolicy → String → Bool
parent_tenant_differs none tenant = false
parent_tenant_differs (some parent) tenant = not (str_eq parent.tenant_id tenant)

abbrev pub store_is_foreign : String → Option StoreProfile → Bool
store_is_foreign tenant none = true
store_is_foreign tenant (some s) = not (str_eq s.tenant_id tenant)

abbrev pub pool_is_foreign : String → Option MaterializerPool → Bool
pool_is_foreign tenant none = true
pool_is_foreign tenant (some p) = not (str_eq p.tenant_id tenant)

abbrev pub endpoint_is_foreign : String → Option ServingEndpoint → Bool
endpoint_is_foreign tenant none = true
endpoint_is_foreign tenant (some e) = not (str_eq e.tenant_id tenant)

abbrev pub tenant_profiles : MaterializerPolicy → List String
tenant_profiles p =
    p.required_storage_profile
    ∷ p.staging_storage_profile
    ∷ (p.replica_storage_profiles ++ p.cache_storage_profiles)

abbrev pub policy_pools : MaterializerPolicy → List String
policy_pools p = p.required_pool ∷ p.fallback_pools

-- The tests on the names that a policy carries; the empty name is passed over.
abbrev pub foreign_store : PlacementConfig → String → String → Bool
foreign_store c tenant id = not (is_empty id) && store_is_foreign tenant (lookup id c.stores)

abbrev pub foreign_pool : PlacementConfig → String → String → Bool
foreign_pool c tenant id = not (is_empty id) && pool_is_foreign tenant (lookup id c.pools)

abbrev pub foreign_endpoint : PlacementConfig → String → String → Bool
foreign_endpoint c tenant id = endpoint_is_foreign tenant (lookup id c.serving_endpoints)

unfoldable pub tenant_rules : PlacementConfig → MaterializerPolicy → Option Violation
tenant_rules c p =
    forbid (foreign_store c p.tenant_id) tenant_isolation_violation (tenant_profiles p)
    also forbid (foreign_pool c p.tenant_id) tenant_isolation_violation (policy_pools p)
    also forbid (foreign_endpoint c p.tenant_id) tenant_isolation_violation p.serving_endpoints

unfoldable pub validate_tenant : PlacementConfig → MaterializerPolicy → String → Option Violation
unfolding tenant_rules
validate_tenant c p connection_id =
    if is_nil c.tenants
    then none
    else refuse (not (contains c.tenants p.tenant_id)) tenant_isolation_violation
      also refuse (parent_tenant_differs (lookup connection_id c.connections) p.tenant_id)
          tenant_isolation_violation
      also tenant_rules c p

abbrev pub is_subset : List String → List String → Bool
is_subset xs ys = all (contains ys) xs

-- A connection that is constrained, and a policy that is not, or goes beyond it.
abbrev pub widens : Option MaterializerPolicy → MaterializerPolicy → Bool
widens none p = false
widens (some parent) p =
    not (is_nil parent.residency_locations)
    && (is_nil p.residency_locations
        || not (is_subset p.residency_locations parent.residency_locations))

abbrev pub has_chain : MaterializerPolicy → Bool
has_chain p =
    not (is_empty p.staging_storage_profile)
    || not (is_nil p.serving_endpoints)
    || not (is_nil p.replica_storage_profiles)
    || not (is_nil p.cache_storage_profiles)

abbrev pub or_else : String → String → String
or_else a b = if is_empty a then b else a

abbrev pub staging_profile : MaterializerPolicy → String
staging_profile p = or_else p.staging_storage_profile p.required_storage_profile

abbrev pub pool_is_outside : List String → Option MaterializerPool → Bool
pool_is_outside allowed none = true
pool_is_outside allowed (some p) = not (contains allowed p.location) || is_empty p.storage_profile

abbrev pub store_is_outside : List String → Option StoreProfile → Bool
store_is_outside allowed none = true
store_is_outside allowed (some s) = not (contains allowed s.location)

abbrev pub store_is_elsewhere : String → Option StoreProfile → Bool
store_is_elsewhere location none = true
store_is_elsewhere location (some s) = not (str_eq s.location location)

-- The body of the loop over the endpoints.
abbrev pub endpoint_rule :
    PlacementConfig → MaterializerPolicy → Option ServingEndpoint → Option Violation
endpoint_rule c p none = some residency_policy_violation
endpoint_rule c p (some e) =
    refuse (not (contains p.residency_locations e.location)) residency_policy_violation
    also refuse (store_is_elsewhere e.location (lookup e.storage_profile c.stores))
        residency_policy_violation
    also refuse
        (not (contains (p.required_storage_profile ∷ p.replica_storage_profiles) e.storage_profile))
        residency_policy_violation

abbrev pub pool_profile : Option MaterializerPool → String
pool_profile none = ""
pool_profile (some p) = p.storage_profile

abbrev pub endpoint_profile : Option ServingEndpoint → String
endpoint_profile none = ""
endpoint_profile (some e) = e.storage_profile

-- The set `profiles` after both loops.
abbrev pub residency_profiles : PlacementConfig → MaterializerPolicy → List String
residency_profiles c p =
    p.required_storage_profile
    ∷ staging_profile p
    ∷ (p.replica_storage_profiles
        ++ (p.cache_storage_profiles
            ++ (map (λ id. pool_profile (lookup id c.pools)) (policy_pools p)
                ++ map (λ id. endpoint_profile (lookup id c.serving_endpoints))
                    p.serving_endpoints)))

abbrev pub outside_pool : PlacementConfig → List String → String → Bool
outside_pool c allowed id = pool_is_outside allowed (lookup id c.pools)

abbrev pub outside_store : PlacementConfig → List String → String → Bool
outside_store c allowed id = store_is_outside allowed (lookup id c.stores)

unfoldable pub residency_rules : PlacementConfig → MaterializerPolicy → Option Violation
residency_rules c p =
    refuse
      (is_empty p.required_pool
        || is_empty p.required_storage_profile
        || is_nil p.serving_endpoints)
      residency_policy_violation
    also refuse
        (not (is_empty p.required_location)
          && not (contains p.residency_locations p.required_location))
        residency_policy_violation
    also forbid (outside_pool c p.residency_locations) residency_policy_violation (policy_pools p)
    also check_each (λ id. endpoint_rule c p (lookup id c.serving_endpoints)) p.serving_endpoints
    also forbid (outside_store c p.residency_locations) residency_policy_violation
        (residency_profiles c p)

unfoldable pub validate_residency : PlacementConfig → MaterializerPolicy → String → Option Violation
unfolding residency_rules
validate_residency c p connection_id =
    refuse (widens (lookup connection_id c.connections) p) residency_policy_violation
    also (if is_nil p.residency_locations
        then refuse (has_chain p) residency_policy_violation
        else residency_rules c p)

-- `self.pools[pool].storage_profile != self.active_storage_profile` for any of the pools.
abbrev pub pool_uses : String → Option MaterializerPool → Option Violation → Option Violation
pool_uses active none rest = some key_error
pool_uses active (some p) rest =
    refuse (not (str_eq p.storage_profile active)) residency_policy_violation also rest

abbrev pub pools_use : PlacementConfig → List String → Option Violation
pools_use c [] = none
pools_use c (id ∷ ids) = pool_uses c.active_storage_profile (lookup id c.pools) (pools_use c ids)

-- The part for a policy with a boundary: all of its stores are the active one.
unfoldable pub active_rules : PlacementConfig → MaterializerPolicy → Option Violation
active_rules c p =
    refuse (is_empty c.active_storage_profile) residency_policy_violation
    also refuse (not (str_eq p.required_storage_profile c.active_storage_profile))
        residency_policy_violation
    also refuse (not (str_eq (staging_profile p) c.active_storage_profile))
        residency_policy_violation
    also pools_use c (policy_pools p)

unfoldable pub validate_dispatch : PlacementConfig → MaterializerPolicy → String → Option Violation
unfolding validate_tenant validate_residency active_rules
validate_dispatch c p connection_id =
    validate_tenant c p connection_id
    also validate_residency c p connection_id
    also (if is_nil p.residency_locations then none else active_rules c p)
