-- ===== src/Placement/Dispatch.antt =====
-- What holds of a policy whose tasks `validate_dispatch` lets out.
use fabric_shortcut_proxy.Prelude.{
  String, str_eq, str_eq_iff, true, false, not, none, some, List, [], ◌∷◌, ◌≡◌, arith, All, is_nil,
  Option-cases, inl, inr,
}
use fabric_shortcut_proxy.Dict.{lookup}
use fabric_shortcut_proxy.Placement.{
  MaterializerPolicy, PlacementConfig, MaterializerPool, residency_policy_violation, is_empty,
}
use fabric_shortcut_proxy.Placement.Rules.{
  refuse, policy_pools, validate_tenant, validate_residency, validate_dispatch, widens,
  staging_profile, active_rules, pools_use, residency_rules, parent_tenant_differs,
}
use fabric_shortcut_proxy.Placement.Tenants.{
  also-none, refuse-none, validate_tenant-rules, tenant_rules-IsIsolated, IsIsolated,
}
use fabric_shortcut_proxy.Placement.Residency.{
  IsContained, residency_rules-IsContained, IsContained-is_subset,
}

-- The pool of a name writes to the store.
abbrev pub PoolUses : PlacementConfig → String → String → Type 0
PoolUses c profile id =
    (p : MaterializerPool) × (lookup id c.pools ≡ some p) × (p.storage_profile ≡ profile)

pools_use-All :
    (c : PlacementConfig) (ids : List String)
    → pools_use c ids ≡ none
    → All (PoolUses c c.active_storage_profile) ids
pools_use-All c [] h = tt
pools_use-All c (id ∷ ids) h = elim (Option-cases (lookup id c.pools)) [
  | inl gone ↦ absurd (ground (arith, h, gone))
  | inr (p, there) ↦
      let other = not (str_eq p.storage_profile c.active_storage_profile) in
      let both =
        also-none (refuse other residency_policy_violation) (pools_use c ids) (rw there at h) in
      let same : other ≡ false = refuse-none other _ both.0 in
      (
        (p, there, ground (arith, same, str_eq_iff p.storage_profile c.active_storage_profile)),
        pools_use-All c ids both.1,
      )
]

module _ (c : PlacementConfig) (p : MaterializerPolicy) (connection_id : String)
    (passed : validate_dispatch c p connection_id ≡ none) where
  tenant_passed : validate_tenant c p connection_id ≡ none
  unfolding validate_dispatch
  tenant_passed = (also-none (validate_tenant c p connection_id) _ passed).0

  residency_passed : validate_residency c p connection_id ≡ none
  unfolding validate_dispatch
  residency_passed =
      (also-none (validate_residency c p connection_id) _
        (also-none (validate_tenant c p connection_id) _ passed).1).0

  not_widened : widens (lookup connection_id c.connections) p ≡ false
  unfolding validate_residency
  not_widened =
      refuse-none _ residency_policy_violation
        (also-none (refuse (widens (lookup connection_id c.connections) p) _) _ residency_passed).0

  rules_passed : is_nil p.residency_locations ≡ false → residency_rules c p ≡ none
  unfolding validate_residency
  rules_passed constrained =
      rw constrained at
        (also-none
          (refuse (widens (lookup connection_id c.connections) p) residency_policy_violation) _
          residency_passed).1

  active_passed : is_nil p.residency_locations ≡ false → active_rules c p ≡ none
  unfolding validate_dispatch
  active_passed constrained =
      rw constrained at
        (also-none (validate_residency c p connection_id) _
          (also-none (validate_tenant c p connection_id) _ passed).1).1

  pools_passed :
      is_nil p.residency_locations ≡ false
      → (str_eq p.required_storage_profile c.active_storage_profile ≡ true)
        × (str_eq (staging_profile p) c.active_storage_profile ≡ true)
        × (pools_use c (policy_pools p) ≡ none)
  unfolding active_rules
  pools_passed constrained =
      let published = not (str_eq p.required_storage_profile c.active_storage_profile) in
      let staged = not (str_eq (staging_profile p) c.active_storage_profile) in
      let named =
        also-none (refuse (is_empty c.active_storage_profile) _) _ (active_passed constrained) in
      let first = also-none (refuse published residency_policy_violation) _ named.1 in
      let second = also-none (refuse staged residency_policy_violation) _ first.1 in
      let no_published : published ≡ false = refuse-none published _ first.0 in
      let no_staged : staged ≡ false = refuse-none staged _ second.0 in
      (ground (arith, no_published), ground (arith, no_staged), second.1)

-- With tenants declared, a policy that passes `validate_dispatch` belongs to a declared tenant,
-- which is that of its connection, and every store, pool and endpoint that it names is declared
-- and belongs to the same tenant.
pub dispatch-IsIsolated :
    (c : PlacementConfig) (p : MaterializerPolicy) (connection_id : String)
    → is_nil c.tenants ≡ false
    → validate_dispatch c p connection_id ≡ none
    → IsIsolated c p
      × (parent_tenant_differs (lookup connection_id c.connections) p.tenant_id ≡ false)
dispatch-IsIsolated c p connection_id some_tenant passed =
    let rules =
      validate_tenant-rules c p connection_id some_tenant
        (tenant_passed c p connection_id passed) in
    (tenant_rules-IsIsolated c p rules.0 rules.2, rules.1)

-- A policy with a boundary that passes `validate_dispatch` names only stores, pools and endpoints
-- that are declared and lie inside the boundary; and its published store, its staging store and
-- those of its pools are the active store.
pub dispatch-IsContained :
    (c : PlacementConfig) (p : MaterializerPolicy) (connection_id : String)
    → is_nil p.residency_locations ≡ false
    → validate_dispatch c p connection_id ≡ none
    → IsContained c p.residency_locations p
      × (p.required_storage_profile ≡ c.active_storage_profile)
      × (staging_profile p ≡ c.active_storage_profile)
      × All (PoolUses c c.active_storage_profile) (policy_pools p)
dispatch-IsContained c p connection_id constrained passed =
    let use_active = pools_passed c p connection_id passed constrained in
    (
      residency_rules-IsContained c p (rules_passed c p connection_id passed constrained),
      (str_eq_iff _ _).0 use_active.0,
      (str_eq_iff _ _).0 use_active.1,
      pools_use-All c (policy_pools p) use_active.2,
    )

-- If the connection has a boundary, then whatever boundary the policy itself declares: what passes
-- `validate_dispatch` names only stores, pools and endpoints inside that of the connection.
pub dispatch_within_connection :
    (c : PlacementConfig) (p parent : MaterializerPolicy) (connection_id : String)
    → lookup connection_id c.connections ≡ some parent
    → is_nil parent.residency_locations ≡ false
    → validate_dispatch c p connection_id ≡ none
    → IsContained c parent.residency_locations p
dispatch_within_connection c p parent connection_id known constrained passed =
    let kept : widens (some parent) p ≡ false =
      rw known at (not_widened c p connection_id passed) in
    IsContained-is_subset c p.residency_locations parent.residency_locations
      (ground (arith, kept, constrained)) p
      (residency_rules-IsContained c p
        (rules_passed c p connection_id passed (ground (arith, kept, constrained))))
