-- ===== src/Placement/Tenants.antt =====
-- What `validate_tenant` ensures: the policy's stores, pools and endpoints belong to its tenant.
use fabric_shortcut_proxy.Prelude.{
  String, str_eq_iff, Bool, true, false, not, Option, none, some, List, [], ◌∷◌, ◌≡◌, refl, arith,
  All, contains, is_nil, Option-cases, inl, inr,
}
use fabric_shortcut_proxy.Dict.{lookup}
use fabric_shortcut_proxy.Placement.{
  MaterializerPolicy, PlacementConfig, MaterializerPool, StoreProfile, ServingEndpoint, Violation,
  tenant_isolation_violation, is_empty,
}
use fabric_shortcut_proxy.Placement.Rules.{
  refuse, ◌also◌, check_each, tenant_profiles, policy_pools, tenant_rules, validate_tenant,
  parent_tenant_differs, forbid, foreign_store, foreign_pool, foreign_endpoint,
}

-- A rule that passes was passed by both of its parts.
pub also-none : (v w : Option Violation) → (v also w) ≡ none → (v ≡ none) × (w ≡ none)
also-none none w h = (refl, h)
also-none (some v) w h = cc

pub refuse-none : (b : Bool) (v : Violation) → refuse b v ≡ none → b ≡ false
refuse-none true v h = cc
refuse-none false v h = refl

pub check_each-All :
    (P : String → Type 0) (rule : String → Option Violation) (xs : List String)
    → ((x : String) → rule x ≡ none → P x)
    → check_each rule xs ≡ none
    → All P xs
check_each-All P rule [] f h = tt
check_each-All P rule (x ∷ xs) f h =
    let both = also-none (rule x) (check_each rule xs) h in
    (f x both.0, check_each-All P rule xs f both.1)

pub forbid-All :
    (P : String → Type 0) (bad : String → Bool) (v : Violation) (xs : List String)
    → ((x : String) → bad x ≡ false → P x)
    → forbid bad v xs ≡ none
    → All P xs
forbid-All P bad v xs f h =
    check_each-All P (λ x. refuse (bad x) v) xs (λ x ok. f x (refuse-none (bad x) v ok)) h

-- The store of a name is declared and belongs to the tenant.
abbrev pub OwnsStore : PlacementConfig → String → String → Type 0
OwnsStore c tenant id = (s : StoreProfile) × (lookup id c.stores ≡ some s) × (s.tenant_id ≡ tenant)

abbrev pub OwnsPool : PlacementConfig → String → String → Type 0
OwnsPool c tenant id =
    (p : MaterializerPool) × (lookup id c.pools ≡ some p) × (p.tenant_id ≡ tenant)

abbrev pub OwnsEndpoint : PlacementConfig → String → String → Type 0
OwnsEndpoint c tenant id =
    (e : ServingEndpoint) × (lookup id c.serving_endpoints ≡ some e) × (e.tenant_id ≡ tenant)

-- Names that are not empty.
abbrev pub Named : (String → Type 0) → String → Type 0
Named P id = is_empty id ≡ false → P id

pub record IsIsolated (c : PlacementConfig) (p : MaterializerPolicy) : Type 0 where
  pub declared : contains c.tenants p.tenant_id ≡ true
  pub stores_owned : All (Named (OwnsStore c p.tenant_id)) (tenant_profiles p)
  pub pools_owned : All (Named (OwnsPool c p.tenant_id)) (policy_pools p)
  pub endpoints_owned : All (OwnsEndpoint c p.tenant_id) p.serving_endpoints

store_passes :
    (c : PlacementConfig) (tenant id : String)
    → foreign_store c tenant id ≡ false
    → Named (OwnsStore c tenant) id
store_passes c tenant id h named = elim (Option-cases (lookup id c.stores)) [
  | inl gone ↦ absurd (ground (arith, h, named, gone))
  | inr (s, there) ↦ (s, there, ground (arith, h, named, there, str_eq_iff s.tenant_id tenant))
]

pool_passes :
    (c : PlacementConfig) (tenant id : String)
    → foreign_pool c tenant id ≡ false
    → Named (OwnsPool c tenant) id
pool_passes c tenant id h named = elim (Option-cases (lookup id c.pools)) [
  | inl gone ↦ absurd (ground (arith, h, named, gone))
  | inr (p, there) ↦ (p, there, ground (arith, h, named, there, str_eq_iff p.tenant_id tenant))
]

endpoint_passes :
    (c : PlacementConfig) (tenant id : String)
    → foreign_endpoint c tenant id ≡ false
    → OwnsEndpoint c tenant id
endpoint_passes c tenant id h = elim (Option-cases (lookup id c.serving_endpoints)) [
  | inl gone ↦ absurd (ground (arith, h, gone))
  | inr (e, there) ↦ (e, there, ground (arith, h, there, str_eq_iff e.tenant_id tenant))
]

pub validate_tenant-rules :
    (c : PlacementConfig) (p : MaterializerPolicy) (connection_id : String)
    → is_nil c.tenants ≡ false
    → validate_tenant c p connection_id ≡ none
    → (contains c.tenants p.tenant_id ≡ true)
      × (parent_tenant_differs (lookup connection_id c.connections) p.tenant_id ≡ false)
      × (tenant_rules c p ≡ none)
unfolding validate_tenant
validate_tenant-rules c p connection_id some_tenant h =
    let parent = parent_tenant_differs (lookup connection_id c.connections) p.tenant_id in
    let all_rules = also-none _ _ (rw some_tenant at h) in
    let later_rules = also-none (refuse parent tenant_isolation_violation) _ all_rules.1 in
    (
      ground (arith, refuse-none (not (contains c.tenants p.tenant_id)) _ all_rules.0),
      refuse-none parent _ later_rules.0,
      later_rules.1,
    )

pub tenant_rules-IsIsolated :
    (c : PlacementConfig) (p : MaterializerPolicy)
    → contains c.tenants p.tenant_id ≡ true
    → tenant_rules c p ≡ none
    → IsIsolated c p
unfolding tenant_rules
tenant_rules-IsIsolated c p known h =
    let tenant = p.tenant_id in
    let first = also-none (forbid (foreign_store c tenant) _ (tenant_profiles p)) _ h in
    let second = also-none (forbid (foreign_pool c tenant) _ (policy_pools p)) _ first.1 in
    record {
      declared = known;
      stores_owned =
          forbid-All (Named (OwnsStore c tenant)) (foreign_store c tenant) _ (tenant_profiles p)
            (store_passes c tenant) first.0;
      pools_owned =
          forbid-All (Named (OwnsPool c tenant)) (foreign_pool c tenant) _ (policy_pools p)
            (pool_passes c tenant) second.0;
      endpoints_owned =
          forbid-All (OwnsEndpoint c tenant) (foreign_endpoint c tenant) _ p.serving_endpoints
            (endpoint_passes c tenant) second.1;
    }
