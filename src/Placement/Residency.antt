-- ===== src/Placement/Residency.antt =====
-- What `validate_residency` ensures: the places that a policy names lie inside its boundary, and
-- inside that of its connection.
use fabric_shortcut_proxy.Prelude.{
  String, str_eq, str_eq_iff, true, false, not, none, some, List, [], ◌∷◌, ◌++◌, ◌≡◌, arith, All,
  All-imp, contains, Bool-cases, Option-cases, inl, inr, map,
}
use fabric_shortcut_proxy.Dict.{lookup}
use fabric_shortcut_proxy.Placement.{
  MaterializerPolicy, PlacementConfig, MaterializerPool, StoreProfile, ServingEndpoint,
  residency_policy_violation,
}
use fabric_shortcut_proxy.Placement.Rules.{
  refuse, check_each, policy_pools, residency_rules, forbid, is_subset, staging_profile,
  outside_pool, outside_store, endpoint_rule, pool_profile, residency_profiles, store_is_elsewhere,
}
use fabric_shortcut_proxy.Placement.Tenants.{also-none, refuse-none, check_each-All, forbid-All}

All-append_parts :
    (P : String → Type 0) (xs ys : List String) → All P (xs ++ ys) → All P xs × All P ys
All-append_parts P [] ys h = (tt, h)
All-append_parts P (x ∷ xs) ys h =
    let rest = All-append_parts P xs ys h.1 in ((h.0, rest.0), rest.1)

All-map :
    (P : String → Type 0) (f : String → String) (xs : List String)
    → All P (map f xs)
    → All (λ x. P (f x)) xs
All-map P f [] h = tt
All-map P f (x ∷ xs) h = (h.0, All-map P f xs h.1)

All-zip :
    (P Q R : String → Type 0) (xs : List String)
    → ((x : String) → P x → Q x → R x)
    → All P xs
    → All Q xs
    → All R xs
All-zip P Q R [] f p q = tt
All-zip P Q R (x ∷ xs) f p q = (f x p.0 q.0, All-zip P Q R xs f p.1 q.1)

pub contains-is_subset :
    (xs ys : List String) (a : String)
    → is_subset xs ys ≡ true
    → contains xs a ≡ true
    → contains ys a ≡ true
contains-is_subset [] ys a sub h = cc
contains-is_subset (x ∷ xs) ys a sub h = elim (Bool-cases (str_eq x a)) [
  | inl same ↦ rw (← (str_eq_iff x a).0 same) (ground (arith, sub))
  | inr other ↦ contains-is_subset xs ys a (ground (arith, sub)) (ground (arith, other, h))
]

-- A declared store that lies inside a boundary.
abbrev pub StoreWithin : PlacementConfig → List String → String → Type 0
StoreWithin c allowed id =
    (s : StoreProfile) × (lookup id c.stores ≡ some s) × (contains allowed s.location ≡ true)

-- A declared pool inside a boundary, which writes to a store inside it.
abbrev pub PoolWithin : PlacementConfig → List String → String → Type 0
PoolWithin c allowed id =
    (p : MaterializerPool) × (lookup id c.pools ≡ some p)
    × (contains allowed p.location ≡ true)
    × StoreWithin c allowed p.storage_profile

-- A declared endpoint inside a boundary, which reads a store of its own location.
abbrev pub EndpointWithin : PlacementConfig → List String → String → Type 0
EndpointWithin c allowed id =
    (e : ServingEndpoint) × (lookup id c.serving_endpoints ≡ some e)
    × (contains allowed e.location ≡ true)
    × (s : StoreProfile) × (lookup e.storage_profile c.stores ≡ some s)
    × (s.location ≡ e.location)

pub record IsContained (c : PlacementConfig) (allowed : List String) (p : MaterializerPolicy)
    : Type 0 where
  pub published_within : StoreWithin c allowed p.required_storage_profile
  pub staging_within : StoreWithin c allowed (staging_profile p)
  pub replicas_within : All (StoreWithin c allowed) p.replica_storage_profiles
  pub caches_within : All (StoreWithin c allowed) p.cache_storage_profiles
  pub pools_within : All (PoolWithin c allowed) (policy_pools p)
  pub endpoints_within : All (EndpointWithin c allowed) p.serving_endpoints

-- What the rule of a pool says before its store is looked at.
abbrev PoolFound : PlacementConfig → List String → String → Type 0
PoolFound c allowed id =
    (p : MaterializerPool) × (lookup id c.pools ≡ some p) × (contains allowed p.location ≡ true)

store_passes :
    (c : PlacementConfig) (allowed : List String) (id : String)
    → outside_store c allowed id ≡ false
    → StoreWithin c allowed id
store_passes c allowed id h = elim (Option-cases (lookup id c.stores)) [
  | inl gone ↦ absurd (ground (arith, h, gone))
  | inr (s, there) ↦ (s, there, ground (arith, h, there))
]

pool_passes :
    (c : PlacementConfig) (allowed : List String) (id : String)
    → outside_pool c allowed id ≡ false
    → PoolFound c allowed id
pool_passes c allowed id h = elim (Option-cases (lookup id c.pools)) [
  | inl gone ↦ absurd (ground (arith, h, gone))
  | inr (p, there) ↦ (p, there, ground (arith, h, there))
]

pool_with_store :
    (c : PlacementConfig) (allowed : List String) (id : String)
    → PoolFound c allowed id
    → StoreWithin c allowed (pool_profile (lookup id c.pools))
    → PoolWithin c allowed id
pool_with_store c allowed id (p, there, inside) s = (p, there, inside, rw there at s)

elsewhere_passes :
    (c : PlacementConfig) (location id : String)
    → store_is_elsewhere location (lookup id c.stores) ≡ false
    → (s : StoreProfile) × (lookup id c.stores ≡ some s) × (s.location ≡ location)
elsewhere_passes c location id h = elim (Option-cases (lookup id c.stores)) [
  | inl gone ↦ absurd (ground (arith, h, gone))
  | inr (s, there) ↦ (s, there, ground (arith, h, there, str_eq_iff s.location location))
]

endpoint_found :
    (c : PlacementConfig) (p : MaterializerPolicy) (id : String) (e : ServingEndpoint)
    → lookup id c.serving_endpoints ≡ some e
    → endpoint_rule c p (some e) ≡ none
    → EndpointWithin c p.residency_locations id
endpoint_found c p id e there h =
    let outside = not (contains p.residency_locations e.location) in
    let elsewhere = store_is_elsewhere e.location (lookup e.storage_profile c.stores) in
    let first = also-none (refuse outside residency_policy_violation) _ h in
    let second = also-none (refuse elsewhere residency_policy_violation) _ first.1 in
    let inside : outside ≡ false = refuse-none outside _ first.0 in
    let (s, stored, same) =
      elsewhere_passes c e.location e.storage_profile (refuse-none elsewhere _ second.0) in
    (e, there, ground (arith, inside), s, stored, same)

endpoint_passes :
    (c : PlacementConfig) (p : MaterializerPolicy) (id : String)
    → endpoint_rule c p (lookup id c.serving_endpoints) ≡ none
    → EndpointWithin c p.residency_locations id
endpoint_passes c p id h = elim (Option-cases (lookup id c.serving_endpoints)) [
  | inl gone ↦ absurd (ground (arith, h, gone))
  | inr (e, there) ↦ endpoint_found c p id e there (rw there at h)
]

pub residency_rules-IsContained :
    (c : PlacementConfig) (p : MaterializerPolicy)
    → residency_rules c p ≡ none
    → IsContained c p.residency_locations p
unfolding residency_rules
residency_rules-IsContained c p h =
    let allowed = p.residency_locations in
    let chain = also-none _ _ h in
    let place = also-none _ _ chain.1 in
    let pools = also-none (forbid (outside_pool c allowed) _ (policy_pools p)) _ place.1 in
    let ends =
      also-none
        (check_each (λ id. endpoint_rule c p (lookup id c.serving_endpoints)) p.serving_endpoints) _
        pools.1 in
    let stores =
      forbid-All (StoreWithin c allowed) (outside_store c allowed) _ (residency_profiles c p)
        (store_passes c allowed) ends.1 in
    let replicas =
      All-append_parts (StoreWithin c allowed) p.replica_storage_profiles _ stores.1.1 in
    let caches = All-append_parts (StoreWithin c allowed) p.cache_storage_profiles _ replicas.1 in
    let pool_stores =
      All-append_parts (StoreWithin c allowed)
        (map (λ id. pool_profile (lookup id c.pools)) (policy_pools p)) _ caches.1 in
    record {
      published_within = stores.0;
      staging_within = stores.1.0;
      replicas_within = replicas.0;
      caches_within = caches.0;
      pools_within =
          All-zip (PoolFound c allowed)
            (λ id. StoreWithin c allowed (pool_profile (lookup id c.pools))) (PoolWithin c allowed)
            (policy_pools p) (pool_with_store c allowed)
            (forbid-All (PoolFound c allowed) (outside_pool c allowed) _ (policy_pools p)
              (pool_passes c allowed) pools.0)
            (All-map (StoreWithin c allowed) (λ id. pool_profile (lookup id c.pools))
              (policy_pools p) pool_stores.0);
      endpoints_within =
          check_each-All (EndpointWithin c allowed)
            (λ id. endpoint_rule c p (lookup id c.serving_endpoints)) p.serving_endpoints
            (endpoint_passes c p) ends.0;
    }

module _ (c : PlacementConfig) (xs ys : List String) (sub : is_subset xs ys ≡ true) where
  store_wider : (id : String) → StoreWithin c xs id → StoreWithin c ys id
  store_wider id (s, there, inside) = (s, there, contains-is_subset xs ys s.location sub inside)

  pool_wider : (id : String) → PoolWithin c xs id → PoolWithin c ys id
  pool_wider id (p, there, inside, s) =
      (p, there, contains-is_subset xs ys p.location sub inside, store_wider p.storage_profile s)

  endpoint_wider : (id : String) → EndpointWithin c xs id → EndpointWithin c ys id
  endpoint_wider id (e, there, inside, s, stored, same) =
      (e, there, contains-is_subset xs ys e.location sub inside, s, stored, same)

  pub IsContained-is_subset : (p : MaterializerPolicy) → IsContained c xs p → IsContained c ys p
  IsContained-is_subset p h = record {
    published_within = store_wider _ h.published_within;
    staging_within = store_wider _ h.staging_within;
    replicas_within = All-imp _ _ p.replica_storage_profiles store_wider h.replicas_within;
    caches_within = All-imp _ _ p.cache_storage_profiles store_wider h.caches_within;
    pools_within = All-imp _ _ (policy_pools p) pool_wider h.pools_within;
    endpoints_within = All-imp _ _ p.serving_endpoints endpoint_wider h.endpoints_within;
  }
