-- ===== src/Placement.antt =====
-- enterprise/control/placement.py: the pools, policies, stores and endpoints that an operator
-- declares, and the rules that a policy is checked by before its tasks are handed out. Sets are
-- lists; the texts of the violations are left out, their codes are kept.
pub mod Rules
pub mod Binding
pub mod Tenants
pub mod Residency
pub mod Dispatch
use fabric_shortcut_proxy.Prelude.{
  ℕ, String, str_eq, Bool, true, false, not, ◌&&◌, ◌||◌, Option, none, some, List, [], ◌∷◌, ◌++◌,
  if◌then◌else◌, any, is_some, contains, is_nil,
}
use fabric_shortcut_proxy.Dict.{Dict, lookup, insert}

abbrev pub is_empty : String → Bool
is_empty s = str_eq s ""

pub data Violation : Type 0 where
  residency_policy_violation tenant_isolation_violation key_error : Violation

pub record StoreProfile : Type 0 where
  pub location : String
  pub provider : String
  pub tenant_id : String

pub record ServingEndpoint : Type 0 where
  pub location : String
  pub storage_profile : String
  pub url : String
  pub tenant_id : String

pub record MaterializerPool : Type 0 where
  pub pool_id : String
  pub identities : List String
  pub location : String
  pub storage_profile : String
  pub allowed_connection_ids : List String
  pub allowed_table_patterns : List String
  pub max_concurrency : Option ℕ
  pub heartbeat_ms : Option ℕ
  pub heartbeat_miss_limit : Option ℕ
  pub claim_lease_seconds : Option ℕ
  pub tenant_id : String
  pub upgrade_ring : String

pub record MaterializerPolicy : Type 0 where
  pub tenant_id : String
  pub required_pool : String
  pub required_location : String
  pub required_storage_profile : String
  pub fallback_pools : List String
  pub max_concurrency : Option ℕ
  pub source_max_concurrency : Option ℕ
  pub residency_locations : List String
  pub staging_storage_profile : String
  pub serving_endpoints : List String
  pub replica_storage_profiles : List String
  pub cache_storage_profiles : List String
  pub freshness_target_ms : Option ℕ

abbrev pub no_policy : MaterializerPolicy
no_policy = record {
  tenant_id = "";
  required_pool = "";
  required_location = "";
  required_storage_profile = "";
  fallback_pools = [];
  max_concurrency = none;
  source_max_concurrency = none;
  residency_locations = [];
  staging_storage_profile = "";
  serving_endpoints = [];
  replica_storage_profiles = [];
  cache_storage_profiles = [];
  freshness_target_ms = none;
}

-- The releases that each ring may run.
pub record AgentVersionPolicy : Type 0 where
  pub current : String
  pub previous : String
  pub rings : Dict (List String)

pub record PlacementConfig : Type 0 where
  pub pools : Dict MaterializerPool
  pub connections : Dict MaterializerPolicy
  pub tables : List ((String × String) × MaterializerPolicy)
  pub stores : Dict StoreProfile
  pub serving_endpoints : Dict ServingEndpoint
  pub tenants : List String
  pub agent_versions : Option AgentVersionPolicy
  pub active_storage_profile : String

-- `fnmatchcase` is an argument.
unfoldable pub allows : (String → String → Bool) → MaterializerPool → String → String → Bool
allows fnmatchcase pool connection_id source_table =
    if is_empty connection_id || not (contains pool.allowed_connection_ids connection_id)
    then false
    else is_nil pool.allowed_table_patterns
      || any (fnmatchcase source_table) pool.allowed_table_patterns

add_identities : MaterializerPool → List String → Dict MaterializerPool → Dict MaterializerPool
add_identities pool [] d = d
add_identities pool (i ∷ is) d = add_identities pool is (insert i pool d)

add_pools : Dict MaterializerPool → Dict MaterializerPool → Dict MaterializerPool
unfolding add_identities
add_pools [] d = d
add_pools ((k, pool) ∷ ps) d = add_pools ps (add_identities pool pool.identities d)

-- The dict `identity_pools` that the constructor builds.
unfoldable pub identity_pools : PlacementConfig → Dict MaterializerPool
unfolding add_pools
identity_pools c = add_pools c.pools []

unfoldable pub pool_for_identity : PlacementConfig → String → Option MaterializerPool
unfolding identity_pools
pool_for_identity c identity = lookup identity (identity_pools c)

unfoldable pub is_enabled : PlacementConfig → Bool
is_enabled c = not (is_nil c.tenants && is_nil c.pools && is_nil c.connections && is_nil c.tables)

unfoldable pub lookup_table :
    String → String → List ((String × String) × MaterializerPolicy) → Option MaterializerPolicy
lookup_table c t [] = none
lookup_table c t (((k, j), p) ∷ ts) =
    if str_eq k c && str_eq j t then some p else lookup_table c t ts

or_no_policy : Option MaterializerPolicy → MaterializerPolicy
or_no_policy none = no_policy
or_no_policy (some p) = p

-- The policy of a table takes the source limit of its connection, if it has none.
with_parent : MaterializerPolicy → Option MaterializerPolicy → MaterializerPolicy
with_parent parent none = parent
with_parent parent (some p) =
    if not (is_some p.source_max_concurrency) && is_some parent.source_max_concurrency
    then record p { source_max_concurrency = parent.source_max_concurrency }
    else p

unfoldable pub policy_for : PlacementConfig → String → String → MaterializerPolicy
unfolding lookup_table or_no_policy with_parent
policy_for c connection_id source_table =
    with_parent (or_no_policy (lookup connection_id c.connections))
      (lookup_table connection_id source_table c.tables)

-- `AgentVersionUnsupported`, and the `KeyError` of a ring that is not declared.
pub data VersionError : Type 0 where
  agent_version_unsupported unknown_ring : VersionError

ring_allows : String → Option (List String) → Option VersionError
ring_allows release none = some unknown_ring
ring_allows release (some allowed) =
    if contains allowed release then none else some agent_version_unsupported

release_allowed : AgentVersionPolicy → String → Option String → Option VersionError
unfolding ring_allows
release_allowed policy ring none = some agent_version_unsupported
release_allowed policy ring (some release) =
    if not (str_eq release policy.current || str_eq release policy.previous)
    then some agent_version_unsupported
    else ring_allows release (lookup ring policy.rings)

pool_allowed : AgentVersionPolicy → Option String → Option MaterializerPool → Option VersionError
unfolding release_allowed
pool_allowed policy release none = some agent_version_unsupported
pool_allowed policy release (some pool) = release_allowed policy pool.upgrade_ring release

version_allowed :
    Option AgentVersionPolicy → Option String → Option MaterializerPool → Option VersionError
unfolding pool_allowed
version_allowed none release pool = none
version_allowed (some policy) release pool = pool_allowed policy release pool

-- `release_of` reads "major.minor" from a semantic version.
unfoldable pub validate_agent_version :
    (String → Option String) → PlacementConfig → String → String → Option VersionError
unfolding version_allowed pool_for_identity
validate_agent_version release_of c identity version =
    version_allowed c.agent_versions (release_of version) (pool_for_identity c identity)
