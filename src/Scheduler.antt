-- ===== src/Scheduler.antt =====
-- The agents that a task can go to: `TaskScheduler` of enterprise/control/task_scheduler.py, up to
-- its loop.
pub mod Best
pub mod Eligible
pub mod Places
pub mod Choice
pub mod Dispatch
pub mod Claiming
pub mod Run
use fabric_shortcut_proxy.Prelude.{
  ℕ, ◌+◌, ◌*◌, max, String, str_eq, Bool, true, false, not, ◌&&◌, ◌||◌, Option, none, some, List,
  [], ◌∷◌, ◌++◌, if◌then◌else◌, ltb, leb, ◌==◌, text_before, contains, is_nil, is_some,
}
use fabric_shortcut_proxy.Prelude.Int.{ℤ, int_eq}
use fabric_shortcut_proxy.Dict.{Dict, lookup}
use fabric_shortcut_proxy.Placement.{
  PlacementConfig, MaterializerPolicy, MaterializerPool, allows, is_enabled, lookup_table, is_empty,
}
use fabric_shortcut_proxy.Placement.Rules.{validate_task_tenant, validate_dispatch}
use fabric_shortcut_proxy.Registry.{AgentRecord, Registry}
use fabric_shortcut_proxy.Registry.Calls.{is_alive}
use fabric_shortcut_proxy.WorkQueue.Task.{MaterializeTask}

-- The dicts of active claims; a key that is not there counts 0.
pub record Counts : Type 0 where
  pub agents : String → ℕ
  pub datasets : String → String → ℕ
  pub sources : String → ℕ
  pub pools : String → ℕ

pub record Candidate : Type 0 where
  pub agent_id : String
  pub load : ℕ
  pub capacity : ℕ

abbrev pub bump : String → (String → ℕ) → String → ℕ
bump k f x = if str_eq k x then f x + 1 else f x

unfoldable pub capacity_of : AgentRecord → ℕ
capacity_of a = max 1 a.capacity_hint

-- One claim where the shard that owns the read is given, else so many for each unit of capacity.
unfoldable pub claim_limit : ℕ → Option ℤ → AgentRecord → ℕ
unfolding capacity_of
claim_limit inflight none a = inflight * capacity_of a
claim_limit inflight (some shard) a = 1

unfoldable pub owns_shard : Option ℤ → AgentRecord → Bool
owns_shard none a = true
owns_shard (some shard) a = int_eq a.shard_index shard

unfoldable pub is_allowed : Option (List String) → String → Bool
is_allowed none id = true
is_allowed (some ids) id = contains ids id

-- The tests of `_eligible_agents` on one agent.
unfoldable pub is_eligible :
    ℕ → Registry → ℕ → (String → ℕ) → Option ℤ → Option (List String) → AgentRecord → Bool
unfolding is_allowed owns_shard claim_limit
is_eligible now r inflight claims shard allowed a =
    is_alive now a.agent_id r
    && is_allowed allowed a.agent_id
    && contains a.capabilities "materializer"
    && not a.draining
    && owns_shard shard a
    && ltb (claims a.agent_id) (claim_limit inflight shard a)

unfoldable pub eligible_among :
    ℕ
    → Registry
    → ℕ
    → (String → ℕ)
    → Option ℤ
    → Option (List String)
    → Dict AgentRecord
    → List Candidate
unfolding is_eligible capacity_of
eligible_among now r inflight claims shard allowed [] = []
eligible_among now r inflight claims shard allowed ((id, a) ∷ d) =
    let rest = eligible_among now r inflight claims shard allowed d in
    if is_eligible now r inflight claims shard allowed a
    then record {
      agent_id = a.agent_id;
      load = a.health.inflight + claims a.agent_id;
      capacity = capacity_of a;
    }
      ∷ rest
    else rest

-- `_eligible_agents`
unfoldable pub eligible_agents :
    ℕ → Registry → ℕ → (String → ℕ) → Option ℤ → Option (List String) → List Candidate
unfolding eligible_among
eligible_agents now r inflight claims shard allowed =
    eligible_among now r inflight claims shard allowed r.agents

unfoldable pub dataset_scope : PlacementConfig → String → String → String × String
unfolding lookup_table
dataset_scope c connection_id source_table =
    if is_some (lookup_table connection_id source_table c.tables)
    then (connection_id, source_table)
    else (connection_id, "")

abbrev pub at_limit : Option ℕ → ℕ → Bool
at_limit none n = false
at_limit (some limit) n = leb limit n

unfoldable pub is_pinning : MaterializerPolicy → Bool
is_pinning p =
    not (is_empty p.required_pool)
    || not (is_empty p.required_location)
    || not (is_empty p.required_storage_profile)
    || not (is_nil p.fallback_pools)

unfoldable pub targets_of : MaterializerPolicy → List String
targets_of p =
    if is_empty p.required_pool then p.fallback_pools else p.required_pool ∷ p.fallback_pools

-- `_contract_version(agent) < (1, 1)`; a version that cannot be read is (0, 0).
unfoldable pub is_old_contract : Option (ℕ × ℕ) → Bool
is_old_contract none = true
is_old_contract (some (major, minor)) = ltb major 1 || ((major == 1) && ltb minor 1)

unfoldable pub tenant_is : String → Option AgentRecord → Bool
tenant_is tenant none = is_empty tenant
tenant_is tenant (some a) = str_eq a.tenant_id tenant

unfoldable pub of_tenant : Registry → String → List Candidate → List Candidate
unfolding tenant_is
of_tenant r tenant [] = []
of_tenant r tenant (x ∷ xs) =
    let rest = of_tenant r tenant xs in
    if tenant_is tenant (lookup x.agent_id r.agents) then x ∷ rest else rest

unfoldable pub of_task_tenant : Registry → String → List Candidate → List Candidate
unfolding of_tenant
of_task_tenant r tenant xs = if is_nil r.placement.tenants then xs else of_tenant r tenant xs

-- The limits of a source and of a dataset.
unfoldable pub is_full : PlacementConfig → MaterializerPolicy → MaterializeTask → Counts → Bool
unfolding dataset_scope
is_full c policy t counts =
    let scope = dataset_scope c t.connection_id t.source_table in
    at_limit policy.source_max_concurrency (counts.sources t.connection_id)
    || at_limit policy.max_concurrency (counts.datasets scope.0 scope.1)

module _ (fnmatchcase : String → String → Bool) (version_tuple : String → Option (ℕ × ℕ)) where
  -- The tests of `matching` on the pool of an agent; the empty target is any pool.
  unfoldable pub pool_matches :
      MaterializerPolicy
      → MaterializeTask
      → (String → ℕ)
      → String
      → String
      → Option MaterializerPool
      → Bool
  pool_matches policy t claims pool_id target none = false
  pool_matches policy t claims pool_id target (some pool) =
      not (not (is_empty target) && not (str_eq pool_id target))
      && allows fnmatchcase pool t.connection_id t.source_table
      && not (
          not (is_empty policy.required_location)
          && not (str_eq pool.location policy.required_location))
      && not (
          not (is_empty policy.required_storage_profile)
          && not (str_eq pool.storage_profile policy.required_storage_profile))
      && not (at_limit pool.max_concurrency (claims pool_id))

  unfoldable pub matches_agent :
      PlacementConfig
      → MaterializerPolicy
      → MaterializeTask
      → (String → ℕ)
      → String
      → Option AgentRecord
      → Bool
  unfolding pool_matches is_pinning is_old_contract
  matches_agent c policy t claims target none = false
  matches_agent c policy t claims target (some a) =
      not (is_pinning policy && is_old_contract (version_tuple a.contract_version))
      && pool_matches policy t claims a.pool_id target (lookup a.pool_id c.pools)

  unfoldable pub matching :
      Registry
      → MaterializerPolicy
      → MaterializeTask
      → (String → ℕ)
      → String
      → List Candidate
      → List Candidate
  unfolding matches_agent
  matching r policy t claims target [] = []
  matching r policy t claims target (x ∷ xs) =
      let rest = matching r policy t claims target xs in
      if matches_agent r.placement policy t claims target (lookup x.agent_id r.agents)
      then x ∷ rest
      else rest

  -- The first target for which an agent matches.
  unfoldable pub first_target :
      Registry
      → MaterializerPolicy
      → MaterializeTask
      → (String → ℕ)
      → List String
      → List Candidate
      → List Candidate
  unfolding matching
  first_target r policy t claims [] xs = []
  first_target r policy t claims (target ∷ targets) xs =
      let here = matching r policy t claims target xs in
      let rest = first_target r policy t claims targets xs in if is_nil here then rest else here

  unfoldable pub by_targets :
      Registry
      → MaterializerPolicy
      → MaterializeTask
      → (String → ℕ)
      → List String
      → List Candidate
      → List Candidate
  unfolding matching first_target
  by_targets r policy t claims [] xs = matching r policy t claims "" xs
  by_targets r policy t claims (target ∷ targets) xs =
      first_target r policy t claims (target ∷ targets) xs

  -- `_placement_eligible`
  unfoldable pub placement_eligible :
      Registry → MaterializerPolicy → MaterializeTask → Counts → List Candidate → List Candidate
  unfolding of_task_tenant is_full by_targets targets_of
  placement_eligible r policy t counts xs =
      let c = r.placement in
      if is_some (validate_task_tenant c t.tenant_id policy)
        || is_some (validate_dispatch c policy t.connection_id)
      then []
      else if not (is_enabled c)
      then of_task_tenant r t.tenant_id xs
      else if is_full c policy t counts
      then []
      else by_targets r policy t counts.pools (targets_of policy) (of_task_tenant r t.tenant_id xs)
