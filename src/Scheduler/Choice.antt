-- ===== src/Scheduler/Choice.antt =====
-- The choice of an agent in plain terms.
use fabric_shortcut_proxy.Prelude.{
  ℕ, String, str_eq, str_eq_iff, Bool, true, false, not, ◌&&◌, Option, none, some, List, [], ◌≡◌,
  refl, sym, ap, ◌∙◌, subst, arith, contains, is_nil, is_some, if◌then◌else◌, Bool-cases,
  Option-cases, inl, inr, ◌⊎◌,
}
use fabric_shortcut_proxy.Prelude.Int.{ℤ}
use fabric_shortcut_proxy.Dict.{lookup}
use fabric_shortcut_proxy.Placement.{
  PlacementConfig, MaterializerPolicy, MaterializerPool, is_enabled, is_empty, lookup_table,
}
use fabric_shortcut_proxy.Placement.Rules.{validate_task_tenant, validate_dispatch}
use fabric_shortcut_proxy.Registry.{AgentRecord, Registry, Readers}
use fabric_shortcut_proxy.Registry.Invariant.{IsWell}
use fabric_shortcut_proxy.WorkQueue.Task.{MaterializeTask}
use fabric_shortcut_proxy.Scheduler.{
  Counts, Candidate, eligible_agents, targets_of, pool_matches, matches_agent, tenant_is, is_full,
  dataset_scope,
}
use fabric_shortcut_proxy.Scheduler.Best.{choose}
use fabric_shortcut_proxy.Scheduler.Eligible.{
  IsReady, IsPlaced, Ready, KnowsPlacement, Below, at_limit-Below, is_pinning-KnowsPlacement,
  eligible_agents-All,
}
use fabric_shortcut_proxy.Scheduler.Places.{
  TenantKept, best-All, Placed, Passed, placement_eligible-All,
}

-- A text that is asked for is there.
kept_text :
    (asked has : String)
    → (not (is_empty asked) && not (str_eq has asked)) ≡ false
    → (asked ≡ "") ⊎ (has ≡ asked)
kept_text asked has h = elim (Bool-cases (is_empty asked)) [
  | inl empty ↦ inl ((str_eq_iff asked "").0 empty)
  | inr other ↦ inr (ground (arith, h, other, str_eq_iff has asked))
]

module _ (fnmatchcase : String → String → Bool) (version_tuple : String → Option (ℕ × ℕ))
    (c : PlacementConfig) (policy : MaterializerPolicy) (t : MaterializeTask) (counts : Counts)
    (a : AgentRecord) (target : String)
    (listed : (targets_of policy ≡ []) × (target ≡ "")
      ⊎ (contains (targets_of policy) target ≡ true)) where
  target_kept :
      (target ≡ "") ⊎ (a.pool_id ≡ target)
      → ((targets_of policy ≡ []) × (target ≡ "") ⊎ (contains (targets_of policy) target ≡ true))
      → (targets_of policy ≡ [])
        ⊎ (contains (targets_of policy) a.pool_id ≡ true)
        ⊎ (contains (targets_of policy) "" ≡ true)
  target_kept kept (inl (none_named, empty)) = inl none_named
  target_kept (inl empty) (inr named) =
      inr (inr (subst (λ x. contains (targets_of policy) x ≡ true) empty named))
  target_kept (inr same) (inr named) =
      inr (inl (subst (λ x. contains (targets_of policy) x ≡ true) (sym same) named))

  pool_placed :
      (pool : MaterializerPool)
      → KnowsPlacement version_tuple policy a
      → lookup a.pool_id c.pools ≡ some pool
      → pool_matches fnmatchcase version_tuple policy t counts.pools a.pool_id target (some pool)
        ≡ true
      → IsPlaced fnmatchcase version_tuple c policy t counts a pool
  unfolding pool_matches
  pool_placed pool knows there h = record {
    declared = there;
    allows_table = ground (arith, h);
    in_location = kept_text policy.required_location pool.location (ground (arith, h));
    in_store = kept_text policy.required_storage_profile pool.storage_profile (ground (arith, h));
    targeted = target_kept (kept_text target a.pool_id (ground (arith, h))) listed;
    has_room = at_limit-Below pool.max_concurrency (counts.pools a.pool_id) (ground (arith, h));
    knows = knows;
  }

  agent_placed :
      matches_agent fnmatchcase version_tuple c policy t counts.pools target (some a) ≡ true
      → (pool : MaterializerPool) × IsPlaced fnmatchcase version_tuple c policy t counts a pool
  unfolding matches_agent
  agent_placed h = elim (Option-cases (lookup a.pool_id c.pools)) [
    | inl gone ↦ absurd (ground (arith, h, gone, no_pool))
    | inr (pool, there) ↦ (
      pool,
      pool_placed pool (is_pinning-KnowsPlacement version_tuple policy a (ground (arith, h))) there
          (ground (arith, h, there)),
    )
  ]
    where
      no_pool :
          pool_matches fnmatchcase version_tuple policy t counts.pools a.pool_id target none ≡ false
      no_pool = unfold pool_matches in refl

-- The source is below its limit, and so is the dataset: a table that the configuration names counts
-- for itself, the others of a connection count together.
abbrev pub HasRoom : PlacementConfig → MaterializerPolicy → MaterializeTask → Counts → Type 0
HasRoom c policy t counts =
    Below policy.source_max_concurrency (counts.sources t.connection_id)
    × Below policy.max_concurrency (
        counts.datasets t.connection_id (
          if is_some (lookup_table t.connection_id t.source_table c.tables)
          then t.source_table
          else ""))

-- The choice of an agent for a task, in plain terms.
pub record IsChoice (fnmatchcase : String → String → Bool) (version_tuple : String → Option (ℕ × ℕ))
    (now : ℕ) (r : Registry) (inflight : ℕ) (shard : Option ℤ) (allowed : Option (List String))
    (policy : MaterializerPolicy) (t : MaterializeTask) (counts : Counts) (a : AgentRecord)
    : Type 0 where
  pub ready : IsReady now r inflight counts.agents shard allowed a
  pub task_tenant_passes : validate_task_tenant r.placement t.tenant_id policy ≡ none
  pub dispatch_passes : validate_dispatch r.placement policy t.connection_id ≡ none
  pub tenant_kept : (is_nil r.placement.tenants ≡ true) ⊎ (a.tenant_id ≡ t.tenant_id)
  pub placed :
      (is_enabled r.placement ≡ false)
      ⊎ HasRoom r.placement policy t counts
        × ((pool : MaterializerPool) × IsPlaced fnmatchcase version_tuple r.placement policy t
              counts a pool)

is_full-HasRoom :
    (c : PlacementConfig) (policy : MaterializerPolicy) (t : MaterializeTask) (counts : Counts)
    → is_full c policy t counts ≡ false
    → HasRoom c policy t counts
unfolding is_full dataset_scope
is_full-HasRoom c policy t counts h = (
  at_limit-Below policy.source_max_concurrency (counts.sources t.connection_id) (ground (arith, h)),
  elim (Bool-cases (is_some (lookup_table t.connection_id t.source_table c.tables))) [
    | inl own ↦ rw own (
        at_limit-Below policy.max_concurrency (counts.datasets t.connection_id t.source_table)
          (ground (arith, h, own)))
    | inr shared ↦ rw shared (
        at_limit-Below policy.max_concurrency (counts.datasets t.connection_id "")
          (ground (arith, h, shared)))
  ],
)

module _ (fnmatchcase : String → String → Bool) (version_tuple : String → Option (ℕ × ℕ)) (now : ℕ)
    (r : Registry) (inflight : ℕ) (shard : Option ℤ) (allowed : Option (List String))
    (policy : MaterializerPolicy) (t : MaterializeTask) (counts : Counts) where
  to_tenant :
      (x : Candidate) (a : AgentRecord)
      → lookup x.agent_id r.agents ≡ some a
      → TenantKept r t.tenant_id x
      → (is_nil r.placement.tenants ≡ true) ⊎ (a.tenant_id ≡ t.tenant_id)
  unfolding tenant_is
  to_tenant x a there (inl none_declared) = inl none_declared
  to_tenant x a there (inr same) =
      inr (ground (arith, same, there, str_eq_iff a.tenant_id t.tenant_id))

  to_place :
      (x : Candidate) (a : AgentRecord)
      → lookup x.agent_id r.agents ≡ some a
      → Placed fnmatchcase version_tuple r policy t counts x
      → (is_enabled r.placement ≡ false)
        ⊎ HasRoom r.placement policy t counts
          × ((pool : MaterializerPool) × IsPlaced fnmatchcase version_tuple r.placement policy t
                counts a pool)
  to_place x a there (inl off) = inl off
  to_place x a there (inr (room, (target, listed, fits))) = inr (
    is_full-HasRoom r.placement policy t counts room,
    agent_placed fnmatchcase version_tuple r.placement policy t counts a target listed
        (rw there at fits),
  )

  to_choice :
      (x : Candidate)
      → Ready now r inflight counts.agents shard allowed x
        × TenantKept r t.tenant_id x
        × Placed fnmatchcase version_tuple r policy t counts x
        × Passed fnmatchcase version_tuple r policy t counts
      → (a : AgentRecord) × (lookup x.agent_id r.agents ≡ some a)
        × IsChoice fnmatchcase version_tuple now r inflight shard allowed policy t counts a
  to_choice x ((a, same, is_ready), tenant, place, passed) =
      let there : lookup x.agent_id r.agents ≡ some a =
        ap (λ k. lookup k r.agents) same ∙ is_ready.found in
      (
        a,
        there,
        record {
          ready = is_ready;
          task_tenant_passes = passed.0;
          dispatch_passes = passed.1;
          tenant_kept = to_tenant x a there tenant;
          placed = to_place x a there place;
        },
      )

-- On a well-formed registry the agent that is taken for a task is registered, was seen in time, is
-- a member, a materializer, not draining, the owner of the shard where one is asked for, and below
-- its limit of claims; the task is of its dataset's tenant, its policy passes `validate_dispatch`,
-- and with tenants the agent is of the same tenant; and with a placement the source and the dataset
-- are below their limits, the agent's pool is declared, allows the table, is where the policy asks
-- for and has room, and the agent's contract version is at least 1.1 if the policy names a pool,
-- a location or a storage profile.
pub choose-IsChoice :
    (fnmatchcase : String → String → Bool) (version_tuple : String → Option (ℕ × ℕ))
    (tie_break : String → String → String) (read : Readers) (now : ℕ) (r : Registry) (inflight : ℕ)
    (shard : Option ℤ) (allowed : Option (List String)) (policy : MaterializerPolicy)
    (task_id : String) (t : MaterializeTask) (counts : Counts) (x : Candidate)
    → IsWell read now r
    → choose fnmatchcase version_tuple tie_break now r inflight shard allowed policy task_id t
        counts
      ≡ some x
    → (a : AgentRecord) × (lookup x.agent_id r.agents ≡ some a)
      × IsChoice fnmatchcase version_tuple now r inflight shard allowed policy t counts a
unfolding choose
choose-IsChoice fnmatchcase version_tuple tie_break read now r inflight shard allowed policy task_id
      t counts x well chosen =
    let ready_agents = eligible_agents now r inflight counts.agents shard allowed in
    to_choice fnmatchcase version_tuple now r inflight shard allowed policy t counts x (
      best-All _ (tie_break task_id) _ x chosen (
        placement_eligible-All fnmatchcase version_tuple r policy t counts
          (Ready now r inflight counts.agents shard allowed) ready_agents
          (eligible_agents-All now r inflight counts.agents shard allowed read well)))
