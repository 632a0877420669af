-- ===== src/Scheduler/Eligible.antt =====
-- What holds of the agent that the scheduler chooses for a task.
use fabric_shortcut_proxy.Prelude.{
  ℕ, ◌*◌, max, not, ◌&&◌, str_eq_iff, is_nil, none, ◌-◌, ◌≤◌, ◌<◌, String, Bool, true, false,
  Option, some, List, [], ◌∷◌, ◌≡◌, refl, sym, subst, arith, All, contains, Bool-cases, inl, inr,
  ◌⊎◌,
}
use fabric_shortcut_proxy.Prelude.Int.{ℤ, pos, negsuc, int_eq}
use fabric_shortcut_proxy.Dict.{Dict, lookup, All-lookup}
use fabric_shortcut_proxy.Placement.{PlacementConfig, MaterializerPolicy, MaterializerPool, allows}
use fabric_shortcut_proxy.Registry.{AgentRecord, Registry, Readers}
use fabric_shortcut_proxy.Registry.Calls.{is_alive, is_record_alive, found_alive, heartbeat_timeout}
use fabric_shortcut_proxy.Registry.Undo.{IsSettled}
use fabric_shortcut_proxy.Registry.Invariant.{IsWell, All-found}
use fabric_shortcut_proxy.WorkQueue.Task.{MaterializeTask}
use fabric_shortcut_proxy.Scheduler.{
  Counts, Candidate, claim_limit, owns_shard, is_allowed, is_eligible, eligible_among,
  eligible_agents, at_limit, targets_of, capacity_of, is_pinning, is_old_contract,
}

-- Every entry of a well-formed registry is found under the agent's own id.
abbrev Found : Registry → AgentRecord → Type 0
Found r a = lookup a.agent_id r.agents ≡ some a

entries-Found :
    (read : Readers) (now : ℕ) (r : Registry)
    → IsWell read now r
    → All (λ (e : String × AgentRecord). Found r e.1) r.agents
entries-Found read now r well =
    All-found (λ e. Found r e.1) r.agents well.distinct
      (λ id a there.
        subst (λ k. lookup k r.agents ≡ some a)
          (sym (All-lookup (IsSettled read r.placement now) id a r.agents well.settled there).named)
          there)

-- The agent is the one of the shard that owns the read, where that is given.
abbrev pub Owner : Option ℤ → AgentRecord → Type 0
Owner none a = Unit
Owner (some shard) a = a.shard_index ≡ shard

-- One claim where the owner of the read is given, else so many for each unit of capacity.
abbrev pub BelowLimit : ℕ → Option ℤ → AgentRecord → ℕ → Type 0
BelowLimit inflight none a claims = claims < inflight * max 1 a.capacity_hint
BelowLimit inflight (some shard) a claims = claims < 1

-- Below a limit, if there is one.
abbrev pub Below : Option ℕ → ℕ → Type 0
Below none n = Unit
Below (some limit) n = n < limit

-- The policy asks for nothing, or the agent's contract version is at least 1.1.
abbrev pub KnowsPlacement : (String → Option (ℕ × ℕ)) → MaterializerPolicy → AgentRecord → Type 0
KnowsPlacement version_tuple policy a =
    (policy.required_pool ≡ "")
      × (policy.required_location ≡ "")
      × (policy.required_storage_profile ≡ "")
      × (policy.fallback_pools ≡ [])
    ⊎ ((major : ℕ) × (minor : ℕ) × (version_tuple a.contract_version ≡ some (major, minor))
        × ((1 < major) ⊎ (major ≡ 1) × (1 ≤ minor)))

int_eq→path : (m n : ℤ) → int_eq m n ≡ true → m ≡ n
int_eq→path (pos m) (pos n) h = ground (arith, h)
int_eq→path (negsuc m) (negsuc n) h = ground (arith, h)
int_eq→path (pos m) (negsuc n) h = cc
int_eq→path (negsuc m) (pos n) h = cc

owns_shard-Owner : (shard : Option ℤ) (a : AgentRecord) → owns_shard shard a ≡ true → Owner shard a
unfolding owns_shard
owns_shard-Owner none a h = tt
owns_shard-Owner (some shard) a h = int_eq→path a.shard_index shard h

claim_limit-BelowLimit :
    (inflight : ℕ) (shard : Option ℤ) (a : AgentRecord) (n : ℕ)
    → n < claim_limit inflight shard a
    → BelowLimit inflight shard a n
unfolding claim_limit capacity_of
claim_limit-BelowLimit inflight none a n h = h
claim_limit-BelowLimit inflight (some shard) a n h = h

pub at_limit-Below : (limit : Option ℕ) (n : ℕ) → at_limit limit n ≡ false → Below limit n
at_limit-Below none n h = tt
at_limit-Below (some limit) n h = ground (arith, h)

is_nil→path : (xs : List String) → is_nil xs ≡ true → xs ≡ []
is_nil→path [] h = refl
is_nil→path (x ∷ xs) h = cc

new_contract :
    (o : Option (ℕ × ℕ))
    → is_old_contract o ≡ false
    → (major : ℕ) × (minor : ℕ) × (o ≡ some (major, minor))
      × ((1 < major) ⊎ (major ≡ 1) × (1 ≤ minor))
unfolding is_old_contract
new_contract none h = cc
new_contract (some (major, minor)) h = (major, minor, refl, ground (arith, h))

pub is_pinning-KnowsPlacement :
    (version_tuple : String → Option (ℕ × ℕ)) (policy : MaterializerPolicy) (a : AgentRecord)
    → not (is_pinning policy && is_old_contract (version_tuple a.contract_version)) ≡ true
    → KnowsPlacement version_tuple policy a
unfolding is_pinning
is_pinning-KnowsPlacement version_tuple policy a h = elim (Bool-cases (is_pinning policy)) [
  | inl pins ↦ inr (
      new_contract (version_tuple a.contract_version)
        (ground (arith, h, pins, Bool-cases (is_old_contract (version_tuple a.contract_version)))))
  | inr asks_nothing ↦ inl (
    ground (arith, asks_nothing, str_eq_iff policy.required_pool ""),
    ground (arith, asks_nothing, str_eq_iff policy.required_location ""),
    ground (arith, asks_nothing, str_eq_iff policy.required_storage_profile ""),
    is_nil→path policy.fallback_pools (ground (arith, asks_nothing)),
  )
]

-- The tests on the agent itself.
pub record IsReady (now : ℕ) (r : Registry) (inflight : ℕ) (claims : String → ℕ) (shard : Option ℤ)
    (allowed : Option (List String)) (a : AgentRecord) : Type 0 where
  pub found : lookup a.agent_id r.agents ≡ some a
  pub seen_in_time : now - a.last_seen ≤ heartbeat_timeout r a.agent_id
  pub member : is_allowed allowed a.agent_id ≡ true
  pub materializes : contains a.capabilities "materializer" ≡ true
  pub not_draining : a.draining ≡ false
  pub owner : Owner shard a
  pub below_limit : BelowLimit inflight shard a (claims a.agent_id)

-- The pool of the agent is declared, allows the table, is where the policy asks for, and has room;
-- and the agent knows placements if the policy asks for one.
pub record IsPlaced (fnmatchcase : String → String → Bool) (version_tuple : String → Option (ℕ × ℕ))
    (c : PlacementConfig) (policy : MaterializerPolicy) (t : MaterializeTask) (counts : Counts)
    (a : AgentRecord) (pool : MaterializerPool) : Type 0 where
  pub declared : lookup a.pool_id c.pools ≡ some pool
  pub allows_table : allows fnmatchcase pool t.connection_id t.source_table ≡ true
  pub in_location : (policy.required_location ≡ "") ⊎ (pool.location ≡ policy.required_location)
  pub in_store :
      (policy.required_storage_profile ≡ "")
      ⊎ (pool.storage_profile ≡ policy.required_storage_profile)
  pub targeted :
      (targets_of policy ≡ [])
      ⊎ (contains (targets_of policy) a.pool_id ≡ true)
      ⊎ (contains (targets_of policy) "" ≡ true)
  pub has_room : Below pool.max_concurrency (counts.pools a.pool_id)
  pub knows : KnowsPlacement version_tuple policy a

module _ (now : ℕ) (r : Registry) (inflight : ℕ) (claims : String → ℕ) (shard : Option ℤ)
    (allowed : Option (List String)) where
  pub ready :
      (a : AgentRecord)
      → Found r a
      → is_eligible now r inflight claims shard allowed a ≡ true
      → IsReady now r inflight claims shard allowed a
  unfolding is_eligible is_alive found_alive is_record_alive
  ready a there h = record {
    found = there;
    seen_in_time = ground (arith, h, there);
    member = ground (arith, h);
    materializes = ground (arith, h);
    not_draining = ground (arith, h);
    owner = owns_shard-Owner shard a (ground (arith, h));
    below_limit = claim_limit-BelowLimit inflight shard a (claims a.agent_id) (ground (arith, h));
  }

  -- A candidate stands for a ready agent.
  abbrev pub Ready : Candidate → Type 0
  Ready x =
      (a : AgentRecord) × (x.agent_id ≡ a.agent_id) × IsReady now r inflight claims shard allowed a

  eligible_among-All :
      (d : Dict AgentRecord)
      → All (λ (e : String × AgentRecord). Found r e.1) d
      → All Ready (eligible_among now r inflight claims shard allowed d)
  unfolding eligible_among
  eligible_among-All [] h = tt
  eligible_among-All ((id, a) ∷ d) h =
      elim (Bool-cases (is_eligible now r inflight claims shard allowed a)) [
        | inl fits ↦ rw fits ((a, refl, ready a h.0 fits), eligible_among-All d h.1)
        | inr not_fit ↦ rw not_fit (eligible_among-All d h.1)
      ]

  pub eligible_agents-All :
      (read : Readers)
      → IsWell read now r
      → All Ready (eligible_agents now r inflight claims shard allowed)
  unfolding eligible_agents
  eligible_agents-All read well = eligible_among-All r.agents (entries-Found read now r well)
