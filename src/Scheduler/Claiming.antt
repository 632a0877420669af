-- ===== src/Scheduler/Claiming.antt =====
-- The counts of active claims and what a claim is made with, in `dispatch_once` of
-- enterprise/control/task_scheduler.py.
use fabric_shortcut_proxy.Prelude.{
  ℕ, ◌+◌, String, str_eq, Bool, false, not, ◌&&◌, ◌||◌, Option, none, some, List, [], ◌∷◌,
  if◌then◌else◌, ◌==◌,
}
use fabric_shortcut_proxy.Prelude.Int.{ℤ}
use fabric_shortcut_proxy.Dict.{Dict, lookup}
use fabric_shortcut_proxy.Placement.{MaterializerPool, pool_for_identity, is_empty}
use fabric_shortcut_proxy.Registry.{AgentRecord, Registry}
use fabric_shortcut_proxy.Registry.Calls.{or_limit}
use fabric_shortcut_proxy.WorkQueue.Task.{MaterializeTask, Task, Claim, claimed, code_of, is_in}
use fabric_shortcut_proxy.WorkQueue.Steps.{Claimant}
use fabric_shortcut_proxy.WorkQueue.Queue.{Worker, Membership}
use fabric_shortcut_proxy.Scheduler.{Counts, bump, dataset_scope}
use fabric_shortcut_proxy.Scheduler.Dispatch.{ReadPlan, CurrentGeneration, Setting}

module _ (s : Setting) (now : ℕ) where
  count_pool : Option AgentRecord → Counts → Counts
  count_pool none c = c
  count_pool (some a) c =
      if is_empty a.pool_id then c else record c { pools = bump a.pool_id c.pools }

  -- One more active claim of an agent, for a task.
  unfoldable pub count_claim : Registry → String → MaterializeTask → Counts → Counts
  unfolding dataset_scope count_pool
  count_claim r agent_id t c =
      let scope = dataset_scope r.placement t.connection_id t.source_table in
      count_pool (lookup agent_id r.agents) (record c {
        agents = bump agent_id c.agents;
        datasets = λ x y.
            if str_eq scope.0 x && str_eq scope.1 y then c.datasets x y + 1 else c.datasets x y;
        sources = bump t.connection_id c.sources;
      })

  claimed_by : Option Claim → String
  claimed_by none = ""
  claimed_by (some c) = c.agent_id

  unfoldable pub count_claims : Registry → Dict Task → Counts → Counts
  unfolding code_of count_claim claimed_by
  count_claims r [] c = c
  count_claims r ((id, t) ∷ d) c =
      let agent = claimed_by t.claim in
      count_claims r d
        (if is_in t.state claimed && not (is_empty agent) then count_claim r agent t.task c else c)

  unfoldable pub is_other_generation : Option CurrentGeneration → MaterializeTask → Bool
  is_other_generation none t = false
  is_other_generation (some g) t =
      not (str_eq t.generation_id g.generation_id)
      || not (t.generation_fence == g.fence)
      || not (str_eq t.plan_sha256 g.plan_sha256)

  plan_shard : String → List ReadPlan → Option ℤ
  plan_shard table_id [] = none
  plan_shard table_id (p ∷ ps) =
      if str_eq p.table_id table_id
      then if str_eq p.provider "mssql_transaction" then some p.owner_shard else none
      else plan_shard table_id ps

  -- The shard that has to read, which holds the transaction.
  unfoldable pub required_owner_shard : Option CurrentGeneration → String → Option ℤ
  unfolding plan_shard
  required_owner_shard none table_id = none
  required_owner_shard (some g) table_id = plan_shard table_id g.table_plans

  active_ids : Dict Worker → List String
  active_ids [] = []
  active_ids ((id, w) ∷ ws) = let rest = active_ids ws in if w.is_active then id ∷ rest else rest

  unfoldable pub active_members : Option Membership → Option (List String)
  unfolding active_ids
  active_members none = none
  active_members (some m) = some (active_ids m.workers)

  version_of_membership : Option Membership → ℕ
  version_of_membership none = 0
  version_of_membership (some m) = m.membership_version

  found_fence : Option Worker → ℕ
  found_fence none = 0
  found_fence (some w) = w.worker_fence

  fence_in : String → Option Membership → ℕ
  unfolding found_fence
  fence_in agent_id none = 0
  fence_in agent_id (some m) = found_fence (lookup agent_id m.workers)

  claim_seconds : Option MaterializerPool → ℕ
  claim_seconds none = s.claim_lease_seconds
  claim_seconds (some pool) = or_limit pool.claim_lease_seconds s.claim_lease_seconds

  unfoldable pub claimant : Registry → String → AgentRecord → Option Membership → Claimant
  unfolding version_of_membership fence_in claim_seconds
  claimant r task_id a m = record {
    agent_id = a.agent_id;
    agent_lease_id = a.lease_id;
    manager_owner = s.manager_owner;
    manager_fence = s.manager_fence;
    membership_version = version_of_membership m;
    worker_fence = fence_in a.agent_id m;
    seconds = claim_seconds (pool_for_identity r.placement a.agent_id);
    claim_token = s.token task_id;
  }
