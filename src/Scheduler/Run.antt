-- ===== src/Scheduler/Run.antt =====
-- The loop of `dispatch_once` in enterprise/control/task_scheduler.py, and the whole of it.
use fabric_shortcut_proxy.Prelude.{
  ℕ, ◌+◌, String, Bool, true, false, Option, none, some, List, [], ◌∷◌, if◌then◌else◌,
}
use Prim.Native.String.{◌++◌ as text_append}
use fabric_shortcut_proxy.Dict.{Dict, lookup, remove}
use fabric_shortcut_proxy.Placement.{
  MaterializerPolicy, policy_for, Violation, residency_policy_violation, tenant_isolation_violation,
  key_error,
}
use fabric_shortcut_proxy.Placement.Rules.{validate_task_tenant, validate_dispatch, ◌also◌}
use fabric_shortcut_proxy.Registry.{AgentRecord, Registry, TaskOffer, materialize}
use fabric_shortcut_proxy.Registry.Calls.{queue_command}
use fabric_shortcut_proxy.WorkQueue.Task.{MaterializeTask, Task, Claim}
use fabric_shortcut_proxy.WorkQueue.Runnable.{runnable_tasks}
use fabric_shortcut_proxy.WorkQueue.Queue.{Queue, Membership}
use fabric_shortcut_proxy.WorkQueue.Changes.{
  ClaimError, expire_claims, cancel_request, set_dispatch_status, claim_task, release_claim,
}
use fabric_shortcut_proxy.Scheduler.{Candidate}
use fabric_shortcut_proxy.Scheduler.Best.{choose}
use fabric_shortcut_proxy.Scheduler.Dispatch.{
  Setting, State, no_counts, violation_code, reconcile_generations,
}
use fabric_shortcut_proxy.Scheduler.Claiming.{
  count_claim, count_claims, is_other_generation, required_owner_shard, active_members, claimant,
}

module _ (s : Setting) (now : ℕ) where
  offer_for : Task → Claim → TaskOffer
  offer_for t c = record {
    task_id = t.task_id;
    request_id = t.request_id;
    claim_token = c.claim_token;
    attempt = t.attempt;
    claim_expires_at_ms = c.expires_at_ms;
    membership_version = c.membership_version;
    worker_fence = c.worker_fence;
    task = record t.task { output_key = c.staging_key };
  }

  claimed_offer : Task → Option Claim → Option TaskOffer
  unfolding offer_for
  claimed_offer t none = none
  claimed_offer t (some c) = some (offer_for t c)

  -- The command task that `claim_task` returns.
  unfoldable pub offer_of : Option Task → Option TaskOffer
  unfolding claimed_offer
  offer_of none = none
  offer_of (some t) = claimed_offer t t.claim

  unfoldable pub sent : State → String → MaterializeTask → Queue → Registry × Bool → State
  unfolding count_claim
  sent st agent_id t q (r, true) = record st {
    queue = q;
    registry = r;
    counts = count_claim s now r agent_id t st.counts;
    dispatched = st.dispatched + 1;
  }
  sent st agent_id t q (r, false) = record st { queue = q; registry = r; raised = true }

  -- The command of a task that was claimed is queued, or the claim is released.
  unfoldable pub deliver : State → Task → String → Queue → Option TaskOffer → State
  unfolding sent queue_command release_claim
  deliver st t agent_id q none = record st { queue = q; raised = true }
  deliver st t agent_id q (some offer) =
      if s.is_removed t.task_id
      then record st {
        registry = record st.registry { agents = remove agent_id st.registry.agents };
        queue =
            (release_claim s.texts now offer.task_id offer.claim_token
              "agent_unregistered_before_delivery" q).0;
      }
      else sent st agent_id t.task q
          (queue_command s.readers now (s.write t.task_id) agent_id (materialize offer) st.registry)

  unfoldable pub after_claim : State → Task → String → Queue × Option ClaimError → State
  unfolding deliver offer_of
  after_claim st t agent_id (q, some conflict) = record st { queue = q }
  after_claim st t agent_id (q, none) =
      deliver st t agent_id q (offer_of (lookup t.task_id q.tasks))

  unfoldable pub claim_with : State → Task → Option Membership → Option AgentRecord → State
  unfolding after_claim claimant claim_task
  claim_with st t m none = st
  claim_with st t m (some a) =
      after_claim st t a.agent_id
        (claim_task s.texts now (claimant s now st.registry t.task_id a m) t.task_id st.queue)

  unfoldable pub claim_chosen : State → Task → Option Membership → Option Candidate → State
  unfolding claim_with set_dispatch_status
  claim_chosen st t m none = record st {
    queue = set_dispatch_status s.texts now t.task_id "no_eligible_materializer" st.queue;
  }
  claim_chosen st t m (some x) = claim_with st t m (lookup x.agent_id st.registry.agents)

  unfoldable pub place_task :
      State → Task → MaterializerPolicy → Option Membership → Option Violation → State
  unfolding claim_chosen choose active_members required_owner_shard set_dispatch_status
  place_task st t policy m none = claim_chosen st t m (
      choose s.fnmatchcase s.readers.version_tuple s.tie_break now st.registry
        s.max_inflight_per_agent
        (required_owner_shard s now (s.generation t.task_id)
          (text_append t.task.connection_id (text_append "::" t.task.source_table)))
        (active_members s now m) policy t.task_id t.task st.counts)
  place_task st t policy m (some key_error) = record st { raised = true }
  place_task st t policy m (some residency_policy_violation) = record st {
    queue =
        set_dispatch_status s.texts now t.task_id (violation_code residency_policy_violation)
          st.queue;
  }
  place_task st t policy m (some tenant_isolation_violation) = record st {
    queue =
        set_dispatch_status s.texts now t.task_id (violation_code tenant_isolation_violation)
          st.queue;
  }

  -- One task of the loop.
  unfoldable pub dispatch_task : Dict Membership → State → Task → State
  unfolding place_task is_other_generation cancel_request policy_for
  dispatch_task ms st t =
      let c = st.registry.placement in
      let policy = policy_for c t.task.connection_id t.task.source_table in
      if is_other_generation s now (s.generation t.task_id) t.task
      then record st {
        queue = (cancel_request s.texts now t.request_id "generation_fenced" st.queue).0;
      }
      else place_task st t policy (lookup t.task.generation_id ms) (
          validate_task_tenant c t.task.tenant_id policy
          also validate_dispatch c policy t.task.connection_id)

  unfoldable pub dispatch_tasks : Dict Membership → List Task → State → State
  unfolding dispatch_task
  dispatch_tasks ms [] st = st
  dispatch_tasks ms (t ∷ ts) st =
      dispatch_tasks ms ts (if st.raised then st else dispatch_task ms st t)

  -- `dispatch_once`
  unfoldable pub dispatch_once : Queue → Registry → State
  unfolding expire_claims reconcile_generations count_claims runnable_tasks dispatch_tasks
  dispatch_once q r =
      let q1 = expire_claims s.texts now q in
      let (q2, ms, raised) = reconcile_generations s now r q1.tasks q1.tasks q1 [] in
      dispatch_tasks ms (runnable_tasks now q2 q2.tasks) (record {
        queue = q2;
        registry = r;
        counts = count_claims s now r q2.tasks no_counts;
        dispatched = 0;
        raised = raised;
      })
