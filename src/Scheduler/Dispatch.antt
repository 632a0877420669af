-- ===== src/Scheduler/Dispatch.antt =====
-- The settings and the state of `dispatch_once` of enterprise/control/task_scheduler.py, and the
-- memberships of the generations. The metrics, audit records and logs are left out. A call that
-- raises ends the run.
use fabric_shortcut_proxy.Prelude.{
  ℕ, String, str_eq, Bool, true, false, not, ◌&&◌, ◌||◌, Option, none, some, List, [], ◌∷◌,
  if◌then◌else◌, contains, is_nil, is_some,
}
use fabric_shortcut_proxy.Prelude.Int.{ℤ}
use fabric_shortcut_proxy.Dict.{Dict, lookup, insert, has_key}
use fabric_shortcut_proxy.Placement.{
  MaterializerPolicy, policy_for, is_empty, Violation, residency_policy_violation,
  tenant_isolation_violation, key_error,
}
use fabric_shortcut_proxy.Placement.Rules.{validate_task_tenant, validate_dispatch}
use fabric_shortcut_proxy.Registry.{AgentRecord, Registry, Readers, Write}
use fabric_shortcut_proxy.Registry.Calls.{is_alive}
use fabric_shortcut_proxy.WorkQueue.Task.{MaterializeTask, Task, is_terminal}
use fabric_shortcut_proxy.WorkQueue.Steps.{Texts}
use fabric_shortcut_proxy.WorkQueue.Queue.{Queue, Membership}
use fabric_shortcut_proxy.WorkQueue.Membership.{
  Observed, reconcile_membership, reassign_fenced_claims, waiting_membership, MembershipError,
}
use fabric_shortcut_proxy.Scheduler.{
  Counts, Candidate, capacity_of, placement_eligible, of_task_tenant,
}

-- What the scheduler reads of a plan and of the current generation.
pub record ReadPlan : Type 0 where
  pub table_id : String
  pub provider : String
  pub owner_shard : ℤ

pub record CurrentGeneration : Type 0 where
  pub generation_id : String
  pub fence : ℕ
  pub plan_sha256 : String
  pub table_plans : List ReadPlan

-- The scheduler's settings, the code outside of it, and what the surroundings answer while one run
-- is at a task: the token that is drawn, the generation that is read, the end of a durable write,
-- and whether another call removes the chosen agent before its command is queued.
pub record Setting : Type 0 where
  pub manager_owner : String
  pub manager_fence : ℕ
  pub max_inflight_per_agent : ℕ
  pub is_elastic : Bool
  pub claim_lease_seconds : ℕ
  pub fnmatchcase : String → String → Bool
  pub readers : Readers
  pub texts : Texts
  pub tie_break : String → String → String
  pub token : String → String
  pub generation : String → Option CurrentGeneration
  pub write : String → Write
  pub is_removed : String → Bool

pub record State : Type 0 where
  pub queue : Queue
  pub registry : Registry
  pub counts : Counts
  pub dispatched : ℕ
  pub raised : Bool

abbrev pub no_counts : Counts
no_counts = record { agents = λ a. 0; datasets = λ c t. 0; sources = λ s. 0; pools = λ p. 0 }

-- `exc.code`
abbrev pub violation_code : Violation → String
violation_code residency_policy_violation = "residency_policy_violation"
violation_code tenant_isolation_violation = "tenant_isolation_violation"
violation_code key_error = ""

module _ (s : Setting) (now : ℕ) where
  is_worker : Registry → AgentRecord → Bool
  is_worker r a =
      is_alive now a.agent_id r && contains a.capabilities "materializer" && not a.draining

  is_key_error : Option Violation → Bool
  is_key_error none = false
  is_key_error (some residency_policy_violation) = false
  is_key_error (some tenant_isolation_violation) = false
  is_key_error (some key_error) = true

  -- `_placement_eligible` of one agent and no claims raises what is no policy violation.
  placement_raises : Registry → MaterializerPolicy → MaterializeTask → Candidate → Bool
  unfolding is_key_error
  placement_raises r policy t x =
      not (is_some (validate_task_tenant r.placement t.tenant_id policy))
      && not (is_nil (of_task_tenant r t.tenant_id (x ∷ [])))
      && is_key_error (validate_dispatch r.placement policy t.connection_id)

  -- Whether an agent could take one of the tasks of a generation; none where a test raises.
  unfoldable pub could_take : Registry → Candidate → List Task → Option Bool
  unfolding placement_raises placement_eligible of_task_tenant
  could_take r x [] = some false
  could_take r x (t ∷ ts) =
      let policy = policy_for r.placement t.task.connection_id t.task.source_table in
      let rest = could_take r x ts in
      if placement_raises r policy t.task x
      then none
      else if not (
          is_nil (
            placement_eligible s.fnmatchcase s.readers.version_tuple r policy t.task no_counts
              (x ∷ [])))
      then some true
      else rest

  -- The open tasks of a generation.
  unfoldable pub generation_tasks : String → Dict Task → List Task
  generation_tasks g [] = []
  generation_tasks g ((id, t) ∷ d) =
      let rest = generation_tasks g d in
      if not (is_terminal t.state) && str_eq t.task.generation_id g then t ∷ rest else rest

  with_worker : AgentRecord → Option Bool → Option (Dict Observed) → Option (Dict Observed)
  unfolding capacity_of
  with_worker a none rest = none
  with_worker a (some false) rest = rest
  with_worker a (some true) none = none
  with_worker a (some true) (some ws) =
      some (
        (a.agent_id, record { lease_hash = s.texts.hash a.lease_id; capacity = capacity_of a })
        ∷ ws)

  unfoldable pub eligible_workers : Registry → List Task → Dict AgentRecord → Option (Dict Observed)
  unfolding is_worker could_take with_worker
  eligible_workers r ts [] = some []
  eligible_workers r ts ((id, a) ∷ d) =
      let rest = eligible_workers r ts d in
      let x : Candidate = record { agent_id = a.agent_id; load = 0; capacity = 1 } in
      if is_worker r a then with_worker a (could_take r x ts) rest else rest

  unfoldable pub or_membership : Option Membership → Membership → Membership
  or_membership none m = m
  or_membership (some m) n = m

  unfoldable pub after_reconcile :
      String → ℕ → Option MembershipError → Queue → Dict Membership → Queue × Dict Membership × Bool
  unfolding or_membership waiting_membership reassign_fenced_claims
  after_reconcile g fence (some e) q ms = (q, ms, true)
  after_reconcile g fence none q ms =
      let m = or_membership (lookup g q.memberships) (waiting_membership now fence s.is_elastic) in
      let q' = reassign_fenced_claims s.texts now g m q in
      (q', insert g (or_membership (lookup g q'.memberships) m) ms, false)

  unfoldable pub reconcile_with :
      String → ℕ → Option (Dict Observed) → Queue → Dict Membership → Queue × Dict Membership × Bool
  unfolding reconcile_membership after_reconcile
  reconcile_with g fence none q ms = (q, ms, true)
  reconcile_with g fence (some workers) q ms =
      let outcome = reconcile_membership now g fence workers s.is_elastic q in
      after_reconcile g fence outcome.1 outcome.0 ms

  -- One task of the loop over all tasks: its generation is reconciled if that has not been done.
  unfoldable pub reconcile_generation :
      Registry → Dict Task → Task → Queue → Dict Membership → Queue × Dict Membership × Bool
  unfolding eligible_workers generation_tasks reconcile_with
  reconcile_generation r all t q ms =
      let g = t.task.generation_id in
      if is_terminal t.state || is_empty g || has_key g ms
      then (q, ms, false)
      else reconcile_with g t.task.generation_fence
          (eligible_workers r (generation_tasks g all) r.agents) q ms

  unfoldable pub reconcile_generations :
      Registry → Dict Task → Dict Task → Queue → Dict Membership → Queue × Dict Membership × Bool
  unfolding reconcile_generation
  reconcile_generations r all [] q ms = (q, ms, false)
  reconcile_generations r all ((id, t) ∷ d) q ms =
      let (q', ms', raised) = reconcile_generation r all t q ms in
      let rest = reconcile_generations r all d q' ms' in if raised then (q', ms', true) else rest
