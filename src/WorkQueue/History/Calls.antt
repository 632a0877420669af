-- ===== src/WorkQueue/History/Calls.antt =====
-- How each call of the queue in enterprise/control/work_queue.py moves the tasks.
use fabric_shortcut_proxy.Prelude.{
  ℕ, String, str_eq, true, ◌&&◌, Option, none, some, List, [], ◌∷◌, ◌≡◌, refl, sym, subst,
  Bool-cases, inl, inr, ltb,
}
use fabric_shortcut_proxy.Dict.{Dict, lookup}
use fabric_shortcut_proxy.WorkQueue.Task.{
  claimed, retry_wait, succeeded, failed, code_of, is_in, is_runnable, Task, Claim, Request,
  valid_task_transition,
}
use fabric_shortcut_proxy.WorkQueue.Steps.{
  Claimant, cancel_versions, release_versions, fence_versions, claim_versions,
}
use fabric_shortcut_proxy.WorkQueue.Steps.Transitions.{
  Follows, IsHistory, cancel-History, release-History, fence-History, claim-History, claimed_moves,
}
use fabric_shortcut_proxy.WorkQueue.Queue.{
  Queue, write_task, write_request, write_versions, on_tasks, task_ids, ResultRecord,
}
use fabric_shortcut_proxy.WorkQueue.Changes.{
  refresh_requests, expire_claims, cancel_found, cancel_request, released, release_found,
  fence_claims, claim_found, has_fenced,
}
use fabric_shortcut_proxy.WorkQueue.Results.{
  accept_task, accept_claim, accept_claimed, settle, write_result, accept_owned, accept_unless,
  accept_seen,
}
use fabric_shortcut_proxy.WorkQueue.Checks.{
  succeeded_version, failed_version, refuse_claim, of_current, has_output, can_retry,
}
use fabric_shortcut_proxy.WorkQueue.Answers.{TaskResult, Generation, Parts, ReasonCode}
use fabric_shortcut_proxy.WorkQueue.History.{
  Keyed, Evolves, Evolves-refl, Evolves-trans, Evolves-same, Evolves-write, Evolves-versions,
  on_tasks-Evolves, refresh-Evolves, expire-Evolves,
}

module _ {B : Type 0} (parts : Parts B) where
  pub cancel-Evolves :
      (now : ℕ) (reason : String) (o : Option Request) (q : Queue)
      → Evolves q (cancel_found parts.texts now reason o q).0
  unfolding cancel_found write_request
  cancel-Evolves now reason none q = Evolves-refl q
  cancel-Evolves now reason (some r) q =
      let error = parts.texts.safe_error reason in
      let q' = on_tasks (cancel_versions parts.texts now error) r.task_ids q in
      Evolves-trans q q' (cancel_found parts.texts now reason (some r) q).0
        (on_tasks-Evolves (cancel_versions parts.texts now error)
          (cancel-History parts.texts now error) r.task_ids q)
        (Evolves-same q' (cancel_found parts.texts now reason (some r) q).0 refl)

  released-Evolves :
      (now : ℕ) (t : Task) (us : List Task) (q : Queue)
      → lookup t.task_id q.tasks ≡ some t
      → IsHistory t us
      → Evolves q (released parts.texts now us q).0
  unfolding released
  released-Evolves now t [] q there h = Evolves-refl q
  released-Evolves now t (u ∷ us) q there h =
      let q' = write_versions (u ∷ us) q in
      Evolves-trans q q' (refresh_requests parts.texts now q')
        (Evolves-versions q t (u ∷ us) there h) (refresh-Evolves parts.texts now q')

  own :
      (q : Queue) (id : String) (t : Task)
      → Keyed q
      → lookup id q.tasks ≡ some t
      → lookup t.task_id q.tasks ≡ some t
  own q id t keyed there = subst (λ i. lookup i q.tasks ≡ some t) (sym (keyed id t there)) there

  pub release-Evolves :
      (now : ℕ) (id token reason : String) (o : Option Task) (q : Queue)
      → lookup id q.tasks ≡ o
      → Evolves q (release_found parts.texts now token reason o q).0
  unfolding release_found
  release-Evolves now id token reason none q there keyed = Evolves-refl q keyed
  release-Evolves now id token reason (some t) q there keyed =
      released-Evolves now t (release_versions parts.texts now token reason t) q
        (own q id t keyed there) (release-History parts.texts now token reason t) keyed

  pub claim-Evolves :
      (now : ℕ) (c : Claimant) (id : String) (o : Option Task) (q : Queue)
      → lookup id q.tasks ≡ o
      → Evolves q (claim_found parts.texts now c o q).0
  unfolding claim_found
  claim-Evolves now c id none q there keyed = Evolves-refl q keyed
  claim-Evolves now c id (some t) q there keyed = elim (Bool-cases (is_runnable t.state)) [
    | inr busy ↦ rw busy (Evolves-refl q keyed)
    | inl ready ↦ elim (Bool-cases (ltb now t.available_at_ms)) [
      | inl early ↦ rw (ready, early) (Evolves-refl q keyed)
      | inr due ↦
          rw (ready, due)
            (Evolves-versions q t (claim_versions parts.texts now c t) (own q id t keyed there)
              (claim-History parts.texts now c t ready) keyed)
    ]
  ]

  settle-Evolves :
      (now : ℕ) (t u : Task) (c : Claim) (q : Queue)
      → lookup t.task_id q.tasks ≡ some t
      → Follows t u
      → Evolves q (settle parts now u c q).0
  unfolding settle write_result
  settle-Evolves now t u c q there step =
      let q1 = write_task u q in
      let q2 = write_result parts u c q1 in
      Evolves-trans q q1 (refresh_requests parts.texts now q2) (Evolves-write q t u there step) (
        Evolves-trans q1 q2 (refresh_requests parts.texts now q2) (Evolves-same q1 q2 refl)
          (refresh-Evolves parts.texts now q2))

  succeeded-Follows :
      (now : ℕ) (t : Task) (c : Claim) (r : TaskResult)
      → is_in t.state claimed ≡ true
      → Follows t (succeeded_version parts now t c r)
  unfolding succeeded_version valid_task_transition code_of
  succeeded-Follows now t c r h = (claimed_moves t.state succeeded h refl, refl, refl, refl)

  failed-Follows :
      (now : ℕ) (t : Task) (r : TaskResult)
      → is_in t.state claimed ≡ true
      → Follows t (failed_version parts now t r)
  unfolding failed_version valid_task_transition code_of
  failed-Follows now t r h = elim (Bool-cases (can_retry parts t r)) [
    | inl again ↦ rw again (claimed_moves t.state retry_wait h refl, refl, refl, refl)
    | inr over ↦ rw over (claimed_moves t.state failed h refl, refl, refl, refl)
  ]

  accept_owned-Evolves :
      (now : ℕ) (g : Option Generation) (store : Dict B) (t : Task) (c : Claim) (r : TaskResult)
      (q : Queue)
      → lookup t.task_id q.tasks ≡ some t
      → is_in t.state claimed ≡ true
      → Evolves q (accept_owned parts now g store t c r q).0
  unfolding accept_owned cancel_request
  accept_owned-Evolves now g store t c r q there on = elim (Bool-cases (of_current parts g r)) [
    | inr old ↦ rw old (cancel-Evolves now "generation_fenced" (lookup t.request_id q.requests) q)
    | inl current ↦ elim (Bool-cases r.ok) [
      | inr bad ↦
          rw (current, bad)
            (settle-Evolves now t (failed_version parts now t r) c q there
              (failed-Follows now t r on))
      | inl good ↦ elim (Bool-cases (has_output parts t c r store)) [
        | inr missing ↦ rw (current, good, missing) (Evolves-refl q)
        | inl output ↦
            rw (current, good, output)
              (settle-Evolves now t (succeeded_version parts now t c r) c q there
                (succeeded-Follows now t c r on))
      ]
    ]
  ]

  accept_claimed-Evolves :
      (now : ℕ) (g : Option Generation) (store : Dict B) (t : Task) (c : Claim)
      (o : Option ReasonCode) (r : TaskResult) (q : Queue)
      → lookup t.task_id q.tasks ≡ some t
      → is_in t.state claimed ≡ true
      → Evolves q (accept_unless parts o now g store t c r q).0
  unfolding accept_unless
  accept_claimed-Evolves now g store t c (some reason) r q there on = Evolves-refl q
  accept_claimed-Evolves now g store t c none r q there on =
      accept_owned-Evolves now g store t c r q there on

  accept_claim-Evolves :
      (now : ℕ) (g : Option Generation) (store : Dict B) (t : Task) (o : Option Claim)
      (r : TaskResult) (lease : String) (q : Queue)
      → lookup t.task_id q.tasks ≡ some t
      → Evolves q (accept_claim parts now g store t o r lease q).0
  unfolding accept_claim accept_claimed
  accept_claim-Evolves now g store t none r lease q there =
      elim (Bool-cases (is_in t.state claimed && str_eq "" r.claim_token)) [
        | inl odd ↦ rw odd (Evolves-refl q)
        | inr stale ↦ rw stale (Evolves-refl q)
      ]
  accept_claim-Evolves now g store t (some c) r lease q there =
      elim (Bool-cases (is_in t.state claimed)) [
        | inl on ↦
            rw on (
              accept_claimed-Evolves now g store t c (refuse_claim parts q t c r lease) r q there
                on)
        | inr off ↦ rw off (Evolves-refl q)
      ]

  accept_task-Evolves :
      (now : ℕ) (g : Option Generation) (store : Dict B) (id : String) (o : Option Task)
      (r : TaskResult) (lease : String) (q : Queue)
      → lookup id q.tasks ≡ o
      → Evolves q (accept_task parts now g store o r lease q).0
  unfolding accept_task
  accept_task-Evolves now g store id none r lease q there keyed = Evolves-refl q keyed
  accept_task-Evolves now g store id (some t) r lease q there keyed =
      elim (Bool-cases (is_in t.state succeeded)) [
        | inl over ↦ rw over (Evolves-refl q keyed)
        | inr ongoing ↦
            rw ongoing
              (accept_claim-Evolves now g store t t.claim r lease q (own q id t keyed there) keyed)
      ]

  pub accept_result-Evolves :
      (now : ℕ) (g : Option Generation) (store : Dict B) (o : Option ResultRecord) (r : TaskResult)
      (lease : String) (q : Queue)
      → Evolves q (accept_seen parts o now g store r lease q).0
  unfolding accept_seen
  accept_result-Evolves now g store (some prior) r lease q = Evolves-refl q
  accept_result-Evolves now g store none r lease q =
      let q1 = expire_claims parts.texts now q in
      Evolves-trans q q1 (accept_task parts now g store (lookup r.task_id q1.tasks) r lease q1).0
        (expire-Evolves parts.texts now q)
        (accept_task-Evolves now g store r.task_id (lookup r.task_id q1.tasks) r lease q1 refl)

  pub fence-Evolves :
      (now : ℕ) (owner : String) (fence : ℕ) (q : Queue)
      → Evolves q (fence_claims parts.texts now owner fence q)
  unfolding fence_claims
  fence-Evolves now owner fence q =
      let q' = on_tasks (fence_versions parts.texts now owner fence) (task_ids q.tasks) q in
      let first : Evolves q q' =
        on_tasks-Evolves (fence_versions parts.texts now owner fence)
          (fence-History parts.texts now owner fence) (task_ids q.tasks) q in
      elim (Bool-cases (has_fenced parts.texts now owner fence q)) [
        | inl some_fenced ↦ rw some_fenced (
            Evolves-trans q q' (refresh_requests parts.texts now q') first
              (refresh-Evolves parts.texts now q'))
        | inr none_fenced ↦ rw none_fenced first
      ]
