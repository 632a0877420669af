-- ===== src/WorkQueue/Changes.antt =====
-- The calls of enterprise/control/work_queue.py that change tasks and requests: the refresh of the
-- requests, and the cancelling, the renewal, the release, the fencing, the claiming and the retry.
use fabric_shortcut_proxy.Prelude.{
  ℕ, ◌+◌, ◌-◌, max, String, Bool, true, false, not, ◌||◌, Option, none, some, List, [], ◌∷◌,
  if◌then◌else◌, ltb, any,
}
use fabric_shortcut_proxy.Dict.{Dict, lookup, insert}
use fabric_shortcut_proxy.WorkQueue.Task.{
  queued, failed, cancelled, code_of, is_in, is_terminal, is_runnable, Task, Request,
}
use fabric_shortcut_proxy.WorkQueue.Steps.{
  touch, Claimant, Texts, expire_versions, claim_versions, renew_versions, release_versions,
  fence_versions, cancel_versions, dispatch_versions,
}
use fabric_shortcut_proxy.WorkQueue.Queue.{
  Queue, write_task, write_request, write_versions, on_task, on_tasks, task_ids, tasks_of,
  request_state, first_error,
}

pub data ClaimError : Type 0 where
  unknown_task cannot_be_claimed not_available_yet : ClaimError

module _ (texts : Texts) where
  unfoldable pub refreshed : ℕ → Request → List Task → Request
  unfolding request_state first_error code_of
  refreshed now r ts =
      let state = request_state ts in
      record r {
        state = state;
        error = if is_in state failed then first_error ts else r.error;
        updated_at_ms = now;
      }

  unfoldable pub refresh_request : ℕ → Request → Queue → Queue
  unfolding is_terminal request_state tasks_of refreshed on_tasks cancel_versions write_request
      code_of
  refresh_request now r q =
      if r.published || is_terminal r.state
      then q
      else let ts = tasks_of r.task_ids q.tasks in
        write_request (refreshed now r ts) (
          if is_in (request_state ts) failed
          then on_tasks (cancel_versions texts now "request_failed") r.task_ids q
          else q)

  unfoldable pub refresh_each : ℕ → Dict Request → Queue → Queue
  unfolding refresh_request
  refresh_each now [] q = q
  refresh_each now ((k, r) ∷ rs) q = refresh_each now rs (refresh_request now r q)

  unfoldable pub refresh_requests : ℕ → Queue → Queue
  unfolding refresh_each
  refresh_requests now q = refresh_each now q.requests q

  unfoldable pub expire_claims : ℕ → Queue → Queue
  unfolding on_tasks expire_versions task_ids refresh_requests
  expire_claims now q = refresh_requests now (on_tasks (expire_versions now) (task_ids q.tasks) q)

  unfoldable pub cancel_found : ℕ → String → Option Request → Queue → Queue × Bool
  unfolding on_tasks cancel_versions write_request
  cancel_found now reason none q = (q, false)
  cancel_found now reason (some r) q =
      let error = texts.safe_error reason in
      (
        write_request (record r { state = cancelled; error = error; updated_at_ms = now })
            (on_tasks (cancel_versions texts now error) r.task_ids q),
        true,
      )

  unfoldable pub cancel_request : ℕ → String → String → Queue → Queue × Bool
  unfolding cancel_found
  cancel_request now id reason q = cancel_found now reason (lookup id q.requests) q

  -- `renew_agent_claims`, with the set of active tasks as a list.
  unfoldable pub renew_agent_claims : ℕ → String → String → List String → Queue → Queue
  unfolding on_tasks renew_versions
  renew_agent_claims now agent lease ids q = on_tasks (renew_versions texts now agent lease) ids q

  unfoldable pub released : ℕ → List Task → Queue → Queue × Bool
  unfolding write_versions refresh_requests
  released now [] q = (q, false)
  released now (t ∷ ts) q = (refresh_requests now (write_versions (t ∷ ts) q), true)

  unfoldable pub release_found : ℕ → String → String → Option Task → Queue → Queue × Bool
  unfolding released release_versions
  release_found now token reason none q = (q, false)
  release_found now token reason (some t) q =
      released now (release_versions texts now token reason t) q

  unfoldable pub release_claim : ℕ → String → String → String → Queue → Queue × Bool
  unfolding release_found
  release_claim now id token reason q = release_found now token reason (lookup id q.tasks) q

  is_written : List Task → Bool
  is_written [] = false
  is_written (_ ∷ _) = true

  -- `if fenced`
  unfoldable pub has_fenced : ℕ → String → ℕ → Queue → Bool
  unfolding fence_versions is_written
  has_fenced now owner fence q =
      any (λ e. is_written (fence_versions texts now owner fence e.1)) q.tasks

  unfoldable pub fence_claims : ℕ → String → ℕ → Queue → Queue
  unfolding on_tasks fence_versions task_ids refresh_requests has_fenced
  fence_claims now owner fence q =
      let q' = on_tasks (fence_versions texts now owner fence) (task_ids q.tasks) q in
      if has_fenced now owner fence q then refresh_requests now q' else q'

  unfoldable pub set_dispatch_status : ℕ → String → String → Queue → Queue
  unfolding on_task dispatch_versions
  set_dispatch_status now id reason q = on_task (dispatch_versions texts now reason) id q

  unfoldable pub claim_found : ℕ → Claimant → Option Task → Queue → Queue × Option ClaimError
  unfolding is_runnable claim_versions write_versions
  claim_found now c none q = (q, some unknown_task)
  claim_found now c (some t) q =
      if not (is_runnable t.state)
      then (q, some cannot_be_claimed)
      else if ltb now t.available_at_ms
      then (q, some not_available_yet)
      else (write_versions (claim_versions texts now c t) q, none)

  unfoldable pub claim_task : ℕ → Claimant → String → Queue → Queue × Option ClaimError
  unfolding claim_found
  claim_task now c id q = claim_found now c (lookup id q.tasks) q

  unfoldable pub retried_task : ℕ → ℕ → Task → Task
  retried_task now deadline t = record (touch now t) {
    state = queued;
    attempt = 0;
    available_at_ms = now;
    claim = none;
    result = none;
    last_error = "";
    task = record t.task { deadline_ms = deadline };
  }

  unfoldable pub retry_found : ℕ → Task → Option Request → Queue → Queue × Bool
  unfolding write_task write_request retried_task
  retry_found now t none q = (q, false)
  retry_found now t (some r) q =
      if r.published
      then (q, false)
      else let deadline = now + max 1000 (r.deadline_ms - r.created_at_ms) in
        let r' = record r {
          state = queued;
          error = "";
          deadline_ms = deadline;
          updated_at_ms = now;
        } in
        let q' = record q { results = insert t.task_id [] q.results } in
        (write_request r' (write_task (retried_task now deadline t) q'), true)

  unfoldable pub retry_at : ℕ → Option Task → Queue → Queue × Bool
  unfolding retry_found code_of
  retry_at now none q = (q, false)
  retry_at now (some t) q =
      if is_in t.state failed
      then retry_found now t (lookup t.request_id q.requests) q
      else (q, false)

  unfoldable pub retry_task : ℕ → String → Queue → Queue × Bool
  unfolding retry_at
  retry_task now id q = retry_at now (lookup id q.tasks) q
