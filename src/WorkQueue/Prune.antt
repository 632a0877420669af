-- ===== src/WorkQueue/Prune.antt =====
-- `prune_terminal` of enterprise/control/work_queue.py: old requests that are over go with their
-- tasks, results and idempotency records. What it asks `prune_staging` to remove from the artifact
-- store is a list of generations and output keys.
pub mod Old
pub mod Exact
use fabric_shortcut_proxy.Prelude.{
  ℕ, ◌+◌, ◌*◌, String, str_eq, Bool, not, ◌&&◌, ◌||◌, Option, none, some, List, [], ◌∷◌, ◌++◌,
  if◌then◌else◌, leb, sum_by,
}
use fabric_shortcut_proxy.Dict.{Dict, lookup, remove}
use fabric_shortcut_proxy.WorkQueue.Task.{
  succeeded, failed, expired, cancelled, code_of, is_in, is_terminal, Task, Request,
}
use fabric_shortcut_proxy.WorkQueue.Queue.{Queue}
use fabric_shortcut_proxy.WorkQueue.Recover.{delete_task, delete_results}

-- Over, untouched for the retention time, and published if it succeeded.
unfoldable pub is_prunable : ℕ → ℕ → Request → Bool
unfolding is_terminal code_of
is_prunable now retention_seconds r =
    is_terminal r.state
    && leb (r.updated_at_ms + retention_seconds * 1000) now
    && not (is_in r.state succeeded && not r.published)

-- The staging of a task, of a request that was not published.
staging_of : Request → Option Task → List (String × String)
unfolding code_of
staging_of r none = []
staging_of r (some t) =
    if not r.published
      && (is_in r.state failed || is_in r.state cancelled || is_in r.state expired)
      && not (str_eq t.task.generation_id "")
    then (t.task.generation_id, t.task.output_key) ∷ []
    else []

-- The tasks of a request go one after another; each is read before it goes.
unfoldable pub drop_tasks : List String → Queue → Queue
drop_tasks [] q = q
drop_tasks (id ∷ ids) q = drop_tasks ids (delete_task id (delete_results id q))

unfoldable pub staging_of_tasks : Request → List String → Queue → List (String × String)
unfolding staging_of
staging_of_tasks r [] q = []
staging_of_tasks r (id ∷ ids) q =
    staging_of r (lookup id q.tasks)
    ++ staging_of_tasks r ids (delete_task id (delete_results id q))

unfoldable pub prune_request : String → Request → Queue → Queue
unfolding drop_tasks
prune_request key r q =
    let q' = drop_tasks r.task_ids q in
    record q' {
      requests = remove key q'.requests;
      idempotency = remove r.idempotency_key q'.idempotency;
    }

-- The loop over the listed requests. It deletes no request but the one whose turn it is, so each
-- is read as it was listed.
unfoldable pub prune_each : ℕ → ℕ → Dict Request → Queue → Queue
unfolding prune_request is_prunable
prune_each now retention_seconds [] q = q
prune_each now retention_seconds ((key, r) ∷ rs) q =
    prune_each now retention_seconds rs
      (if is_prunable now retention_seconds r then prune_request key r q else q)

unfoldable pub staging_each : ℕ → ℕ → Dict Request → Queue → List (String × String)
unfolding prune_request is_prunable staging_of_tasks
staging_each now retention_seconds [] q = []
staging_each now retention_seconds ((key, r) ∷ rs) q =
    let q' = if is_prunable now retention_seconds r then prune_request key r q else q in
    let rest = staging_each now retention_seconds rs q' in
    if is_prunable now retention_seconds r then staging_of_tasks r r.task_ids q ++ rest else rest

pub record Pruned : Type 0 where
  pub queue : Queue
  pub pruned : ℕ
  pub staging : List (String × String)

unfoldable pub prune_terminal : ℕ → ℕ → Queue → Pruned
unfolding prune_each staging_each is_prunable
prune_terminal now retention_seconds q = record {
  queue = prune_each now retention_seconds q.requests q;
  pruned = sum_by (λ e. if is_prunable now retention_seconds e.1 then 1 else 0) q.requests;
  staging = staging_each now retention_seconds q.requests q;
}
