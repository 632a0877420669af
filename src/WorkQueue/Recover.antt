-- ===== src/WorkQueue/Recover.antt =====
-- `recover` of enterprise/control/work_queue.py, which a Manager calls before it dispatches: it
-- removes the requests whose creation was cut short, and the tasks that no request has. The counts
-- of what it removes are left out, and the moments that it reads are one.
pub mod Requests
pub mod Kept
pub mod Orphans
pub mod Complete
pub mod Restarted
use fabric_shortcut_proxy.Prelude.{
  ℕ, String, Bool, not, List, [], ◌∷◌, if◌then◌else◌, any, contains,
}
use fabric_shortcut_proxy.Dict.{Dict, remove, has_key}
use fabric_shortcut_proxy.WorkQueue.Task.{failed, Task, Request}
use fabric_shortcut_proxy.WorkQueue.Steps.{Texts, recover_versions}
use fabric_shortcut_proxy.WorkQueue.Queue.{Queue, write_request, write_versions}
use fabric_shortcut_proxy.WorkQueue.Changes.{expire_claims}
use fabric_shortcut_proxy.WorkQueue.Create.{write_idempotency}

abbrev pub delete_task : String → Queue → Queue
delete_task id q = record q { tasks = remove id q.tasks }

abbrev pub delete_results : String → Queue → Queue
delete_results id q = record q { results = remove id q.results }

unfoldable pub delete_tasks : List String → Queue → Queue
delete_tasks [] q = q
delete_tasks (id ∷ ids) q = delete_tasks ids (delete_task id q)

unfoldable pub has_missing : List String → Dict Task → Bool
has_missing ids d = any (λ id. not (has_key id d)) ids

unfoldable pub missing_request : ℕ → Request → Request
missing_request now r = record r {
  state = failed;
  error = "missing_task_record";
  updated_at_ms = now;
}

-- A request that is ready fails if it misses a task, and gets its idempotency record again.
unfoldable pub recover_ready : ℕ → Request → Queue → Queue
unfolding has_missing missing_request write_request write_idempotency
recover_ready now r q =
    let q' =
      if has_missing r.task_ids q.tasks then write_request (missing_request now r) q else q in
    write_idempotency r.idempotency_key r.request_id q'

-- A request that is not ready goes, with its tasks and its idempotency record.
unfoldable pub remove_unready : Request → Queue → Queue
unfolding delete_tasks
remove_unready r q =
    let q' = delete_tasks r.task_ids q in
    record q' {
      requests = remove r.request_id q'.requests;
      idempotency = remove r.idempotency_key q'.idempotency;
    }

unfoldable pub recover_request : ℕ → Request → Queue → Queue
unfolding recover_ready remove_unready
recover_request now r q = if r.ready then recover_ready now r q else remove_unready r q

unfoldable pub recover_requests : ℕ → Dict Request → Queue → Queue
unfolding recover_request
recover_requests now [] q = q
recover_requests now ((k, r) ∷ rs) q = recover_requests now rs (recover_request now r q)

-- The ids that are left in `requests`.
unfoldable pub ready_ids : Dict Request → List String
ready_ids [] = []
ready_ids ((k, r) ∷ rs) = let rest = ready_ids rs in if r.ready then r.request_id ∷ rest else rest

unfoldable pub recover_task : ℕ → List String → Task → Queue → Queue
unfolding recover_versions write_versions
recover_task now ids t q =
    if contains ids t.request_id
    then write_versions (recover_versions now t) q
    else delete_task t.task_id (delete_results t.task_id q)

unfoldable pub recover_tasks : ℕ → List String → Dict Task → Queue → Queue
unfolding recover_task
recover_tasks now ids [] q = q
recover_tasks now ids ((k, t) ∷ ts) q = recover_tasks now ids ts (recover_task now ids t q)

-- `recover` before its last call, of `expire_claims`.
unfoldable pub recover_records : ℕ → Queue → Queue
unfolding recover_requests recover_tasks ready_ids
recover_records now q =
    let q1 = recover_requests now q.requests q in
    recover_tasks now (ready_ids q.requests) q1.tasks q1

unfoldable pub recover : Texts → ℕ → Queue → Queue
unfolding recover_records expire_claims
recover texts now q = expire_claims texts now (recover_records now q)
