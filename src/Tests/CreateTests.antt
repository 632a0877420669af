-- ===== src/Tests/CreateTests.antt =====
-- `create_request` and `recover` of enterprise/control/work_queue.py at concrete inputs: a request
-- of two tasks, the first part of its writes, and what is left of it.
use fabric_shortcut_proxy.Prelude.{
  ◌<◌, ◌≤◌, str_eq_iff, arith, ◌⊎◌, String, true, false, none, some, [], ◌∷◌, take, map, ◌≡◌, refl,
  All,
}
use fabric_shortcut_proxy.Dict.{lookup, insert, remove, has_key}
use fabric_shortcut_proxy.WorkQueue.Task.{Task, queued, failed, is_runnable}
use fabric_shortcut_proxy.WorkQueue.Queue.{Queue}
use fabric_shortcut_proxy.WorkQueue.Runnable.{WholeRequests, IsWhole, runnable_tasks}
use fabric_shortcut_proxy.WorkQueue.Identity.{
  Creation, decimal, identity_of, task_identity, several_tenants,
}
use fabric_shortcut_proxy.WorkQueue.Create.{
  new_task, new_tasks, created, apply_writes, creation_writes, request_id_of, ready_request,
  create_request,
}
use fabric_shortcut_proxy.WorkQueue.Create.Crash.{crashed_creation-IsWhole}
use fabric_shortcut_proxy.WorkQueue.Create.Repeat.{create_request-repeated}
use fabric_shortcut_proxy.WorkQueue.History.{Later}
use fabric_shortcut_proxy.WorkQueue.Recover.{recover}
use fabric_shortcut_proxy.WorkQueue.Recover.Complete.{recover_keeps_task}
use fabric_shortcut_proxy.WorkQueue.Recover.Restarted.{Whole, Nothing, stopped_creation_recovered}
use fabric_shortcut_proxy.WorkQueue.Create.Written.{AllDifferent}
use fabric_shortcut_proxy.WorkQueue.Prune.{prune_terminal}
use fabric_shortcut_proxy.WorkQueue.Prune.Old.{LeftRequest, Goes}
use fabric_shortcut_proxy.WorkQueue.Prune.Exact.{prune_terminal_exact}
use fabric_shortcut_proxy.Tests.QueueTests.{texts, work, blank, ask}

abbrev two_splits : Creation
two_splits = record {
  requested_key = "orders.parquet";
  table = "orders";
  epoch = 20;
  table_format = "delta";
  generation_id = "g";
  generation_fence = 1;
  plan_sha256 = "plan";
  tasks = work ∷ record work { split_index = 1 } ∷ [];
  deadline_ms = 9000;
}

decimal_20250 : decimal 20250 ≡ "20250"
unfolding decimal
decimal_20250 = refl

identity_two_splits : identity_of two_splits ≡ "orders|20|g|1|plan"
unfolding identity_of
identity_two_splits = refl

abbrev renewed : Creation
renewed = record two_splits { deadline_ms = 12000 }

abbrev empty : Queue
empty = record {
  memberships = [];
  tasks = [];
  requests = [];
  results = [];
  idempotency = [];
  snapshot_records = [];
}

abbrev made : Queue
unfolding apply_writes creation_writes
made = apply_writes (creation_writes texts 3 1 two_splits) empty

made_at :
    create_request texts 3 1 two_splits empty ≡ (made, created (ready_request texts 3 1 two_splits))
unfolding create_request lookup
made_at = refl

create_request-repeated_example :
    create_request texts 3 9 renewed made ≡ (made, created (ready_request texts 3 1 two_splits))
unfolding several_tenants request_id_of identity_of
create_request-repeated_example =
    create_request-repeated texts 3 1 9 two_splits renewed empty made
      (ready_request texts 3 1 two_splits) refl made_at

crashed_creation-IsWhole_example :
    let q' = apply_writes (take 2 (creation_writes texts 3 1 two_splits)) empty in
    WholeRequests q' × All (IsWhole q') (runnable_tasks 5 q' q'.tasks)
crashed_creation-IsWhole_example = crashed_creation-IsWhole texts 3 1 2 5 two_splits empty tt

abbrev first_id : String
first_id = "orders|20|g|1|plan|0|out"

abbrev second_id : String
second_id = "orders|20|g|1|plan|1|out"

splits_differ : AllDifferent (new_tasks texts 3 1 two_splits)
unfolding new_tasks new_task request_id_of identity_of task_identity decimal
splits_differ = ((λ same. ground (arith, str_eq_iff second_id first_id, same), tt), (tt, tt))

stopped_creation_recovered_example :
    let q' = recover texts 5 (apply_writes (take 4 (creation_writes texts 3 1 two_splits)) empty) in
    ((3 < 4) × Whole texts 3 1 two_splits q' ⊎ (4 ≤ 3) × Nothing texts 3 two_splits q')
    × ((id : String) (u : Task)
        → lookup id q'.tasks ≡ some u
        → has_key u.request_id q'.requests ≡ true)
unfolding lookup new_tasks
stopped_creation_recovered_example =
    stopped_creation_recovered texts 3 1 4 5 two_splits empty ((tt, tt), (tt, tt)) refl
      splits_differ (tt, (tt, tt))

-- A ready request with a task, a request that is not ready with another, and a task of neither.
abbrev mixed : Queue
mixed = record {
  memberships = [];
  tasks =
      ("t1", blank "t1" "r1" queued none)
      ∷ ("t2", blank "t2" "r2" queued none)
      ∷ ("t3", blank "t3" "r3" queued none)
      ∷ [];
  requests =
      ("r1", ask "r1" ("t1" ∷ []) queued)
      ∷ ("r2", record (ask "r2" ("t2" ∷ []) queued) { ready = false })
      ∷ [];
  results = [];
  idempotency = [];
  snapshot_records = [];
}

mixed_left : map (λ e. e.0) (recover texts 5 mixed).tasks ≡ "t1" ∷ []
unfolding recover remove lookup is_runnable
mixed_left = refl

recover_keeps_task_example :
    Later (blank "t1" "r1" queued none) (lookup "t1" (recover texts 5 mixed).tasks)
unfolding lookup
recover_keeps_task_example =
    recover_keeps_task texts 5 mixed "t1" (blank "t1" "r1" queued none)
      ((refl, (refl, tt)), (refl, (refl, tt)))
      ((refl, (refl, (refl, tt))), (refl, (refl, (refl, tt)))) refl refl (refl, (refl, tt))

-- An old failed request and its task, beside the others.
abbrev aged : Queue
aged = record mixed {
  tasks = ("t9", blank "t9" "r9" failed none) ∷ mixed.tasks;
  requests = ("r9", ask "r9" ("t9" ∷ []) failed) ∷ mixed.requests;
}

aged_pruned :
    (map (λ e. e.0) (prune_terminal 5000 5 aged).queue.tasks ≡ "t1" ∷ "t2" ∷ "t3" ∷ [])
    × ((prune_terminal 5000 5 aged).pruned ≡ 1)
    × ((prune_terminal 5000 5 aged).staging ≡ ("g", "out") ∷ [])
unfolding prune_terminal remove lookup
aged_pruned = (refl, refl, refl)

prune_terminal_exact_example :
    let q' = (prune_terminal 5000 5 aged).queue in
    LeftRequest 5000 5 (lookup "r9" aged.requests) (lookup "r9" q'.requests)
    × (Goes 5000 5 aged.requests "t9" × (lookup "t9" q'.tasks ≡ none)
        ⊎ ¬ (Goes 5000 5 aged.requests "t9") × (lookup "t9" q'.tasks ≡ lookup "t9" aged.tasks))
unfolding lookup
prune_terminal_exact_example = prune_terminal_exact 5000 5 aged "r9" "t9" (refl, (refl, (refl, tt)))

-- A ready request that misses its second task fails in `recover`, and its first task still runs.
abbrev missing : Queue
missing = record {
  memberships = [];
  tasks = ("t1", blank "t1" "r1" queued none) ∷ [];
  requests = ("r1", ask "r1" ("t1" ∷ "t2" ∷ []) queued) ∷ [];
  results = [];
  idempotency = [];
  snapshot_records = [];
}

missing_still_runs :
    let q = recover texts 5 missing in
    (map (λ e. e.1.error) q.requests ≡ "missing_task_record" ∷ [])
    × (map (λ t. t.task_id) (runnable_tasks 9 q q.tasks) ≡ "t1" ∷ [])
unfolding recover runnable_tasks lookup insert
missing_still_runs = (refl, refl)
