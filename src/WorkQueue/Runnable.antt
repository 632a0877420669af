-- ===== src/WorkQueue/Runnable.antt =====
-- The tasks that a worker can be given, and what it means for a request to be whole:
-- `runnable_tasks` of enterprise/control/work_queue.py.
use fabric_shortcut_proxy.Prelude.{
  ℕ, String, Bool, true, false, ◌&&◌, Option, none, some, List, [], ◌∷◌, if◌then◌else◌, leb, ◌≡◌,
  refl, arith, Bool-cases, inl, inr, All,
}
use fabric_shortcut_proxy.Dict.{Dict, lookup, has_key, All-lookup}
use fabric_shortcut_proxy.WorkQueue.Task.{Task, Request, is_runnable}
use fabric_shortcut_proxy.WorkQueue.Queue.{Queue}

-- `request is not None and request.get("ready", True)`
abbrev pub is_ready : Option Request → Bool
is_ready none = false
is_ready (some r) = r.ready

-- `runnable_tasks` on the listed tasks, once the claims are expired.
unfoldable pub runnable_tasks : ℕ → Queue → Dict Task → List Task
unfolding is_runnable
runnable_tasks now q [] = []
runnable_tasks now q ((id, t) ∷ d) =
    let rest = runnable_tasks now q d in
    if is_runnable t.state && leb t.available_at_ms now && is_ready (lookup t.request_id q.requests)
    then t ∷ rest
    else rest

-- All the listed tasks are there.
abbrev pub HasAll : List String → Dict Task → Type 0
HasAll ids d = All (λ id. has_key id d ≡ true) ids

-- A task that can run belongs to a request all of whose tasks are there.
abbrev pub IsWhole : Queue → Task → Type 0
IsWhole q t = (r : Request) × (lookup t.request_id q.requests ≡ some r) × HasAll r.task_ids q.tasks

-- Every request that is ready has all its tasks.
abbrev pub WholeRequests : Queue → Type 0
WholeRequests q = All (λ e. e.1.ready ≡ true → HasAll e.1.task_ids q.tasks) q.requests

is_ready-cases :
    (o : Option Request) → is_ready o ≡ true → (r : Request) × (o ≡ some r) × (r.ready ≡ true)
is_ready-cases none h = cc
is_ready-cases (some r) h = (r, refl, h)

ready_task-IsWhole :
    (q : Queue) (t : Task)
    → WholeRequests q
    → is_ready (lookup t.request_id q.requests) ≡ true
    → IsWhole q t
ready_task-IsWhole q t whole h =
    let (r, found, ready) = is_ready-cases (lookup t.request_id q.requests) h in
    (
      r,
      found,
      All-lookup (λ e. e.1.ready ≡ true → HasAll e.1.task_ids q.tasks) t.request_id r q.requests
          whole found ready,
    )

pub runnable_tasks-IsWhole :
    (now : ℕ) (q : Queue) (d : Dict Task)
    → WholeRequests q
    → All (IsWhole q) (runnable_tasks now q d)
unfolding runnable_tasks
runnable_tasks-IsWhole now q [] whole = tt
runnable_tasks-IsWhole now q ((id, t) ∷ d) whole =
    elim (Bool-cases (
      is_runnable t.state
      && leb t.available_at_ms now
      && is_ready (lookup t.request_id q.requests))) [
        | inl runs ↦ rw runs (
          ready_task-IsWhole q t whole (ground (arith, runs)),
          runnable_tasks-IsWhole now q d whole,
        )
        | inr waits ↦ rw waits (runnable_tasks-IsWhole now q d whole)
      ]
