-- ===== src/WorkQueue/Create/Written.antt =====
-- The writes of `create_request` of enterprise/control/work_queue.py up to some point: the tasks and
-- the request that then stand in the queue.
use fabric_shortcut_proxy.Prelude.{
  ℕ, zero, suc, String, str_eq, str_eq_iff, str_eq_refl, true, some, List, [], ◌∷◌, ◌++◌, map, take,
  length, ltb, ◌≡◌, ◌≢◌, refl, ◌∙◌, arith, All, Bool-cases, inl, inr,
}
use fabric_shortcut_proxy.Dict.{Dict, lookup, insert, lookup-insert}
use fabric_shortcut_proxy.WorkQueue.Task.{Task, Request}
use fabric_shortcut_proxy.WorkQueue.Queue.{Queue, write_task, write_request}
use fabric_shortcut_proxy.WorkQueue.Create.{
  QueueWrite, put_request, put_task, put_idempotency, apply_write, apply_writes, write_idempotency,
}

-- No two tasks have one id.
abbrev pub AllDifferent : List Task → Type 0
AllDifferent [] = Unit
AllDifferent (t ∷ ts) = All (λ u. u.task_id ≢ t.task_id) ts × AllDifferent ts

module _ (r : Request) (key id : String) where
  -- The writes behind those of the tasks.
  abbrev pub task_writes : List Task → List QueueWrite
  task_writes ts = map put_task ts ++ put_request r ∷ put_idempotency key id ∷ []

  lookup-other :
      (n : ℕ) (ts : List Task) (k : String) (q : Queue)
      → All (λ t. t.task_id ≢ k) ts
      → lookup k (apply_writes (take n (task_writes ts)) q).tasks ≡ lookup k q.tasks
  unfolding apply_writes apply_write write_request write_task write_idempotency
  lookup-other zero [] k q h = refl
  lookup-other zero (t ∷ ts) k q h = refl
  lookup-other (suc n) (t ∷ ts) k q h =
      lookup-other n ts k (write_task t q) h.1
      ∙ ground (arith, lookup-insert t.task_id k t q.tasks, h.0, str_eq_iff t.task_id k)
  lookup-other (suc zero) [] k q h = refl
  lookup-other (suc (suc zero)) [] k q h = refl
  lookup-other (suc (suc (suc n))) [] k q h = refl

  -- Once the request is written behind them, all tasks are there.
  pub lookup-task_writes :
      (n : ℕ) (ts : List Task) (q : Queue)
      → AllDifferent ts
      → ltb (length ts) n ≡ true
      → All (λ t. lookup t.task_id (apply_writes (take n (task_writes ts)) q).tasks ≡ some t) ts
  unfolding apply_writes apply_write write_task
  lookup-task_writes n [] q h done = tt
  lookup-task_writes zero (t ∷ ts) q h done = absurd (ground (arith, done))
  lookup-task_writes (suc n) (t ∷ ts) q h done = (
    lookup-other n ts t.task_id (write_task t q) h.0
        ∙ ground (arith, lookup-insert t.task_id t.task_id t q.tasks, str_eq_refl t.task_id),
    lookup-task_writes n ts (write_task t q) h.1 (ground (arith, done)),
  )

  pub requests-task_writes :
      (n : ℕ) (ts : List Task) (q : Queue)
      → ltb (length ts) n ≡ true
      → (apply_writes (take n (task_writes ts)) q).requests ≡ insert r.request_id r q.requests
  unfolding apply_writes apply_write write_request write_task write_idempotency
  requests-task_writes zero [] q done = absurd (ground (arith, done))
  requests-task_writes zero (t ∷ ts) q done = absurd (ground (arith, done))
  requests-task_writes (suc n) (t ∷ ts) q done =
      requests-task_writes n ts (write_task t q) (ground (arith, done))
  requests-task_writes (suc zero) [] q done = refl
  requests-task_writes (suc (suc zero)) [] q done = refl
  requests-task_writes (suc (suc (suc n))) [] q done = refl

-- Of two values written under one key only the second counts.
pub All-insert_twice :
    {V : Type 0} (P : V → Type 0) (k : String) (v w : V) (d : Dict V)
    → P v
    → All (λ e. P e.1) d
    → All (λ e. P e.1) (insert k v (insert k w d))
unfolding insert
All-insert_twice P k v w [] p h = rw (str_eq_refl k) (p, tt)
All-insert_twice P k v w ((j, x) ∷ d) p h = elim (Bool-cases (str_eq j k)) [
  | inl same ↦ rw (same, same) (p, h.1)
  | inr other ↦ rw (other, other) (h.0, All-insert_twice P k v w d p h.1)
]
