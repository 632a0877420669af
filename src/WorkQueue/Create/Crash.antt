-- ===== src/WorkQueue/Create/Crash.antt =====
-- `create_request` of enterprise/control/work_queue.py, stopped between two of its writes.
use fabric_shortcut_proxy.Prelude.{
  ℕ, zero, suc, String, str_eq_iff, true, List, [], ◌∷◌, ◌++◌, map, take, ◌≡◌, arith, All, All-imp,
}
use fabric_shortcut_proxy.Dict.{Dict, insert, has_key, lookup-insert, All-insert}
use fabric_shortcut_proxy.WorkQueue.Task.{Task, Request}
use fabric_shortcut_proxy.WorkQueue.Steps.{Texts}
use fabric_shortcut_proxy.WorkQueue.Queue.{Queue, write_task, write_request}
use fabric_shortcut_proxy.WorkQueue.Runnable.{
  HasAll, WholeRequests, IsWhole, runnable_tasks, runnable_tasks-IsWhole,
}
use fabric_shortcut_proxy.WorkQueue.Identity.{Creation}
use fabric_shortcut_proxy.WorkQueue.Create.{
  QueueWrite, put_task, apply_write, apply_writes, write_idempotency, new_tasks, new_request,
  ready_request, creation_writes,
}

-- A predicate that holds after every first part of the writes.
abbrev Throughout : (Queue → Type 0) → Queue → List QueueWrite → Type 0
Throughout P q [] = P q
Throughout P q (w ∷ ws) = P q × Throughout P (apply_write w q) ws

Throughout-take :
    (P : Queue → Type 0) (n : ℕ) (q : Queue) (ws : List QueueWrite)
    → Throughout P q ws
    → P (apply_writes (take n ws) q)
unfolding apply_writes
Throughout-take P zero q [] h = h
Throughout-take P (suc n) q [] h = h
Throughout-take P zero q (w ∷ ws) h = h.0
Throughout-take P (suc n) q (w ∷ ws) h = Throughout-take P n (apply_write w q) ws h.1

has_key-insert :
    (id : String) (t : Task) (d : Dict Task) (k : String)
    → has_key k d ≡ true
    → has_key k (insert id t d) ≡ true
has_key-insert id t d k h = ground (arith, lookup-insert id k t d)

HasAll-insert :
    (id : String) (t : Task) (d : Dict Task) (ids : List String)
    → HasAll ids d
    → HasAll ids (insert id t d)
HasAll-insert id t d ids h =
    All-imp (λ k. has_key k d ≡ true) (λ k. has_key k (insert id t d) ≡ true) ids
      (has_key-insert id t d) h

WholeRequests-task : (t : Task) (q : Queue) → WholeRequests q → WholeRequests (write_task t q)
unfolding write_task
WholeRequests-task t q h =
    All-imp _ _ q.requests
      (λ e whole ready. HasAll-insert t.task_id t q.tasks e.1.task_ids (whole ready)) h

WholeRequests-request :
    (r : Request) (q : Queue)
    → (r.ready ≡ true → HasAll r.task_ids q.tasks)
    → WholeRequests q
    → WholeRequests (write_request r q)
unfolding write_request
WholeRequests-request r q ok h =
    All-insert (λ e. e.1.ready ≡ true → HasAll e.1.task_ids q.tasks) r.request_id r q.requests ok h

-- The task writes: the ids of the tasks written so far, and then those of the list, are there.
tasks-Throughout :
    (ts : List Task) (rest : List QueueWrite) (q : Queue)
    → WholeRequests q
    → ((q' : Queue)
        → WholeRequests q'
        → HasAll (map (λ t. t.task_id) ts) q'.tasks
        → ((k : String) → has_key k q.tasks ≡ true → has_key k q'.tasks ≡ true)
        → Throughout WholeRequests q' rest)
    → Throughout WholeRequests q (map put_task ts ++ rest)
unfolding apply_write write_task
tasks-Throughout [] rest q h ends = ends q h tt (λ k there. there)
tasks-Throughout (t ∷ ts) rest q h ends =
    let q1 = write_task t q in
    (
      h,
      tasks-Throughout ts rest q1 (WholeRequests-task t q h) (λ q' whole all kept.
          ends q' whole
            (
              kept t.task_id (
                  ground (
                    arith,
                    lookup-insert t.task_id t.task_id t q.tasks,
                    str_eq_iff t.task_id t.task_id,
                  )),
              all,
            )
            (λ k there. kept k (has_key-insert t.task_id t q.tasks k there))),
    )

module _ (texts : Texts) (max_attempts : ℕ) where
  creation-Throughout :
      (now : ℕ) (c : Creation) (q : Queue)
      → WholeRequests q
      → Throughout WholeRequests q (creation_writes texts max_attempts now c)
  unfolding creation_writes apply_write new_request ready_request write_idempotency
  creation-Throughout now c q h =
      let unready = new_request texts max_attempts now c in
      let ready = ready_request texts max_attempts now c in
      (
        h,
        tasks-Throughout (new_tasks texts max_attempts now c) _ (write_request unready q)
            (WholeRequests-request unready q (λ never. cc) h)
            (λ q' whole all kept.
              (let whole' = WholeRequests-request ready q' (λ now_ready. all) whole in
                (whole, (whole', whole')))),
      )

  -- A process can stop before any of the writes of `create_request`: if every ready request of
  -- the queue had all its tasks, that still holds, and a task that can run at any time belongs to
  -- a request all of whose tasks are there.
  pub crashed_creation-IsWhole :
      (now n later : ℕ) (c : Creation) (q : Queue)
      → WholeRequests q
      → let q' = apply_writes (take n (creation_writes texts max_attempts now c)) q in
        WholeRequests q' × All (IsWhole q') (runnable_tasks later q' q'.tasks)
  crashed_creation-IsWhole now n later c q h =
      let whole =
        Throughout-take WholeRequests n q (creation_writes texts max_attempts now c)
          (creation-Throughout now c q h) in
      (whole, runnable_tasks-IsWhole later _ _ whole)
