-- ===== src/WorkQueue/Recover/Restarted.antt =====
-- `create_request` stopped between two of its writes, and then `recover`, of
-- enterprise/control/work_queue.py.
use fabric_shortcut_proxy.Prelude.{
  ℕ, zero, suc, ◌+◌, String, str_eq_refl, true, false, none, some, List, [], ◌∷◌, ◌++◌, map, take,
  length, ltb, ◌≡◌, ◌≢◌, ◌⊎◌, ◌≤◌, ◌<◌, refl, ◌∙◌, ap, sym, subst, arith, All, Bool-cases, inl, inr,
  not, ◌||◌, contains,
}
use fabric_shortcut_proxy.Dict.{
  Dict, lookup, insert, has_key, lookup-insert, IsStored, IsStored-insert,
}
use fabric_shortcut_proxy.WorkQueue.Task.{MaterializeTask, Task, Request}
use fabric_shortcut_proxy.WorkQueue.Steps.{Texts}
use fabric_shortcut_proxy.WorkQueue.Queue.{Queue, write_task, write_request}
use fabric_shortcut_proxy.WorkQueue.Runnable.{is_ready}
use fabric_shortcut_proxy.WorkQueue.Identity.{Creation}
use fabric_shortcut_proxy.WorkQueue.Create.{
  QueueWrite, put_request, put_task, put_idempotency, apply_write, apply_writes, request_id_of,
  new_tasks, new_task, new_request, ready_request, creation_writes, write_idempotency,
}
use fabric_shortcut_proxy.WorkQueue.Recover.{recover}
use fabric_shortcut_proxy.WorkQueue.Recover.Requests.{id_of_request}
use fabric_shortcut_proxy.WorkQueue.Recover.Orphans.{id_of_task}
use fabric_shortcut_proxy.WorkQueue.Recover.Complete.{
  Unlisted, recover_leaves_ready, recover_keeps_task,
}
use fabric_shortcut_proxy.WorkQueue.History.{Later}
use fabric_shortcut_proxy.WorkQueue.Create.Written.{
  AllDifferent, lookup-task_writes, requests-task_writes, All-insert_twice,
}

-- Tasks and requests stand under their own ids.
abbrev pub OwnIds : Queue → Type 0
OwnIds q = IsStored id_of_request q.requests × IsStored id_of_task q.tasks

apply_write-OwnIds : (w : QueueWrite) (q : Queue) → OwnIds q → OwnIds (apply_write w q)
unfolding apply_write write_request write_task write_idempotency
apply_write-OwnIds (put_request r) q h = (IsStored-insert id_of_request r q.requests h.0, h.1)
apply_write-OwnIds (put_task t) q h = (h.0, IsStored-insert id_of_task t q.tasks h.1)
apply_write-OwnIds (put_idempotency key id) q h = h

apply_writes-OwnIds : (ws : List QueueWrite) (q : Queue) → OwnIds q → OwnIds (apply_writes ws q)
unfolding apply_writes
apply_writes-OwnIds [] q h = h
apply_writes-OwnIds (w ∷ ws) q h =
    apply_writes-OwnIds ws (apply_write w q) (apply_write-OwnIds w q h)

-- The request is ready once the write behind those of its tasks is done.
ready_after :
    (n : ℕ) (ts : List Task) (r : Request) (key id : String) (q : Queue)
    → r.ready ≡ true
    → is_ready (lookup r.request_id q.requests) ≡ false
    → let ws = map put_task ts ++ put_request r ∷ put_idempotency key id ∷ [] in
      is_ready (lookup r.request_id (apply_writes (take n ws) q).requests) ≡ ltb (length ts) n
unfolding apply_writes apply_write write_request write_task write_idempotency
ready_after zero [] r key id q ready unready = unready ∙ ground arith
ready_after zero (t ∷ ts) r key id q ready unready = unready ∙ ground arith
ready_after (suc n) (t ∷ ts) r key id q ready unready =
    ready_after n ts r key id (write_task t q) ready unready ∙ ground arith
ready_after (suc zero) [] r key id q ready unready =
    rw (lookup-insert r.request_id r.request_id r q.requests, str_eq_refl r.request_id)
      (ready ∙ ground arith)
ready_after (suc (suc zero)) [] r key id q ready unready =
    rw (lookup-insert r.request_id r.request_id r q.requests, str_eq_refl r.request_id)
      (ready ∙ ground arith)
ready_after (suc (suc (suc n))) [] r key id q ready unready =
    rw (lookup-insert r.request_id r.request_id r q.requests, str_eq_refl r.request_id)
      (ready ∙ ground arith)

length-map_new :
    (texts : Texts) (max_attempts now : ℕ) (c : Creation) (ts : List MaterializeTask)
    → length (map (new_task texts max_attempts now c) ts) ≡ length ts
length-map_new texts max_attempts now c [] = refl
length-map_new texts max_attempts now c (t ∷ ts) =
    omega (arith, length-map_new texts max_attempts now c ts)

module _ (texts : Texts) (max_attempts : ℕ) where
  creation_ready :
      (now n : ℕ) (c : Creation) (q : Queue)
      → lookup (request_id_of texts c) q.requests ≡ none
      → is_ready (
          lookup
            (request_id_of texts c)
            (apply_writes (take n (creation_writes texts max_attempts now c)) q).requests)
        ≡ ltb (length c.tasks + 1) n
  unfolding creation_writes apply_writes apply_write write_request new_request ready_request
      new_tasks
  creation_ready now zero c q absent = ap (λ o. is_ready o) absent ∙ ground arith
  creation_ready now (suc n) c q absent =
      let id = request_id_of texts c in
      let unready = new_request texts max_attempts now c in
      let waits : is_ready (lookup id (write_request unready q).requests) ≡ false =
        rw (lookup-insert id id unready q.requests, str_eq_refl id) refl in
      ready_after n (new_tasks texts max_attempts now c) (ready_request texts max_attempts now c) id
        id (write_request unready q) refl waits
      ∙ ground (arith, length-map_new texts max_attempts now c c.tasks)

  new_tasks-requests :
      (now : ℕ) (c : Creation) (ts : List MaterializeTask)
      → All (λ t. t.request_id ≡ request_id_of texts c) (map (new_task texts max_attempts now c) ts)
  unfolding new_task
  new_tasks-requests now c [] = tt
  new_tasks-requests now c (t ∷ ts) = (refl, new_tasks-requests now c ts)

  -- The whole request: it is there, and each of its tasks after a history that follows
  -- TASK_TRANSITIONS.
  abbrev pub Whole : ℕ → Creation → Queue → Type 0
  Whole now c q' =
      (has_key (request_id_of texts c) q'.requests ≡ true)
      × All (λ t. Later t (lookup t.task_id q'.tasks)) (new_tasks texts max_attempts now c)

  -- Nothing of the request.
  abbrev pub Nothing : Creation → Queue → Type 0
  Nothing c q' =
      (has_key (request_id_of texts c) q'.requests ≡ false)
      × ((id : String) (u : Task)
          → lookup id q'.tasks ≡ some u
          → u.request_id ≢ request_id_of texts c)

  -- Each task of the list is kept.
  each_task_kept :
      (later : ℕ) (q1 : Queue) (id : String) (ts : List Task)
      → OwnIds q1
      → is_ready (lookup id q1.requests) ≡ true
      → All (λ t. lookup t.task_id q1.tasks ≡ some t) ts
      → All (λ t. t.request_id ≡ id) ts
      → All (λ t. Unlisted t.task_id q1.requests) ts
      → All (λ t. Later t (lookup t.task_id (recover texts later q1).tasks)) ts
  each_task_kept later q1 id [] own is_r there of unlisted = tt
  each_task_kept later q1 id (t ∷ ts) own is_r there of unlisted = (
    recover_keeps_task texts later q1 t.task_id t own.0 own.1 there.0 (rw of.0 is_r) unlisted.0,
    each_task_kept later q1 id ts own is_r there.1 of.1 unlisted.1,
  )

  -- The request that is written is ready at last, so the new tasks stay unlisted.
  tasks_stay_free :
      (id : String) (r u : Request) (ts : List Task) (rs : Dict Request)
      → r.ready ≡ true
      → All (λ t. Unlisted t.task_id rs) ts
      → All (λ t. Unlisted t.task_id (insert id r (insert id u rs))) ts
  tasks_stay_free id r u [] rs is_r h = tt
  tasks_stay_free id r u (t ∷ ts) rs is_r h = (
    All-insert_twice (λ x. x.ready || not (contains x.task_ids t.task_id) ≡ true) id r u rs
        (ground (arith, is_r)) h.0,
    tasks_stay_free id r u ts rs is_r h.1,
  )

  whole_after :
      (now n later : ℕ) (c : Creation) (q : Queue)
      → OwnIds q
      → lookup (request_id_of texts c) q.requests ≡ none
      → AllDifferent (new_tasks texts max_attempts now c)
      → All (λ t. Unlisted t.task_id q.requests) (new_tasks texts max_attempts now c)
      → ltb (length c.tasks + 1) n ≡ true
      → All
          (λ t. Later t (
            lookup t.task_id
              (recover texts later
                (apply_writes (take n (creation_writes texts max_attempts now c)) q)).tasks))
          (new_tasks texts max_attempts now c)
  whole_after now zero later c q own absent different unlisted done = absurd (ground (arith, done))
  whole_after now (suc n) later c q own absent different unlisted done =
      let id = request_id_of texts c in
      let ts = new_tasks texts max_attempts now c in
      let r = ready_request texts max_attempts now c in
      let u = new_request texts max_attempts now c in
      let ws = take (suc n) (creation_writes texts max_attempts now c) in
      let behind : ltb (length ts) n ≡ true =
        unfold new_tasks in ground (arith, done, length-map_new texts max_attempts now c c.tasks) in
      let written : (apply_writes ws q).requests ≡ insert id r (insert id u q.requests) =
        unfold creation_writes apply_writes apply_write write_request new_request ready_request in
        requests-task_writes r id id n ts (write_request u q) behind in
      each_task_kept later (apply_writes ws q) id ts (apply_writes-OwnIds ws q own)
        (creation_ready now (suc n) c q absent ∙ done)
        (unfold creation_writes apply_writes apply_write new_request ready_request in
          lookup-task_writes r id id n ts (write_request u q) different behind)
        (unfold new_tasks in new_tasks-requests now c c.tasks)
        (subst (λ rs. All (λ t. Unlisted t.task_id rs) ts) (sym written)
          (tasks_stay_free id r u ts q.requests (unfold ready_request in refl) unlisted))

  -- A creation of a new request, whose tasks have different ids that no unready request of the queue
  -- lists, stops before any of its writes, and then `recover` runs: if the write that makes the
  -- request ready was done, the request is there, and so is each of its tasks, after writes that
  -- follow TASK_TRANSITIONS; if not, neither the request nor any task of it is there. And no task is
  -- left without its request.
  pub stopped_creation_recovered :
      (now n later : ℕ) (c : Creation) (q : Queue)
      → OwnIds q
      → lookup (request_id_of texts c) q.requests ≡ none
      → AllDifferent (new_tasks texts max_attempts now c)
      → All (λ t. Unlisted t.task_id q.requests) (new_tasks texts max_attempts now c)
      → let q' =
          recover texts later
            (apply_writes (take n (creation_writes texts max_attempts now c)) q) in
        ((length c.tasks + 1 < n) × Whole now c q' ⊎ (n ≤ length c.tasks + 1) × Nothing c q')
        × ((id : String) (u : Task)
            → lookup id q'.tasks ≡ some u
            → has_key u.request_id q'.requests ≡ true)
  stopped_creation_recovered now n later c q own absent different unlisted =
      let ws = take n (creation_writes texts max_attempts now c) in
      let stored = apply_writes-OwnIds ws q own in
      let left = recover_leaves_ready texts later (apply_writes ws q) stored.0 stored.1 in
      let there = left.0 (request_id_of texts c) ∙ creation_ready now n c q absent in
      (
        elim (Bool-cases (ltb (length c.tasks + 1) n)) [
          | inl done ↦ inl (
            ground (arith, done),
            (there ∙ done, whole_after now n later c q own absent different unlisted done),
          )
          | inr stopped ↦ inr (
            ground (arith, stopped),
            (
              there ∙ stopped,
              λ id u found of.
                  (let has = left.1 id u found in
                    let key =
                      subst
                        (λ k. has_key k (recover texts later (apply_writes ws q)).requests ≡ true)
                        of has in
                    ground (arith, key, there, stopped)),
            ),
          )
        ],
        left.1,
      )
