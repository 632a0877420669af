-- ===== src/WorkQueue/Recover/Complete.antt =====
-- What `recover` of enterprise/control/work_queue.py promises of the requests and the tasks.
use fabric_shortcut_proxy.Prelude.{
  ℕ, String, str_eq_iff, true, false, not, none, some, List, [], ◌∷◌, ◌++◌, ◌||◌, ◌≡◌, refl, ◌∙◌,
  sym, ap, subst, arith, Bool-cases, Option, inl, inr, All, All-imp, contains, if-each, either,
  some_inj,
}
use fabric_shortcut_proxy.Dict.{Dict, lookup, has_key, lookup-remove, IsStored, IsStored-remove}
use fabric_shortcut_proxy.WorkQueue.Task.{Task, Request}
use fabric_shortcut_proxy.WorkQueue.Steps.{Texts, recover_versions}
use fabric_shortcut_proxy.WorkQueue.Steps.Transitions.{recover-History}
use fabric_shortcut_proxy.WorkQueue.Queue.{Queue, write_request}
use fabric_shortcut_proxy.WorkQueue.Changes.{expire_claims}
use fabric_shortcut_proxy.WorkQueue.Runnable.{is_ready}
use fabric_shortcut_proxy.WorkQueue.Create.{write_idempotency}
use fabric_shortcut_proxy.WorkQueue.History.{
  Keyed, keyed_entries, Later, latest, expire-Evolves, IsHistory-append, latest-append,
}
use fabric_shortcut_proxy.WorkQueue.Recover.{
  delete_tasks, delete_task, has_missing, recover_ready, remove_unready, recover_request,
  recover_requests, ready_ids, recover_records, recover,
}
use fabric_shortcut_proxy.WorkQueue.Recover.Requests.{id_of_request}
use fabric_shortcut_proxy.WorkQueue.Recover.Kept.{has_key-recover}
use fabric_shortcut_proxy.WorkQueue.Recover.Orphans.{
  id_of_task, latest_ids, left_task, lookup-recover_tasks,
}

tasks-recover_ready : (now : ℕ) (r : Request) (q : Queue) → (recover_ready now r q).tasks ≡ q.tasks
unfolding recover_ready write_request write_idempotency
tasks-recover_ready now r q =
    either (λ (x : Queue). x.tasks ≡ q.tasks) (has_missing r.task_ids q.tasks) _ _ refl refl

delete_tasks-IsStored :
    (ids : List String) (q : Queue)
    → IsStored id_of_task q.tasks
    → IsStored id_of_task (delete_tasks ids q).tasks
unfolding delete_tasks
delete_tasks-IsStored [] q h = h
delete_tasks-IsStored (id ∷ ids) q h =
    delete_tasks-IsStored ids (delete_task id q) (IsStored-remove id_of_task id q.tasks h)

lookup-delete_tasks :
    (ids : List String) (id : String) (q : Queue)
    → contains ids id ≡ false
    → lookup id (delete_tasks ids q).tasks ≡ lookup id q.tasks
unfolding delete_tasks
lookup-delete_tasks [] id q other = refl
lookup-delete_tasks (i ∷ ids) id q other =
    lookup-delete_tasks ids id (delete_task i q) (ground (arith, other))
    ∙ ground (arith, lookup-remove i id q.tasks, other)

recover_requests-IsStored :
    (now : ℕ) (rs : Dict Request) (q : Queue)
    → IsStored id_of_task q.tasks
    → IsStored id_of_task (recover_requests now rs q).tasks
unfolding recover_requests recover_request remove_unready
recover_requests-IsStored now [] q h = h
recover_requests-IsStored now ((k, r) ∷ rs) q h =
    recover_requests-IsStored now rs (recover_request now r q) (
      either (λ (x : Queue). IsStored id_of_task x.tasks) r.ready _ _
        (subst (IsStored id_of_task) (sym (tasks-recover_ready now r q)) h)
        (delete_tasks-IsStored r.task_ids q h))

-- No request that is not ready lists the task.
abbrev pub Unlisted : String → Dict Request → Type 0
Unlisted id rs = All (λ e. e.1.ready || not (contains e.1.task_ids id) ≡ true) rs

lookup-recover_request :
    (now : ℕ) (r : Request) (id : String) (q : Queue)
    → r.ready || not (contains r.task_ids id) ≡ true
    → lookup id (recover_request now r q).tasks ≡ lookup id q.tasks
unfolding recover_request remove_unready
lookup-recover_request now r id q h =
    if-each (λ (x : Queue). lookup id x.tasks ≡ lookup id q.tasks) r.ready _ _
      (λ ready. ap (λ d. lookup id d) (tasks-recover_ready now r q))
      (λ unready. lookup-delete_tasks r.task_ids id q (ground (arith, h, unready)))

lookup-recover_requests :
    (now : ℕ) (rs : Dict Request) (id : String) (q : Queue)
    → Unlisted id rs
    → lookup id (recover_requests now rs q).tasks ≡ lookup id q.tasks
unfolding recover_requests
lookup-recover_requests now [] id q h = refl
lookup-recover_requests now ((k, r) ∷ rs) id q h =
    lookup-recover_requests now rs id (recover_request now r q) h.1
    ∙ lookup-recover_request now r id q h.0

contains-ready_ids :
    (rs : Dict Request) (id : String)
    → IsStored id_of_request rs
    → contains (ready_ids rs) id ≡ is_ready (lookup id rs)
unfolding ready_ids lookup
contains-ready_ids [] id own = refl
contains-ready_ids ((k, r) ∷ rs) id own = ground (
  arith,
  contains-ready_ids rs id (own.0.1, own.1.1),
  own.0.0,
  own.1.0,
  str_eq_iff k id,
  str_eq_iff k r.request_id,
  str_eq_iff r.request_id id,
)

tasks-recover_records :
    (now : ℕ) (id : String) (q : Queue)
    → IsStored id_of_task q.tasks
    → lookup id (recover_records now q).tasks
      ≡ left_task now (ready_ids q.requests) (lookup id (recover_requests now q.requests q).tasks)
unfolding recover_records
tasks-recover_records now id q own =
    let q1 = recover_requests now q.requests q in
    lookup-recover_tasks now (ready_ids q.requests) id q1 (lookup id q1.tasks)
      (recover_requests-IsStored now q.requests q own) refl

-- What is left of a task has its ids, and its request is ready.
left_task-ids :
    (now : ℕ) (ids : List String) (o : Option Task) (u : Task)
    → left_task now ids o ≡ some u
    → (t : Task) × (o ≡ some t) × (u.task_id ≡ t.task_id) × (contains ids u.request_id ≡ true)
unfolding left_task
left_task-ids now ids none u h = cc
left_task-ids now ids (some t) u h = elim (Bool-cases (contains ids t.request_id)) [
  | inr orphan ↦ ground (arith, orphan, h)
  | inl kept ↦
      let last : latest t (recover_versions now t) ≡ u = ground (arith, kept, h) in
      let of = latest_ids t (recover_versions now t) (recover-History now t) in
      (
        t,
        refl,
        ap (λ x. x.task_id) (sym last) ∙ of.0,
        ap (λ x. contains ids x.request_id) (sym last) ∙ ap (λ i. contains ids i) of.1 ∙ kept,
      )
]

stored_id :
    (d : Dict Task) (id : String) (t : Task)
    → IsStored id_of_task d
    → lookup id d ≡ some t
    → t.task_id ≡ id
stored_id d id t own found =
    keyed_entries d id t (All-imp _ _ d (λ e h. (str_eq_iff e.0 e.1.task_id).0 h) own.1) found

recover_records-Keyed :
    (now : ℕ) (q : Queue) → IsStored id_of_task q.tasks → Keyed (recover_records now q)
recover_records-Keyed now q own id u found =
    let q1 = recover_requests now q.requests q in
    let (t, there, same, _) =
      left_task-ids now (ready_ids q.requests) (lookup id q1.tasks) u
        (sym (tasks-recover_records now id q own) ∙ found) in
    same ∙ stored_id q1.tasks id t (recover_requests-IsStored now q.requests q own) there

Later-request :
    (texts : Texts) (now : ℕ) (id : String) (u : Task) (q : Queue) (o : Option Task)
    → Keyed q
    → lookup id q.tasks ≡ o
    → lookup id (expire_claims texts now q).tasks ≡ some u
    → (t : Task) × (o ≡ some t) × (u.request_id ≡ t.request_id)
Later-request texts now id u q none keyed there found =
    let gone = (expire-Evolves texts now q keyed).2 id there in cc
Later-request texts now id u q (some t) keyed there found =
    let (us, history, at_end) = (expire-Evolves texts now q keyed).1 id t there in
    let last : u ≡ latest t us = some_inj (sym found ∙ at_end) in
    (t, refl, ap (λ x. x.request_id) last ∙ (latest_ids t us history).1)

-- `recover` leaves exactly the requests that were ready, and every task that it leaves belongs to
-- one of them, in any queue whose tasks and requests stand under their own ids: what a creation
-- that was cut short has left is gone.
pub recover_leaves_ready :
    (texts : Texts) (now : ℕ) (q : Queue)
    → IsStored id_of_request q.requests
    → IsStored id_of_task q.tasks
    → let q' = recover texts now q in
      ((id : String) → has_key id q'.requests ≡ is_ready (lookup id q.requests))
      × ((id : String) (u : Task)
          → lookup id q'.tasks ≡ some u
          → has_key u.request_id q'.requests ≡ true)
unfolding recover
recover_leaves_ready texts now q own owned = (
  λ id. has_key-recover texts now id q own,
  λ id u found.
      (let q2 = recover_records now q in
        let q1 = recover_requests now q.requests q in
        let (v, there, same) =
          Later-request texts now id u q2 (lookup id q2.tasks) (recover_records-Keyed now q owned)
            refl found in
        let (_, _, _, listed) =
          left_task-ids now (ready_ids q.requests) (lookup id q1.tasks) v
            (sym (tasks-recover_records now id q owned) ∙ there) in
        has_key-recover texts now u.request_id q own
        ∙ ap (λ i. is_ready (lookup i q.requests)) same
        ∙ sym (contains-ready_ids q.requests v.request_id own)
        ∙ listed),
)

-- A task of a ready request that no request which is not ready lists is still there after
-- `recover`, after a history of writes that follow TASK_TRANSITIONS.
pub recover_keeps_task :
    (texts : Texts) (now : ℕ) (q : Queue) (id : String) (t : Task)
    → IsStored id_of_request q.requests
    → IsStored id_of_task q.tasks
    → lookup id q.tasks ≡ some t
    → is_ready (lookup t.request_id q.requests) ≡ true
    → Unlisted id q.requests
    → Later t (lookup id (recover texts now q).tasks)
unfolding recover left_task
recover_keeps_task texts now q id t own owned there ready unlisted =
    let q2 = recover_records now q in
    let listed : contains (ready_ids q.requests) t.request_id ≡ true =
      contains-ready_ids q.requests t.request_id own ∙ ready in
    let us = recover_versions now t in
    let first : lookup id q2.tasks ≡ some (latest t us) =
      tasks-recover_records now id q owned
      ∙ ap (λ o. left_task now (ready_ids q.requests) o)
          (lookup-recover_requests now q.requests id q unlisted ∙ there)
      ∙ ground (arith, listed) in
    let (vs, history, at_end) =
      (expire-Evolves texts now q2 (recover_records-Keyed now q owned)).1 id (latest t us) first in
    (
      us ++ vs,
      IsHistory-append t us vs (recover-History now t) history,
      at_end ∙ ap some (sym (latest-append t us vs)),
    )
