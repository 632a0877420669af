-- ===== src/WorkQueue/History.antt =====
-- How the operations of enterprise/control/work_queue.py move the tasks of the queue: every task
-- goes through a history of writes that follow the state machine.
pub mod Calls
pub mod Runs
pub mod Retry
use fabric_shortcut_proxy.Prelude.{
  ℕ, ◌+◌, String, str_eq, str_eq_iff, str_eq_refl, Bool, true, false, not, ◌&&◌, ◌||◌, Option, none,
  some, List, [], ◌∷◌, ◌++◌, if◌then◌else◌, ◌≡◌, refl, ◌∙◌, sym, ap, subst, arith, Bool-cases,
  Option-cases, inl, inr, some_inj, All,
}
use fabric_shortcut_proxy.Dict.{Dict, lookup, insert, lookup-insert}
use fabric_shortcut_proxy.WorkQueue.Task.{TaskState, failed, is_in, is_terminal, Task, Request}
use fabric_shortcut_proxy.WorkQueue.Steps.{Texts, cancel_versions, expire_versions}
use fabric_shortcut_proxy.WorkQueue.Steps.Transitions.{
  Follows, IsHistory, cancel-History, expire-History,
}
use fabric_shortcut_proxy.WorkQueue.Queue.{
  Queue, write_task, write_request, write_versions, on_task, on_tasks, task_ids, tasks_of,
  request_state, first_error, on_found,
}
use fabric_shortcut_proxy.WorkQueue.Changes.{
  refresh_request, refresh_each, refresh_requests, expire_claims, refreshed,
}

-- Every task stands under its own id.
abbrev pub Keyed : Queue → Type 0
Keyed q = (id : String) (t : Task) → lookup id q.tasks ≡ some t → t.task_id ≡ id

-- A queue whose keys are the ids of its tasks.
pub keyed_entries :
    (d : Dict Task) (id : String) (t : Task)
    → All (λ e. e.0 ≡ e.1.task_id) d
    → lookup id d ≡ some t
    → t.task_id ≡ id
unfolding lookup
keyed_entries [] id t own found = cc
keyed_entries ((k, u) ∷ d) id t own found = elim (Bool-cases (str_eq k id)) [
  | inl same ↦
      let here : u ≡ t = ground (arith, found, same) in
      ap (λ x. x.task_id) (sym here) ∙ sym own.0 ∙ (str_eq_iff k id).0 same
  | inr other ↦ keyed_entries d id t own.1 (ground (arith, found, other))
]

abbrev pub latest : Task → List Task → Task
latest t [] = t
latest t (u ∷ us) = latest u us

-- The task that was `t` is there, after a history of writes.
abbrev pub Later : Task → Option Task → Type 0
Later t o = (us : List Task) × IsHistory t us × (o ≡ some (latest t us))

abbrev pub Evolves : Queue → Queue → Type 0
Evolves q q' =
    Keyed q
    → Keyed q'
      × ((id : String) (t : Task) → lookup id q.tasks ≡ some t → Later t (lookup id q'.tasks))
      × ((id : String) → lookup id q.tasks ≡ none → lookup id q'.tasks ≡ none)

pub IsHistory-append :
    (t : Task) (us vs : List Task)
    → IsHistory t us
    → IsHistory (latest t us) vs
    → IsHistory t (us ++ vs)
IsHistory-append t [] vs h k = k
IsHistory-append t (u ∷ us) vs h k = (h.0, IsHistory-append u us vs h.1 k)

pub latest-append : (t : Task) (us vs : List Task) → latest t (us ++ vs) ≡ latest (latest t us) vs
latest-append t [] vs = refl
latest-append t (u ∷ us) vs = latest-append u us vs

pub Evolves-refl : (q : Queue) → Evolves q q
Evolves-refl q keyed = (keyed, λ id t there. ([], tt, there), λ id absent. absent)

pub Evolves-trans : (q q' q'' : Queue) → Evolves q q' → Evolves q' q'' → Evolves q q''
Evolves-trans q q' q'' f g keyed =
    let (keyed', first, still) = f keyed in
    let (keyed'', second, still') = g keyed' in
    (
      keyed'',
      λ id t there.
          (let (us, h, there') = first id t there in
            let (vs, k, there'') = second id (latest t us) there' in
            (
              us ++ vs,
              IsHistory-append t us vs h k,
              there'' ∙ ap some (sym (latest-append t us vs)),
            )),
      λ id absent. still' id (still id absent),
    )

-- A change of the queue that leaves the tasks alone.
pub Evolves-same : (q q' : Queue) → q'.tasks ≡ q.tasks → Evolves q q'
Evolves-same q q' e keyed = (
  λ id t there. keyed id t (subst (λ d. lookup id d ≡ some t) e there),
  λ id t there. ([], tt, subst (λ d. lookup id d ≡ some t) (sym e) there),
  λ id absent. subst (λ d. lookup id d ≡ none) (sym e) absent,
)

pub Evolves-write :
    (q : Queue) (t u : Task)
    → lookup t.task_id q.tasks ≡ some t
    → Follows t u
    → Evolves q (write_task u q)
unfolding write_task
Evolves-write q t u there step keyed =
    let id_of : u.task_id ≡ t.task_id = step.2 in
    (
      λ id t' found. (elim (Bool-cases (str_eq u.task_id id)) [
        | inl same ↦
            ground (arith, same, lookup-insert u.task_id id u q.tasks, str_eq_iff u.task_id id)
        | inr other ↦ keyed id t' (ground (arith, other, lookup-insert u.task_id id u q.tasks))
      ]),
      λ id t' found. (elim (Bool-cases (str_eq u.task_id id)) [
        | inl same ↦
            let at : t.task_id ≡ id = sym id_of ∙ (str_eq_iff u.task_id id).0 same in
            let here : lookup id q.tasks ≡ some t =
              subst (λ i. lookup i q.tasks ≡ some t) at there in
            let old : t ≡ t' = some_inj (sym here ∙ found) in
            (
              u ∷ [],
              (subst (λ x. Follows x u) old step, tt),
              ground (arith, same, lookup-insert u.task_id id u q.tasks),
            )
        | inr other ↦ ([], tt, ground (arith, other, found, lookup-insert u.task_id id u q.tasks))
      ]),
      λ id absent. (elim (Bool-cases (str_eq u.task_id id)) [
        | inl same ↦
            let at : t.task_id ≡ id = sym id_of ∙ (str_eq_iff u.task_id id).0 same in
            let gone : some t ≡ none =
              sym (subst (λ i. lookup i q.tasks ≡ some t) at there) ∙ absent in
            cc
        | inr other ↦ ground (arith, other, absent, lookup-insert u.task_id id u q.tasks)
      ]),
    )

pub Evolves-versions :
    (q : Queue) (t : Task) (us : List Task)
    → lookup t.task_id q.tasks ≡ some t
    → IsHistory t us
    → Evolves q (write_versions us q)
unfolding write_versions write_task
Evolves-versions q t [] there h = Evolves-refl q
Evolves-versions q t (u ∷ us) there h =
    let q' = write_task u q in
    let here : lookup u.task_id q'.tasks ≡ some u =
      rw (write_task, lookup-insert u.task_id u.task_id u q.tasks, str_eq_refl u.task_id) refl in
    Evolves-trans q q' (write_versions us q') (Evolves-write q t u there h.0)
      (Evolves-versions q' u us here h.1)

on_found-Evolves :
    (versions : Task → List Task)
    → ((t : Task) → IsHistory t (versions t))
    → (id : String) (o : Option Task) (q : Queue) → lookup id q.tasks ≡ o
    → Evolves q (on_found versions o q)
unfolding on_found
on_found-Evolves versions ok id none q there keyed = Evolves-refl q keyed
on_found-Evolves versions ok id (some t) q there keyed =
    let own : lookup t.task_id q.tasks ≡ some t =
      subst (λ i. lookup i q.tasks ≡ some t) (sym (keyed id t there)) there in
    Evolves-versions q t (versions t) own (ok t) keyed

pub on_task-Evolves :
    (versions : Task → List Task)
    → ((t : Task) → IsHistory t (versions t))
    → (id : String) (q : Queue) → Evolves q (on_task versions id q)
unfolding on_task
on_task-Evolves versions ok id q = on_found-Evolves versions ok id (lookup id q.tasks) q refl

pub on_tasks-Evolves :
    (versions : Task → List Task)
    → ((t : Task) → IsHistory t (versions t))
    → (ids : List String) (q : Queue) → Evolves q (on_tasks versions ids q)
unfolding on_tasks
on_tasks-Evolves versions ok [] q = Evolves-refl q
on_tasks-Evolves versions ok (id ∷ ids) q =
    let q' = on_task versions id q in
    Evolves-trans q q' (on_tasks versions ids q') (on_task-Evolves versions ok id q)
      (on_tasks-Evolves versions ok ids q')

module _ (texts : Texts) where
  refresh_request-Evolves :
      (now : ℕ) (r : Request) (q : Queue) → Evolves q (refresh_request texts now r q)
  unfolding refresh_request write_request
  refresh_request-Evolves now r q =
      let new = refreshed texts now r (tasks_of r.task_ids q.tasks) in
      elim (Bool-cases (r.published || is_terminal r.state)) [
        | inl over ↦ rw over (Evolves-refl q)
        | inr ongoing ↦
            elim (Bool-cases (is_in (request_state (tasks_of r.task_ids q.tasks)) failed)) [
              | inl fails ↦
                  let q' = on_tasks (cancel_versions texts now "request_failed") r.task_ids q in
                  let first : Evolves q q' =
                    on_tasks-Evolves (cancel_versions texts now "request_failed")
                      (cancel-History texts now "request_failed") r.task_ids q in
                  rw (ongoing, fails)
                    (Evolves-trans q q' (write_request new q') first
                      (Evolves-same q' (write_request new q') refl))
              | inr goes_on ↦ rw (ongoing, goes_on) (Evolves-same q (write_request new q) refl)
            ]
      ]

  refresh_each-Evolves :
      (now : ℕ) (rs : Dict Request) (q : Queue) → Evolves q (refresh_each texts now rs q)
  unfolding refresh_each
  refresh_each-Evolves now [] q = Evolves-refl q
  refresh_each-Evolves now ((k, r) ∷ rs) q =
      let q' = refresh_request texts now r q in
      Evolves-trans q q' (refresh_each texts now rs q') (refresh_request-Evolves now r q)
        (refresh_each-Evolves now rs q')

  pub refresh-Evolves : (now : ℕ) (q : Queue) → Evolves q (refresh_requests texts now q)
  unfolding refresh_requests
  refresh-Evolves now q = refresh_each-Evolves now q.requests q

  pub expire-Evolves : (now : ℕ) (q : Queue) → Evolves q (expire_claims texts now q)
  unfolding expire_claims
  expire-Evolves now q =
      let q' = on_tasks (expire_versions now) (task_ids q.tasks) q in
      Evolves-trans q q' (refresh_requests texts now q')
        (on_tasks-Evolves (expire_versions now) (expire-History now) (task_ids q.tasks) q)
        (refresh-Evolves now q')
