-- ===== src/WorkQueue/Recover/Orphans.antt =====
-- The tasks that `recover` of enterprise/control/work_queue.py leaves.
use fabric_shortcut_proxy.Prelude.{
  ℕ, String, str_eq, str_eq_iff, false, none, some, List, [], ◌∷◌, ◌≡◌, refl, ◌∙◌, sym, ap, subst,
  arith, Bool-cases, Option, inl, inr, contains, either, if◌then◌else◌,
}
use fabric_shortcut_proxy.Dict.{Dict, lookup, lookup-insert, lookup-remove, IsStored}
use fabric_shortcut_proxy.WorkQueue.Task.{Task}
use fabric_shortcut_proxy.WorkQueue.Steps.{recover_versions}
use fabric_shortcut_proxy.WorkQueue.Steps.Transitions.{IsHistory, recover-History}
use fabric_shortcut_proxy.WorkQueue.Queue.{Queue, write_task, write_versions}
use fabric_shortcut_proxy.WorkQueue.History.{latest}
use fabric_shortcut_proxy.WorkQueue.History.Retry.{lookup-write_versions}
use fabric_shortcut_proxy.WorkQueue.Recover.{recover_task, recover_tasks}

abbrev pub id_of_task : Task → String
id_of_task t = t.task_id

pub latest_ids :
    (t : Task) (us : List Task)
    → IsHistory t us
    → ((latest t us).task_id ≡ t.task_id) × ((latest t us).request_id ≡ t.request_id)
latest_ids t [] h = (refl, refl)
latest_ids t (u ∷ us) h = let rest = latest_ids u us h.1 in (rest.0 ∙ h.0.2, rest.1 ∙ h.0.3)

write_versions-other :
    (t : Task) (us : List Task) (id : String) (q : Queue)
    → IsHistory t us
    → str_eq t.task_id id ≡ false
    → lookup id (write_versions us q).tasks ≡ lookup id q.tasks
unfolding write_versions write_task
write_versions-other t [] id q h other = refl
write_versions-other t (u ∷ us) id q h other =
    let theirs : str_eq u.task_id id ≡ false = rw h.0.2 other in
    write_versions-other u us id (write_task u q) h.1 theirs
    ∙ ground (arith, lookup-insert u.task_id id u q.tasks, theirs)

-- What is left of a task: nothing without its request.
unfoldable pub left_task : ℕ → List String → Option Task → Option Task
left_task now ids none = none
left_task now ids (some t) =
    if contains ids t.request_id then some (latest t (recover_versions now t)) else none

recover_task-other :
    (now : ℕ) (ids : List String) (t : Task) (id : String) (q : Queue)
    → str_eq t.task_id id ≡ false
    → lookup id (recover_task now ids t q).tasks ≡ lookup id q.tasks
unfolding recover_task
recover_task-other now ids t id q other =
    either (λ (x : Queue). lookup id x.tasks ≡ lookup id q.tasks) (contains ids t.request_id) _ _
      (write_versions-other t (recover_versions now t) id q (recover-History now t) other)
      (ground (arith, lookup-remove t.task_id id q.tasks, other))

recover_task-same :
    (now : ℕ) (ids : List String) (t : Task) (q : Queue)
    → lookup t.task_id q.tasks ≡ some t
    → lookup t.task_id (recover_task now ids t q).tasks ≡ left_task now ids (some t)
unfolding recover_task left_task
recover_task-same now ids t q there = elim (Bool-cases (contains ids t.request_id)) [
  | inl kept ↦
      rw kept (lookup-write_versions t (recover_versions now t) q there (recover-History now t))
  | inr orphan ↦
      rw orphan
        (ground (arith, lookup-remove t.task_id t.task_id q.tasks, str_eq_iff t.task_id t.task_id))
]

recover_tasks-other :
    (now : ℕ) (ids : List String) (ts : Dict Task) (id : String) (q : Queue)
    → IsStored id_of_task ts
    → lookup id ts ≡ none
    → lookup id (recover_tasks now ids ts q).tasks ≡ lookup id q.tasks
unfolding recover_tasks lookup
recover_tasks-other now ids [] id q own absent = refl
recover_tasks-other now ids ((k, t) ∷ ts) id q own absent =
    recover_tasks-other now ids ts id (recover_task now ids t q) (own.0.1, own.1.1)
      (ground (arith, absent))
    ∙ recover_task-other now ids t id q (
        ground (
          arith,
          absent,
          own.1.0,
          str_eq_iff k id,
          str_eq_iff k t.task_id,
          str_eq_iff t.task_id id,
        ))

recover_tasks-listed :
    (now : ℕ) (ids : List String) (ts : Dict Task) (id : String) (t : Task) (q : Queue)
    → IsStored id_of_task ts
    → lookup id ts ≡ some t
    → lookup id q.tasks ≡ some t
    → lookup id (recover_tasks now ids ts q).tasks ≡ left_task now ids (some t)
unfolding recover_tasks lookup
recover_tasks-listed now ids [] id t q own listed there = cc
recover_tasks-listed now ids ((k, u) ∷ ts) id t q own listed there =
    elim (Bool-cases (str_eq k id)) [
      | inl same ↦
          let here : u ≡ t = ground (arith, same, listed) in
          let at : u.task_id ≡ id =
            sym ((str_eq_iff k u.task_id).0 own.1.0) ∙ (str_eq_iff k id).0 same in
          let absent : lookup id ts ≡ none = ground (arith, own.0.0, (str_eq_iff k id).0 same) in
          recover_tasks-other now ids ts id (recover_task now ids u q) (own.0.1, own.1.1) absent
          ∙ subst (λ i. lookup i (recover_task now ids u q).tasks ≡ left_task now ids (some u)) at
              (recover_task-same now ids u q
                (subst (λ i. lookup i q.tasks ≡ some u) (sym at) (there ∙ ap some (sym here))))
          ∙ ap (λ x. left_task now ids (some x)) here
      | inr other ↦
          let theirs : str_eq u.task_id id ≡ false = ground (
            arith,
            own.1.0,
            other,
            str_eq_iff k id,
            str_eq_iff k u.task_id,
            str_eq_iff u.task_id id,
          ) in
          recover_tasks-listed now ids ts id t (recover_task now ids u q) (own.0.1, own.1.1)
            (ground (arith, listed, other)) (recover_task-other now ids u id q theirs ∙ there)
    ]

-- The loop over all tasks.
pub lookup-recover_tasks :
    (now : ℕ) (ids : List String) (id : String) (q : Queue) (o : Option Task)
    → IsStored id_of_task q.tasks
    → lookup id q.tasks ≡ o
    → lookup id (recover_tasks now ids q.tasks q).tasks ≡ left_task now ids o
unfolding left_task
lookup-recover_tasks now ids id q none own there =
    recover_tasks-other now ids q.tasks id q own there ∙ there
lookup-recover_tasks now ids id q (some t) own there =
    recover_tasks-listed now ids q.tasks id t q own there there
