-- ===== src/WorkQueue/Prune/Exact.antt =====
-- What `prune_terminal` of enterprise/control/work_queue.py leaves.
use fabric_shortcut_proxy.Prelude.{
  ℕ, String, str_eq, str_eq_iff, ◌&&◌, Option, none, some, List, [], ◌∷◌, ◌≡◌, refl, ◌∙◌, ap, arith,
  Bool-cases, inl, inr, contains, if◌then◌else◌, ◌⊎◌, subst, sym,
}
use fabric_shortcut_proxy.Dict.{Dict, lookup, remove, lookup-remove, IsDistinct}
use fabric_shortcut_proxy.WorkQueue.Task.{Request}
use fabric_shortcut_proxy.WorkQueue.Queue.{Queue}
use fabric_shortcut_proxy.WorkQueue.Recover.{delete_task, delete_results}
use fabric_shortcut_proxy.WorkQueue.Prune.Old.{
  LeftRequest, Goes, left_request, is_pruned_task, left_request-Left, is_pruned_task-Goes,
  Goes-is_pruned_task,
}
use fabric_shortcut_proxy.WorkQueue.Prune.{
  is_prunable, drop_tasks, prune_request, prune_each, prune_terminal,
}

requests-drop_tasks : (ids : List String) (q : Queue) → (drop_tasks ids q).requests ≡ q.requests
unfolding drop_tasks
requests-drop_tasks [] q = refl
requests-drop_tasks (id ∷ ids) q = requests-drop_tasks ids (delete_task id (delete_results id q))

lookup-drop_tasks :
    (ids : List String) (id : String) (q : Queue)
    → lookup id (drop_tasks ids q).tasks ≡ (if contains ids id then none else lookup id q.tasks)
unfolding drop_tasks
lookup-drop_tasks [] id q = refl
lookup-drop_tasks (i ∷ ids) id q =
    lookup-drop_tasks ids id (delete_task i (delete_results i q))
    ∙ ground (arith, lookup-remove i id q.tasks)

module _ (now retention : ℕ) where
  prune_one : String → Request → Queue → Queue
  prune_one key r q = if is_prunable now retention r then prune_request key r q else q

  requests-prune_one :
      (key : String) (r : Request) (id : String) (q : Queue)
      → lookup id (prune_one key r q).requests
        ≡ (if is_prunable now retention r && str_eq key id then none else lookup id q.requests)
  unfolding prune_one prune_request
  requests-prune_one key r id q = elim (Bool-cases (is_prunable now retention r)) [
    | inr stays ↦ rw stays refl
    | inl goes ↦ rw goes (
        ap (λ d. lookup id (remove key d)) (requests-drop_tasks r.task_ids q)
        ∙ lookup-remove key id q.requests)
  ]

  tasks-prune_one :
      (key : String) (r : Request) (id : String) (q : Queue)
      → lookup id (prune_one key r q).tasks ≡ (
          if is_prunable now retention r && contains r.task_ids id then none else lookup id q.tasks)
  unfolding prune_one prune_request
  tasks-prune_one key r id q = elim (Bool-cases (is_prunable now retention r)) [
    | inr stays ↦ rw stays refl
    | inl goes ↦ rw goes (lookup-drop_tasks r.task_ids id q)
  ]

  tasks-prune_each :
      (rs : Dict Request) (id : String) (q : Queue)
      → lookup id (prune_each now retention rs q).tasks
        ≡ (if is_pruned_task now retention id rs then none else lookup id q.tasks)
  unfolding prune_each prune_one
  tasks-prune_each [] id q = refl
  tasks-prune_each ((key, r) ∷ rs) id q =
      tasks-prune_each rs id (prune_one key r q) ∙ ground (arith, tasks-prune_one key r id q)

  requests-prune_other :
      (rs : Dict Request) (id : String) (q : Queue)
      → lookup id rs ≡ none
      → lookup id (prune_each now retention rs q).requests ≡ lookup id q.requests
  unfolding prune_each prune_one lookup
  requests-prune_other [] id q absent = refl
  requests-prune_other ((key, r) ∷ rs) id q absent =
      requests-prune_other rs id (prune_one key r q) (ground (arith, absent))
      ∙ ground (arith, requests-prune_one key r id q, absent)

  requests-prune_each :
      (rs : Dict Request) (id : String) (q : Queue) (r : Request)
      → IsDistinct rs
      → lookup id rs ≡ some r
      → lookup id q.requests ≡ some r
      → lookup id (prune_each now retention rs q).requests ≡ left_request now retention (some r)
  unfolding prune_each prune_one lookup left_request
  requests-prune_each [] id q r distinct listed there = cc
  requests-prune_each ((key, u) ∷ rs) id q r distinct listed there =
      elim (Bool-cases (str_eq key id)) [
        | inl same ↦
            let here : u ≡ r = ground (arith, same, listed) in
            let absent : lookup id rs ≡ none =
              ground (arith, distinct.0, (str_eq_iff key id).0 same) in
            requests-prune_other rs id (prune_one key u q) absent
            ∙ requests-prune_one key u id q
            ∙ ap
                (λ x.
                  if is_prunable now retention x && str_eq key id
                  then none
                  else lookup id q.requests)
                here
            ∙ ground (arith, same, there)
        | inr other ↦
            requests-prune_each rs id (prune_one key u q) r distinct.1
              (ground (arith, listed, other))
              (requests-prune_one key u id q ∙ ground (arith, other, there))
      ]

requests-prune_found :
    (now retention : ℕ) (q : Queue) (id : String) (o : Option Request)
    → IsDistinct q.requests
    → lookup id q.requests ≡ o
    → lookup id (prune_each now retention q.requests q).requests ≡ left_request now retention o
unfolding left_request
requests-prune_found now retention q id none distinct there =
    requests-prune_other now retention q.requests id q there ∙ there
requests-prune_found now retention q id (some r) distinct there =
    requests-prune_each now retention q.requests id q r distinct there there

-- For a queue in which no two requests have one key: of a request that is found before, nothing is
-- left if it succeeded and was published, failed or was cancelled, and was not touched for the
-- retention time, and otherwise it is found as it was; what is not found before is not found after.
-- A task that such an old request lists is gone, and every other task is as it was.
pub prune_terminal_exact :
    (now retention : ℕ) (q : Queue) (id task_id : String)
    → IsDistinct q.requests
    → let q' = (prune_terminal now retention q).queue in
      LeftRequest now retention (lookup id q.requests) (lookup id q'.requests)
      × (Goes now retention q.requests task_id × (lookup task_id q'.tasks ≡ none)
          ⊎ ¬ (Goes now retention q.requests task_id)
            × (lookup task_id q'.tasks ≡ lookup task_id q.tasks))
unfolding prune_terminal
prune_terminal_exact now retention q id task_id distinct = (
  subst (LeftRequest now retention (lookup id q.requests))
      (sym (requests-prune_found now retention q id (lookup id q.requests) distinct refl))
      (left_request-Left now retention (lookup id q.requests)),
  elim (Bool-cases (is_pruned_task now retention task_id q.requests)) [
    | inl goes ↦ inl (
      is_pruned_task-Goes now retention task_id q.requests distinct goes,
      tasks-prune_each now retention q.requests task_id q ∙ rw goes refl,
    )
    | inr stays ↦ inr (
      λ (key, r, there, old, lists).
          (let goes = Goes-is_pruned_task now retention task_id key q.requests r there old lists in
            cc),
      tasks-prune_each now retention q.requests task_id q ∙ rw stays refl,
    )
  ],
)
