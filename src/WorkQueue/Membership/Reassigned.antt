-- ===== src/WorkQueue/Membership/Reassigned.antt =====
-- What `reassign_fenced_claims` of enterprise/control/work_queue.py leaves.
use fabric_shortcut_proxy.WorkQueue.History.{Keyed, on_task-Evolves}
use fabric_shortcut_proxy.Prelude.{
  ℕ, zero, suc, String, str_eq, str_eq_iff, true, false, Option, none, some, List, [], ◌∷◌,
  if◌then◌else◌, ◌≡◌, refl, ◌∙◌, sym, ap, subst, arith, Bool-cases, Option-cases, inl, inr, any,
  sum_by, some_inj,
}
use fabric_shortcut_proxy.Dict.{Dict, lookup, insert, lookup-insert}
use fabric_shortcut_proxy.WorkQueue.Task.{claimed, code_of, Claim, Task}
use fabric_shortcut_proxy.WorkQueue.Steps.{Texts, requeue}
use fabric_shortcut_proxy.WorkQueue.Steps.Transitions.{IsHistory, requeue-Follows}
use fabric_shortcut_proxy.WorkQueue.Queue.{
  Queue, Worker, Membership, on_found, on_task, on_tasks, task_ids, write_versions, write_task,
}
use fabric_shortcut_proxy.WorkQueue.Membership.{
  holds, valid_claim, is_fenced, reassign_versions, count_reassigned, write_membership,
  reassign_fenced_claims,
}

module _ (texts : Texts) (now : ℕ) (generation : String) (ws : Dict Worker) where
  pub reassign-History : (t : Task) → IsHistory t (reassign_versions texts now generation ws t)
  unfolding reassign_versions is_fenced
  reassign-History t = elim (Bool-cases (is_fenced generation ws t)) [
    | inl fenced ↦
        rw fenced (requeue-Follows texts now "worker_membership_fenced" t (ground arith), tt)
    | inr kept ↦ rw kept tt
  ]

  versions : Task → List Task
  versions t = reassign_versions texts now generation ws t

  requeued_is_free :
      (t : Task) → is_fenced generation ws (requeue texts now "worker_membership_fenced" t) ≡ false
  unfolding is_fenced code_of
  requeued_is_free t = refl

  -- The task that stands under an id is not fenced, if one is there.
  abbrev Free : String → Queue → Type 0
  Free id q = (t : Task) → lookup id q.tasks ≡ some t → is_fenced generation ws t ≡ false

  write_task-Free :
      (id : String) (u : Task) (q : Queue)
      → is_fenced generation ws u ≡ false
      → Free id q
      → Free id (write_task u q)
  unfolding write_task
  write_task-Free id u q ok free t found =
      ground (arith, ok, free t, lookup-insert u.task_id id u q.tasks)

  -- Visiting a task frees it, and keeps the others free.
  on_found-Free :
      (id : String) (o : Option Task) (q : Queue) → Free id q → Free id (on_found versions o q)
  unfolding on_found versions reassign_versions write_versions
  on_found-Free id none q free = free
  on_found-Free id (some t) q free = elim (Bool-cases (is_fenced generation ws t)) [
    | inl fenced ↦ rw fenced (
        write_task-Free id (requeue texts now "worker_membership_fenced" t) q (requeued_is_free t)
          free)
    | inr kept ↦ rw kept free
  ]

  on_found-frees :
      (id : String) (o : Option Task) (q : Queue)
      → ((t : Task) → lookup id q.tasks ≡ some t → t.task_id ≡ id)
      → lookup id q.tasks ≡ o
      → Free id (on_found versions o q)
  unfolding on_found versions reassign_versions write_versions
  on_found-frees id none q keyed there = λ t found. (ground (arith, there, found))
  on_found-frees id (some u) q keyed there = elim (Bool-cases (is_fenced generation ws u)) [
    | inl fenced ↦ rw fenced (λ t found.
        (let at = (str_eq_iff u.task_id id).1 (keyed u there) in
          let new = requeue texts now "worker_membership_fenced" u in
          let stored : lookup id (insert u.task_id new q.tasks) ≡ some new =
            rw (lookup-insert u.task_id id new q.tasks, at) refl in
          subst (λ x. is_fenced generation ws x ≡ false) (some_inj (sym stored ∙ found))
            (requeued_is_free u)))
    | inr kept ↦ rw kept (λ t found.
        (subst (λ x. is_fenced generation ws x ≡ false) (some_inj (sym there ∙ found)) kept))
  ]

  on_task-Free : (id i : String) (q : Queue) → Free id q → Free id (on_task versions i q)
  unfolding on_task
  on_task-Free id i q free = on_found-Free id (lookup i q.tasks) q free

  on_tasks-Free :
      (id : String) (ids : List String) (q : Queue) → Free id q → Free id (on_tasks versions ids q)
  unfolding on_tasks
  on_tasks-Free id [] q free = free
  on_tasks-Free id (i ∷ ids) q free =
      on_tasks-Free id ids (on_task versions i q) (on_task-Free id i q free)

  on_task-frees : (id : String) (q : Queue) → Keyed q → Free id (on_task versions id q)
  unfolding on_task
  on_task-frees id q keyed = on_found-frees id (lookup id q.tasks) q (keyed id) refl

  on_tasks-frees :
      (id : String) (ids : List String) (q : Queue)
      → Keyed q
      → any (λ i. str_eq i id) ids ≡ true
      → Free id (on_tasks versions ids q)
  unfolding on_tasks
  on_tasks-frees id [] q keyed member = cc
  on_tasks-frees id (i ∷ ids) q keyed member =
      let q1 = on_task versions i q in
      let keyed1 =
        (on_task-Evolves versions (λ t. unfold versions in reassign-History t) i q keyed).0 in
      elim (Bool-cases (str_eq i id)) [
        | inl same ↦ on_tasks-Free id ids q1 (
            subst (λ k. Free k (on_task versions i q)) ((str_eq_iff i id).0 same)
              (on_task-frees i q keyed))
        | inr other ↦ on_tasks-frees id ids q1 keyed1 (ground (arith, member, other))
      ]

listed :
    (id : String) (d : Dict Task) (t : Task)
    → lookup id d ≡ some t
    → any (λ i. str_eq i id) (task_ids d) ≡ true
unfolding task_ids lookup
listed id [] t found = cc
listed id ((k, u) ∷ d) t found = ground (arith, found, listed id d t)

pub tasks-count_reassigned :
    (n now : ℕ) (id : String) (m : Membership) (q : Queue)
    → (count_reassigned n now id m q).tasks ≡ q.tasks
unfolding count_reassigned write_membership
tasks-count_reassigned zero now id m q = refl
tasks-count_reassigned (suc n) now id m q = refl

-- The claim of a task is held by an active worker, under its lease and its fence.
abbrev pub HeldBy : Dict Worker → Task → Type 0
HeldBy ws t =
    (c : Claim) × (w : Worker) × (t.claim ≡ some c)
    × (lookup c.agent_id ws ≡ some w)
    × (w.is_active ≡ true)
    × (w.lease_hash ≡ c.agent_lease_hash)
    × (w.worker_fence ≡ c.worker_fence)

holds-worker :
    (ws : Dict Worker) (t : Task) (c : Claim) (o : Option Worker)
    → t.claim ≡ some c
    → lookup c.agent_id ws ≡ o
    → holds o c ≡ true
    → HeldBy ws t
unfolding holds
holds-worker ws t c none mine there h = cc
holds-worker ws t c (some w) mine there h = (
  c,
  w,
  mine,
  there,
  ground (arith, h),
  ground (arith, h, str_eq_iff w.lease_hash c.agent_lease_hash),
  ground (arith, h),
)

valid_claim-HeldBy :
    (ws : Dict Worker) (t : Task) (o : Option Claim)
    → t.claim ≡ o
    → valid_claim ws o ≡ true
    → HeldBy ws t
unfolding valid_claim
valid_claim-HeldBy ws t none mine h = cc
valid_claim-HeldBy ws t (some c) mine h = holds-worker ws t c (lookup c.agent_id ws) mine refl h

free_claim :
    (generation : String) (ws : Dict Worker) (t : Task)
    → is_fenced generation ws t ≡ false
    → t.state ≡ claimed
    → t.task.generation_id ≡ generation
    → HeldBy ws t
unfolding is_fenced code_of
free_claim generation ws t free on mine =
    valid_claim-HeldBy ws t t.claim refl
      (ground (arith, free, on, (str_eq_iff t.task.generation_id generation).1 mine))

all-Free :
    (texts : Texts) (now : ℕ) (generation : String) (ws : Dict Worker) (q : Queue) (id : String)
    → Keyed q
    → Free texts now generation ws id
        (on_tasks (versions texts now generation ws) (task_ids q.tasks) q)
all-Free texts now generation ws q id keyed = elim (Option-cases (lookup id q.tasks)) [
  | inr (u, there) ↦
      on_tasks-frees texts now generation ws id (task_ids q.tasks) q keyed
        (listed id q.tasks u there)
  | inl absent ↦
      on_tasks-Free texts now generation ws id (task_ids q.tasks) q
        (λ t found. (ground (arith, absent, found)))
]

-- After the claims of a generation were reassigned, every task of the generation that is still
-- claimed is claimed by an active worker of the membership, under its lease and its fence.
pub reassigned_claims_valid :
    (texts : Texts) (now : ℕ) (generation : String) (m : Membership) (q : Queue) (id : String)
    (t : Task)
    → Keyed q
    → lookup id (reassign_fenced_claims texts now generation m q).tasks ≡ some t
    → t.state ≡ claimed
    → t.task.generation_id ≡ generation
    → HeldBy m.workers t
unfolding reassign_fenced_claims
reassigned_claims_valid texts now generation m q id t keyed found on mine =
    let n = sum_by (λ e. if is_fenced generation m.workers e.1 then 1 else 0) q.tasks in
    let q1 = on_tasks (reassign_versions texts now generation m.workers) (task_ids q.tasks) q in
    let found1 : lookup id q1.tasks ≡ some t =
      ap (lookup id) (sym (tasks-count_reassigned n now generation m q1)) ∙ found in
    free_claim generation m.workers t
      (unfold versions in all-Free texts now generation m.workers q id keyed t found1) on mine
