-- ===== src/WorkQueue/History/Retry.antt =====
-- One claim at a time, and the manual retry: `claim_task` and `retry_task` of
-- enterprise/control/work_queue.py.
use fabric_shortcut_proxy.Prelude.{
  ℕ, ◌+◌, String, str_eq, str_eq_iff, str_eq_refl, true, false, not, Option, none, some, List, [],
  ◌∷◌, ◌≡◌, refl, ◌∙◌, sym, ap, subst, arith, Bool-cases, Option-cases, inl, inr, any, all, ltb,
  max, ◌-◌, some_inj,
}
use fabric_shortcut_proxy.Dict.{Dict, lookup, insert, lookup-insert}
use fabric_shortcut_proxy.WorkQueue.Task.{
  succeeded, failed, cancelled, code_of, is_in, is_terminal, is_runnable, Task, Request,
}
use fabric_shortcut_proxy.WorkQueue.Steps.{Texts, Claimant, claim_versions, claim_from}
use fabric_shortcut_proxy.WorkQueue.Steps.Transitions.{IsHistory, claim-History, runnable_cases}
use fabric_shortcut_proxy.WorkQueue.Queue.{
  Queue, write_task, write_request, write_versions, tasks_of, request_state, all_succeeded,
}
use fabric_shortcut_proxy.WorkQueue.Changes.{
  cannot_be_claimed, claim_found, claim_task, retry_found, retry_task, retry_at, retried_task,
}
use fabric_shortcut_proxy.WorkQueue.Answers.{Parts}
use fabric_shortcut_proxy.WorkQueue.History.{Keyed, latest}
use fabric_shortcut_proxy.WorkQueue.History.Runs.{Call, perform_all, terminal_states_last}

pub lookup-write_versions :
    (t : Task) (us : List Task) (q : Queue)
    → lookup t.task_id q.tasks ≡ some t
    → IsHistory t us
    → lookup t.task_id (write_versions us q).tasks ≡ some (latest t us)
unfolding write_versions write_task
lookup-write_versions t [] q there h = there
lookup-write_versions t (u ∷ us) q there h =
    let here : lookup u.task_id (insert u.task_id u q.tasks) ≡ some u =
      rw (lookup-insert u.task_id u.task_id u q.tasks, str_eq_refl u.task_id) refl in
    subst (λ i. lookup i (write_versions us (write_task u q)).tasks ≡ some (latest u us)) h.0.2
      (lookup-write_versions u us (write_task u q) here h.1)

module _ (texts : Texts) where
  claim_versions-claimed :
      (now : ℕ) (c : Claimant) (t : Task)
      → is_runnable t.state ≡ true
      → is_runnable (latest t (claim_versions texts now c t)).state ≡ false
  unfolding claim_versions claim_from is_runnable code_of
  claim_versions-claimed now c t h = elim (runnable_cases t.state h) [
    | inl waits ↦ rw waits refl
    | inr ready ↦ rw ready refl
  ]

  claim_found-busy :
      (now : ℕ) (c : Claimant) (id : String) (o : Option Task) (q : Queue)
      → Keyed q
      → lookup id q.tasks ≡ o
      → (claim_found texts now c o q).1 ≡ none
      → (u : Task) × (lookup id (claim_found texts now c o q).0.tasks ≡ some u)
        × (is_runnable u.state ≡ false)
  unfolding claim_found
  claim_found-busy now c id none q keyed there h = cc
  claim_found-busy now c id (some t) q keyed there h = elim (Bool-cases (is_runnable t.state)) [
    | inr busy ↦ ground (arith, busy)
    | inl ready ↦ elim (Bool-cases (ltb now t.available_at_ms)) [
      | inl early ↦ ground (arith, ready, early)
      | inr due ↦
          let us = claim_versions texts now c t in
          let own : lookup t.task_id q.tasks ≡ some t =
            subst (λ i. lookup i q.tasks ≡ some t) (sym (keyed id t there)) there in
          let found = lookup-write_versions t us q own (claim-History texts now c t ready) in
          rw (ready, due)
            (
              latest t us,
              subst (λ i. lookup i (write_versions us q).tasks ≡ some (latest t us))
                  (keyed id t there) found,
              claim_versions-claimed now c t ready,
            )
    ]
  ]

  busy-claim_found :
      (now : ℕ) (c : Claimant) (u : Task) (o : Option Task) (q : Queue)
      → o ≡ some u
      → is_runnable u.state ≡ false
      → claim_found texts now c o q ≡ (q, some cannot_be_claimed)
  unfolding claim_found
  busy-claim_found now c u none q e h = cc
  busy-claim_found now c u (some t) q e h = let same : t ≡ u = cc in rw (same, h) refl

-- After a claim, no other claim of the task goes through, whatever the claimant and the time.
pub claim_excludes_claims :
    (texts : Texts) (now later : ℕ) (c other : Claimant) (id : String) (q : Queue)
    → Keyed q
    → (claim_task texts now c id q).1 ≡ none
    → let q' = (claim_task texts now c id q).0 in
      claim_task texts later other id q' ≡ (q', some cannot_be_claimed)
unfolding claim_task
claim_excludes_claims texts now later c other id q keyed h =
    let q' = (claim_task texts now c id q).0 in
    let (u, found, busy) = claim_found-busy texts now c id (lookup id q.tasks) q keyed refl h in
    busy-claim_found texts later other u (lookup id q'.tasks) q' found busy

ne_false : false ≡ true → ⊥
ne_false h = cc

module _ (texts : Texts) where
  retry_found-other :
      (now : ℕ) (t : Task) (o : Option Request) (id : String) (q : Queue)
      → str_eq t.task_id id ≡ false
      → lookup id (retry_found texts now t o q).0.tasks ≡ lookup id q.tasks
  unfolding retry_found write_task write_request
  retry_found-other now t none id q h = refl
  retry_found-other now t (some r) id q h = elim (Bool-cases r.published) [
    | inl done ↦ rw done refl
    | inr ongoing ↦ rw (ongoing, lookup-insert t.task_id id _ q.tasks, h) refl
  ]

  failed_elsewhere :
      (other id : String) (u t : Task) (q : Queue)
      → Keyed q
      → lookup other q.tasks ≡ some u
      → lookup id q.tasks ≡ some t
      → t.state ≡ cancelled
      → is_in u.state failed ≡ true
      → str_eq u.task_id id ≡ false
  unfolding code_of
  failed_elsewhere other id u t q keyed seen there h over =
      elim (Bool-cases (str_eq u.task_id id)) [
        | inr differs ↦ differs
        | inl e ↦
            let at : other ≡ id = sym (keyed other u seen) ∙ (str_eq_iff u.task_id id).0 e in
            let same : u ≡ t = some_inj (sym seen ∙ ap (λ i. lookup i q.tasks) at ∙ there) in
            let clash : is_in cancelled failed ≡ true =
              subst (λ s. is_in s failed ≡ true) (ap (λ x. x.state) same ∙ h) over in
            absurd (ne_false clash)
      ]

  retry_at-cancelled :
      (now : ℕ) (other id : String) (o : Option Task) (t : Task) (q : Queue)
      → Keyed q
      → lookup other q.tasks ≡ o
      → lookup id q.tasks ≡ some t
      → t.state ≡ cancelled
      → lookup id (retry_at texts now o q).0.tasks ≡ some t
  unfolding retry_at code_of
  retry_at-cancelled now other id none t q keyed seen there h = there
  retry_at-cancelled now other id (some u) t q keyed seen there h =
      elim (Bool-cases (is_in u.state failed)) [
        | inr kept ↦ rw kept there
        | inl over ↦ rw over (
            retry_found-other now u (lookup u.request_id q.requests) id q
              (failed_elsewhere other id u t q keyed seen there h over)
            ∙ there)
      ]

  Keyed-write : (u : Task) (q : Queue) → Keyed q → Keyed (write_task u q)
  unfolding write_task
  Keyed-write u q keyed id t found =
      ground (arith, keyed id t, lookup-insert u.task_id id u q.tasks, str_eq_iff u.task_id id)

  Keyed-retry_found :
      (now : ℕ) (u : Task) (o : Option Request) (q : Queue)
      → Keyed q
      → Keyed (retry_found texts now u o q).0
  unfolding retry_found write_request write_task retried_task
  Keyed-retry_found now u none q keyed = keyed
  Keyed-retry_found now u (some r) q keyed = elim (Bool-cases r.published) [
    | inl done ↦ rw done keyed
    | inr ongoing ↦ rw ongoing (
        Keyed-write (retried_task texts now (now + max 1000 (r.deadline_ms - r.created_at_ms)) u) q
          keyed)
  ]

  Keyed-retry_at :
      (now : ℕ) (o : Option Task) (q : Queue) → Keyed q → Keyed (retry_at texts now o q).0
  unfolding retry_at
  Keyed-retry_at now none q keyed = keyed
  Keyed-retry_at now (some u) q keyed = elim (Bool-cases (is_in u.state failed)) [
    | inr kept ↦ rw kept keyed
    | inl over ↦ rw over (Keyed-retry_found now u (lookup u.request_id q.requests) q keyed)
  ]

has_cancelled :
    (id : String) (u : Task) (ids : List String) (d : Dict Task)
    → lookup id d ≡ some u
    → is_in u.state succeeded ≡ false
    → any (λ i. str_eq i id) ids ≡ true
    → any (λ t. not (is_in t.state succeeded)) (tasks_of ids d) ≡ true
unfolding tasks_of
has_cancelled id u [] d there h member = member
has_cancelled id u (i ∷ ids) d there h member = elim (Bool-cases (str_eq i id)) [
  | inl same ↦
      let here : lookup i d ≡ some u =
        subst (λ k. lookup k d ≡ some u) (sym ((str_eq_iff i id).0 same)) there in
      rw (any, tasks_of, here) (ground (arith, h))
  | inr other ↦
      let rest = has_cancelled id u ids d there h (ground (arith, member, other)) in
      elim (Option-cases (lookup i d)) [
        | inl absent ↦ rw (any, tasks_of, absent) rest
        | inr (t, found) ↦ rw (any, tasks_of, found) (ground (arith, rest))
      ]
]

any-not :
    (ts : List Task)
    → any (λ t. not (is_in t.state succeeded)) ts ≡ not (all (λ t. is_in t.state succeeded) ts)
any-not [] = refl
any-not (t ∷ ts) = ground (arith, any-not ts)

some_unfinished :
    (ts : List Task) → any (λ t. not (is_in t.state succeeded)) ts ≡ true → all_succeeded ts ≡ false
unfolding all_succeeded
some_unfinished [] h = refl
some_unfinished (t ∷ ts) h = ground (arith, any-not (t ∷ ts))

not_all :
    (ts : List Task)
    → any (λ t. not (is_in t.state succeeded)) ts ≡ true
    → is_in (request_state ts) succeeded ≡ false
unfolding request_state all_succeeded code_of
not_all ts h = rw (some_unfinished ts h) (ground arith)

-- A retry does not bring back the tasks that were cancelled when their request failed: as long as
-- a request has a cancelled task, whatever is retried and whatever claims, results and other calls
-- on tasks that are there come afterwards, short of a retry, `recover` or pruning, the state that
-- the queue computes for the request is never SUCCEEDED.
pub retried_request_stuck :
    {B : Type 0} (parts : Parts B) (calls : List (Call B)) (now : ℕ) (other id : String)
    (ids : List String) (t : Task) (q : Queue)
    → Keyed q
    → lookup id q.tasks ≡ some t
    → t.state ≡ cancelled
    → any (λ i. str_eq i id) ids ≡ true
    → is_in
        (request_state
          (tasks_of ids (perform_all parts calls (retry_task parts.texts now other q).0).tasks))
        succeeded
      ≡ false
unfolding retry_task is_terminal code_of
retried_request_stuck parts calls now other id ids t q keyed there h member =
    let q1 = (retry_task parts.texts now other q).0 in
    let keyed1 = Keyed-retry_at parts.texts now (lookup other q.tasks) q keyed in
    let there1 =
      retry_at-cancelled parts.texts now other id (lookup other q.tasks) t q keyed refl there h in
    let (u, found, same) = terminal_states_last parts calls q1 id t keyed1 there1 (rw h refl) in
    not_all (tasks_of ids (perform_all parts calls q1).tasks) (
      has_cancelled id u ids (perform_all parts calls q1).tasks found
        (ground (arith, sym same ∙ ap code_of h)) member)
