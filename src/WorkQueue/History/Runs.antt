-- ===== src/WorkQueue/History/Runs.antt =====
-- Any sequence of calls of the queue in enterprise/control/work_queue.py.
use fabric_shortcut_proxy.WorkQueue.Membership.Reassigned.{reassign-History, tasks-count_reassigned}
use fabric_shortcut_proxy.WorkQueue.Membership.{
  Observed, count_reassigned, reconcile_found, reconcile_known, write_membership,
  reconcile_membership, reassign_fenced_claims, reassign_versions, is_fenced, same_policy,
  next_membership,
}
use fabric_shortcut_proxy.Prelude.{
  ℕ, String, Bool, true, false, ◌||◌, Option, some, List, [], ◌∷◌, ◌≡◌, refl, ◌∙◌, sym, ap, arith,
  ◌==◌, sum_by, if◌then◌else◌, Bool-cases, inl, inr, none,
}
use fabric_shortcut_proxy.Dict.{Dict, lookup}
use fabric_shortcut_proxy.WorkQueue.Task.{
  TaskState, queued, claimed, retry_wait, succeeded, expired, cancelled, failed, code_of, is_in,
  is_terminal, Task, valid_task_transition,
}
use fabric_shortcut_proxy.WorkQueue.Steps.{Claimant, renew_versions, dispatch_versions, Texts}
use fabric_shortcut_proxy.WorkQueue.Steps.Transitions.{IsHistory, renew-History, dispatch-History}
use fabric_shortcut_proxy.WorkQueue.Queue.{SnapshotManifest, Queue, Membership, on_tasks, task_ids}
use fabric_shortcut_proxy.WorkQueue.Changes.{
  expire_claims, cancel_request, renew_agent_claims, release_claim, fence_claims,
  set_dispatch_status, claim_task,
}
use fabric_shortcut_proxy.WorkQueue.Results.{accept_result, find_result}
use fabric_shortcut_proxy.WorkQueue.Answers.{TaskResult, Generation, Parts}
use fabric_shortcut_proxy.WorkQueue.History.{
  Keyed, latest, Later, Evolves, Evolves-refl, Evolves-trans, on_task-Evolves, on_tasks-Evolves,
  expire-Evolves, Evolves-same,
}
use fabric_shortcut_proxy.WorkQueue.History.Calls.{
  cancel-Evolves, release-Evolves, claim-Evolves, accept_result-Evolves, fence-Evolves,
}
use fabric_shortcut_proxy.WorkQueue.Publish.{Surroundings, publish_snapshot}
use fabric_shortcut_proxy.WorkQueue.Publish.Sound.{publish_snapshot-IsSound}

reconcile_known-Evolves :
    (now : ℕ) (id : String) (n : ℕ) (current : Dict Observed) (elastic : Bool) (m : Membership)
    (q : Queue)
    → Evolves q (reconcile_known now id n current elastic m q).0
unfolding reconcile_known write_membership
reconcile_known-Evolves now id n current elastic m q = elim (Bool-cases (m.generation_fence == n)) [
  | inr other ↦ rw other (Evolves-refl q)
  | inl mine ↦ elim (Bool-cases (same_policy m.is_elastic elastic)) [
    | inr changed ↦ rw (mine, changed) (Evolves-refl q)
    | inl kept ↦
        rw (mine, kept)
          (Evolves-same q (write_membership id (next_membership now current m) q) refl)
  ]
]

reconcile-Evolves :
    (now : ℕ) (id : String) (n : ℕ) (current : Dict Observed) (elastic : Bool)
    (o : Option Membership) (q : Queue)
    → Evolves q (reconcile_found now id n current elastic o q).0
unfolding reconcile_found write_membership
reconcile-Evolves now id n [] elastic none q = Evolves-refl q
reconcile-Evolves now id n (o ∷ os) elastic none q =
    Evolves-same q (reconcile_found now id n (o ∷ os) elastic none q).0 refl
reconcile-Evolves now id n [] elastic (some m) q = reconcile_known-Evolves now id n [] elastic m q
reconcile-Evolves now id n (o ∷ os) elastic (some m) q =
    reconcile_known-Evolves now id n (o ∷ os) elastic m q

reassign-Evolves :
    (texts : Texts) (now : ℕ) (id : String) (m : Membership) (q : Queue)
    → Evolves q (reassign_fenced_claims texts now id m q)
unfolding reassign_fenced_claims
reassign-Evolves texts now id m q =
    let q1 = on_tasks (reassign_versions texts now id m.workers) (task_ids q.tasks) q in
    let n = sum_by (λ e. if is_fenced id m.workers e.1 then 1 else 0) q.tasks in
    Evolves-trans q q1 (count_reassigned n now id m q1)
      (on_tasks-Evolves (reassign_versions texts now id m.workers)
        (reassign-History texts now id m.workers) (task_ids q.tasks) q)
      (Evolves-same q1 (count_reassigned n now id m q1) (tasks-count_reassigned n now id m q1))

-- The calls of the queue on tasks that are there, but for `retry_task`; `create_request`, `recover`
-- and `prune_terminal`, which make and remove tasks, have theorems of their own.
pub data Call (B : Type 0) : Type 0 where
  claim : ℕ → Claimant → String → Call B
  renew : ℕ → String → String → List String → Call B
  release : ℕ → String → String → String → Call B
  accept : ℕ → Option Generation → Dict B → TaskResult → String → Call B
  cancel : ℕ → String → String → Call B
  fence : ℕ → String → ℕ → Call B
  dispatch : ℕ → String → String → Call B
  expire : ℕ → Call B
  reconcile : ℕ → String → ℕ → Dict Observed → Bool → Call B
  reassign : ℕ → String → Membership → Call B
  publish : ℕ → Surroundings B → String → SnapshotManifest → Call B

module _ {B : Type 0} (parts : Parts B) where
  abbrev pub perform : Call B → Queue → Queue
  perform (claim now c id) q = (claim_task parts.texts now c id q).0
  perform (renew now agent lease ids) q = renew_agent_claims parts.texts now agent lease ids q
  perform (release now id token reason) q = (release_claim parts.texts now id token reason q).0
  perform (accept now g store r lease) q = (accept_result parts now g store r lease q).0
  perform (cancel now id reason) q = (cancel_request parts.texts now id reason q).0
  perform (fence now owner n) q = fence_claims parts.texts now owner n q
  perform (dispatch now id reason) q = set_dispatch_status parts.texts now id reason q
  perform (expire now) q = expire_claims parts.texts now q
  perform (reconcile now id n current elastic) q =
      (reconcile_membership now id n current elastic q).0
  perform (reassign now id m) q = reassign_fenced_claims parts.texts now id m q
  perform (publish now at id m) q = (publish_snapshot parts now at id m q).0

  abbrev pub perform_all : List (Call B) → Queue → Queue
  perform_all [] q = q
  perform_all (c ∷ cs) q = perform_all cs (perform c q)

  tasks-publish :
      (now : ℕ) (at : Surroundings B) (id : String) (m : SnapshotManifest) (q : Queue)
      → (publish_snapshot parts now at id m q).0.tasks ≡ q.tasks
  tasks-publish now at id m q = elim (publish_snapshot-IsSound parts now at id m q) [
    | inl (e, refused) ↦ ap (λ x. x.0.tasks) refused
    | inr (r, found, ready, (r', done, marked, same, stored, rest)) ↦ same
  ]

  perform-Evolves : (c : Call B) (q : Queue) → Evolves q (perform c q)
  unfolding claim_task renew_agent_claims release_claim cancel_request set_dispatch_status
      accept_result reconcile_membership reconcile_found
  perform-Evolves (claim now c id) q = claim-Evolves parts now c id (lookup id q.tasks) q refl
  perform-Evolves (renew now agent lease ids) q =
      on_tasks-Evolves (renew_versions parts.texts now agent lease)
        (renew-History parts.texts now agent lease) ids q
  perform-Evolves (release now id token reason) q =
      release-Evolves parts now id token reason (lookup id q.tasks) q refl
  perform-Evolves (accept now g store r lease) q =
      accept_result-Evolves parts now g store (find_result parts r q) r lease q
  perform-Evolves (cancel now id reason) q =
      cancel-Evolves parts now reason (lookup id q.requests) q
  perform-Evolves (fence now owner n) q = fence-Evolves parts now owner n q
  perform-Evolves (dispatch now id reason) q =
      on_task-Evolves (dispatch_versions parts.texts now reason)
        (dispatch-History parts.texts now reason) id q
  perform-Evolves (expire now) q = expire-Evolves parts.texts now q
  perform-Evolves (reconcile now id n current elastic) q =
      reconcile-Evolves now id n current elastic (lookup id q.memberships) q
  perform-Evolves (reassign now id m) q = reassign-Evolves parts.texts now id m q
  perform-Evolves (publish now at id m) q =
      Evolves-same q (publish_snapshot parts now at id m q).0 (tasks-publish now at id m q)

  perform_all-Evolves : (cs : List (Call B)) (q : Queue) → Evolves q (perform_all cs q)
  perform_all-Evolves [] q = Evolves-refl q
  perform_all-Evolves (c ∷ cs) q =
      Evolves-trans q (perform c q) (perform_all cs (perform c q)) (perform-Evolves c q)
        (perform_all-Evolves cs (perform c q))

-- Whatever calls of the queue are made, with any arguments, at any times and in any order, of those
-- that claim, renew, release, accept, cancel, fence, expire, reconcile, reassign, publish or set a
-- dispatch status, and so without `retry_task`, `create_request`, `recover` and `prune_terminal`: no
-- task is lost, and a task gets from its record to the later one by writes that each keep the state
-- or follow TASK_TRANSITIONS, count the revision up by one, and keep the identity of the task.
pub tasks_follow_transitions :
    {B : Type 0} (parts : Parts B) (calls : List (Call B)) (q : Queue) (id : String) (t : Task)
    → Keyed q
    → lookup id q.tasks ≡ some t
    → Later t (lookup id (perform_all parts calls q).tasks)
tasks_follow_transitions parts calls q id t keyed there =
    (perform_all-Evolves parts calls q keyed).1 id t there

final_transitions :
    (s target : TaskState) → is_terminal s ≡ true → valid_task_transition s target ≡ false
unfolding is_terminal valid_task_transition
final_transitions succeeded target h = refl
final_transitions failed target h = refl
final_transitions cancelled target h = refl
final_transitions queued target h = cc
final_transitions claimed target h = cc
final_transitions retry_wait target h = cc
final_transitions expired target h = cc

same_code : (a b : TaskState) → is_in a b ≡ true → code_of a ≡ code_of b
same_code a b h = ground arith

terminal_code : ℕ → Bool
terminal_code n = (n == 2) || (n == 4) || (n == 6)

is_terminal-code : (s : TaskState) → is_terminal s ≡ terminal_code (code_of s)
unfolding is_terminal terminal_code code_of
is_terminal-code queued = refl
is_terminal-code claimed = refl
is_terminal-code succeeded = refl
is_terminal-code retry_wait = refl
is_terminal-code failed = refl
is_terminal-code expired = refl
is_terminal-code cancelled = refl

final_history :
    (t : Task) (us : List Task)
    → is_terminal t.state ≡ true
    → IsHistory t us
    → code_of t.state ≡ code_of (latest t us).state
final_history t [] h k = refl
final_history t (u ∷ us) h k =
    let stays : code_of t.state ≡ code_of u.state =
      same_code t.state u.state (ground (arith, k.0.0, final_transitions t.state u.state h)) in
    let still : is_terminal u.state ≡ true =
      is_terminal-code u.state
      ∙ ap terminal_code (sym stays)
      ∙ sym (is_terminal-code t.state)
      ∙ h in
    stays ∙ final_history u us still k.1

-- A task that succeeded, failed or was cancelled stays so, whatever of these calls are made.
pub terminal_states_last :
    {B : Type 0} (parts : Parts B) (calls : List (Call B)) (q : Queue) (id : String) (t : Task)
    → Keyed q
    → lookup id q.tasks ≡ some t
    → is_terminal t.state ≡ true
    → (u : Task) × (lookup id (perform_all parts calls q).tasks ≡ some u)
      × (code_of t.state ≡ code_of u.state)
terminal_states_last parts calls q id t keyed there final =
    let (us, history, found) = tasks_follow_transitions parts calls q id t keyed there in
    (latest t us, found, final_history t us final history)
