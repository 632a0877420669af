-- ===== src/WorkQueue/Results/Replay.antt =====
-- What becomes of a result that is sent again.
use fabric_shortcut_proxy.Prelude.{
  ℕ, String, str_eq, str_eq_iff, str_eq_refl, true, false, not, ◌&&◌, ◌||◌, Option, none, some,
  List, [], ◌∷◌, ◌==◌, ◌≡◌, refl, ◌∙◌, sym, ap, arith, Bool-cases, inl, inr,
}
use fabric_shortcut_proxy.Dict.{Dict, lookup, insert, lookup-insert}
use fabric_shortcut_proxy.WorkQueue.Task.{
  TaskState, claimed, succeeded, failed, code_of, is_in, is_terminal, Claim, Task, Request,
}
use fabric_shortcut_proxy.WorkQueue.Steps.{Texts, cancel_versions}
use fabric_shortcut_proxy.WorkQueue.Queue.{
  Queue, ResultRecord, write_task, write_request, write_versions, on_found, on_task, on_tasks,
  request_state, tasks_of,
}
use fabric_shortcut_proxy.WorkQueue.Changes.{
  refresh_request, refresh_each, refresh_requests, expire_claims,
}
use fabric_shortcut_proxy.WorkQueue.History.{Keyed, expire-Evolves}
use fabric_shortcut_proxy.WorkQueue.Results.{
  find_result, prior_of, record_result, saved_of, write_result, settle, accept_owned, accept_unless,
  accept_claimed, accept_claim, accept_task, accept_seen, accept_result, prior_in,
}
use fabric_shortcut_proxy.WorkQueue.Checks.{
  matches_saved, replay, succeeded_version, refuse_claim, has_output, of_current,
}
use fabric_shortcut_proxy.WorkQueue.Answers.{
  TaskResult, Generation, Parts, refuse, same_or, result_accepted,
}
use fabric_shortcut_proxy.WorkQueue.Results.Accepted.{Owns, Earned, accept_task-Earned}

results-write_versions : (us : List Task) (q : Queue) → (write_versions us q).results ≡ q.results
unfolding write_versions write_task
results-write_versions [] q = refl
results-write_versions (u ∷ us) q = results-write_versions us (write_task u q)

results-on_found :
    (versions : Task → List Task) (o : Option Task) (q : Queue)
    → (on_found versions o q).results ≡ q.results
unfolding on_found
results-on_found versions none q = refl
results-on_found versions (some t) q = results-write_versions (versions t) q

results-on_tasks :
    (versions : Task → List Task) (ids : List String) (q : Queue)
    → (on_tasks versions ids q).results ≡ q.results
unfolding on_tasks on_task
results-on_tasks versions [] q = refl
results-on_tasks versions (id ∷ ids) q =
    results-on_tasks versions ids (on_task versions id q)
    ∙ results-on_found versions (lookup id q.tasks) q

module _ (texts : Texts) where
  results-refresh_request :
      (now : ℕ) (r : Request) (q : Queue) → (refresh_request texts now r q).results ≡ q.results
  unfolding refresh_request write_request
  results-refresh_request now r q = elim (Bool-cases (r.published || is_terminal r.state)) [
    | inl over ↦ rw over refl
    | inr ongoing ↦ elim (Bool-cases (is_in (request_state (tasks_of r.task_ids q.tasks)) failed)) [
      | inl fails ↦
          rw (ongoing, fails)
            (results-on_tasks (cancel_versions texts now "request_failed") r.task_ids q)
      | inr goes_on ↦ rw (ongoing, goes_on) refl
    ]
  ]

  results-refresh_each :
      (now : ℕ) (rs : Dict Request) (q : Queue) → (refresh_each texts now rs q).results ≡ q.results
  unfolding refresh_each
  results-refresh_each now [] q = refl
  results-refresh_each now ((k, r) ∷ rs) q =
      results-refresh_each now rs (refresh_request texts now r q) ∙ results-refresh_request now r q

  results-refresh : (now : ℕ) (q : Queue) → (refresh_requests texts now q).results ≡ q.results
  unfolding refresh_requests
  results-refresh now q = results-refresh_each now q.requests q

module _ {B : Type 0} (parts : Parts B) where
  prior-record_result :
      (new : ResultRecord) (olds : Option (List ResultRecord)) (n : ℕ)
      → new.attempt ≡ n
      → prior_in parts n (some (record_result parts new olds)) ≡ some new
  unfolding prior_in record_result prior_of
  prior-record_result new none n e = ground (arith, e)
  prior-record_result new (some olds) n e = ground (arith, e)

  find_result-settle :
      (now : ℕ) (t : Task) (c : Claim) (r : TaskResult) (q : Queue)
      → t.task_id ≡ r.task_id
      → t.attempt ≡ r.attempt
      → find_result parts r (settle parts now t c q).0 ≡ some (saved_of parts t c)
  unfolding find_result settle write_result saved_of write_task
  find_result-settle now t c r q id attempt =
      let new = record_result parts (saved_of parts t c) (lookup t.task_id q.results) in
      let kept = results-refresh parts.texts now (write_result parts t c (write_task t q)) in
      let there : lookup r.task_id (insert t.task_id new q.results) ≡ some new =
        rw (lookup-insert t.task_id r.task_id new q.results, (str_eq_iff t.task_id r.task_id).1 id)
          refl in
      ap (λ d. prior_in parts r.attempt (lookup r.task_id d)) kept
      ∙ ap (prior_in parts r.attempt) there
      ∙ prior-record_result (saved_of parts t c) (lookup t.task_id q.results) r.attempt attempt

  same_number : (a b : ℕ) → a ≡ b → (a == b) ≡ true
  same_number a b e = ground arith

  Owns-no_refusal :
      (q : Queue) (t : Task) (c : Claim) (r : TaskResult) (lease : String)
      → Owns parts q t c r lease
      → refuse_claim parts q t c r lease ≡ none
  unfolding refuse_claim
  Owns-no_refusal q t c r lease held =
      rw
        (
          (str_eq_iff c.claim_token r.claim_token).1 held.0,
          (str_eq_iff c.agent_id r.agent_id).1 held.1,
          same_number r.attempt t.attempt held.2,
          (str_eq_iff c.agent_lease_hash (parts.texts.hash lease)).1 held.3,
          same_number c.membership_version r.membership_version held.4,
          same_number c.worker_fence r.worker_fence held.5,
          held.6,
          held.7,
        )
        refl

  claimed_ongoing : (s : TaskState) → is_in s claimed ≡ true → is_in s succeeded ≡ false
  unfolding code_of
  claimed_ongoing s h = ground arith

  -- A success that is accepted settles its task.
  accept_claim-settle :
      (now : ℕ) (g : Option Generation) (store : Dict B) (t : Task) (o : Option Claim) (c : Claim)
      (r : TaskResult) (lease : String) (q : Queue)
      → r.ok ≡ true
      → o ≡ some c
      → is_in t.state claimed ≡ true
      → Owns parts q t c r lease
      → of_current parts g r ≡ true
      → has_output parts t c r store ≡ true
      → (accept_claim parts now g store t o r lease q).0
        ≡ (settle parts now (succeeded_version parts now t c r) c q).0
  unfolding accept_claim accept_claimed accept_unless accept_owned
  accept_claim-settle now g store t none c r lease q ok e on held current output = cc
  accept_claim-settle now g store t (some d) c r lease q ok e on held current output =
      let same : d ≡ c = ground arith in
      rw (same, on, Owns-no_refusal q t c r lease held, current, ok, output) refl

  accept_task-settle :
      (now : ℕ) (g : Option Generation) (store : Dict B) (o : Option Task) (t : Task) (c : Claim)
      (r : TaskResult) (lease : String) (q : Queue)
      → r.ok ≡ true
      → o ≡ some t
      → Earned parts g store q t c r lease
      → (accept_task parts now g store o r lease q).0
        ≡ (settle parts now (succeeded_version parts now t c r) c q).0
  unfolding accept_task
  accept_task-settle now g store none t c r lease q ok e earned = cc
  accept_task-settle now g store (some u) t c r lease q ok e (claim, on, held, current, output) =
      let same : u ≡ t = ground arith in
      let made : has_output parts t c r store ≡ true = ground (arith, ok, output) in
      rw (same, claimed_ongoing t.state on)
        (accept_claim-settle now g store t t.claim c r lease q ok claim on held current made)

  replay_saved :
      (now : ℕ) (t : Task) (c : Claim) (r : TaskResult) (lease : String)
      → c.agent_lease_hash ≡ parts.texts.hash lease
      → replay parts (saved_of parts (succeeded_version parts now t c r) c) r lease
        ≡ same_or
            (str_eq "" r.error_code && (0 == r.membership_version) && (0 == r.worker_fence))
            succeeded
            true
  unfolding replay saved_of succeeded_version matches_saved is_terminal
  replay_saved now t c r lease e =
      let same_lease : (not (str_eq c.agent_lease_hash "")
            && not (str_eq c.agent_lease_hash (parts.texts.hash lease)))
          ≡ false =
        rw (e, str_eq_refl (parts.texts.hash lease)) (ground arith) in
      rw
        (
          same_lease,
          str_eq_refl r.agent_id,
          same_number r.attempt r.attempt refl,
          same_number r.size_bytes r.size_bytes refl,
          same_number r.record_count r.record_count refl,
          str_eq_refl r.content_hash,
          str_eq_refl r.s3_etag,
        )
        refl

  saved_settle :
      (now : ℕ) (t : Task) (c : Claim) (r : TaskResult) (q : Queue)
      → t.task_id ≡ r.task_id
      → t.attempt ≡ r.attempt
      → let t' = succeeded_version parts now t c r in
        find_result parts r (settle parts now t' c q).0 ≡ some (saved_of parts t' c)
  unfolding succeeded_version
  saved_settle now t c r q id attempt =
      find_result-settle now (succeeded_version parts now t c r) c r q id attempt

  accept_seen-find_result :
      (now : ℕ) (g : Option Generation) (store : Dict B) (o : Option ResultRecord) (r : TaskResult)
      (lease : String) (q : Queue)
      → Keyed q
      → r.ok ≡ true
      → (accept_seen parts o now g store r lease q).1.reason_code ≡ result_accepted
      → (t : Task) × (c : Claim) × (c.agent_lease_hash ≡ parts.texts.hash lease)
        × (find_result parts r (accept_seen parts o now g store r lease q).0
            ≡ some (saved_of parts (succeeded_version parts now t c r) c))
  unfolding accept_seen replay same_or refuse
  accept_seen-find_result now g store (some prior) r lease q keyed ok h = ground arith
  accept_seen-find_result now g store none r lease q keyed ok h =
      let q1 = expire_claims parts.texts now q in
      let (t, c, there, earned) =
        accept_task-Earned parts now g store (lookup r.task_id q1.tasks) r lease q1 h in
      let id : t.task_id ≡ r.task_id =
        (expire-Evolves parts.texts now q keyed).0 r.task_id t there in
      let settled =
        accept_task-settle now g store (lookup r.task_id q1.tasks) t c r lease q1 ok there earned in
      let t' = succeeded_version parts now t c r in
      (
        t,
        c,
        earned.2.3,
        ap (find_result parts r) settled ∙ saved_settle now t c r q1 id (sym earned.2.2),
      )

-- A success that was accepted and is sent again, by the same agent under the same lease: nothing
-- changes, and the answer is a duplicate if the result names no error code, membership version 0
-- and worker fence 0, and a conflict otherwise, since neither of the last two is saved.
pub accepted_then_replayed :
    {B : Type 0} (parts : Parts B) (now later : ℕ) (g g' : Option Generation)
    (store store' : Dict B) (r : TaskResult) (lease : String) (q : Queue)
    → Keyed q
    → r.ok ≡ true
    → (accept_result parts now g store r lease q).1.reason_code ≡ result_accepted
    → let q' = (accept_result parts now g store r lease q).0 in
      accept_result parts later g' store' r lease q' ≡ (
        q',
        same_or
            (str_eq "" r.error_code && (0 == r.membership_version) && (0 == r.worker_fence))
            succeeded
            true,
      )
unfolding accept_result
accepted_then_replayed parts now later g g' store store' r lease q keyed ok h =
    let q' = (accept_result parts now g store r lease q).0 in
    let (t, c, same_lease, seen) =
      accept_seen-find_result parts now g store (find_result parts r q) r lease q keyed ok h in
    ap (λ o. accept_seen parts o later g' store' r lease q') seen
    ∙ unfold accept_seen in ap (λ a. (q', a)) (replay_saved parts now t c r lease same_lease)
