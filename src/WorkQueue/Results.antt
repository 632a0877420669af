-- ===== src/WorkQueue/Results.antt =====
-- `accept_result` of enterprise/control/work_queue.py: the records that it writes, and the order of
-- its refusals.
pub mod Sender
pub mod Accepted
pub mod Replay
use fabric_shortcut_proxy.Prelude.{
  ℕ, zero, suc, ◌+◌, ◌-◌, ◌*◌, min, String, str_eq, Bool, true, false, not, ◌&&◌, ◌||◌, Option,
  none, some, List, [], ◌∷◌, if◌then◌else◌, leb, ltb, ◌==◌, all, any, length, is_some,
}
use Prim.Native.Char.{Char, code}
use fabric_shortcut_proxy.Artifacts.Keys.{Chars, chars}
use fabric_shortcut_proxy.Dict.{Dict, lookup, insert}
use fabric_shortcut_proxy.WorkQueue.Task.{
  TaskState, queued, claimed, succeeded, retry_wait, failed, cancelled, code_of, is_in, is_terminal,
  MaterializeTask, Claim, SavedResult, Task,
}
use fabric_shortcut_proxy.WorkQueue.Steps.{touch, Texts}
use fabric_shortcut_proxy.WorkQueue.Queue.{Queue, Worker, ResultRecord, write_task}
use fabric_shortcut_proxy.WorkQueue.Changes.{refresh_requests, expire_claims, cancel_request}
use fabric_shortcut_proxy.WorkQueue.Answers.{
  TaskResult, ReasonCode, Ack, Generation, Parts, valid_etag, power_of_two, refuse, same_or,
  or_text, or_number, result_accepted, result_duplicate, result_stale_claim,
  result_stale_generation, result_wrong_owner, result_invalid_output, result_conflict,
  result_rejected,
}
use fabric_shortcut_proxy.WorkQueue.Checks.{
  verify_output, matches_saved, replay, matches_accepted, is_member, of_generation, of_current,
  refuse_claim, has_output, succeeded_version, can_retry, retry_delay, failed_version,
}

module _ {B : Type 0} (parts : Parts B) where
  unfoldable pub record_result : ResultRecord → Option (List ResultRecord) → List ResultRecord
  record_result new none = new ∷ []
  record_result new (some olds) = new ∷ olds

  -- The task, the record of the result, and the requests.
  unfoldable pub saved_of : Task → Claim → ResultRecord
  saved_of t c = record {
    attempt = t.attempt;
    state = t.state;
    result = t.result;
    agent_lease_hash = c.agent_lease_hash;
  }

  unfoldable pub write_result : Task → Claim → Queue → Queue
  unfolding record_result lookup saved_of
  write_result t c q = record q {
    results =
        insert t.task_id (record_result (saved_of t c) (lookup t.task_id q.results)) q.results;
  }

  unfoldable pub accept_ack : TaskState → Ack
  unfolding is_terminal
  accept_ack state = record {
    ok = true;
    state = some state;
    duplicate = false;
    terminal = is_terminal state;
    reason_code = result_accepted;
  }

  -- The task, the record of the result, and the requests.
  unfoldable pub settle : ℕ → Task → Claim → Queue → Queue × Ack
  unfolding write_task refresh_requests write_result accept_ack
  settle now t' c q =
      (refresh_requests parts.texts now (write_result t' c (write_task t' q)), accept_ack t'.state)

  -- The rest, for the claim's own result.
  unfoldable pub accept_owned :
      ℕ → Option Generation → Dict B → Task → Claim → TaskResult → Queue → Queue × Ack
  unfolding of_current has_output succeeded_version failed_version settle cancel_request refuse
  accept_owned now current store t c r q =
      if not (of_current parts current r)
      then (
        (cancel_request parts.texts now t.request_id "generation_fenced" q).0,
        refuse (some cancelled) true result_stale_generation,
      )
      else if r.ok
      then (if has_output parts t c r store
          then settle now (succeeded_version parts now t c r) c q
          else (q, refuse (some claimed) false result_invalid_output))
      else settle now (failed_version parts now t r) c q

  unfoldable pub accept_unless :
      Option ReasonCode
      → ℕ
      → Option Generation
      → Dict B
      → Task
      → Claim
      → TaskResult
      → Queue
      → Queue × Ack
  unfolding accept_owned refuse
  accept_unless (some reason) now current store t c r q = (q, refuse (some claimed) false reason)
  accept_unless none now current store t c r q = accept_owned now current store t c r q

  unfoldable pub accept_claimed :
      ℕ → Option Generation → Dict B → Task → Claim → TaskResult → String → Queue → Queue × Ack
  unfolding accept_unless
  accept_claimed now current store t c r lease q =
      accept_unless (refuse_claim parts q t c r lease) now current store t c r q

  unfoldable pub accept_claim :
      ℕ
      → Option Generation
      → Dict B
      → Task
      → Option Claim
      → TaskResult
      → String
      → Queue
      → Queue × Ack
  unfolding accept_claimed code_of is_terminal refuse
  accept_claim now current store t none r lease q =
      if is_in t.state claimed && str_eq "" r.claim_token
      then (q, refuse (some claimed) false result_wrong_owner)
      else (q, refuse (some t.state) (is_terminal t.state) result_stale_claim)
  accept_claim now current store t (some c) r lease q =
      if is_in t.state claimed
      then accept_claimed now current store t c r lease q
      else (q, refuse (some t.state) (is_terminal t.state) result_stale_claim)

  unfoldable pub accept_task :
      ℕ → Option Generation → Dict B → Option Task → TaskResult → String → Queue → Queue × Ack
  unfolding matches_accepted same_or accept_claim refuse code_of
  accept_task now current store none r lease q = (q, refuse none true result_rejected)
  accept_task now current store (some t) r lease q =
      if is_in t.state succeeded
      then (q, same_or (matches_accepted parts t.result r) succeeded true)
      else accept_claim now current store t t.claim r lease q

  unfoldable pub prior_of : ℕ → List ResultRecord → Option ResultRecord
  prior_of n [] = none
  prior_of n (p ∷ ps) = if p.attempt == n then some p else prior_of n ps

  unfoldable pub prior_in : ℕ → Option (List ResultRecord) → Option ResultRecord
  unfolding prior_of
  prior_in n none = none
  prior_in n (some ps) = prior_of n ps

  -- The record under `results/<task>/<attempt>.json`.
  unfoldable pub find_result : TaskResult → Queue → Option ResultRecord
  unfolding prior_in lookup
  find_result r q = prior_in r.attempt (lookup r.task_id q.results)

  -- With the record of an earlier result for the attempt, or without.
  unfoldable pub accept_seen :
      Option ResultRecord
      → ℕ
      → Option Generation
      → Dict B
      → TaskResult
      → String
      → Queue
      → Queue × Ack
  unfolding replay accept_task expire_claims
  accept_seen (some prior) now current store r lease q = (q, replay parts prior r lease)
  accept_seen none now current store r lease q =
      let q1 = expire_claims parts.texts now q in
      accept_task now current store (lookup r.task_id q1.tasks) r lease q1

  unfoldable pub accept_result :
      ℕ → Option Generation → Dict B → TaskResult → String → Queue → Queue × Ack
  unfolding accept_seen
  accept_result now current store r lease q =
      accept_seen (find_result r q) now current store r lease q
