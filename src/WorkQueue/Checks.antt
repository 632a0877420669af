-- ===== src/WorkQueue/Checks.antt =====
-- What `accept_result` of enterprise/control/work_queue.py checks of a result, with `_verify_output`,
-- and the versions of the task that it writes. `Parts` holds what is not in the repository's code:
-- SHA-256 and the row count that the Parquet library reads, `none` for a file that it refuses.
use fabric_shortcut_proxy.Prelude.{
  ℕ, ◌+◌, ◌-◌, ◌*◌, min, String, str_eq, Bool, true, false, not, ◌&&◌, Option, none, some,
  if◌then◌else◌, ltb, ◌==◌,
}
use fabric_shortcut_proxy.Dict.{Dict, lookup}
use fabric_shortcut_proxy.WorkQueue.Task.{
  succeeded, retry_wait, failed, is_terminal, Claim, SavedResult, Task,
}
use fabric_shortcut_proxy.WorkQueue.Steps.{touch}
use fabric_shortcut_proxy.WorkQueue.Queue.{Queue, Worker, ResultRecord}
use fabric_shortcut_proxy.WorkQueue.Answers.{
  TaskResult, ReasonCode, Ack, Generation, Parts, valid_etag, power_of_two, refuse, same_or,
  or_text, or_number, result_stale_claim, result_stale_generation, result_wrong_owner,
}

module _ {B : Type 0} (parts : Parts B) where
  -- The reasons of `_verify_output` are one here: whether there is one.
  unfoldable pub verify_output : String → TaskResult → Dict B → Bool
  unfolding valid_etag lookup
  verify_output key r store = elim (lookup key store) [
    | none ↦ false
    | some b ↦
        ((parts.size b == r.size_bytes)
          && str_eq (parts.digest b) r.content_hash
          && valid_etag r.s3_etag
          && (elim (parts.parquet_rows b) [ none ↦ false | some n ↦ n == r.record_count ]))
  ]

  -- The replay of a result that the queue has a record of.
  unfoldable pub matches_saved : Option SavedResult → TaskResult → Bool
  matches_saved none r = false
  matches_saved (some s) r =
      str_eq s.agent_id r.agent_id
      && (s.attempt == r.attempt)
      && (s.size_bytes == r.size_bytes)
      && (s.record_count == r.record_count)
      && str_eq s.content_hash r.content_hash
      && str_eq s.s3_etag r.s3_etag
      && str_eq s.error_code r.error_code
      && (0 == r.membership_version)
      && (0 == r.worker_fence)

  unfoldable pub replay : ResultRecord → TaskResult → String → Ack
  unfolding refuse is_terminal matches_saved same_or
  replay prior r lease =
      if not (str_eq prior.agent_lease_hash "")
        && not (str_eq prior.agent_lease_hash (parts.texts.hash lease))
      then refuse (some prior.state) (is_terminal prior.state) result_stale_claim
      else same_or (matches_saved prior.result r) prior.state (is_terminal prior.state)

  -- `task["state"] == TASK_SUCCEEDED` without a record of the attempt.
  unfoldable pub matches_accepted : Option SavedResult → TaskResult → Bool
  matches_accepted none r = false
  matches_accepted (some s) r =
      str_eq s.content_hash r.content_hash
      && (s.size_bytes == r.size_bytes)
      && (s.record_count == r.record_count)
      && str_eq s.s3_etag r.s3_etag

  unfoldable pub active_worker : Option Worker → TaskResult → String → Bool
  active_worker none r lease = false
  active_worker (some w) r lease =
      w.is_active
      && str_eq w.lease_hash (parts.texts.hash lease)
      && (w.worker_fence == r.worker_fence)

  -- No membership of the generation, or an active worker of it.
  unfoldable pub is_member : Queue → TaskResult → String → Bool
  unfolding active_worker
  is_member q r lease =
      if str_eq r.generation_id "" then true else elim (lookup r.generation_id q.memberships) [
        | none ↦ true
        | some m ↦ active_worker (lookup r.agent_id m.workers) r lease
      ]

  unfoldable pub of_generation : TaskResult → String → ℕ → String → Bool
  of_generation r id fence plan =
      str_eq r.generation_id id && (r.generation_fence == fence) && str_eq r.plan_sha256 plan

  unfoldable pub of_current : Option Generation → TaskResult → Bool
  unfolding of_generation
  of_current none r = true
  of_current (some g) r = of_generation r g.generation_id g.fence g.plan_sha256

  -- The refusals before the generation's, in the order of the checks.
  unfoldable pub refuse_claim : Queue → Task → Claim → TaskResult → String → Option ReasonCode
  unfolding is_member of_generation
  refuse_claim q t c r lease =
      if not (str_eq c.claim_token r.claim_token)
      then some result_stale_claim
      else if not (str_eq c.agent_id r.agent_id)
      then some result_wrong_owner
      else if not (r.attempt == t.attempt)
      then some result_stale_claim
      else if not (str_eq c.agent_lease_hash (parts.texts.hash lease))
      then some result_stale_claim
      else if not
          ((c.membership_version == r.membership_version) && (c.worker_fence == r.worker_fence))
      then some result_stale_claim
      else if not (is_member q r lease)
      then some result_stale_claim
      else if not (of_generation r t.task.generation_id t.task.generation_fence t.task.plan_sha256)
      then some result_stale_generation
      else none

  -- The staging key of the claim is the one of the attempt, and it holds the declared output.
  unfoldable pub has_output : Task → Claim → TaskResult → Dict B → Bool
  unfolding verify_output
  has_output t c r store =
      let expected =
        parts.texts.staging_key t.task.output_key t.task.generation_id r.task_id t.attempt
          c.claim_token in
      not (str_eq c.staging_key "")
      && str_eq c.staging_key expected
      && verify_output c.staging_key r store

  unfoldable pub succeeded_version : ℕ → Task → Claim → TaskResult → Task
  unfolding or_number
  succeeded_version now t c r = record (touch now t) {
    state = succeeded;
    result = some (record {
      agent_id = r.agent_id;
      attempt = r.attempt;
      size_bytes = r.size_bytes;
      record_count = r.record_count;
      content_hash = r.content_hash;
      s3_etag = r.s3_etag;
      output_key = c.staging_key;
      completed_at_ms = or_number r.completed_at_ms now;
      error_code = "";
    });
    last_error = "";
    claim = none;
  }

  unfoldable pub can_retry : Task → TaskResult → Bool
  can_retry t r = r.retryable && ltb t.attempt t.max_attempts

  unfoldable pub retry_delay : Task → ℕ
  unfolding power_of_two
  retry_delay t =
      min parts.retry_max_seconds (parts.retry_backoff_seconds * power_of_two (t.attempt - 1))

  unfoldable pub failed_version : ℕ → Task → TaskResult → Task
  unfolding or_number or_text can_retry retry_delay
  failed_version now t r = record (touch now t) {
    state = if can_retry t r then retry_wait else failed;
    available_at_ms = if can_retry t r then now + retry_delay t * 1000 else t.available_at_ms;
    result = some (record {
      agent_id = r.agent_id;
      attempt = r.attempt;
      size_bytes = 0;
      record_count = 0;
      content_hash = "";
      s3_etag = "";
      output_key = "";
      completed_at_ms = or_number r.completed_at_ms now;
      error_code = or_text r.error_code "agent_error";
    });
    last_error = parts.texts.safe_error (or_text r.error r.error_code);
    claim = none;
  }
