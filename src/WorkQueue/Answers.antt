-- ===== src/WorkQueue/Answers.antt =====
-- The results that agents send, the answers to them, and what `accept_result` of
-- enterprise/control/work_queue.py takes from outside of it.
use fabric_shortcut_proxy.Prelude.{
  ℕ, zero, suc, ◌*◌, String, str_eq, Bool, false, ◌&&◌, ◌||◌, Option, some, if◌then◌else◌, leb,
  ◌==◌, all, length,
}
use Prim.Native.Char.{Char, code}
use fabric_shortcut_proxy.Artifacts.Keys.{chars}
use fabric_shortcut_proxy.WorkQueue.Task.{TaskState}
use fabric_shortcut_proxy.WorkQueue.Steps.{Texts}

pub record TaskResult : Type 0 where
  pub task_id : String
  pub agent_id : String
  pub ok : Bool
  pub size_bytes : ℕ
  pub record_count : ℕ
  pub content_hash : String
  pub s3_etag : String
  pub error : String
  pub error_code : String
  pub claim_token : String
  pub attempt : ℕ
  pub generation_id : String
  pub generation_fence : ℕ
  pub plan_sha256 : String
  pub retryable : Bool
  pub completed_at_ms : ℕ
  pub membership_version : ℕ
  pub worker_fence : ℕ

pub data ReasonCode : Type 0 where
  result_accepted result_duplicate result_stale_claim result_stale_generation : ReasonCode
  result_wrong_owner result_invalid_output result_conflict result_rejected : ReasonCode

-- `state` is none for the empty text.
pub record Ack : Type 0 where
  pub ok : Bool
  pub state : Option TaskState
  pub duplicate : Bool
  pub terminal : Bool
  pub reason_code : ReasonCode

-- The term of the current generation: `current_generation` of the runtime.
pub record Generation : Type 0 where
  pub generation_id : String
  pub fence : ℕ
  pub plan_sha256 : String

pub record Parts (B : Type 0) : Type 0 where
  pub texts : Texts
  pub size : B → ℕ
  pub digest : B → String
  pub parquet_rows : B → Option ℕ
  pub retry_backoff_seconds : ℕ
  pub retry_max_seconds : ℕ

-- `character in "0123456789abcdefABCDEF"`
unfoldable pub is_hex : Char → Bool
is_hex c =
    let n = code c in (leb 48 n && leb n 57) || (leb 97 n && leb n 102) || (leb 65 n && leb n 70)

unfoldable pub valid_etag : String → Bool
unfolding is_hex
valid_etag tag = (length (chars tag) == 32) && all is_hex (chars tag)

unfoldable pub power_of_two : ℕ → ℕ
power_of_two zero = 1
power_of_two (suc n) = 2 * power_of_two n

unfoldable pub refuse : Option TaskState → Bool → ReasonCode → Ack
refuse state terminal reason = record {
  ok = false;
  state = state;
  duplicate = false;
  terminal = terminal;
  reason_code = reason;
}

unfoldable pub same_or : Bool → TaskState → Bool → Ack
same_or same state terminal = record {
  ok = same;
  state = some state;
  duplicate = same;
  terminal = terminal;
  reason_code = if same then result_duplicate else result_conflict;
}

unfoldable pub or_text : String → String → String
or_text a b = if str_eq a "" then b else a

unfoldable pub or_number : ℕ → ℕ → ℕ
or_number a b = if a == 0 then b else a
