-- ===== src/WorkQueue/Task.antt =====
-- The records of enterprise/control/work_queue.py and the state machine of
-- enterprise/control/contract.py.
use fabric_shortcut_proxy.Prelude.{ℕ, String, Bool, true, false, Option, List, [], ◌∷◌, any, ◌==◌}

pub data TaskState : Type 0 where
  queued claimed succeeded retry_wait failed expired cancelled : TaskState

unfoldable pub code_of : TaskState → ℕ
code_of queued = 0
code_of claimed = 1
code_of succeeded = 2
code_of retry_wait = 3
code_of failed = 4
code_of expired = 5
code_of cancelled = 6

-- Equality of the texts of two states.
abbrev pub is_in : TaskState → TaskState → Bool
is_in a b = code_of a == code_of b

-- `TASK_TRANSITIONS`
unfoldable pub task_transitions : TaskState → List TaskState
task_transitions queued = claimed ∷ failed ∷ cancelled ∷ []
task_transitions claimed = succeeded ∷ retry_wait ∷ failed ∷ expired ∷ cancelled ∷ []
task_transitions retry_wait = queued ∷ failed ∷ cancelled ∷ []
task_transitions expired = queued ∷ failed ∷ cancelled ∷ []
task_transitions _ = []

unfoldable pub valid_task_transition : TaskState → TaskState → Bool
unfolding task_transitions code_of
valid_task_transition current target = any (is_in target) (task_transitions current)

-- `TASK_TERMINAL_STATES`
unfoldable pub is_terminal : TaskState → Bool
is_terminal succeeded = true
is_terminal failed = true
is_terminal cancelled = true
is_terminal _ = false

-- `state in {TASK_QUEUED, TASK_RETRY_WAIT}`
unfoldable pub is_runnable : TaskState → Bool
is_runnable queued = true
is_runnable retry_wait = true
is_runnable _ = false

-- The fields of `MaterializeTask` that the queue and its scheduler read.
pub record MaterializeTask : Type 0 where
  pub split_index : ℕ
  pub connection_id : String
  pub source_table : String
  pub tenant_id : String
  pub output_key : String
  pub generation_id : String
  pub generation_fence : ℕ
  pub plan_sha256 : String
  pub deadline_ms : ℕ

pub record Claim : Type 0 where
  pub agent_id : String
  pub agent_lease_hash : String
  pub claim_token : String
  pub claimed_at_ms : ℕ
  pub expires_at_ms : ℕ
  pub manager_owner : String
  pub manager_fence : ℕ
  pub membership_version : ℕ
  pub worker_fence : ℕ
  pub staging_key : String
  pub lease_seconds : ℕ

-- `task["result"]`; a failure stores no sizes, which are then 0 and "".
pub record SavedResult : Type 0 where
  pub agent_id : String
  pub attempt : ℕ
  pub size_bytes : ℕ
  pub record_count : ℕ
  pub content_hash : String
  pub s3_etag : String
  pub output_key : String
  pub completed_at_ms : ℕ
  pub error_code : String

pub record Task : Type 0 where
  pub task_id : String
  pub request_id : String
  pub state : TaskState
  pub attempt : ℕ
  pub max_attempts : ℕ
  pub available_at_ms : ℕ
  pub claim : Option Claim
  pub task : MaterializeTask
  pub result : Option SavedResult
  pub last_error : String
  pub dispatch_status : String
  pub created_at_ms : ℕ
  pub updated_at_ms : ℕ
  pub revision : ℕ

pub record Request : Type 0 where
  pub request_id : String
  pub idempotency_key : String
  pub requested_key : String
  pub table : String
  pub epoch : ℕ
  pub table_format : String
  pub dataset_id : String
  pub tenant_id : String
  pub generation_id : String
  pub generation_fence : ℕ
  pub plan_sha256 : String
  pub deadline_ms : ℕ
  pub task_ids : List String
  pub state : TaskState
  pub published : Bool
  pub snapshot_key : String
  pub error : String
  pub created_at_ms : ℕ
  pub updated_at_ms : ℕ
  pub ready : Bool
