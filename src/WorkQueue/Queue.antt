-- ===== src/WorkQueue/Queue.antt =====
-- The records of the queue of enterprise/control/work_queue.py, the writes of tasks and requests,
-- and the state of a request. Tasks and requests are visited in the order in which the store lists
-- them.
use fabric_shortcut_proxy.Prelude.{
  ℕ, String, Bool, false, Option, none, some, List, [], ◌∷◌, if◌then◌else◌, any, all, map,
}
use fabric_shortcut_proxy.Dict.{Dict, lookup, insert}
use fabric_shortcut_proxy.WorkQueue.Task.{
  TaskState, queued, claimed, succeeded, retry_wait, failed, code_of, is_in, SavedResult, Task,
  Request,
}

-- A record under `results/<task>/<attempt>.json`.
pub record ResultRecord : Type 0 where
  pub attempt : ℕ
  pub state : TaskState
  pub result : Option SavedResult
  pub agent_lease_hash : String

-- A worker of a generation's membership; `is_active` is `state == "active"`.
pub record Worker : Type 0 where
  pub is_active : Bool
  pub lease_hash : String
  pub capacity : ℕ
  pub worker_fence : ℕ
  pub joined_at_ms : ℕ
  pub last_seen_ms : ℕ

pub record Membership : Type 0 where
  pub generation_fence : ℕ
  pub membership_version : ℕ
  pub is_elastic : Bool
  pub workers : Dict Worker
  pub reassignment_count : ℕ
  pub created_at_ms : ℕ
  pub updated_at_ms : ℕ

-- A data file of a snapshot, but for its key range, and the published state of a table.
pub record SplitRef : Type 0 where
  pub object_key : String
  pub size_bytes : ℕ
  pub record_count : ℕ
  pub content_hash : String

pub record SnapshotManifest : Type 0 where
  pub table : String
  pub epoch : ℕ
  pub table_format : String
  pub splits : List SplitRef
  pub metadata_keys : List String
  pub generation_id : String
  pub generation_fence : ℕ
  pub plan_sha256 : String
  pub published_at_ms : ℕ
  pub request_id : String
  pub dataset_id : String
  pub produced_at_ms : ℕ
  pub tenant_id : String

-- `idempotency` holds the ids of the requests under the keys of their identities.
pub record Queue : Type 0 where
  pub memberships : Dict Membership
  pub tasks : Dict Task
  pub requests : Dict Request
  pub results : Dict (List ResultRecord)
  pub idempotency : Dict String
  pub snapshot_records : Dict SnapshotManifest

unfoldable pub write_task : Task → Queue → Queue
write_task t q = record q { tasks = insert t.task_id t q.tasks }

unfoldable pub write_request : Request → Queue → Queue
write_request r q = record q { requests = insert r.request_id r q.requests }

-- The versions of one task, written in order.
unfoldable pub write_versions : List Task → Queue → Queue
unfolding write_task
write_versions [] q = q
write_versions (t ∷ ts) q = write_versions ts (write_task t q)

-- One operation on each of the listed tasks, read when its turn comes.
unfoldable pub on_found : (Task → List Task) → Option Task → Queue → Queue
unfolding write_versions
on_found versions none q = q
on_found versions (some t) q = write_versions (versions t) q

unfoldable pub on_task : (Task → List Task) → String → Queue → Queue
unfolding on_found
on_task versions id q = on_found versions (lookup id q.tasks) q

unfoldable pub on_tasks : (Task → List Task) → List String → Queue → Queue
unfolding on_task
on_tasks versions [] q = q
on_tasks versions (id ∷ ids) q = on_tasks versions ids (on_task versions id q)

unfoldable pub task_ids : Dict Task → List String
task_ids d = map (λ e. e.0) d

-- The tasks of a request that are there, in its order.
unfoldable pub tasks_of : List String → Dict Task → List Task
tasks_of [] d = []
tasks_of (id ∷ ids) d =
    let rest = tasks_of ids d in elim (lookup id d) [ none ↦ rest | some t ↦ t ∷ rest ]

abbrev pub has_state : TaskState → List Task → Bool
has_state s ts = any (λ t. is_in t.state s) ts

unfoldable pub all_succeeded : List Task → Bool
unfolding code_of
all_succeeded [] = false
all_succeeded (t ∷ ts) = all (λ u. is_in u.state succeeded) (t ∷ ts)

unfoldable pub request_state : List Task → TaskState
unfolding all_succeeded code_of
request_state ts =
    if all_succeeded ts
    then succeeded
    else if has_state failed ts
    then failed
    else if has_state claimed ts
    then claimed
    else if has_state retry_wait ts
    then retry_wait
    else queued

unfoldable pub first_error : List Task → String
unfolding code_of
first_error [] = ""
first_error (t ∷ ts) =
    let rest = first_error ts in if is_in t.state failed then t.last_error else rest
