-- ===== src/WorkQueue/Create.antt =====
-- `create_request` of enterprise/control/work_queue.py. What it writes for a new request is a
-- list, in the order of the writes, so that a process that stops in between has written a first
-- part of the list. The counter of requests is left out.

pub mod Written
pub mod Crash
pub mod Repeat
use fabric_shortcut_proxy.Prelude.{
  ℕ, String, true, false, Option, none, some, List, [], ◌∷◌, ◌++◌, if◌then◌else◌, map,
}
use fabric_shortcut_proxy.Dict.{lookup, insert}
use fabric_shortcut_proxy.WorkQueue.Task.{queued, MaterializeTask, Task, Request}
use fabric_shortcut_proxy.WorkQueue.Steps.{Texts}
use fabric_shortcut_proxy.WorkQueue.Queue.{Queue, write_task, write_request}
use fabric_shortcut_proxy.WorkQueue.Identity.{
  Creation, identity_of, task_identity, several_tenants, several_datasets, tenant_of, dataset_of,
}

pub data CreateError : Type 0 where
  spans_several_tenants spans_several_datasets missing_request : CreateError

pub data CreateResult : Type 0 where
  created : Request → CreateResult
  refused : CreateError → CreateResult

pub data QueueWrite : Type 0 where
  put_request : Request → QueueWrite
  put_task : Task → QueueWrite
  put_idempotency : String → String → QueueWrite

unfoldable pub write_idempotency : String → String → Queue → Queue
write_idempotency key id q = record q { idempotency = insert key id q.idempotency }

unfoldable pub apply_write : QueueWrite → Queue → Queue
unfolding write_request write_task write_idempotency
apply_write (put_request r) q = write_request r q
apply_write (put_task t) q = write_task t q
apply_write (put_idempotency key id) q = write_idempotency key id q

unfoldable pub apply_writes : List QueueWrite → Queue → Queue
unfolding apply_write
apply_writes [] q = q
apply_writes (w ∷ ws) q = apply_writes ws (apply_write w q)

unfoldable pub request_id_of : Texts → Creation → String
unfolding identity_of
request_id_of texts c = texts.hash (identity_of c)

module _ (texts : Texts) (max_attempts : ℕ) where
  unfoldable pub new_task : ℕ → Creation → MaterializeTask → Task
  unfolding request_id_of task_identity
  new_task now c t = record {
    task_id = texts.hash (task_identity (request_id_of texts c) t);
    request_id = request_id_of texts c;
    state = queued;
    attempt = 0;
    max_attempts = max_attempts;
    available_at_ms = now;
    claim = none;
    task = record t {
      generation_id = c.generation_id;
      generation_fence = c.generation_fence;
      plan_sha256 = c.plan_sha256;
      deadline_ms = c.deadline_ms;
    };
    result = none;
    last_error = "";
    dispatch_status = "";
    created_at_ms = now;
    updated_at_ms = now;
    revision = 1;
  }

  unfoldable pub new_tasks : ℕ → Creation → List Task
  unfolding new_task
  new_tasks now c = map (new_task now c) c.tasks

  -- The new request, before its tasks are written.
  unfoldable pub new_request : ℕ → Creation → Request
  unfolding request_id_of new_tasks dataset_of tenant_of
  new_request now c = record {
    request_id = request_id_of texts c;
    idempotency_key = request_id_of texts c;
    requested_key = c.requested_key;
    table = c.table;
    epoch = c.epoch;
    table_format = c.table_format;
    dataset_id = dataset_of c.tasks;
    tenant_id = tenant_of c.tasks;
    generation_id = c.generation_id;
    generation_fence = c.generation_fence;
    plan_sha256 = c.plan_sha256;
    deadline_ms = c.deadline_ms;
    task_ids = map (λ t. t.task_id) (new_tasks now c);
    state = queued;
    published = false;
    snapshot_key = "";
    error = "";
    created_at_ms = now;
    updated_at_ms = now;
    ready = false;
  }

  unfoldable pub ready_request : ℕ → Creation → Request
  unfolding new_request
  ready_request now c = record (new_request now c) { ready = true }

  -- The writes of a new request, in their order.
  unfoldable pub creation_writes : ℕ → Creation → List QueueWrite
  unfolding new_request new_tasks ready_request request_id_of
  creation_writes now c =
      put_request (new_request now c) ∷ map put_task (new_tasks now c)
      ++ put_request (ready_request now c)
        ∷ put_idempotency (request_id_of texts c) (request_id_of texts c)
        ∷ []

  found_request : Option Request → CreateResult
  found_request none = refused missing_request
  found_request (some r) = created r

  -- The part under the lock, on what stands under the idempotency key.
  unfoldable pub create_at : ℕ → Creation → Option String → Queue → Queue × CreateResult
  unfolding found_request apply_writes creation_writes ready_request several_datasets
  create_at now c (some id) q = (q, found_request (lookup id q.requests))
  create_at now c none q =
      if several_datasets c.tasks
      then (q, refused spans_several_datasets)
      else (apply_writes (creation_writes now c) q, created (ready_request now c))

  unfoldable pub create_request : ℕ → Creation → Queue → Queue × CreateResult
  unfolding several_tenants create_at request_id_of
  create_request now c q =
      if several_tenants c.tasks
      then (q, refused spans_several_tenants)
      else create_at now c (lookup (request_id_of texts c) q.idempotency) q
