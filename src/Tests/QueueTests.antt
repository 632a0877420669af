-- ===== src/Tests/QueueTests.antt =====
-- enterprise/control/work_queue.py at concrete inputs: a request with two tasks, one failed and
-- one cancelled with it, and a task under a claim.
use fabric_shortcut_proxy.Prelude.{
  ℕ, String, str_eq, true, false, ◌&&◌, Option, none, some, List, [], ◌∷◌, ◌==◌, ◌≡◌, refl,
}
use fabric_shortcut_proxy.Dict.{Dict, lookup, insert}
use fabric_shortcut_proxy.WorkQueue.Task.{
  TaskState, queued, claimed, succeeded, failed, cancelled, is_in, MaterializeTask, Claim, Task,
  Request, is_runnable,
}
use fabric_shortcut_proxy.WorkQueue.Steps.{Texts, Claimant}
use fabric_shortcut_proxy.WorkQueue.Queue.{Queue, request_state, tasks_of}
use fabric_shortcut_proxy.WorkQueue.Changes.{
  cannot_be_claimed, claim_task, retry_task, expire_claims,
}
use fabric_shortcut_proxy.WorkQueue.Results.{accept_result, find_result}
use fabric_shortcut_proxy.WorkQueue.Checks.{refuse_claim}
use fabric_shortcut_proxy.WorkQueue.Answers.{TaskResult, Parts, same_or, result_accepted}
use fabric_shortcut_proxy.WorkQueue.Results.Accepted.{accept_result-Earned}
use fabric_shortcut_proxy.WorkQueue.Results.Sender.{IsEarned}
use fabric_shortcut_proxy.WorkQueue.Results.Replay.{accepted_then_replayed}
use fabric_shortcut_proxy.WorkQueue.History.{Keyed, Later, keyed_entries}
use fabric_shortcut_proxy.WorkQueue.History.Runs.{
  Call, claim, expire, accept, cancel, perform_all, tasks_follow_transitions,
}
use fabric_shortcut_proxy.WorkQueue.History.Retry.{claim_excludes_claims, retried_request_stuck}

abbrev pub texts : Texts
texts = record { hash = λ x. x; safe_error = λ x. x; staging_key = λ out gen task n token. token }

-- A content is its number of rows.
abbrev pub parts : Parts ℕ
parts = record {
  texts = texts;
  size = λ b. b;
  digest = λ b. "sha";
  parquet_rows = λ b. some b;
  retry_backoff_seconds = 5;
  retry_max_seconds = 60;
}

abbrev pub work : MaterializeTask
work = record {
  split_index = 0;
  connection_id = "sales";
  source_table = "orders";
  tenant_id = "";
  output_key = "out";
  generation_id = "g";
  generation_fence = 1;
  plan_sha256 = "plan";
  deadline_ms = 0;
}

abbrev held : Claim
held = record {
  agent_id = "agent";
  agent_lease_hash = "lease";
  claim_token = "token";
  claimed_at_ms = 1;
  expires_at_ms = 5000;
  manager_owner = "m";
  manager_fence = 1;
  membership_version = 2;
  worker_fence = 1;
  staging_key = "token";
  lease_seconds = 120;
}

abbrev pub blank : String → String → TaskState → Option Claim → Task
blank id request state c = record {
  task_id = id;
  request_id = request;
  state = state;
  attempt = 1;
  max_attempts = 3;
  available_at_ms = 0;
  claim = c;
  task = work;
  result = none;
  last_error = "";
  dispatch_status = "";
  created_at_ms = 0;
  updated_at_ms = 0;
  revision = 1;
}

abbrev pub ask : String → List String → TaskState → Request
ask id ids state = record {
  request_id = id;
  idempotency_key = id;
  requested_key = "key";
  table = "orders";
  epoch = 7;
  table_format = "delta";
  dataset_id = "sales::orders";
  tenant_id = "";
  generation_id = "g";
  generation_fence = 1;
  plan_sha256 = "plan";
  deadline_ms = 9000;
  task_ids = ids;
  state = state;
  published = false;
  snapshot_key = "";
  error = "";
  created_at_ms = 0;
  updated_at_ms = 0;
  ready = true;
}

abbrev running : Task
running = blank "t1" "r1" claimed (some held)

abbrev dropped : Task
dropped = blank "t3" "r2" cancelled none

abbrev pub queue : Queue
queue = record {
  memberships = [];
  tasks =
      ("t1", running)
      ∷ ("t2", blank "t2" "r2" failed none)
      ∷ ("t3", dropped)
      ∷ ("t4", blank "t4" "r4" queued none)
      ∷ [];
  requests = ("r1", ask "r1" ("t1" ∷ []) claimed) ∷ ("r2", ask "r2" ("t2" ∷ "t3" ∷ []) failed) ∷ [];
  results = [];
  idempotency = [];
  snapshot_records = [];
}

queue-Keyed : Keyed queue
queue-Keyed id t found = keyed_entries queue.tasks id t (refl, (refl, (refl, (refl, tt)))) found

abbrev sent : TaskResult
sent = record {
  task_id = "t1";
  agent_id = "agent";
  ok = true;
  size_bytes = 3;
  record_count = 3;
  content_hash = "sha";
  s3_etag = "0123456789abcdef0123456789abcdef";
  error = "";
  error_code = "";
  claim_token = "token";
  attempt = 1;
  generation_id = "g";
  generation_fence = 1;
  plan_sha256 = "plan";
  retryable = false;
  completed_at_ms = 0;
  membership_version = 2;
  worker_fence = 1;
}

abbrev artifacts : Dict ℕ
artifacts = ("token", 3) ∷ []

sent_is_accepted :
    (accept_result parts 10 none artifacts sent "lease" queue).1.reason_code ≡ result_accepted
unfolding accept_result lookup insert find_result is_runnable refuse_claim
sent_is_accepted = refl

accept_result-Earned_example :
    let q1 = expire_claims texts 10 queue in
    (t : Task) × (c : Claim) × (lookup "t1" q1.tasks ≡ some t)
    × IsEarned parts none artifacts q1 t c sent "lease"
accept_result-Earned_example =
    accept_result-Earned parts 10 none artifacts sent "lease" queue sent_is_accepted

accepted_then_replayed_example :
    let q' = (accept_result parts 10 none artifacts sent "lease" queue).0 in
    accept_result parts 20 none artifacts sent "lease" q'
    ≡ (q', same_or (str_eq "" "" && (0 == 2) && (0 == 1)) succeeded true)
accepted_then_replayed_example =
    accepted_then_replayed parts 10 20 none none artifacts artifacts sent "lease" queue queue-Keyed
      refl sent_is_accepted

abbrev claimant : Claimant
claimant = record {
  agent_id = "agent";
  agent_lease_id = "lease";
  manager_owner = "m";
  manager_fence = 1;
  membership_version = 2;
  worker_fence = 1;
  seconds = 60;
  claim_token = "new";
}

t4_is_claimed : (claim_task texts 10 claimant "t4" queue).1 ≡ none
unfolding claim_task lookup
t4_is_claimed = refl

claim_excludes_claims_example :
    let q' = (claim_task texts 10 claimant "t4" queue).0 in
    claim_task texts 12 claimant "t4" q' ≡ (q', some cannot_be_claimed)
claim_excludes_claims_example =
    claim_excludes_claims texts 10 12 claimant claimant "t4" queue queue-Keyed t4_is_claimed

abbrev calls : List (Call ℕ)
calls =
    accept 10 none artifacts sent "lease"
    ∷ claim 20 claimant "t2"
    ∷ claim 20 claimant "t4"
    ∷ expire 90000
    ∷ cancel 95000 "r2" "stop"
    ∷ []

tasks_follow_transitions_example : Later running (lookup "t1" (perform_all parts calls queue).tasks)
unfolding lookup
tasks_follow_transitions_example =
    tasks_follow_transitions parts calls queue "t1" running queue-Keyed refl

t2_is_retried : (retry_task texts 10 "t2" queue).1 ≡ true
unfolding retry_task lookup
t2_is_retried = refl

retried_request_stuck_example :
    is_in
      (request_state (
        tasks_of
          ("t2" ∷ "t3" ∷ [])
          (perform_all parts calls (retry_task texts 10 "t2" queue).0).tasks))
      succeeded
    ≡ false
unfolding lookup
retried_request_stuck_example =
    retried_request_stuck parts calls 10 "t2" "t3" ("t2" ∷ "t3" ∷ []) dropped queue queue-Keyed refl
      refl refl
