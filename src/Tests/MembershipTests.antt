-- ===== src/Tests/MembershipTests.antt =====
-- The memberships of enterprise/control/work_queue.py at concrete inputs: an agent that comes back
-- under another lease, and the task that it held.
use fabric_shortcut_proxy.Prelude.{String, true, false, none, some, [], ◌∷◌, ◌≡◌, refl}
use fabric_shortcut_proxy.Dict.{Dict, lookup, insert}
use fabric_shortcut_proxy.WorkQueue.Task.{claimed, code_of, Claim, Task}
use fabric_shortcut_proxy.WorkQueue.Steps.{Texts}
use fabric_shortcut_proxy.WorkQueue.Queue.{Queue, Worker, Membership}
use fabric_shortcut_proxy.WorkQueue.History.{Keyed, keyed_entries}
use fabric_shortcut_proxy.WorkQueue.Membership.{
  Observed, reconcile_membership, reassign_fenced_claims, is_fenced,
}
use fabric_shortcut_proxy.WorkQueue.Membership.Fences.{Advances, fence_names_lease}
use fabric_shortcut_proxy.WorkQueue.Membership.Reassigned.{HeldBy, reassigned_claims_valid}

abbrev texts : Texts
texts = record { hash = λ x. x; safe_error = λ x. x; staging_key = λ out gen task n token. token }

abbrev worker : Worker
worker = record {
  is_active = true;
  lease_hash = "old";
  capacity = 1;
  worker_fence = 1;
  joined_at_ms = 0;
  last_seen_ms = 0;
}

abbrev membership : Membership
membership = record {
  generation_fence = 4;
  membership_version = 1;
  is_elastic = false;
  workers = ("agent", worker) ∷ [];
  reassignment_count = 0;
  created_at_ms = 0;
  updated_at_ms = 0;
}

abbrev hold : String → String → Claim
hold agent lease = record {
  agent_id = agent;
  agent_lease_hash = lease;
  claim_token = "token";
  claimed_at_ms = 1;
  expires_at_ms = 5000;
  manager_owner = "m";
  manager_fence = 1;
  membership_version = 1;
  worker_fence = 1;
  staging_key = "token";
  lease_seconds = 120;
}

abbrev work : String → Claim → Task
work id c = record {
  task_id = id;
  request_id = "r";
  state = claimed;
  attempt = 1;
  max_attempts = 3;
  available_at_ms = 0;
  claim = some c;
  task = record {
    split_index = 0;
    connection_id = "sales";
    source_table = "orders";
    tenant_id = "";
    output_key = "out";
    generation_id = "g";
    generation_fence = 4;
    plan_sha256 = "plan";
    deadline_ms = 0;
  };
  result = none;
  last_error = "";
  dispatch_status = "";
  created_at_ms = 0;
  updated_at_ms = 0;
  revision = 1;
}

abbrev queue : Queue
queue = record {
  memberships = ("g", membership) ∷ [];
  tasks = ("t1", work "t1" (hold "agent" "old")) ∷ ("t2", work "t2" (hold "gone" "old")) ∷ [];
  requests = [];
  results = [];
  idempotency = [];
  snapshot_records = [];
}

queue-Keyed : Keyed queue
queue-Keyed id t found = keyed_entries queue.tasks id t (refl, (refl, tt)) found

abbrev seen : Dict Observed
seen = ("agent", record { lease_hash = "new"; capacity = 2 }) ∷ []

fence_names_lease_example :
    (m' : Membership) × (w' : Worker) × (lookup "g"
        (reconcile_membership 10 "g" 4 seen false queue).0.memberships
      ≡ some m')
    × (lookup "agent" m'.workers ≡ some w')
    × Advances worker w'
unfolding lookup
fence_names_lease_example =
    fence_names_lease 10 "g" 4 seen false queue membership "agent" worker refl refl

reassigned_claims_valid_example : HeldBy membership.workers (work "t1" (hold "agent" "old"))
unfolding reassign_fenced_claims is_fenced lookup insert code_of
reassigned_claims_valid_example =
    reassigned_claims_valid texts 10 "g" membership queue "t1" (work "t1" (hold "agent" "old"))
      queue-Keyed refl refl refl
