-- ===== src/WorkQueue/Membership.antt =====
-- The workers of a generation: `reconcile_membership` and `reassign_fenced_claims` of
-- enterprise/control/work_queue.py. The texts of the reasons are left out.
pub mod Fences
pub mod Reassigned
use fabric_shortcut_proxy.Prelude.{
  ℕ, ◌+◌, max, String, str_eq, Bool, true, false, not, ◌&&◌, ◌||◌, Option, none, some, List, [],
  ◌∷◌, ◌++◌, if◌then◌else◌, ◌==◌, sum_by, map, is_some, zero, suc,
}
use fabric_shortcut_proxy.Dict.{Dict, lookup, insert}
use fabric_shortcut_proxy.WorkQueue.Task.{TaskState, claimed, code_of, is_in, Claim, Task}
use fabric_shortcut_proxy.WorkQueue.Steps.{Texts, requeue}
use fabric_shortcut_proxy.WorkQueue.Queue.{Queue, Worker, Membership, on_tasks, task_ids}

-- What the registry reports of one live agent, its lease hashed and its capacity at least 1.
pub record Observed : Type 0 where
  pub lease_hash : String
  pub capacity : ℕ

joined : ℕ → Observed → Worker
joined now o = record {
  is_active = true;
  lease_hash = o.lease_hash;
  capacity = o.capacity;
  worker_fence = 1;
  joined_at_ms = now;
  last_seen_ms = now;
}

departed : ℕ → Worker → Worker
departed now w = record w {
  is_active = false;
  worker_fence = w.worker_fence + 1;
  last_seen_ms = now;
}

-- `lease_changed or prior.get("state") != "active"`
abbrev pub rejoins : Worker → Observed → Bool
rejoins w o = not (str_eq w.lease_hash o.lease_hash) || not w.is_active

observed_again : ℕ → Worker → Observed → Worker
observed_again now w o = record {
  is_active = true;
  lease_hash = o.lease_hash;
  capacity = o.capacity;
  worker_fence = if rejoins w o then w.worker_fence + 1 else w.worker_fence;
  joined_at_ms = if rejoins w o then now else w.joined_at_ms;
  last_seen_ms = now;
}

-- One agent: the worker that it has become, and whether the membership changed.
unfoldable pub reconcile_worker : ℕ → Option Worker → Option Observed → Option Worker × Bool
unfolding joined departed observed_again
reconcile_worker now none none = (none, false)
reconcile_worker now none (some o) = (some (joined now o), true)
reconcile_worker now (some w) none =
    if w.is_active then (some (departed now w), true) else (some w, false)
reconcile_worker now (some w) (some o) =
    (some (observed_again now w o), rejoins w o || not (w.capacity == o.capacity))

put_worker : String → Option Worker → Dict Worker → Dict Worker
put_worker id none ws = ws
put_worker id (some w) ws = insert id w ws

-- The loop over the allowed agents.
unfoldable pub reconcile_workers :
    ℕ → Dict Observed → List String → Dict Worker → Dict Worker × Bool
unfolding reconcile_worker put_worker lookup
reconcile_workers now current [] ws = (ws, false)
reconcile_workers now current (id ∷ ids) ws =
    let (w, changed) = reconcile_worker now (lookup id ws) (lookup id current) in
    let (ws', more) = reconcile_workers now current ids (put_worker id w ws) in
    (ws', changed || more)

-- An elastic membership admits the new agents too.
abbrev pub allowed : Bool → Dict Observed → Dict Worker → List String
allowed elastic current ws =
    if elastic then map (λ e. e.0) ws ++ map (λ e. e.0) current else map (λ e. e.0) ws

all_joined : ℕ → Dict Observed → Dict Worker
unfolding joined
all_joined now [] = []
all_joined now ((id, o) ∷ os) = insert id (joined now o) (all_joined now os)

pub data MembershipError : Type 0 where
  another_generation policy_changed : MembershipError

unfoldable pub first_membership : ℕ → ℕ → Bool → Dict Worker → Membership
first_membership now fence elastic ws = record {
  generation_fence = fence;
  membership_version = 1;
  is_elastic = elastic;
  workers = ws;
  reassignment_count = 0;
  created_at_ms = now;
  updated_at_ms = now;
}

-- What is returned, and not written, as long as there are no workers.
unfoldable pub waiting_membership : ℕ → ℕ → Bool → Membership
unfolding first_membership
waiting_membership now fence elastic = record (first_membership now fence elastic []) {
  membership_version = 0;
}

unfoldable pub next_membership : ℕ → Dict Observed → Membership → Membership
unfolding reconcile_workers
next_membership now current m =
    let (ws, changed) =
      reconcile_workers now current (allowed m.is_elastic current m.workers) m.workers in
    record m {
      workers = ws;
      updated_at_ms = now;
      membership_version = if changed then m.membership_version + 1 else m.membership_version;
    }

unfoldable pub write_membership : String → Membership → Queue → Queue
write_membership id m q = record q { memberships = insert id m q.memberships }

unfoldable pub same_policy : Bool → Bool → Bool
same_policy true elastic = elastic
same_policy false elastic = not elastic

unfoldable pub reconcile_known :
    ℕ → String → ℕ → Dict Observed → Bool → Membership → Queue → Queue × Option MembershipError
unfolding same_policy next_membership write_membership
reconcile_known now id fence current elastic m q =
    if not (m.generation_fence == fence)
    then (q, some another_generation)
    else if not (same_policy m.is_elastic elastic)
    then (q, some policy_changed)
    else (write_membership id (next_membership now current m) q, none)

-- Without agents no membership is written.
unfoldable pub reconcile_found :
    ℕ
    → String
    → ℕ
    → Dict Observed
    → Bool
    → Option Membership
    → Queue
    → Queue × Option MembershipError
unfolding all_joined first_membership write_membership reconcile_known
reconcile_found now id fence [] elastic none q = (q, none)
reconcile_found now id fence (o ∷ os) elastic none q =
    (write_membership id (first_membership now fence elastic (all_joined now (o ∷ os))) q, none)
reconcile_found now id fence current elastic (some m) q =
    reconcile_known now id fence current elastic m q

unfoldable pub reconcile_membership :
    ℕ → String → ℕ → Dict Observed → Bool → Queue → Queue × Option MembershipError
unfolding reconcile_found lookup
reconcile_membership now id fence current elastic q =
    reconcile_found now id fence current elastic (lookup id q.memberships) q

unfoldable pub holds : Option Worker → Claim → Bool
holds none c = false
holds (some w) c =
    w.is_active && str_eq w.lease_hash c.agent_lease_hash && (w.worker_fence == c.worker_fence)

-- `valid` of `reassign_fenced_claims`.
unfoldable pub valid_claim : Dict Worker → Option Claim → Bool
unfolding holds lookup
valid_claim ws none = false
valid_claim ws (some c) = holds (lookup c.agent_id ws) c

unfoldable pub is_fenced : String → Dict Worker → Task → Bool
unfolding valid_claim code_of
is_fenced generation ws t =
    is_in t.state claimed && str_eq t.task.generation_id generation && not (valid_claim ws t.claim)

unfoldable pub reassign_versions : Texts → ℕ → String → Dict Worker → Task → List Task
unfolding is_fenced
reassign_versions texts now generation ws t =
    if is_fenced generation ws t then requeue texts now "worker_membership_fenced" t ∷ [] else []

unfoldable pub count_reassigned : ℕ → ℕ → String → Membership → Queue → Queue
unfolding write_membership
count_reassigned zero now id m q = q
count_reassigned (suc n) now id m q =
    write_membership id
      (record m { reassignment_count = m.reassignment_count + suc n; updated_at_ms = now }) q

unfoldable pub reassign_fenced_claims : Texts → ℕ → String → Membership → Queue → Queue
unfolding reassign_versions on_tasks task_ids count_reassigned
reassign_fenced_claims texts now id m q =
    let n = sum_by (λ e. if is_fenced id m.workers e.1 then 1 else 0) q.tasks in
    count_reassigned n now id m
      (on_tasks (reassign_versions texts now id m.workers) (task_ids q.tasks) q)
