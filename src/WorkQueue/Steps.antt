-- ===== src/WorkQueue/Steps.antt =====
-- What each operation of enterprise/control/work_queue.py writes for one task: the versions of
-- the record, in the order of the writes. No version means that the task stays as it is.
pub mod Transitions
use fabric_shortcut_proxy.Prelude.{
  ℕ, ◌+◌, ◌*◌, ◌-◌, min, String, str_eq, Bool, true, false, not, ◌&&◌, ◌||◌, Option, none, some,
  List, [], ◌∷◌, ◌++◌, if◌then◌else◌, leb, ltb, ◌==◌,
}
use fabric_shortcut_proxy.WorkQueue.Task.{
  TaskState, queued, claimed, succeeded, retry_wait, failed, expired, cancelled, code_of, is_in,
  is_terminal, is_runnable, MaterializeTask, Claim, Task,
}

-- `deadline_ms and deadline_ms <= now_ms`
abbrev pub is_late : ℕ → Task → Bool
is_late now t = not (t.task.deadline_ms == 0) && leb t.task.deadline_ms now

-- `int(claim.get("expires_at_ms", 0))`
abbrev pub claim_expiry : Option Claim → ℕ
claim_expiry none = 0
claim_expiry (some c) = c.expires_at_ms

-- A new version: `updated_at_ms` and `revision`.
abbrev pub touch : ℕ → Task → Task
touch now t = record t { updated_at_ms = now; revision = t.revision + 1 }

unfoldable pub expiry_target : ℕ → Task → TaskState
expiry_target now t = if leb t.max_attempts t.attempt || is_late now t then failed else queued

-- The version of a claim that ran out, and the one that moves the task on.
expired_version : ℕ → Task → Task
expired_version now t = record (touch now t) {
  available_at_ms = now;
  claim = none;
  state = expired;
  last_error = if is_late now t then "deadline_expired" else "claim_expired";
}

moved_version : ℕ → Task → Task
unfolding expiry_target expired_version
moved_version now t =
    let e = expired_version now t in
    record e { state = expiry_target now t; revision = e.revision + 1 }

-- `expire_claims`, on one task.
unfoldable pub expire_versions : ℕ → Task → List Task
unfolding expired_version moved_version
expire_versions now t =
    if is_runnable t.state && is_late now t
    then record (touch now t) { state = failed; last_error = "deadline_expired" } ∷ []
    else if is_in t.state claimed && (leb (claim_expiry t.claim) now || is_late now t)
    then expired_version now t ∷ moved_version now t ∷ []
    else []

-- `recover`, on a task of a complete request.
unfoldable pub recover_versions : ℕ → Task → List Task
unfolding expiry_target
recover_versions now t =
    if is_in t.state expired
    then record (touch now t) { state = expiry_target now t; available_at_ms = now } ∷ []
    else []

-- `min(now_ms + duration * 1000, deadline_ms or now_ms + duration * 1000)`
unfoldable pub lease_end : ℕ → ℕ → ℕ → ℕ
lease_end now seconds deadline =
    min (now + seconds * 1000) (if deadline == 0 then now + seconds * 1000 else deadline)

-- The arguments of `claim_task`, with the token that it draws.
pub record Claimant : Type 0 where
  pub agent_id : String
  pub agent_lease_id : String
  pub manager_owner : String
  pub manager_fence : ℕ
  pub membership_version : ℕ
  pub worker_fence : ℕ
  pub seconds : ℕ
  pub claim_token : String

-- `_hash`, `_safe_error`, and `_staging_key` of the output key, the generation, the task, the
-- attempt and the token.
pub record Texts : Type 0 where
  pub hash : String → String
  pub safe_error : String → String
  pub staging_key : String → String → String → ℕ → String → String

module _ (texts : Texts) where
  unfoldable pub claim_for : ℕ → Claimant → Task → Claim
  unfolding lease_end
  claim_for now c t = record {
    agent_id = c.agent_id;
    agent_lease_hash = texts.hash c.agent_lease_id;
    claim_token = c.claim_token;
    claimed_at_ms = now;
    expires_at_ms = lease_end now c.seconds t.task.deadline_ms;
    manager_owner = c.manager_owner;
    manager_fence = c.manager_fence;
    membership_version = c.membership_version;
    worker_fence = c.worker_fence;
    staging_key =
        texts.staging_key t.task.output_key t.task.generation_id t.task_id (t.attempt + 1)
          c.claim_token;
    lease_seconds = c.seconds;
  }

  unfoldable pub claim_from : ℕ → Claimant → Task → Task
  unfolding claim_for
  claim_from now c t = record (touch now t) {
    state = claimed;
    dispatch_status = "";
    attempt = t.attempt + 1;
    claim = some (claim_for now c t);
  }

  -- `claim_task`, on a task that can be claimed: a task that waits for a retry is queued first.
  unfoldable pub claim_versions : ℕ → Claimant → Task → List Task
  unfolding claim_from
  claim_versions now c t =
      if is_in t.state retry_wait
      then (let ready = record (touch now t) { state = queued } in
          ready ∷ claim_from now c ready ∷ [])
      else claim_from now c t ∷ []

  -- `renew_agent_claims`, on one of the listed tasks.
  renew_held : ℕ → String → String → Task → Option Claim → List Task
  unfolding lease_end
  renew_held now agent lease t none = []
  renew_held now agent lease t (some c) =
      if is_in t.state claimed
        && ltb now c.expires_at_ms
        && str_eq c.agent_id agent
        && str_eq c.agent_lease_hash (texts.hash lease)
      then record (touch now t) {
        claim =
            some (record c { expires_at_ms = lease_end now c.lease_seconds t.task.deadline_ms });
      }
        ∷ []
      else []

  unfoldable pub renew_versions : ℕ → String → String → Task → List Task
  unfolding renew_held
  renew_versions now agent lease t = renew_held now agent lease t t.claim

  -- Back to the queue: `release_claim`, `fence_claims` and `reassign_fenced_claims`.
  abbrev pub requeue : ℕ → String → Task → Task
  requeue now error t = record (touch now t) {
    state = retry_wait;
    claim = none;
    available_at_ms = now;
    last_error = error;
  }

  -- `str(claim.get("claim_token", ""))`
  token_of : Option Claim → String
  token_of none = ""
  token_of (some c) = c.claim_token

  unfoldable pub release_versions : ℕ → String → String → Task → List Task
  unfolding token_of
  release_versions now token reason t =
      if is_in t.state claimed && str_eq (token_of t.claim) token
      then requeue now (texts.safe_error reason) t ∷ []
      else []

  held_by : String → ℕ → Option Claim → Bool
  held_by owner fence none = false
  held_by owner fence (some c) = str_eq c.manager_owner owner && (c.manager_fence == fence)

  unfoldable pub fence_versions : ℕ → String → ℕ → Task → List Task
  unfolding held_by
  fence_versions now owner fence t =
      if is_in t.state claimed && not (held_by owner fence t.claim)
      then requeue now "manager_fenced" t ∷ []
      else []

  -- A task that ends with its request: `cancel_request` and `_refresh_requests`.
  unfoldable pub cancel_versions : ℕ → String → Task → List Task
  cancel_versions now reason t =
      if is_terminal t.state
      then []
      else record (touch now t) { state = cancelled; claim = none; last_error = reason } ∷ []

  -- `set_dispatch_status`
  unfoldable pub dispatch_versions : ℕ → String → Task → List Task
  dispatch_versions now reason t =
      if is_runnable t.state && not (str_eq t.dispatch_status reason)
      then record (touch now t) { dispatch_status = reason } ∷ []
      else []
