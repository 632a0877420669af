-- ===== src/WorkQueue/Results/Sender.antt =====
-- What the guards of `accept_result` of enterprise/control/work_queue.py say of a result, in plain
-- terms.
use fabric_shortcut_proxy.Prelude.{
  ℕ, String, str_eq, str_eq_iff, true, false, Option, none, some, ◌≡◌, ◌⊎◌, refl, arith,
  Option-cases, Bool-cases, inl, inr,
}
use fabric_shortcut_proxy.Dict.{Dict, lookup}
use fabric_shortcut_proxy.WorkQueue.Task.{
  TaskState, queued, claimed, succeeded, retry_wait, failed, expired, cancelled, code_of, is_in,
  Claim, Task,
}
use fabric_shortcut_proxy.WorkQueue.Queue.{Queue, Worker, Membership}
use fabric_shortcut_proxy.WorkQueue.Answers.{TaskResult, Generation, Parts, valid_etag}
use fabric_shortcut_proxy.WorkQueue.Checks.{
  verify_output, active_worker, is_member, of_generation, of_current, has_output,
}

-- The result names a generation.
abbrev pub IsOf : TaskResult → String → ℕ → String → Type 0
IsOf r id fence plan =
    (r.generation_id ≡ id) × (r.generation_fence ≡ fence) × (r.plan_sha256 ≡ plan)

abbrev pub IsOfCurrent : Option Generation → TaskResult → Type 0
IsOfCurrent none r = Unit
IsOfCurrent (some g) r = IsOf r g.generation_id g.fence g.plan_sha256

pub is_claimed : (s : TaskState) → is_in s claimed ≡ true → s ≡ claimed
unfolding code_of
is_claimed queued h = cc
is_claimed claimed h = refl
is_claimed succeeded h = cc
is_claimed retry_wait h = cc
is_claimed failed h = cc
is_claimed expired h = cc
is_claimed cancelled h = cc

module _ {B : Type 0} (parts : Parts B) where
  pub of_generation-IsOf :
      (r : TaskResult) (id : String) (fence : ℕ) (plan : String)
      → of_generation parts r id fence plan ≡ true
      → IsOf r id fence plan
  unfolding of_generation
  of_generation-IsOf r id fence plan h = (
    ground (arith, h, str_eq_iff r.generation_id id),
    ground (arith, h),
    ground (arith, h, str_eq_iff r.plan_sha256 plan),
  )

  pub of_current-IsOf :
      (g : Option Generation) (r : TaskResult) → of_current parts g r ≡ true → IsOfCurrent g r
  unfolding of_current
  of_current-IsOf none r h = tt
  of_current-IsOf (some g) r h = of_generation-IsOf r g.generation_id g.fence g.plan_sha256 h

  -- An active worker of the membership, under the sender's lease and fence.
  abbrev pub IsWorker : Membership → TaskResult → String → Type 0
  IsWorker m r lease =
      (w : Worker) × (lookup r.agent_id m.workers ≡ some w)
      × (w.is_active ≡ true)
      × (w.lease_hash ≡ parts.texts.hash lease)
      × (w.worker_fence ≡ r.worker_fence)

  -- The result names no generation, or one without a membership, or the sender is a worker of it.
  abbrev pub IsMember : Queue → TaskResult → String → Type 0
  IsMember q r lease =
      (r.generation_id ≡ "")
      ⊎ (lookup r.generation_id q.memberships ≡ none)
      ⊎ ((m : Membership) × (lookup r.generation_id q.memberships ≡ some m) × IsWorker m r lease)

  active-IsWorker :
      (m : Membership) (r : TaskResult) (lease : String) (o : Option Worker)
      → lookup r.agent_id m.workers ≡ o
      → active_worker parts o r lease ≡ true
      → IsWorker m r lease
  unfolding active_worker
  active-IsWorker m r lease none there h = cc
  active-IsWorker m r lease (some w) there h = (
    w,
    there,
    ground (arith, h),
    ground (arith, h, str_eq_iff w.lease_hash (parts.texts.hash lease)),
    ground (arith, h),
  )

  pub is_member-IsMember :
      (q : Queue) (r : TaskResult) (lease : String)
      → is_member parts q r lease ≡ true
      → IsMember q r lease
  unfolding is_member
  is_member-IsMember q r lease h = elim (Bool-cases (str_eq r.generation_id "")) [
    | inl blank ↦ inl ((str_eq_iff r.generation_id "").0 blank)
    | inr named ↦ elim (Option-cases (lookup r.generation_id q.memberships)) [
      | inl absent ↦ inr (inl absent)
      | inr (m, there) ↦ inr (
          inr (
            m,
            there,
            active-IsWorker m r lease (lookup r.agent_id m.workers) refl
                (ground (arith, h, named, there)),
          ))
    ]
  ]

  -- The output that the result declares stands under the key of the claim, which is the staging key
  -- of the attempt.
  abbrev pub HasOutput : Dict B → Task → Claim → TaskResult → Type 0
  HasOutput store t c r =
      (c.staging_key
        ≡ parts.texts.staging_key t.task.output_key t.task.generation_id r.task_id t.attempt
            c.claim_token)
      × ((b : B) × (lookup c.staging_key store ≡ some b)
          × (parts.size b ≡ r.size_bytes)
          × (parts.digest b ≡ r.content_hash)
          × (parts.parquet_rows b ≡ some r.record_count)
          × (valid_etag r.s3_etag ≡ true))

  stored-HasOutput :
      (store : Dict B) (key : String) (r : TaskResult)
      → verify_output parts key r store ≡ true
      → (b : B) × (lookup key store ≡ some b)
        × (parts.size b ≡ r.size_bytes)
        × (parts.digest b ≡ r.content_hash)
        × (parts.parquet_rows b ≡ some r.record_count)
        × (valid_etag r.s3_etag ≡ true)
  unfolding verify_output
  stored-HasOutput store key r h = elim (Option-cases (lookup key store)) [
    | inl absent ↦ absurd (ground (arith, h, absent))
    | inr (b, there) ↦ (
      b,
      there,
      ground (arith, h, there),
      ground (arith, h, there, str_eq_iff (parts.digest b) r.content_hash),
      ground (arith, h, there),
      ground (arith, h, there),
    )
  ]

  pub has_output-HasOutput :
      (store : Dict B) (t : Task) (c : Claim) (r : TaskResult)
      → has_output parts t c r store ≡ true
      → HasOutput store t c r
  unfolding has_output
  has_output-HasOutput store t c r h =
      let key =
        parts.texts.staging_key t.task.output_key t.task.generation_id r.task_id t.attempt
          c.claim_token in
      (
        ground (arith, h, str_eq_iff c.staging_key key),
        stored-HasOutput store c.staging_key r (ground (arith, h)),
      )

  -- A result that is the claim holder's: its token, agent, attempt, lease and fences, of the plan of
  -- the task and of the current generation, with its output if it is a success.
  pub record IsEarned (g : Option Generation) (store : Dict B) (q : Queue) (t : Task) (c : Claim)
      (r : TaskResult) (lease : String) : Type 0 where
    pub holds : t.claim ≡ some c
    pub still_claimed : t.state ≡ claimed
    pub token : c.claim_token ≡ r.claim_token
    pub agent : c.agent_id ≡ r.agent_id
    pub attempt : r.attempt ≡ t.attempt
    pub lease_hash : c.agent_lease_hash ≡ parts.texts.hash lease
    pub version : c.membership_version ≡ r.membership_version
    pub fence : c.worker_fence ≡ r.worker_fence
    pub member : IsMember q r lease
    pub of_task : IsOf r t.task.generation_id t.task.generation_fence t.task.plan_sha256
    pub current : IsOfCurrent g r
    pub output : (r.ok ≡ false) ⊎ HasOutput store t c r
