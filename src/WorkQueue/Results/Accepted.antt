-- ===== src/WorkQueue/Results/Accepted.antt =====
-- What an accepted result proves, and what becomes of a result that is sent again.
use fabric_shortcut_proxy.Prelude.{
  ℕ, String, str_eq_iff, Bool, true, not, ◌&&◌, ◌||◌, Option, none, some, if◌then◌else◌, ◌==◌, ◌≡◌,
  ◌≢◌, refl, ◌∙◌, ap, arith, Bool-cases, inl, inr,
}
use fabric_shortcut_proxy.Dict.{Dict, lookup}
use fabric_shortcut_proxy.WorkQueue.Task.{claimed, succeeded, is_in, Claim, Task}
use fabric_shortcut_proxy.WorkQueue.Queue.{Queue, ResultRecord}
use fabric_shortcut_proxy.WorkQueue.Changes.{expire_claims}
use fabric_shortcut_proxy.WorkQueue.Results.{
  accept_ack, settle, accept_claimed, accept_claim, accept_task, find_result, accept_result,
  accept_owned, accept_unless, accept_seen,
}
use fabric_shortcut_proxy.WorkQueue.Results.Sender.{
  is_claimed, of_generation-IsOf, of_current-IsOf, is_member-IsMember, has_output-HasOutput,
  IsEarned,
}
use fabric_shortcut_proxy.WorkQueue.Checks.{
  replay, is_member, of_generation, of_current, refuse_claim, has_output,
}
use fabric_shortcut_proxy.WorkQueue.Answers.{
  TaskResult, ReasonCode, Generation, Parts, refuse, same_or, result_accepted, result_stale_claim,
  result_stale_generation, result_wrong_owner,
}

no_refusal :
    {token agent attempt lease member version generation : Bool}
    → (if not token
        then some result_stale_claim
        else if not agent
        then some result_wrong_owner
        else if not attempt
        then some result_stale_claim
        else if not lease
        then some result_stale_claim
        else if not version
        then some result_stale_claim
        else if not member
        then some result_stale_claim
        else if not generation
        then some result_stale_generation
        else none)
      ≡ none
    → (token ≡ true)
      × (agent ≡ true)
      × (attempt ≡ true)
      × (lease ≡ true)
      × (version ≡ true)
      × (member ≡ true)
      × (generation ≡ true)
no_refusal h = (
  ground arith,
  ground arith,
  ground arith,
  ground arith,
  ground arith,
  ground arith,
  ground arith,
)

module _ {B : Type 0} (parts : Parts B) where
  -- The claim of a task is the sender's: its token, agent, attempt, lease, membership and
  -- generation, and the sender is still a member.
  abbrev pub Owns : Queue → Task → Claim → TaskResult → String → Type 0
  Owns q t c r lease =
      (c.claim_token ≡ r.claim_token)
      × (c.agent_id ≡ r.agent_id)
      × (r.attempt ≡ t.attempt)
      × (c.agent_lease_hash ≡ parts.texts.hash lease)
      × (c.membership_version ≡ r.membership_version)
      × (c.worker_fence ≡ r.worker_fence)
      × (is_member parts q r lease ≡ true)
      × (of_generation parts r t.task.generation_id t.task.generation_fence t.task.plan_sha256
          ≡ true)

  pub refuse_claim-Owns :
      (q : Queue) (t : Task) (c : Claim) (r : TaskResult) (lease : String)
      → refuse_claim parts q t c r lease ≡ none
      → Owns q t c r lease
  unfolding refuse_claim
  refuse_claim-Owns q t c r lease h =
      let held =
        no_refusal {attempt = r.attempt == t.attempt}
          {version = (c.membership_version == r.membership_version)
            && (c.worker_fence == r.worker_fence)}
          h in
      (
        (str_eq_iff c.claim_token r.claim_token).0 held.0,
        (str_eq_iff c.agent_id r.agent_id).0 held.1,
        ground (arith, held.2),
        (str_eq_iff c.agent_lease_hash (parts.texts.hash lease)).0 held.3,
        ground (arith, held.4),
        ground (arith, held.4),
        held.5,
        held.6,
      )

  refuse_claim-reason :
      (q : Queue) (t : Task) (c : Claim) (r : TaskResult) (lease : String)
      → refuse_claim parts q t c r lease ≢ some result_accepted
  unfolding refuse_claim
  refuse_claim-reason q t c r lease h = ground arith

  accept_owned-Current :
      (now : ℕ) (g : Option Generation) (store : Dict B) (t : Task) (c : Claim) (r : TaskResult)
      (q : Queue)
      → (accept_owned parts now g store t c r q).1.reason_code ≡ result_accepted
      → (of_current parts g r ≡ true) × ((not r.ok || has_output parts t c r store) ≡ true)
  unfolding accept_owned settle accept_ack refuse
  accept_owned-Current now g store t c r q h = (ground arith, ground arith)

  accept_unless-Owns :
      (now : ℕ) (g : Option Generation) (store : Dict B) (t : Task) (c : Claim)
      (o : Option ReasonCode) (r : TaskResult) (lease : String) (q : Queue)
      → refuse_claim parts q t c r lease ≡ o
      → (accept_unless parts o now g store t c r q).1.reason_code ≡ result_accepted
      → Owns q t c r lease
        × (of_current parts g r ≡ true)
        × ((not r.ok || has_output parts t c r store) ≡ true)
  unfolding accept_unless refuse
  accept_unless-Owns now g store t c (some reason) r lease q e h =
      absurd (refuse_claim-reason q t c r lease (e ∙ ap some h))
  accept_unless-Owns now g store t c none r lease q e h =
      let (current, output) = accept_owned-Current now g store t c r q h in
      (refuse_claim-Owns q t c r lease e, current, output)

  -- A task that may have the result `r` accepted, under the claim `c`.
  abbrev pub Earned :
      Option Generation → Dict B → Queue → Task → Claim → TaskResult → String → Type 0
  Earned g store q t c r lease =
      (t.claim ≡ some c)
      × (is_in t.state claimed ≡ true)
      × Owns q t c r lease
      × (of_current parts g r ≡ true)
      × ((not r.ok || has_output parts t c r store) ≡ true)

  accept_claim-Earned :
      (now : ℕ) (g : Option Generation) (store : Dict B) (t : Task) (o : Option Claim)
      (r : TaskResult) (lease : String) (q : Queue)
      → (accept_claim parts now g store t o r lease q).1.reason_code ≡ result_accepted
      → (c : Claim) × (o ≡ some c)
        × (is_in t.state claimed ≡ true)
        × Owns q t c r lease
        × (of_current parts g r ≡ true)
        × ((not r.ok || has_output parts t c r store) ≡ true)
  unfolding accept_claim accept_claimed refuse
  accept_claim-Earned now g store t none r lease q h = ground arith
  accept_claim-Earned now g store t (some c) r lease q h =
      elim (Bool-cases (is_in t.state claimed)) [
        | inr off ↦ ground (arith, off)
        | inl on ↦
            let (own, current, output) =
              accept_unless-Owns now g store t c (refuse_claim parts q t c r lease) r lease q refl
                (ground (arith, on)) in
            (c, refl, on, own, current, output)
      ]

  pub accept_task-Earned :
      (now : ℕ) (g : Option Generation) (store : Dict B) (o : Option Task) (r : TaskResult)
      (lease : String) (q : Queue)
      → (accept_task parts now g store o r lease q).1.reason_code ≡ result_accepted
      → (t : Task) × (c : Claim) × (o ≡ some t) × Earned g store q t c r lease
  unfolding accept_task refuse same_or
  accept_task-Earned now g store none r lease q h = ground arith
  accept_task-Earned now g store (some t) r lease q h =
      elim (Bool-cases (is_in t.state succeeded)) [
        | inl over ↦ ground (arith, over)
        | inr ongoing ↦
            let (c, e, on, own, current, output) =
              accept_claim-Earned now g store t t.claim r lease q (ground (arith, ongoing)) in
            (t, c, refl, (e, on, own, current, output))
      ]

  accept_seen-Earned :
      (now : ℕ) (g : Option Generation) (store : Dict B) (o : Option ResultRecord) (r : TaskResult)
      (lease : String) (q : Queue)
      → (accept_seen parts o now g store r lease q).1.reason_code ≡ result_accepted
      → let q1 = expire_claims parts.texts now q in
        (t : Task) × (c : Claim) × (lookup r.task_id q1.tasks ≡ some t)
        × Earned g store q1 t c r lease
  unfolding accept_seen replay same_or refuse
  accept_seen-Earned now g store (some prior) r lease q h = ground arith
  accept_seen-Earned now g store none r lease q h =
      let q1 = expire_claims parts.texts now q in
      accept_task-Earned now g store (lookup r.task_id q1.tasks) r lease q1 h

Earned-IsEarned :
    {B : Type 0} (parts : Parts B) (g : Option Generation) (store : Dict B) (q : Queue) (t : Task)
    (c : Claim) (r : TaskResult) (lease : String)
    → Earned parts g store q t c r lease
    → IsEarned parts g store q t c r lease
Earned-IsEarned parts g store q t c r lease (mine, on, own, current, output) = record {
  holds = mine;
  still_claimed = is_claimed t.state on;
  token = own.0;
  agent = own.1;
  attempt = own.2;
  lease_hash = own.3;
  version = own.4;
  fence = own.5;
  member = is_member-IsMember parts q r lease own.6;
  of_task =
      of_generation-IsOf parts r t.task.generation_id t.task.generation_fence t.task.plan_sha256
        own.7;
  current = of_current-IsOf parts g r current;
  output = elim (Bool-cases r.ok) [
    | inr failure ↦ inl failure
    | inl success ↦ inr (has_output-HasOutput parts store t c r (ground (arith, output, success)))
  ];
}

-- A result is accepted only for a task that is still claimed once the claims that ran out are
-- dropped, from the agent that holds the claim: token, agent, attempt, lease, membership version
-- and worker fence are those of the claim, generation and plan are those of the task and of the
-- current generation, if there is one. If the result names a generation that has a membership, the
-- agent is an active worker of it under its lease and its fence. A success has its object under
-- the key of the claim, the staging key of the attempt, with the size, digest and number of rows
-- that it declares.
pub accept_result-Earned :
    {B : Type 0} (parts : Parts B) (now : ℕ) (g : Option Generation) (store : Dict B)
    (r : TaskResult) (lease : String) (q : Queue)
    → (accept_result parts now g store r lease q).1.reason_code ≡ result_accepted
    → let q1 = expire_claims parts.texts now q in
      (t : Task) × (c : Claim) × (lookup r.task_id q1.tasks ≡ some t)
      × IsEarned parts g store q1 t c r lease
unfolding accept_result
accept_result-Earned parts now g store r lease q h =
    let q1 = expire_claims parts.texts now q in
    let (t, c, there, earned) =
      accept_seen-Earned parts now g store (find_result parts r q) r lease q h in
    (t, c, there, Earned-IsEarned parts g store q1 t c r lease earned)
