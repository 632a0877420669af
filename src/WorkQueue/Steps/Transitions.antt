-- ===== src/WorkQueue/Steps/Transitions.antt =====
-- The writes of enterprise/control/work_queue.py against the state machine of
-- enterprise/control/contract.py.
use fabric_shortcut_proxy.Prelude.{
  ℕ, ◌+◌, String, str_eq, Bool, true, false, not, ◌&&◌, ◌||◌, Option, none, some, List, [], ◌∷◌,
  leb, ltb, ◌≡◌, refl, arith, Bool-cases, inl, inr, ◌⊎◌,
}
use fabric_shortcut_proxy.WorkQueue.Task.{
  TaskState, queued, claimed, succeeded, retry_wait, failed, expired, cancelled, code_of, is_in,
  is_terminal, is_runnable, Claim, Task, valid_task_transition,
}
use fabric_shortcut_proxy.WorkQueue.Steps.{
  is_late, claim_expiry, expiry_target, expire_versions, recover_versions, Claimant, Texts,
  claim_from, claim_versions, renew_held, renew_versions, requeue, token_of, release_versions,
  held_by, fence_versions, cancel_versions, dispatch_versions, expired_version, moved_version,
}

-- One write after another: the state stays or moves along the state machine, the revision grows
-- by one, and the identity of the task stays.
abbrev pub Follows : Task → Task → Type 0
Follows t u =
    ((is_in t.state u.state || valid_task_transition t.state u.state) ≡ true)
    × (u.revision ≡ t.revision + 1)
    × (u.task_id ≡ t.task_id)
    × (u.request_id ≡ t.request_id)

abbrev pub IsHistory : Task → List Task → Type 0
IsHistory t [] = Unit
IsHistory t (u ∷ us) = Follows t u × IsHistory u us

is_claimed : (s : TaskState) → is_in s claimed ≡ true → s ≡ claimed
unfolding code_of
is_claimed claimed h = refl
is_claimed queued h = cc
is_claimed succeeded h = cc
is_claimed retry_wait h = cc
is_claimed failed h = cc
is_claimed expired h = cc
is_claimed cancelled h = cc

is_expired : (s : TaskState) → is_in s expired ≡ true → s ≡ expired
unfolding code_of
is_expired expired h = refl
is_expired queued h = cc
is_expired succeeded h = cc
is_expired retry_wait h = cc
is_expired failed h = cc
is_expired claimed h = cc
is_expired cancelled h = cc

pub runnable_cases : (s : TaskState) → is_runnable s ≡ true → (s ≡ retry_wait) ⊎ (s ≡ queued)
unfolding is_runnable
runnable_cases queued h = inr refl
runnable_cases retry_wait h = inl refl
runnable_cases claimed h = cc
runnable_cases succeeded h = cc
runnable_cases failed h = cc
runnable_cases expired h = cc
runnable_cases cancelled h = cc

runnable_fails : (s : TaskState) → is_runnable s ≡ true → valid_task_transition s failed ≡ true
unfolding is_runnable valid_task_transition code_of
runnable_fails queued h = refl
runnable_fails retry_wait h = refl
runnable_fails claimed h = cc
runnable_fails succeeded h = cc
runnable_fails failed h = cc
runnable_fails expired h = cc
runnable_fails cancelled h = cc

active_cancels : (s : TaskState) → is_terminal s ≡ false → valid_task_transition s cancelled ≡ true
unfolding is_terminal valid_task_transition code_of
active_cancels queued h = refl
active_cancels retry_wait h = refl
active_cancels claimed h = refl
active_cancels expired h = refl
active_cancels succeeded h = cc
active_cancels failed h = cc
active_cancels cancelled h = cc

target_follows : (now : ℕ) (t : Task) → valid_task_transition expired (expiry_target now t) ≡ true
unfolding expiry_target valid_task_transition code_of
target_follows now t = ground arith

or_right : (a b : Bool) → b ≡ true → (a || b) ≡ true
or_right a b h = ground arith

same_state : (s : TaskState) → (is_in s s || valid_task_transition s s) ≡ true
same_state s = ground arith

pub claimed_moves :
    (s target : TaskState)
    → is_in s claimed ≡ true
    → valid_task_transition claimed target ≡ true
    → (is_in s target || valid_task_transition s target) ≡ true
claimed_moves s target at_claimed v =
    or_right (is_in s target) (valid_task_transition s target) (rw (is_claimed s at_claimed) v)

pub expire-History : (now : ℕ) (t : Task) → IsHistory t (expire_versions now t)
unfolding expire_versions expired_version moved_version valid_task_transition code_of
expire-History now t = elim (Bool-cases (is_runnable t.state && is_late now t)) [
  | inl late ↦
      let runs : is_runnable t.state ≡ true = ground arith in
      rw late ((or_right _ _ (runnable_fails t.state runs), refl, refl, refl), tt)
  | inr in_time ↦
      elim (Bool-cases
        (is_in t.state claimed && (leb (claim_expiry t.claim) now || is_late now t))) [
          | inl over ↦
              let at_claimed : is_in t.state claimed ≡ true = ground arith in
              rw (in_time, over)
                (
                  (claimed_moves t.state expired at_claimed refl, refl, refl, refl),
                  ((or_right _ _ (target_follows now t), refl, refl, refl), tt),
                )
          | inr kept ↦ rw (in_time, kept) tt
        ]
]

pub recover-History : (now : ℕ) (t : Task) → IsHistory t (recover_versions now t)
unfolding recover_versions
recover-History now t = elim (Bool-cases (is_in t.state expired)) [
  | inr kept ↦ rw kept tt
  | inl over ↦ rw over (
    (
      or_right (is_in t.state (expiry_target now t))
          (valid_task_transition t.state (expiry_target now t))
          (rw (is_expired t.state over) (target_follows now t)),
      refl,
      refl,
      refl,
    ),
    tt,
  )
]

module _ (texts : Texts) where
  pub claim-History :
      (now : ℕ) (c : Claimant) (t : Task)
      → is_runnable t.state ≡ true
      → IsHistory t (claim_versions texts now c t)
  unfolding claim_versions claim_from valid_task_transition code_of is_runnable
  claim-History now c t h = elim (runnable_cases t.state h) [
    | inl waits ↦ rw (waits) ((refl, refl, refl, refl), ((refl, refl, refl, refl), tt))
    | inr ready ↦ rw (ready) ((refl, refl, refl, refl), tt)
  ]

  renew_held-History :
      (now : ℕ) (agent lease : String) (t : Task) (c : Option Claim)
      → IsHistory t (renew_held texts now agent lease t c)
  unfolding renew_held
  renew_held-History now agent lease t none = tt
  renew_held-History now agent lease t (some c) =
      elim (Bool-cases (
        is_in t.state claimed
        && ltb now c.expires_at_ms
        && str_eq c.agent_id agent
        && str_eq c.agent_lease_hash (texts.hash lease))) [
          | inl held ↦ rw held ((same_state t.state, refl, refl, refl), tt)
          | inr other ↦ rw other tt
        ]

  pub renew-History :
      (now : ℕ) (agent lease : String) (t : Task)
      → IsHistory t (renew_versions texts now agent lease t)
  unfolding renew_versions
  renew-History now agent lease t = renew_held-History now agent lease t t.claim

  pub requeue-Follows :
      (now : ℕ) (error : String) (t : Task)
      → is_in t.state claimed ≡ true
      → Follows t (requeue texts now error t)
  unfolding valid_task_transition code_of
  requeue-Follows now error t h = (claimed_moves t.state retry_wait h refl, refl, refl, refl)

  pub release-History :
      (now : ℕ) (token reason : String) (t : Task)
      → IsHistory t (release_versions texts now token reason t)
  unfolding release_versions
  release-History now token reason t =
      elim (Bool-cases (is_in t.state claimed && str_eq (token_of texts t.claim) token)) [
        | inl held ↦ rw held (requeue-Follows now (texts.safe_error reason) t (ground arith), tt)
        | inr other ↦ rw other tt
      ]

  pub fence-History :
      (now : ℕ) (owner : String) (fence : ℕ) (t : Task)
      → IsHistory t (fence_versions texts now owner fence t)
  unfolding fence_versions
  fence-History now owner fence t =
      elim (Bool-cases (is_in t.state claimed && not (held_by texts owner fence t.claim))) [
        | inl held ↦ rw held (requeue-Follows now "manager_fenced" t (ground arith), tt)
        | inr other ↦ rw other tt
      ]

  pub cancel-History :
      (now : ℕ) (reason : String) (t : Task) → IsHistory t (cancel_versions texts now reason t)
  unfolding cancel_versions
  cancel-History now reason t = elim (Bool-cases (is_terminal t.state)) [
    | inl over ↦ rw over tt
    | inr active ↦ rw active ((or_right _ _ (active_cancels t.state active), refl, refl, refl), tt)
  ]

  pub dispatch-History :
      (now : ℕ) (reason : String) (t : Task) → IsHistory t (dispatch_versions texts now reason t)
  unfolding dispatch_versions
  dispatch-History now reason t =
      elim (Bool-cases (is_runnable t.state && not (str_eq t.dispatch_status reason))) [
        | inl new ↦ rw new ((same_state t.state, refl, refl, refl), tt)
        | inr same ↦ rw same tt
      ]
