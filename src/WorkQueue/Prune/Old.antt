-- ===== src/WorkQueue/Prune/Old.antt =====
-- The guard of `prune_terminal` of enterprise/control/work_queue.py, in plain terms.
use fabric_shortcut_proxy.Prelude.{
  ℕ, String, str_eq, str_eq_iff, Bool, ◌&&◌, Option, none, some, [], ◌∷◌, ◌≡◌, refl, arith,
  Bool-cases, inl, inr, contains, if◌then◌else◌, any, true, not, ◌⊎◌, ◌≤◌, ◌+◌, ◌*◌, str_eq_refl,
}
use fabric_shortcut_proxy.Dict.{Dict, lookup, IsDistinct}
use fabric_shortcut_proxy.WorkQueue.Task.{
  TaskState, queued, claimed, succeeded, retry_wait, failed, expired, cancelled, is_in, is_terminal,
  code_of, Request,
}
use fabric_shortcut_proxy.WorkQueue.Prune.{is_prunable}

-- What is left of a request that is found.
unfoldable pub left_request : ℕ → ℕ → Option Request → Option Request
left_request now retention none = none
left_request now retention (some r) = if is_prunable now retention r then none else some r

-- The ids of the tasks of the requests that go.
abbrev pub is_pruned_task : ℕ → ℕ → String → Dict Request → Bool
is_pruned_task now retention id rs =
    any (λ e. is_prunable now retention e.1 && contains e.1.task_ids id) rs

-- A request that is over, untouched for the retention time, and published if it succeeded.
pub record IsOld (now retention : ℕ) (r : Request) : Type 0 where
  pub over :
      (r.state ≡ succeeded) × (r.published ≡ true) ⊎ (r.state ≡ failed) ⊎ (r.state ≡ cancelled)
  pub untouched : r.updated_at_ms + retention * 1000 ≤ now

over_cases :
    (s : TaskState) (published : Bool)
    → is_terminal s && not (is_in s succeeded && not published) ≡ true
    → (s ≡ succeeded) × (published ≡ true) ⊎ (s ≡ failed) ⊎ (s ≡ cancelled)
unfolding is_terminal code_of
over_cases succeeded published h = inl (refl, ground (arith, h))
over_cases failed published h = inr (inl refl)
over_cases cancelled published h = inr (inr refl)
over_cases queued published h = cc
over_cases claimed published h = cc
over_cases retry_wait published h = cc
over_cases expired published h = cc

over_test :
    (s : TaskState) (published : Bool)
    → (s ≡ succeeded) × (published ≡ true) ⊎ (s ≡ failed) ⊎ (s ≡ cancelled)
    → is_terminal s && not (is_in s succeeded && not published) ≡ true
unfolding is_terminal code_of
over_test s published (inl (is_s, is_p)) = rw (is_s, is_p) refl
over_test s published (inr (inl is_f)) = rw is_f refl
over_test s published (inr (inr is_c)) = rw is_c refl

is_prunable-IsOld :
    (now retention : ℕ) (r : Request) → is_prunable now retention r ≡ true → IsOld now retention r
unfolding is_prunable
is_prunable-IsOld now retention r h = record {
  over = over_cases r.state r.published (ground (arith, h));
  untouched = ground (arith, h);
}

IsOld-is_prunable :
    (now retention : ℕ) (r : Request) → IsOld now retention r → is_prunable now retention r ≡ true
unfolding is_prunable
IsOld-is_prunable now retention r old =
    ground (arith, over_test r.state r.published old.over, old.untouched)

-- An old request lists the task.
abbrev pub Goes : ℕ → ℕ → Dict Request → String → Type 0
Goes now retention rs id =
    (key : String) × (r : Request) × (lookup key rs ≡ some r)
    × IsOld now retention r
    × (contains r.task_ids id ≡ true)

-- What is found of a request before and after.
abbrev pub LeftRequest : ℕ → ℕ → Option Request → Option Request → Type 0
LeftRequest now retention none o = o ≡ none
LeftRequest now retention (some r) o =
    IsOld now retention r × (o ≡ none) ⊎ ¬ (IsOld now retention r) × (o ≡ some r)

pub left_request-Left :
    (now retention : ℕ) (o : Option Request)
    → LeftRequest now retention o (left_request now retention o)
unfolding left_request
left_request-Left now retention none = refl
left_request-Left now retention (some r) = elim (Bool-cases (is_prunable now retention r)) [
  | inl goes ↦ rw goes (inl (is_prunable-IsOld now retention r goes, refl))
  | inr stays ↦
      rw stays (inr ((λ old. (let goes = IsOld-is_prunable now retention r old in cc)), refl))
]

pub is_pruned_task-Goes :
    (now retention : ℕ) (id : String) (rs : Dict Request)
    → IsDistinct rs
    → is_pruned_task now retention id rs ≡ true
    → Goes now retention rs id
unfolding lookup
is_pruned_task-Goes now retention id [] distinct h = cc
is_pruned_task-Goes now retention id ((k, r) ∷ rs) distinct h =
    elim (Bool-cases (is_prunable now retention r && contains r.task_ids id)) [
      | inl here ↦ (
        k,
        r,
        rw (str_eq_refl k) refl,
        is_prunable-IsOld now retention r (ground (arith, here)),
        ground (arith, here),
      )
      | inr not_here ↦
          let (key, u, there, old, lists) =
            is_pruned_task-Goes now retention id rs distinct.1 (ground (arith, h, not_here)) in
          (key, u, ground (arith, there, distinct.0, str_eq_iff k key), old, lists)
    ]

pub Goes-is_pruned_task :
    (now retention : ℕ) (id key : String) (rs : Dict Request) (r : Request)
    → lookup key rs ≡ some r
    → IsOld now retention r
    → contains r.task_ids id ≡ true
    → is_pruned_task now retention id rs ≡ true
unfolding lookup
Goes-is_pruned_task now retention id key [] r there old lists = cc
Goes-is_pruned_task now retention id key ((k, u) ∷ rs) r there old lists =
    elim (Bool-cases (str_eq k key)) [
      | inl same ↦
          let here : u ≡ r = ground (arith, same, there) in
          rw here (ground (arith, IsOld-is_prunable now retention r old, lists))
      | inr other ↦
          let rest : is_pruned_task now retention id rs ≡ true =
            Goes-is_pruned_task now retention id key rs r (ground (arith, other, there)) old
              lists in
          ground (arith, rest)
    ]
