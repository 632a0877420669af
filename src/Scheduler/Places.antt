-- ===== src/Scheduler/Places.antt =====
-- What `_placement_eligible` of enterprise/control/task_scheduler.py leaves of the candidates.
use fabric_shortcut_proxy.Prelude.{
  ℕ, String, str_eq_iff, Bool, true, false, not, ◌||◌, Option, none, some, List, [], ◌∷◌, ◌≡◌, refl,
  subst, arith, if◌then◌else◌, All, All-imp, contains, is_nil, is_some, Bool-cases, inl, inr, ◌⊎◌,
  some_inj,
}
use fabric_shortcut_proxy.Dict.{lookup}
use fabric_shortcut_proxy.Placement.{MaterializerPolicy, is_enabled}
use fabric_shortcut_proxy.Placement.Rules.{validate_task_tenant, validate_dispatch}
use fabric_shortcut_proxy.Registry.{Registry}
use fabric_shortcut_proxy.WorkQueue.Task.{MaterializeTask}
use fabric_shortcut_proxy.Scheduler.{
  Counts, Candidate, targets_of, matches_agent, matching, first_target, by_targets, of_tenant,
  tenant_is, of_task_tenant, is_full, placement_eligible,
}
use fabric_shortcut_proxy.Scheduler.Best.{best_of, best, is_better}

module _ (P : Candidate → Type 0) (fnmatchcase : String → String → Bool)
    (version_tuple : String → Option (ℕ × ℕ)) (r : Registry) (policy : MaterializerPolicy)
    (t : MaterializeTask) (claims : String → ℕ) where
  abbrev Matched : String → Candidate → Type 0
  Matched target x =
      matches_agent fnmatchcase version_tuple r.placement policy t claims target
        (lookup x.agent_id r.agents)
      ≡ true

  matching-All :
      (target : String) (xs : List Candidate)
      → All P xs
      → All
          (λ x. P x × Matched target x)
          (matching fnmatchcase version_tuple r policy t claims target xs)
  unfolding matching
  matching-All target [] h = tt
  matching-All target (x ∷ xs) h =
      elim (Bool-cases (
        matches_agent fnmatchcase version_tuple r.placement policy t claims target
          (lookup x.agent_id r.agents))) [
            | inl fits ↦ rw fits ((h.0, fits), matching-All target xs h.1)
            | inr not_fit ↦ rw not_fit (matching-All target xs h.1)
          ]

  -- The target is one of the list.
  abbrev OneOf : List String → Candidate → Type 0
  OneOf targets x = P x × ((target : String) × (contains targets target ≡ true) × Matched target x)

  first_target-All :
      (targets : List String) (xs : List Candidate)
      → All P xs
      → All (OneOf targets) (first_target fnmatchcase version_tuple r policy t claims targets xs)
  unfolding first_target
  first_target-All [] xs h = tt
  first_target-All (target ∷ targets) xs h =
      let here = matching fnmatchcase version_tuple r policy t claims target xs in
      elim (Bool-cases (is_nil here)) [
        | inl none_here ↦ rw none_here (
            All-imp (OneOf targets) (OneOf (target ∷ targets)) _
              (λ x (p, (s, listed, fits)). (p, (s, ground (arith, listed), fits)))
              (first_target-All targets xs h))
        | inr some_here ↦ rw some_here (
            All-imp _ (OneOf (target ∷ targets)) here
              (λ x (p, fits). (p, (target, ground (arith, str_eq_iff target target), fits)))
              (matching-All target xs h))
      ]

  -- Any target where the policy names none.
  abbrev Targeted : List String → Candidate → Type 0
  Targeted targets x =
      (target : String) × ((targets ≡ []) × (target ≡ "") ⊎ (contains targets target ≡ true))
      × Matched target x

  by_targets-All :
      (targets : List String) (xs : List Candidate)
      → All P xs
      → All
          (λ x. P x × Targeted targets x)
          (by_targets fnmatchcase version_tuple r policy t claims targets xs)
  unfolding by_targets
  by_targets-All [] xs h =
      All-imp _ _ _ (λ x (p, fits). (p, ("", inl (refl, refl), fits))) (matching-All "" xs h)
  by_targets-All (target ∷ targets) xs h =
      All-imp (OneOf (target ∷ targets)) _ _
        (λ x (p, (s, listed, fits)). (p, (s, inr listed, fits)))
        (first_target-All (target ∷ targets) xs h)

-- The branches of a test, each with what the test says.
if-All :
    (Q : Candidate → Type 0) (b : Bool) (xs ys : List Candidate)
    → (b ≡ true → All Q xs)
    → (b ≡ false → All Q ys)
    → All Q (if b then xs else ys)
if-All Q true xs ys f g = f refl
if-All Q false xs ys f g = g refl

abbrev pub TenantKept : Registry → String → Candidate → Type 0
TenantKept r tenant x =
    (is_nil r.placement.tenants ≡ true) ⊎ (tenant_is tenant (lookup x.agent_id r.agents) ≡ true)

module _ (P : Candidate → Type 0) (r : Registry) (tenant : String) where
  of_tenant-All :
      (xs : List Candidate)
      → All P xs
      → All (λ x. P x × TenantKept r tenant x) (of_tenant r tenant xs)
  unfolding of_tenant
  of_tenant-All [] h = tt
  of_tenant-All (x ∷ xs) h = elim (Bool-cases (tenant_is tenant (lookup x.agent_id r.agents))) [
    | inl same ↦ rw same ((h.0, inr same), of_tenant-All xs h.1)
    | inr other ↦ rw other (of_tenant-All xs h.1)
  ]

  of_task_tenant-All :
      (xs : List Candidate)
      → All P xs
      → All (λ x. P x × TenantKept r tenant x) (of_task_tenant r tenant xs)
  unfolding of_task_tenant
  of_task_tenant-All xs h =
      if-All (λ x. P x × TenantKept r tenant x) (is_nil r.placement.tenants) xs
        (of_tenant r tenant xs) (λ no_tenants. All-imp P _ xs (λ x p. (p, inl no_tenants)) h)
        (λ some_tenant. of_tenant-All xs h)

best_of-All :
    (P : Candidate → Type 0) (tie : String → String) (x : Candidate) (xs : List Candidate)
    → P x
    → All P xs
    → P (best_of tie x xs)
unfolding best_of
best_of-All P tie x [] p h = p
best_of-All P tie x (y ∷ ys) p h = elim (Bool-cases (is_better tie y x)) [
  | inl better ↦ rw better (best_of-All P tie y ys h.0 h.1)
  | inr worse ↦ rw worse (best_of-All P tie x ys p h.1)
]

pub best-All :
    (P : Candidate → Type 0) (tie : String → String) (xs : List Candidate) (x : Candidate)
    → best tie xs ≡ some x
    → All P xs
    → P x
unfolding best
best-All P tie [] x e h = cc
best-All P tie (y ∷ ys) x e h = subst P (some_inj e) (best_of-All P tie y ys h.0 h.1)

module _ (fnmatchcase : String → String → Bool) (version_tuple : String → Option (ℕ × ℕ))
    (r : Registry) (policy : MaterializerPolicy) (t : MaterializeTask) (counts : Counts) where
  abbrev pub Placed : Candidate → Type 0
  Placed x =
      (is_enabled r.placement ≡ false)
      ⊎ (is_full r.placement policy t counts ≡ false)
        × ((target : String) × ((targets_of policy ≡ []) × (target ≡ "")
              ⊎ (contains (targets_of policy) target ≡ true))
            × (matches_agent fnmatchcase version_tuple r.placement policy t counts.pools target
                  (lookup x.agent_id r.agents)
                ≡ true))

  abbrev pub Passed : Type 0
  Passed =
      (validate_task_tenant r.placement t.tenant_id policy ≡ none)
      × (validate_dispatch r.placement policy t.connection_id ≡ none)

  pub placement_eligible-All :
      (P : Candidate → Type 0) (xs : List Candidate)
      → All P xs
      → All
          (λ x. P x × TenantKept r t.tenant_id x × Placed x × Passed)
          (placement_eligible fnmatchcase version_tuple r policy t counts xs)
  unfolding placement_eligible
  placement_eligible-All P xs h =
      let c = r.placement in
      let Q = λ (x : Candidate). P x × TenantKept r t.tenant_id x × Placed x × Passed in
      let of_its_tenant = of_task_tenant r t.tenant_id xs in
      let same_tenant = of_task_tenant-All P r t.tenant_id xs h in
      let placed =
        by_targets fnmatchcase version_tuple r policy t counts.pools (targets_of policy)
          of_its_tenant in
      if-All Q
        (is_some (validate_task_tenant c t.tenant_id policy)
          || is_some (validate_dispatch c policy t.connection_id))
        [] _ (λ refused. tt)
        (λ passes.
          let passed : Passed = (ground (arith, passes), ground (arith, passes)) in
          if-All Q (not (is_enabled c)) of_its_tenant
            (if is_full c policy t counts then [] else placed)
            (λ off.
              All-imp _ Q of_its_tenant
                (λ x (p, tenant). (p, tenant, inl (ground (arith, off)), passed)) same_tenant)
            (λ on.
              if-All Q (is_full c policy t counts) [] placed (λ full. tt)
                (λ room.
                  All-imp _ Q placed (λ x ((p, tenant), at). (p, tenant, inr (room, at), passed))
                    (by_targets-All (λ x. P x × TenantKept r t.tenant_id x) fnmatchcase
                      version_tuple r policy t counts.pools (targets_of policy) of_its_tenant
                      same_tenant))))
