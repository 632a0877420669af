-- ===== src/Generation/Fencing.antt =====
-- The whole calls of coordinators that come after each other.
use fabric_shortcut_proxy.Prelude.{
  ℕ, ◌≤◌, ◌<◌, String, Bool, true, false, Option, none, some, List, ◌≡◌, refl, sym, ap, ◌∙◌, subst,
  arith, Bool-cases, inl, inr, ◌==◌, str_eq,
}
use fabric_shortcut_proxy.Artifacts.Register.{Register}
use fabric_shortcut_proxy.Placement.{is_empty}
use fabric_shortcut_proxy.Generation.{
  TablePlan, GenerationContext, StoredRecord, object, invalid, lease_fenced, lost_while_acquired,
  Outcome, returned, raised, record_of, parsed, same_context,
}
use fabric_shortcut_proxy.Generation.Calls.{AcquireInput, assert_lease, publish_claim, renew_claim}
use fabric_shortcut_proxy.Generation.Runs.{
  State, Others, acquire_generation, acquire_with, after_acquire, end_acquire, publish_plan,
  publish_with, renew_generation, renew_with, fail_plan, fail_with, confirm_acquired,
}
use fabric_shortcut_proxy.Generation.History.{Later-fence, same_context-SameIds, if-returned}
use fabric_shortcut_proxy.Generation.Claims.{record_of-SameIds, parsed-SameIds, acquire_claim-Later}
use fabric_shortcut_proxy.Generation.Steps.{Reach, generations_in_order}

module _ (digest : List TablePlan → String) (reg : Register StoredRecord) where
  -- A record of at least this fence stands there.
  abbrev pub FenceFrom : ℕ → reg.Store → Type 0
  FenceFrom n s = (r : GenerationContext) × (reg.read s ≡ some (object r)) × (n ≤ r.fence)

  confirm_acquired-FenceFrom :
      (c d : GenerationContext) (s : reg.Store) (o : Option StoredRecord)
      → reg.read s ≡ o
      → confirm_acquired c o ≡ returned d
      → (d ≡ c) × FenceFrom c.fence s
  unfolding confirm_acquired
  confirm_acquired-FenceFrom c d s none at h = absurd cc
  confirm_acquired-FenceFrom c d s (some (invalid text)) at h = absurd cc
  confirm_acquired-FenceFrom c d s (some (object r)) at h =
      let (same, is_d) = if-returned (same_context r (record_of c)) lost_while_acquired c d h in
      let (ids, _) = same_context-SameIds r (record_of c) same in
      let fences = ids.fences ∙ (record_of-SameIds digest c).fences in
      (sym is_d, (r, at, omega arith))

  end_acquire-FenceFrom :
      (c d : GenerationContext) (s : State digest reg) (w : Outcome GenerationContext)
      → confirm_acquired c (reg.read s.coordinator) ≡ w
      → (end_acquire digest reg c w s).1 ≡ returned d
      → (d ≡ c) × FenceFrom c.fence (end_acquire digest reg c w s).0.coordinator
  unfolding end_acquire
  end_acquire-FenceFrom c d s (raised e) is h = absurd cc
  end_acquire-FenceFrom c d s (returned x) is h =
      confirm_acquired-FenceFrom c d s.coordinator (reg.read s.coordinator) refl (is ∙ h)

  after_acquire-FenceFrom :
      (o : Others digest reg) (c d : GenerationContext) (s : State digest reg)
      (w : reg.Store × Bool)
      → (after_acquire digest reg o c s w).1 ≡ returned d
      → (d ≡ c) × FenceFrom c.fence (after_acquire digest reg o c s w).0.coordinator
  unfolding after_acquire
  after_acquire-FenceFrom o c d s (t, false) h = absurd cc
  after_acquire-FenceFrom o c d s (t, true) h = end_acquire-FenceFrom c d _ _ refl h

  acquire_with-FenceFrom :
      (o : Others digest reg) (seen : Option StoredRecord) (claim : Outcome GenerationContext)
      (s : State digest reg) (c : GenerationContext)
      → (acquire_with digest reg o seen claim s).1 ≡ returned c
      → (claim ≡ returned c)
        × FenceFrom c.fence (acquire_with digest reg o seen claim s).0.coordinator
  unfolding acquire_with
  acquire_with-FenceFrom o seen (raised e) s c h = absurd cc
  acquire_with-FenceFrom o seen (returned d) s c h =
      let (same, there) = after_acquire-FenceFrom o d c (o.between s) _ h in
      (
        ap returned (sym same),
        subst
            (λ (x : GenerationContext).
              FenceFrom x.fence (acquire_with digest reg o seen (returned d) s).0.coordinator)
            (sym same) there,
      )

  module _ (digest_not_empty : (plans : List TablePlan) → is_empty (digest plans) ≡ false) where
    FenceFrom-run : (n : ℕ) (s t : reg.Store) → FenceFrom n s → Reach digest reg s t → FenceFrom n t
    FenceFrom-run n s t (r, at, below) run =
        let (r', at', later) = generations_in_order digest reg digest_not_empty s t r at run in
        let up = Later-fence (parsed digest r) (parsed digest r') later in
        let before = (parsed-SameIds digest r).fences in
        let after = (parsed-SameIds digest r').fences in (r', at', omega arith)

    -- Two coordinators that both acquire a generation, with any calls in between and around, get
    -- different fences, the later one the larger.
    pub acquired_fences_increase :
        (o p : Others digest reg) (i j : AcquireInput) (s t : State digest reg)
        (c d : GenerationContext)
        → (acquire_generation digest reg o i s).1 ≡ returned c
        → Reach digest reg (acquire_generation digest reg o i s).0.coordinator t.coordinator
        → (acquire_generation digest reg p j t).1 ≡ returned d
        → c.fence < d.fence
    unfolding acquire_generation
    acquired_fences_increase o p i j s t c d first run second =
        let (_, there) = acquire_with-FenceFrom o _ _ s c first in
        let (r, at, below) = FenceFrom-run c.fence _ t.coordinator there run in
        let (claim, _) = acquire_with-FenceFrom p _ _ t d second in
        let up = acquire_claim-Later digest j r d (rw at at claim) in omega arith

    lease_fenced_at :
        (now : ℕ) (c : GenerationContext) (s : reg.Store) (n : ℕ)
        → c.fence < n
        → FenceFrom n s
        → assert_lease now c (reg.read s) ≡ raised lease_fenced
    unfolding assert_lease
    lease_fenced_at now c s n older (r, at, below) =
        let differs : (r.fence == c.fence) ≡ false = ground arith in
        rw at (elim (Bool-cases (str_eq r.lease_token c.lease_token)) [
          | inl same ↦ rw (same, differs) refl
          | inr other ↦ rw other refl
        ])

    -- Once a newer generation is acquired, with any calls in between, every call for an older one
    -- is refused as fenced, and nothing is written, but for what others do meanwhile.
    pub older_generation_refused :
        (o p : Others digest reg) (i : AcquireInput) (s t : State digest reg)
        (c d : GenerationContext) (now later_now seconds : ℕ) (plans : List TablePlan)
        (error : String)
        → c.fence < d.fence
        → (acquire_generation digest reg o i s).1 ≡ returned d
        → Reach digest reg (acquire_generation digest reg o i s).0.coordinator t.coordinator
        → (publish_plan digest reg p now c plans t ≡ (p.early t, raised lease_fenced))
          × (renew_generation digest reg p now later_now seconds c t
              ≡ (p.early t, raised lease_fenced))
          × (fail_plan digest reg p now c error t ≡ (t, raised lease_fenced))
    unfolding acquire_generation publish_plan renew_generation fail_plan publish_claim renew_claim
        publish_with renew_with fail_with
    older_generation_refused o p i s t c d now later_now seconds plans error older acquired run =
        let (_, there) = acquire_with-FenceFrom o _ _ s d acquired in
        let refused =
          lease_fenced_at now c t.coordinator d.fence older
            (FenceFrom-run d.fence _ t.coordinator there run) in
        (rw refused refl, rw refused refl, rw refused refl)
