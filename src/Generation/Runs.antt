-- ===== src/Generation/Runs.antt =====
-- The whole calls of a coordinator, with their accesses to the store and to the build record.
use fabric_shortcut_proxy.Prelude.{
  ℕ, max, String, str_eq, Bool, true, false, not, ◌&&◌, Option, none, some, List, [], if◌then◌else◌,
  ltb, ◌==◌,
}
use fabric_shortcut_proxy.Artifacts.Register.{Register}
use fabric_shortcut_proxy.Generation.{
  failed, active, TablePlan, GenerationContext, StoredRecord, object, invalid, invalid_record,
  lost_while_acquired, changed_while_published, lost_while_renewing, Outcome, returned, raised,
  then_do, same_context, sort_plans, record_of, context_of,
}
use fabric_shortcut_proxy.Generation.Calls.{
  BuildState, of_plan, Build, AcquireInput, assert_lease, acquire_claim, publish_claim, renew_claim,
}

-- `store.put(BUILD_KEY, {**record, "state": ...})`
abbrev pub build_of : GenerationContext → Build
build_of c = record { context = record_of c; state = of_plan c.plan_state; error = "" }

is_active_build : BuildState → Bool
is_active_build (of_plan active) = true
is_active_build _ = false

with_plan : Bool → GenerationContext → Build → Build
unfolding sort_plans
with_plan false c b = b
with_plan true c b = record b {
  context = record b.context {
    version = c.version;
    plan_state = c.plan_state;
    plan_sha256 = c.plan_sha256;
    table_plans = sort_plans c.table_plans;
  };
}

-- The build record after a renewal.
unfoldable pub renewed_build : GenerationContext → Option Build → Build
unfolding is_active_build with_plan
renewed_build c none = build_of c
renewed_build c (some b) =
    if str_eq b.context.generation_id c.generation_id && (b.context.fence == c.fence)
    then with_plan (not (ltb c.version 2) && not (is_active_build b.state)) c (record b {
      context = record b.context { expires_at_ms = c.expires_at_ms; lease_token = c.lease_token };
    })
    else build_of c

-- What `fail_generation_plan` writes, but for the ids of the tables.
unfoldable pub failure_of : GenerationContext → String → Build
failure_of c error = record {
  context = record c {
    version = max 2 c.version;
    plan_state = failed;
    lease_token = "";
    expires_at_ms = 0;
    table_plans = [];
  };
  state = of_plan failed;
  error = error;
}

-- `confirmed != record` of `acquire_generation`
unfoldable pub confirm_acquired :
    GenerationContext → Option StoredRecord → Outcome GenerationContext
unfolding same_context
confirm_acquired c none = raised lost_while_acquired
confirm_acquired c (some (invalid text)) = raised invalid_record
confirm_acquired c (some (object r)) =
    if same_context r (record_of c) then returned c else raised lost_while_acquired

-- `confirmed != ready` of `publish_generation_plan`; `_context({})` is refused.
unfoldable pub confirm_published :
    (List TablePlan → String) → GenerationContext → Option StoredRecord → Outcome GenerationContext
unfolding same_context context_of
confirm_published digest c none = raised invalid_record
confirm_published digest c (some (invalid text)) = raised invalid_record
confirm_published digest c (some (object r)) =
    then_do (context_of digest r)
      (λ x. if same_context x c then returned c else raised changed_while_published)

module _ (digest : List TablePlan → String) (reg : Register StoredRecord) where
  pub record State : Type 0 where
    pub coordinator : reg.Store
    pub build : Option Build

  -- What others do after the first read of a call, before its swap, and after its swap.
  pub record Others : Type 0 where
    pub early : State → State
    pub between : State → State
    pub after : State → State

  abbrev pub write : Option StoredRecord → GenerationContext → State → reg.Store × Bool
  write seen c s = reg.swap seen (object (record_of c)) s.coordinator

  unfoldable pub end_acquire :
      GenerationContext → Outcome GenerationContext → State → State × Outcome GenerationContext
  end_acquire c (raised e) s = (s, raised e)
  end_acquire c (returned d) s = (record s { build = some (build_of c) }, returned d)

  unfoldable pub after_acquire :
      Others → GenerationContext → State → reg.Store × Bool → State × Outcome GenerationContext
  unfolding end_acquire
  after_acquire o c s (t, false) = (record s { coordinator = t }, raised lost_while_acquired)
  after_acquire o c s (t, true) =
      let later = o.after (record s { coordinator = t }) in
      end_acquire c (confirm_acquired c (reg.read later.coordinator)) later

  unfoldable pub acquire_with :
      Others
      → Option StoredRecord
      → Outcome GenerationContext
      → State
      → State × Outcome GenerationContext
  unfolding after_acquire
  acquire_with o seen (raised e) s = (s, raised e)
  acquire_with o seen (returned c) s =
      let now = o.between s in after_acquire o c now (write seen c now)

  -- `acquire_generation`
  unfoldable pub acquire_generation :
      Others → AcquireInput → State → State × Outcome GenerationContext
  unfolding acquire_with acquire_claim
  acquire_generation o i s =
      let seen = reg.read s.coordinator in acquire_with o seen (acquire_claim digest i seen) s

  unfoldable pub after_publish :
      Others → GenerationContext → State → reg.Store × Bool → State × Outcome GenerationContext
  unfolding confirm_published
  after_publish o c s (t, false) = (record s { coordinator = t }, raised changed_while_published)
  after_publish o c s (t, true) =
      let later = o.after (record { coordinator = t; build = some (build_of c) }) in
      (later, confirm_published digest c (reg.read later.coordinator))

  unfoldable pub publish_with :
      Others
      → Option StoredRecord
      → Outcome GenerationContext
      → State
      → State × Outcome GenerationContext
  unfolding after_publish
  publish_with o seen (raised e) s = (s, raised e)
  publish_with o seen (returned c) s =
      let now = o.between s in after_publish o c now (write seen c now)

  -- `publish_generation_plan`
  unfoldable pub publish_plan :
      Others → ℕ → GenerationContext → List TablePlan → State → State × Outcome GenerationContext
  unfolding publish_with publish_claim
  publish_plan o now c plans s =
      let s' = o.early s in
      let seen = reg.read s'.coordinator in
      publish_with o seen (publish_claim digest now c plans (reg.read s.coordinator) seen) s'

  unfoldable pub after_renew :
      Others → GenerationContext → State → reg.Store × Bool → State × Outcome GenerationContext
  unfolding renewed_build
  after_renew o c s (t, false) = (record s { coordinator = t }, raised lost_while_renewing)
  after_renew o c s (t, true) =
      let later = o.after (record s { coordinator = t }) in
      (record later { build = some (renewed_build c later.build) }, returned c)

  unfoldable pub renew_with :
      Others
      → Option StoredRecord
      → Outcome GenerationContext
      → State
      → State × Outcome GenerationContext
  unfolding after_renew
  renew_with o seen (raised e) s = (s, raised e)
  renew_with o seen (returned c) s = let now = o.between s in after_renew o c now (write seen c now)

  -- `renew_generation`; the clock is read for the lease and for the new expiry.
  unfoldable pub renew_generation :
      Others → ℕ → ℕ → ℕ → GenerationContext → State → State × Outcome GenerationContext
  unfolding renew_with renew_claim
  renew_generation o now later_now seconds c s =
      let s' = o.early s in
      let seen = reg.read s'.coordinator in
      renew_with o seen (renew_claim digest now later_now seconds c (reg.read s.coordinator) seen)
        s'

  unfoldable pub fail_with :
      Others → GenerationContext → String → Outcome Unit → State → State × Outcome Unit
  unfolding failure_of
  fail_with o c error (raised e) s = (s, raised e)
  fail_with o c error (returned u) s =
      (record (o.between s) { build = some (failure_of c error) }, returned u)

  -- `fail_generation_plan`; `error` is the redacted reason.
  unfoldable pub fail_plan : Others → ℕ → GenerationContext → String → State → State × Outcome Unit
  unfolding fail_with assert_lease
  fail_plan o now c error s = fail_with o c error (assert_lease now c (reg.read s.coordinator)) s
