-- ===== src/Generation/Calls.antt =====
-- The calls of a coordinator in src/fabric_shortcut_proxy/runtime/generation.py. A call is what it
-- computes from what it read (`..._claim`), its swap, and what it does after it. `Others` says what
-- others do between the accesses of one call.
use fabric_shortcut_proxy.Prelude.{
  ℕ, ◌+◌, ◌*◌, String, str_eq, Bool, false, not, ◌&&◌, ◌||◌, Option, none, some, List, [], ◌∷◌,
  if◌then◌else◌, ltb, leb, ◌==◌, map, contains,
}
use fabric_shortcut_proxy.Placement.{is_empty}
use fabric_shortcut_proxy.Generation.{
  PlanState, preparing, ready, state_is, TablePlan, GenerationContext, StoredRecord, object,
  invalid, invalid_record, old_version, not_preparing, duplicate_ids, other_generation,
  shard_outside, changed_while_prepared, lease_missing, lease_fenced, lease_expired,
  lost_before_renewal, identity_fenced, identity_expired, other_plan, Outcome, returned, raised,
  then_do, same_context, sort_plans, plan_digest, context_of,
}

-- What stands at BUILD_KEY. A failure keeps no token and no expiry, which are "" and 0.
pub data BuildState : Type 0 where
  of_plan : PlanState → BuildState
  staging : BuildState

pub record Build : Type 0 where
  pub context : GenerationContext
  pub state : BuildState
  pub error : String

pub record AcquireInput : Type 0 where
  pub shard_count : ℕ
  pub lease_seconds : ℕ
  pub source_consistency : String
  pub prepare_plan : Bool
  pub now : ℕ
  pub drawn_id : ℕ → String
  pub drawn_token : String

-- `assert_generation_lease`
unfoldable pub assert_lease : ℕ → GenerationContext → Option StoredRecord → Outcome Unit
assert_lease now c none = raised lease_missing
assert_lease now c (some (invalid text)) = raised invalid_record
assert_lease now c (some (object r)) =
    if not (str_eq r.lease_token c.lease_token) || not (r.fence == c.fence)
    then raised lease_fenced
    else if leb r.expires_at_ms now
    then raised lease_expired
    else returned tt

-- `assert_generation_identity`
unfoldable pub assert_identity :
    ℕ → String → ℕ → String → String → Option StoredRecord → Outcome Unit
assert_identity now id fence token sha none = raised lease_missing
assert_identity now id fence token sha (some (invalid text)) = raised invalid_record
assert_identity now id fence token sha (some (object r)) =
    if not (str_eq r.generation_id id) || not (r.fence == fence) || not (str_eq r.lease_token token)
    then raised identity_fenced
    else if leb r.expires_at_ms now
    then raised identity_expired
    else if not (is_empty sha) && not (str_eq r.plan_sha256 sha)
    then raised other_plan
    else returned tt

has_duplicates : List String → Bool
has_duplicates [] = false
has_duplicates (x ∷ xs) = contains xs x || has_duplicates xs

-- The tests of one plan.
check_plan : GenerationContext → TablePlan → Outcome Unit
check_plan c p =
    if not (str_eq p.generation_id c.generation_id) || not (p.generation_fence == c.fence)
    then raised other_generation
    else if leb c.shard_count p.owner_shard
    then raised shard_outside
    else returned tt

check_plans : GenerationContext → List TablePlan → Outcome Unit
unfolding check_plan
check_plans c [] = returned tt
check_plans c (p ∷ ps) = let rest = check_plans c ps in then_do (check_plan c p) (λ _. rest)

unfoldable pub check_request : GenerationContext → List TablePlan → Outcome Unit
unfolding has_duplicates check_plans
check_request c plans =
    if ltb c.version 2
    then raised old_version
    else if not (state_is c.plan_state preparing)
    then raised not_preparing
    else if has_duplicates (map (λ p. p.table_id) plans)
    then raised duplicate_ids
    else check_plans c plans

-- `_same_generation`
unfoldable pub same_generation : GenerationContext → GenerationContext → Bool
same_generation a b =
    str_eq a.generation_id b.generation_id
    && (a.fence == b.fence)
    && str_eq a.lease_token b.lease_token
    && (a.shard_count == b.shard_count)
    && (a.version == b.version)
    && state_is a.plan_state b.plan_state
    && str_eq a.plan_sha256 b.plan_sha256

module _ (digest : List TablePlan → String) where
  unfoldable pub new_generation : AcquireInput → ℕ → GenerationContext
  unfolding plan_digest
  new_generation i fence = record {
    generation_id = i.drawn_id fence;
    fence = fence;
    lease_token = i.drawn_token;
    shard_count = i.shard_count;
    expires_at_ms = i.now + i.lease_seconds * 1000;
    source_consistency = i.source_consistency;
    version = 2;
    plan_state = if i.prepare_plan then preparing else ready;
    table_plans = [];
    plan_sha256 = plan_digest digest [];
  }

  unfoldable pub acquire_claim : AcquireInput → Option StoredRecord → Outcome GenerationContext
  unfolding new_generation
  acquire_claim i none = returned (new_generation i 1)
  acquire_claim i (some (invalid text)) = raised invalid_record
  acquire_claim i (some (object r)) = returned (new_generation i (r.fence + 1))

  -- The context with its plan, if the coordinator is still the one of `c`.
  unfoldable pub planned : GenerationContext → List TablePlan → GenerationContext
  unfolding plan_digest
  planned c plans = record c {
    plan_state = ready;
    table_plans = plans;
    plan_sha256 = plan_digest digest plans;
  }

  unfoldable pub publish_seen :
      GenerationContext → List TablePlan → Option StoredRecord → Outcome GenerationContext
  unfolding context_of same_context planned
  publish_seen c plans none = raised changed_while_prepared
  publish_seen c plans (some (invalid text)) = raised invalid_record
  publish_seen c plans (some (object r)) = then_do (context_of digest r) (λ current.
      if same_context current c then returned (planned c plans) else raised changed_while_prepared)

  -- `first` is read for the lease, `seen` for the swap.
  unfoldable pub publish_claim :
      ℕ
      → GenerationContext
      → List TablePlan
      → Option StoredRecord
      → Option StoredRecord
      → Outcome GenerationContext
  unfolding assert_lease check_request publish_seen sort_plans
  publish_claim now c table_plans first seen =
      let plans = sort_plans table_plans in
      then_do (assert_lease now c first)
        (λ _. then_do (check_request c plans) (λ _. publish_seen c plans seen))

  unfoldable pub renew_seen :
      GenerationContext → GenerationContext → Option StoredRecord → Outcome GenerationContext
  unfolding context_of same_generation
  renew_seen c renewed none = raised lost_before_renewal
  renew_seen c renewed (some (invalid text)) = raised invalid_record
  renew_seen c renewed (some (object r)) = then_do (context_of digest r) (λ current.
      if same_generation current c then returned renewed else raised lost_before_renewal)

  unfoldable pub renew_claim :
      ℕ
      → ℕ
      → ℕ
      → GenerationContext
      → Option StoredRecord
      → Option StoredRecord
      → Outcome GenerationContext
  unfolding assert_lease renew_seen
  renew_claim now then_now lease_seconds c first seen =
      then_do (assert_lease now c first)
        (λ _. renew_seen c (record c { expires_at_ms = then_now + lease_seconds * 1000 }) seen)
