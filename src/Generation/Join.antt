-- ===== src/Generation/Join.antt =====
-- `join_generation` of src/fabric_shortcut_proxy/runtime/generation.py: a worker polls the build
-- record and the coordinator's record until a deadline. A poll is what the two reads and the clock
-- give.
use fabric_shortcut_proxy.Prelude.{
  ℕ, String, str_eq, Bool, true, false, not, ◌&&◌, ◌||◌, Option, none, some, List, [], ◌∷◌,
  if◌then◌else◌, ltb, ◌==◌,
}
use fabric_shortcut_proxy.Generation.{
  PlanState, ready, failed, active, preparing, state_is, TablePlan, GenerationContext, StoredRecord,
  object, invalid, invalid_record, planning_failed, timed_out, Outcome, returned, raised,
  context_of,
}
use fabric_shortcut_proxy.Generation.Calls.{BuildState, of_plan, staging, Build}

pub record Poll : Type 0 where
  pub build : Option Build
  pub lease : Option StoredRecord
  pub now : ℕ

abbrev pub in_state : PlanState → BuildState → Bool
in_state s (of_plan t) = state_is s t
in_state s staging = false

-- `build.get("state") in {"STAGING", PLAN_READY, "ACTIVE"}`
abbrev pub is_open : BuildState → Bool
is_open staging = true
is_open (of_plan ready) = true
is_open (of_plan active) = true
is_open (of_plan preparing) = false
is_open (of_plan failed) = false

unfoldable pub failed_of : Build → GenerationContext → Bool
failed_of b r =
    in_state failed b.state
    && str_eq b.context.generation_id r.generation_id
    && (b.context.fence == r.fence)

-- `plan_matches`
unfoldable pub plan_matches : Build → GenerationContext → Bool
plan_matches b c =
    (c.version == 1)
    || not (ltb b.context.version 2)
      && state_is c.plan_state ready
      && str_eq b.context.plan_sha256 c.plan_sha256

-- `build_active`
unfoldable pub build_active : Build → GenerationContext → Bool
build_active b c =
    in_state active b.state
    && str_eq b.context.lease_token c.lease_token
    && (b.context.fence == c.fence)

-- A context that was read has the token and the fence of its record.
unfoldable pub can_join : ℕ → ℕ → Build → GenerationContext → Bool
unfolding plan_matches build_active
can_join shard_count now b c =
    (c.shard_count == shard_count)
    && str_eq c.generation_id b.context.generation_id
    && (build_active b c || ltb now c.expires_at_ms)
    && plan_matches b c

-- The context as the worker takes it.
unfoldable pub as_joined : Build → GenerationContext → GenerationContext
as_joined b c = if in_state active b.state then record c { plan_state = active } else c

unfoldable pub join_read :
    ℕ → ℕ → Build → Outcome GenerationContext → Option (Outcome GenerationContext)
unfolding can_join as_joined
join_read shard_count now b (raised e) = none
join_read shard_count now b (returned c) =
    if can_join shard_count now b c then some (returned (as_joined b c)) else none

module _ (digest : List TablePlan → String) where
  unfoldable pub join_found : ℕ → ℕ → Build → GenerationContext → Option (Outcome GenerationContext)
  unfolding failed_of join_read context_of
  join_found shard_count now b r =
      if failed_of b r
      then some (raised planning_failed)
      else if is_open b.state
      then join_read shard_count now b (context_of digest r)
      else none

  -- One turn of the loop; none is a turn that waits.
  unfoldable pub join_poll :
      ℕ → ℕ → Option Build → Option StoredRecord → Option (Outcome GenerationContext)
  unfolding join_found
  join_poll shard_count now _ (some (invalid text)) = some (raised invalid_record)
  join_poll shard_count now none none = none
  join_poll shard_count now none (some (object r)) = none
  join_poll shard_count now (some b) none = none
  join_poll shard_count now (some b) (some (object r)) = join_found shard_count now b r

  unfoldable pub or_wait :
      Option (Outcome GenerationContext) → Outcome GenerationContext → Outcome GenerationContext
  or_wait none rest = rest
  or_wait (some outcome) rest = outcome

  -- `join_generation`, on the polls up to the deadline.
  unfoldable pub join_generation : ℕ → List Poll → Outcome GenerationContext
  unfolding join_poll or_wait
  join_generation shard_count [] = raised timed_out
  join_generation shard_count (p ∷ ps) =
      or_wait (join_poll shard_count p.now p.build p.lease) (join_generation shard_count ps)
