-- ===== src/Generation.antt =====
-- The records of generations: `GenerationContext`, `_record` and `_context` of
-- src/fabric_shortcut_proxy/runtime/generation.py. The JSON of a context is the context itself; the
-- SHA-256 of a list of plans is a parameter.
pub mod Calls
pub mod Runs
pub mod Join
pub mod Joined
pub mod Published
pub mod History
pub mod Claims
pub mod Steps
pub mod Plans
pub mod Fencing
use fabric_shortcut_proxy.Prelude.{
  ℕ, ◌+◌, String, str_eq, Bool, true, false, ◌&&◌, ◌||◌, Option, none, some, List, [], ◌∷◌,
  if◌then◌else◌, ltb, ◌==◌, text_before,
}
use fabric_shortcut_proxy.Prelude.Sort.{sort_by}
use fabric_shortcut_proxy.Placement.{is_empty}

pub data PlanState : Type 0 where
  preparing ready failed active : PlanState

abbrev pub state_is : PlanState → PlanState → Bool
state_is preparing preparing = true
state_is ready ready = true
state_is failed failed = true
state_is active active = true
state_is _ _ = false

-- `TableReadPlan` with its descriptor; `rest` is the text of the fields that are only compared.
pub record TablePlan : Type 0 where
  pub table_id : String
  pub owner_shard : ℕ
  pub generation_id : String
  pub generation_fence : ℕ
  pub rest : String

pub record GenerationContext : Type 0 where
  pub generation_id : String
  pub fence : ℕ
  pub lease_token : String
  pub shard_count : ℕ
  pub expires_at_ms : ℕ
  pub source_consistency : String
  pub version : ℕ
  pub plan_state : PlanState
  pub table_plans : List TablePlan
  pub plan_sha256 : String

-- What stands at COORDINATOR_KEY; `invalid` is what `_read_raw_json` refuses.
pub data StoredRecord : Type 0 where
  object : GenerationContext → StoredRecord
  invalid : String → StoredRecord

pub data GenerationError : Type 0 where
  invalid_record digest_mismatch lost_while_acquired old_version not_preparing duplicate_ids
        other_generation shard_outside changed_while_prepared changed_while_published lease_missing
        lease_fenced lease_expired lost_before_renewal lost_while_renewing identity_fenced
        identity_expired other_plan planning_failed timed_out :
      GenerationError

pub data Outcome (A : Type 0) : Type 0 where
  returned : A → Outcome A
  raised : GenerationError → Outcome A

abbrev pub then_do : {A B : Type 0} → Outcome A → (A → Outcome B) → Outcome B
then_do (returned a) f = f a
then_do (raised e) f = raised e

abbrev pub same_plan : TablePlan → TablePlan → Bool
same_plan p q =
    str_eq p.table_id q.table_id
    && (p.owner_shard == q.owner_shard)
    && str_eq p.generation_id q.generation_id
    && (p.generation_fence == q.generation_fence)
    && str_eq p.rest q.rest

unfoldable pub same_plans : List TablePlan → List TablePlan → Bool
same_plans [] [] = true
same_plans [] (_ ∷ _) = false
same_plans (_ ∷ _) [] = false
same_plans (p ∷ ps) (q ∷ qs) = same_plan p q && same_plans ps qs

-- `a == b` on contexts, and on their JSON.
unfoldable pub same_context : GenerationContext → GenerationContext → Bool
unfolding same_plans
same_context a b =
    str_eq a.generation_id b.generation_id
    && (a.fence == b.fence)
    && str_eq a.lease_token b.lease_token
    && (a.shard_count == b.shard_count)
    && (a.expires_at_ms == b.expires_at_ms)
    && str_eq a.source_consistency b.source_consistency
    && (a.version == b.version)
    && state_is a.plan_state b.plan_state
    && same_plans a.table_plans b.table_plans
    && str_eq a.plan_sha256 b.plan_sha256

unfoldable pub sort_plans : List TablePlan → List TablePlan
unfolding sort_by
sort_plans = sort_by (λ p q. text_before p.table_id q.table_id)

-- A record of version 1 has no plan; it reads as one that is ready.
abbrev pub without_plan : GenerationContext → GenerationContext
without_plan c = record c { plan_state = ready; table_plans = []; plan_sha256 = "" }

-- `_record`
unfoldable pub record_of : GenerationContext → GenerationContext
unfolding sort_plans
record_of c =
    if ltb c.version 2 then without_plan c else record c { table_plans = sort_plans c.table_plans }

module _ (digest : List TablePlan → String) where
  -- `_plan_digest`
  unfoldable pub plan_digest : List TablePlan → String
  unfolding sort_plans
  plan_digest plans = digest (sort_plans plans)

  -- The context that `_context` builds, before its test.
  unfoldable pub parsed : GenerationContext → GenerationContext
  unfolding plan_digest
  parsed r = if ltb r.version 2 then without_plan r else record r {
    plan_sha256 = if is_empty r.plan_sha256 then plan_digest r.table_plans else r.plan_sha256;
  }

  -- `_context`
  unfoldable pub context_of : GenerationContext → Outcome GenerationContext
  unfolding parsed plan_digest
  context_of r =
      if ltb r.version 2 || str_eq (parsed r).plan_sha256 (plan_digest r.table_plans)
      then returned (parsed r)
      else raised digest_mismatch
