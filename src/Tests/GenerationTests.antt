-- ===== src/Tests/GenerationTests.antt =====
-- src/fabric_shortcut_proxy/runtime/generation.py at concrete inputs, over a `MemoryStore`: a
-- generation that is acquired, gets its plan and is joined, and one that supersedes it.
use fabric_shortcut_proxy.Prelude.{
  ◌<◌, inr, String, true, false, Option, none, some, List, [], ◌∷◌, ◌≡◌, refl, arith, ℕ_discrete,
  String-discrete,
}
use mathlib.Core.List.{Memᴰ}
use fabric_shortcut_proxy.Dict.{lookup, insert}
use fabric_shortcut_proxy.Artifacts.Register.{Register}
use fabric_shortcut_proxy.Artifacts.Memory.{swap_at}
use fabric_shortcut_proxy.Artifacts.Memory.Laws.{register_at}
use fabric_shortcut_proxy.Placement.{is_empty}
use fabric_shortcut_proxy.Generation.{
  TablePlan, GenerationContext, StoredRecord, object, returned, raised, lease_fenced, same_context,
  record_of, context_of, plan_digest, parsed, sort_plans,
}
use fabric_shortcut_proxy.Generation.Calls.{
  AcquireInput, acquire_claim, new_generation, planned, publish_claim, renew_claim,
}
use fabric_shortcut_proxy.Generation.Runs.{
  State, Others, acquire_generation, publish_plan, renew_generation, fail_plan, confirm_acquired,
  confirm_published,
}
use fabric_shortcut_proxy.Generation.Steps.{
  start, next, acquires, publishes, renews, LaterAt, put_record, generations_in_order,
}
use fabric_shortcut_proxy.Generation.Plans.{HoldsPlan, InOrderAt, plans_kept}
use fabric_shortcut_proxy.Generation.Fencing.{acquired_fences_increase, older_generation_refused}
use fabric_shortcut_proxy.Generation.Join.{Poll, join_generation, can_join, failed_of, as_joined}
use fabric_shortcut_proxy.Generation.Joined.{Admits, join-Admits}
use fabric_shortcut_proxy.Generation.Published.{published_plan_joined}

unfoldable StoredRecord-discrete : Discrete StoredRecord
unfolding String-discrete
StoredRecord-discrete = hlevel (ℕ_discrete, String-discrete)

abbrev reg : Register StoredRecord
reg = register_at StoredRecord-discrete ".fsp/generation-coordinator.json"

abbrev digest : List TablePlan → String
digest [] = "0"
digest (_ ∷ _) = "1"

digest_not_empty : (plans : List TablePlan) → is_empty (digest plans) ≡ false
digest_not_empty [] = refl
digest_not_empty (_ ∷ _) = refl

abbrev quiet : Others digest reg
quiet = record { early = λ s. s; between = λ s. s; after = λ s. s }

abbrev empty : State digest reg
empty = record { coordinator = []; build = none }

abbrev input : String → AcquireInput
input token = record {
  shard_count = 2;
  lease_seconds = 300;
  source_consistency = "best_effort";
  prepare_plan = true;
  now = 1000;
  drawn_id = λ n. "g";
  drawn_token = token;
}

abbrev first : GenerationContext
first = new_generation digest (input "a") 1

abbrev second : GenerationContext
second = new_generation digest (input "b") 2

first_acquired : (acquire_generation digest reg quiet (input "a") empty).1 ≡ returned first
unfolding acquire_generation new_generation lookup insert swap_at StoredRecord-discrete
    String-discrete ℕ_discrete confirm_acquired record_of same_context
first_acquired = refl

abbrev with_first : State digest reg
with_first = (acquire_generation digest reg quiet (input "a") empty).0

second_acquired : (acquire_generation digest reg quiet (input "b") with_first).1 ≡ returned second
unfolding acquire_generation new_generation lookup insert swap_at StoredRecord-discrete
    String-discrete ℕ_discrete confirm_acquired record_of same_context
second_acquired = refl

acquired_fences_increase_example : first.fence < second.fence
acquired_fences_increase_example =
    acquired_fences_increase digest reg digest_not_empty quiet quiet (input "a") (input "b") empty
      with_first first second first_acquired start second_acquired

abbrev with_second : State digest reg
with_second = (acquire_generation digest reg quiet (input "b") with_first).0

first_before_second : first.fence < second.fence
unfolding new_generation
first_before_second = omega arith

older_generation_refused_example :
    (publish_plan digest reg quiet 2000 first [] with_second ≡ (with_second, raised lease_fenced))
    × (renew_generation digest reg quiet 2000 2000 300 first with_second
        ≡ (with_second, raised lease_fenced))
    × (fail_plan digest reg quiet 2000 first "no source" with_second
        ≡ (with_second, raised lease_fenced))
older_generation_refused_example =
    older_generation_refused digest reg digest_not_empty quiet quiet (input "b") with_first
      with_second first second 2000 2000 300 [] "no source" first_before_second second_acquired
      start

abbrev plans : List TablePlan
plans =
    record {
      table_id = "sales::orders";
      owner_shard = 1;
      generation_id = "g";
      generation_fence = 1;
      rest = "";
    }
    ∷ []

abbrev planned_first : GenerationContext
planned_first = planned digest first plans

first_published :
    (publish_plan digest reg quiet 2000 first plans with_first).1 ≡ returned planned_first
unfolding publish_plan acquire_generation new_generation lookup insert swap_at StoredRecord-discrete
    String-discrete ℕ_discrete confirm_acquired confirm_published record_of same_context
    publish_claim planned sort_plans context_of parsed plan_digest
first_published = refl

first_live : 2500 < planned_first.expires_at_ms
unfolding planned new_generation
first_live = omega arith

abbrev poll : Poll
poll =
    let s = (publish_plan digest reg quiet 2000 first plans with_first).0 in
    record { build = s.build; lease = reg.read s.coordinator; now = 2500 }

published_plan_joined_example :
    (x : GenerationContext) × (same_context x planned_first ≡ true)
    × (join_generation digest planned_first.shard_count (poll ∷ []) ≡ returned x)
published_plan_joined_example =
    published_plan_joined digest reg quiet 2000 2500 first planned_first plans with_first []
      (λ s. refl) first_published first_live

plan_is_joined : join_generation digest 2 (poll ∷ []) ≡ returned planned_first
unfolding publish_plan acquire_generation new_generation lookup insert swap_at StoredRecord-discrete
    String-discrete ℕ_discrete confirm_acquired confirm_published record_of same_context
    publish_claim planned sort_plans context_of parsed plan_digest join_generation can_join
    failed_of as_joined
plan_is_joined = refl

join-Admits_example : (p : Poll) × Memᴰ p (poll ∷ []) × Admits digest 2 p planned_first
join-Admits_example = join-Admits digest 2 (poll ∷ []) planned_first plan_is_joined

-- The plan is published by a call that read before another Manager acquired, and so comes to
-- nothing.
late_publish :
    publish_claim digest 2000 first plans
      (some (object (record_of first)))
      (some (object (record_of first)))
    ≡ returned planned_first
unfolding publish_claim new_generation planned record_of same_context sort_plans context_of parsed
    plan_digest
late_publish = refl

second_claimed :
    acquire_claim digest (input "b") (some (object (record_of first))) ≡ returned second
unfolding acquire_claim new_generation record_of
second_claimed = refl

first_there : reg.read with_first.coordinator ≡ some (object (record_of first))
unfolding acquire_generation new_generation lookup insert swap_at StoredRecord-discrete
    String-discrete ℕ_discrete confirm_acquired record_of same_context
first_there = refl

abbrev seen_first : Option StoredRecord
seen_first = some (object (record_of first))

generations_in_order_example : LaterAt digest reg (record_of first) (
    put_record digest reg seen_first planned_first
      (put_record digest reg seen_first second with_first.coordinator))
generations_in_order_example =
    generations_in_order digest reg digest_not_empty with_first.coordinator _ (record_of first)
      first_there
      (next (next start (acquires (input "b") seen_first second second_claimed))
        (publishes 2000 first plans seen_first seen_first planned_first late_publish))

-- The plan is there, its coordinator renews, and then another Manager acquires.
abbrev with_plan : State digest reg
with_plan = (publish_plan digest reg quiet 2000 first plans with_first).0

abbrev seen_plan : Option StoredRecord
seen_plan = some (object (record_of planned_first))

abbrev renewed_first : GenerationContext
renewed_first = record planned_first { expires_at_ms = 303000 }

plan_there : reg.read with_plan.coordinator ≡ seen_plan
unfolding publish_plan acquire_generation new_generation lookup insert swap_at StoredRecord-discrete
    String-discrete ℕ_discrete confirm_acquired confirm_published record_of same_context
    publish_claim planned sort_plans context_of parsed plan_digest
plan_there = refl

first_renewed :
    renew_claim digest 2500 3000 300 planned_first seen_plan seen_plan ≡ returned renewed_first
unfolding renew_claim new_generation planned record_of sort_plans context_of parsed plan_digest
first_renewed = refl

planned_first-HoldsPlan : HoldsPlan digest planned_first
unfolding planned sort_plans plan_digest
planned_first-HoldsPlan = inr (refl, refl)

plans_kept_example :
    InOrderAt digest reg
      (record_of planned_first)
      (put_record digest reg seen_plan renewed_first with_plan.coordinator)
plans_kept_example =
    plans_kept digest reg digest_not_empty with_plan.coordinator _ (record_of planned_first)
      plan_there
      (next start
        (renews 2500 3000 300 planned_first seen_plan seen_plan renewed_first first_renewed))
      (tt, planned_first-HoldsPlan)
