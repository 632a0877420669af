-- ===== src/Tests/PlannerTests.antt =====
-- src/fabric_shortcut_proxy/planner/split_planner.py and shard_weight.py at concrete inputs.
use fabric_shortcut_proxy.Prelude.{
  ℕ, String, List, ◌+◌, any, str_eq, All, ◌*◌, ◌≤◌, ◌<◌, max, ◌&&◌, [], ◌∷◌, leb, if◌then◌else◌,
  length, ◌≡◌, refl, arith, some,
}
use fabric_shortcut_proxy.Planner.Shards.{assign_owners, weight_of}
use fabric_shortcut_proxy.Planner.Shards.Balance.{assign_owners-balanced, owned}
use fabric_shortcut_proxy.Dict.{Dict, has_key, lookup, insert}
use fabric_shortcut_proxy.Planner.Ranges.{compute_key_ranges, compute_split_count}
use fabric_shortcut_proxy.Planner.Ranges.Cover.{readers, compute_key_ranges-cover}
use fabric_shortcut_proxy.Planner.Ranges.Count.{split_count_meets_target}

three_splits : compute_key_ranges 10 19 3 ≡ (10, 13) ∷ (13, 16) ∷ (16, 20) ∷ []
unfolding compute_key_ranges
three_splits = refl

empty_interval : compute_key_ranges 5 4 2 ≡ (5, 6) ∷ (6, 6) ∷ []
unfolding compute_key_ranges
empty_interval = refl

compute_key_ranges-cover_example :
    (length (compute_key_ranges 10 19 3) ≡ max 1 3)
    × (readers 19 (compute_key_ranges 10 19 3) ≡ (if leb 10 19 && leb 19 19 then 1 else 0))
compute_key_ranges-cover_example = compute_key_ranges-cover 10 19 3 19 (omega arith)

split_count_meets_target_example :
    let n = compute_split_count (some 1000) 300 0 0 1 64 8 in
    (1 ≤ n) × (n ≤ max 1 64) × (n < 64 → 1000 ≤ n * 300)
split_count_meets_target_example =
    split_count_meets_target 1000 300 0 0 1 64 8 (omega arith) (omega arith)

abbrev three_keys : List String
three_keys = "a" ∷ "b" ∷ "c" ∷ []

abbrev two_weights : Dict ℕ
two_weights = ("a", 3) ∷ ("c", 5) ∷ []

heaviest_first :
    assign_owners (weight_of 1 two_weights) three_keys 2 ≡ ("c", 0) ∷ ("a", 1) ∷ ("b", 1) ∷ []
unfolding assign_owners weight_of lookup insert
heaviest_first = refl

light_keys : All (λ k. weight_of 1 two_weights k ≤ 5) three_keys
unfolding weight_of lookup
light_keys = (omega arith, (omega arith, (omega arith, tt)))

assign_owners-balanced_example :
    let weight = weight_of 1 two_weights in
    let owners = assign_owners weight three_keys 2 in
    ((k : String) → has_key k owners ≡ any (λ j. str_eq j k) three_keys)
    × ((i j : ℕ) → i < max 1 2 → j < max 1 2 → owned weight i owners ≤ owned weight j owners + 5)
assign_owners-balanced_example =
    assign_owners-balanced 1 two_weights three_keys 2 5 ((refl, (refl, tt)), ((refl, tt), (tt, tt)))
      light_keys
