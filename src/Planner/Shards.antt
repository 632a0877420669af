-- ===== src/Planner/Shards.antt =====
-- The assignment of splits to shards: `assign_owners` of
-- src/fabric_shortcut_proxy/planner/shard_weight.py. Weights are counted in a unit in which they
-- and their sums are whole, `unit` of which are the weight 1.0 of an unknown key.
pub mod Balance
pub mod Loads
pub mod Order
use fabric_shortcut_proxy.Prelude.{
  text_before, ℕ, zero, suc, ◌+◌, ◌-◌, max, String, Bool, true, false, ◌&&◌, ◌||◌, Option, none,
  some, List, [], ◌∷◌, ◌==◌, ltb, leb, if◌then◌else◌,
}
use fabric_shortcut_proxy.Dict.{Dict, lookup, insert}

or_unit : ℕ → Option ℕ → ℕ
or_unit unit none = unit
or_unit unit (some w) = w

-- `weights.get(key, 1.0)`
unfoldable pub weight_of : ℕ → Dict ℕ → String → ℕ
unfolding or_unit
weight_of unit weights key = or_unit unit (lookup key weights)

module _ (weight : String → ℕ) where
  -- `(-weight(a), a) <= (-weight(b), b)`
  comes_first : String → String → Bool
  unfolding text_before
  comes_first a b = ltb (weight b) (weight a) || ((weight a == weight b) && not_after a b)
    where
      not_after : String → String → Bool
      not_after x y = if text_before y x then false else true

  put_sorted : String → List String → List String
  unfolding comes_first
  put_sorted k [] = k ∷ []
  put_sorted k (j ∷ js) = if comes_first k j then k ∷ j ∷ js else j ∷ put_sorted k js

  unfoldable pub sorted : List String → List String
  unfolding put_sorted
  sorted [] = []
  sorted (k ∷ ks) = put_sorted k (sorted ks)

  -- The first shard with the least load, and that load.
  unfoldable pub least_loaded : List ℕ → ℕ × ℕ
  least_loaded [] = (0, 0)
  least_loaded (l ∷ []) = (0, l)
  least_loaded (l ∷ m ∷ ms) =
      let (i, x) = least_loaded (m ∷ ms) in if leb l x then (0, l) else (suc i, x)

  unfoldable pub add_at : ℕ → ℕ → List ℕ → List ℕ
  add_at i w [] = []
  add_at zero w (l ∷ ls) = (l + w) ∷ ls
  add_at (suc i) w (l ∷ ls) = l ∷ add_at i w ls

  -- The loop over the sorted keys.
  unfoldable pub place : List String → List ℕ → Dict ℕ → List ℕ × Dict ℕ
  unfolding least_loaded add_at
  place [] loads owners = (loads, owners)
  place (k ∷ ks) loads owners =
      let shard = (least_loaded loads).0 in
      place ks (add_at shard (weight k) loads) (insert k shard owners)

  unfoldable pub zeros : ℕ → List ℕ
  zeros zero = []
  zeros (suc n) = 0 ∷ zeros n

  unfoldable pub all_on_first : List String → Dict ℕ
  all_on_first [] = []
  all_on_first (k ∷ ks) = insert k 0 (all_on_first ks)

  unfoldable pub assign_owners : List String → ℕ → Dict ℕ
  unfolding sorted place zeros all_on_first
  assign_owners keys count =
      let n = max 1 count in
      if n == 1 then all_on_first keys else (place (sorted keys) (zeros n) []).1
