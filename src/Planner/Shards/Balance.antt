-- ===== src/Planner/Shards/Balance.antt =====
-- The balance of the shards, and that each key has one of them.
use fabric_shortcut_proxy.Prelude.{
  ℕ, ◌+◌, ◌≤◌, ◌<◌, max, String, str_eq, false, none, List, [], ◌∷◌, ◌==◌, if◌then◌else◌, ◌≡◌, refl,
  ◌∙◌, sym, ap, arith, length, sum_by, sum_by-append, All, any, Bool-cases, inl, inr, ◌||◌,
}
use fabric_shortcut_proxy.Dict.{Dict, lookup, insert, has_key, insert_absent, lookup-insert}
use fabric_shortcut_proxy.Planner.Shards.{
  weight_of, sorted, least_loaded, add_at, place, zeros, all_on_first, assign_owners,
}
use fabric_shortcut_proxy.Planner.Shards.Loads.{
  IsEven, add_at-IsEven, nth, nth-add_at, length-add_at, least-length, nth-even, zeros-length,
  zeros-All, nth-zeros,
}
use fabric_shortcut_proxy.Planner.Shards.Order.{
  sorted-All, IsDifferent, none_equal, sorted-IsDifferent, any-sorted,
}

module _ (weight : String → ℕ) where
  place-IsEven :
      (top : ℕ) (ks : List String) (loads : List ℕ) (owners : Dict ℕ)
      → All (λ k. weight k ≤ top) ks
      → IsEven weight top loads
      → IsEven weight top (place weight ks loads owners).0
  unfolding place
  place-IsEven top [] loads owners small even = even
  place-IsEven top (k ∷ ks) loads owners small even =
      place-IsEven top ks _ _ small.1 (add_at-IsEven weight top (weight k) loads small.0 even)

  -- The weight of the keys that a shard owns.
  abbrev pub owned : ℕ → Dict ℕ → ℕ
  owned i owners = sum_by (λ e. if e.1 == i then weight e.0 else 0) owners

  owned-insert :
      (i s : ℕ) (k : String) (owners : Dict ℕ)
      → lookup k owners ≡ none
      → owned i (insert k s owners) ≡ owned i owners + (if s == i then weight k else 0)
  owned-insert i s k owners fresh =
      rw (insert_absent k s owners fresh)
        (sum_by-append (λ e. if e.1 == i then weight e.0 else 0) owners ((k, s) ∷ []) ∙ omega arith)

  -- The keys are all different, and none has an owner yet.
  abbrev pub IsFresh : List String → Dict ℕ → Type 0
  IsFresh [] owners = Unit
  IsFresh (k ∷ ks) owners =
      (lookup k owners ≡ none) × (any (λ j. str_eq k j) ks ≡ false) × IsFresh ks owners

  IsFresh-insert :
      (k : String) (s : ℕ) (ks : List String) (owners : Dict ℕ)
      → any (λ j. str_eq k j) ks ≡ false
      → IsFresh ks owners
      → IsFresh ks (insert k s owners)
  IsFresh-insert k s [] owners h fresh = tt
  IsFresh-insert k s (j ∷ ks) owners h fresh = (
    rw (lookup-insert k j s owners) (ground (arith, h, fresh.0)),
    fresh.1,
    IsFresh-insert k s ks owners (ground (arith, h)) fresh.2,
  )

  -- The loads of the loop are the weights that the shards own.
  place-owned :
      (ks : List String) (loads : List ℕ) (owners : Dict ℕ) (i : ℕ)
      → 0 < length loads
      → IsFresh ks owners
      → owned i owners ≡ nth weight i loads
      → owned i (place weight ks loads owners).1 ≡ nth weight i (place weight ks loads owners).0
  unfolding place
  place-owned [] loads owners i pos fresh same = same
  place-owned (k ∷ ks) loads owners i pos fresh same =
      let s = (least_loaded weight loads).0 in
      let loads' = add_at weight s (weight k) loads in
      place-owned ks loads' (insert k s owners) i
        (omega (arith, length-add_at weight s (weight k) loads, pos))
        (IsFresh-insert k s ks owners fresh.1 fresh.2)
        (owned-insert i s k owners fresh.0
          ∙ ap (λ x. x + (if s == i then weight k else 0)) same
          ∙ sym (nth-add_at weight i s (weight k) loads (least-length weight loads pos)))

  length-place :
      (ks : List String) (loads : List ℕ) (owners : Dict ℕ)
      → length (place weight ks loads owners).0 ≡ length loads
  unfolding place
  length-place [] loads owners = refl
  length-place (k ∷ ks) loads owners =
      length-place ks _ _ ∙ length-add_at weight (least_loaded weight loads).0 (weight k) loads

  different-IsFresh : (ks : List String) → IsDifferent weight ks → IsFresh ks []
  unfolding lookup
  different-IsFresh [] h = tt
  different-IsFresh (k ∷ ks) h = (refl, none_equal weight k ks h.0, different-IsFresh ks h.1)

  -- With several shards: no shard owns more than any other by more than the heaviest weight.
  several-balanced :
      (keys : List String) (n top i j : ℕ)
      → IsDifferent weight keys
      → All (λ k. weight k ≤ top) keys
      → 0 < n
      → j < n
      → let owners = (place weight (sorted weight keys) (zeros weight n) []).1 in
        owned i owners ≤ owned j owners + top
  several-balanced keys n top i j different small pos in_range =
      let loads = zeros weight n in
      let ks = sorted weight keys in
      let end = (place weight ks loads []).0 in
      let fresh = different-IsFresh ks (sorted-IsDifferent weight keys different) in
      let some_shard : 0 < length loads = omega (arith, zeros-length weight n, pos) in
      let even : IsEven weight top end =
        place-IsEven top ks loads [] (sorted-All weight (λ k. weight k ≤ top) keys small)
          (zeros-All weight ((least_loaded weight loads).1 + top) n) in
      omega (
        arith,
        place-owned ks loads [] i some_shard fresh (nth-zeros weight i n),
        place-owned ks loads [] j some_shard fresh (nth-zeros weight j n),
        nth-even weight top i j end even
            (omega (arith, length-place ks loads [], zeros-length weight n, in_range)),
      )

  has_key-insert :
      (j k : String) (s : ℕ) (owners : Dict ℕ)
      → has_key k (insert j s owners) ≡ (str_eq j k || has_key k owners)
  has_key-insert j k s owners = rw (lookup-insert j k s owners) (ground arith)

  has_key-place :
      (ks : List String) (loads : List ℕ) (owners : Dict ℕ) (k : String)
      → has_key k (place weight ks loads owners).1 ≡ (any (λ j. str_eq j k) ks || has_key k owners)
  unfolding place
  has_key-place [] loads owners k = refl
  has_key-place (j ∷ ks) loads owners k =
      let s = (least_loaded weight loads).0 in
      ground (
        arith,
        has_key-place ks (add_at weight s (weight j) loads) (insert j s owners) k,
        has_key-insert j k s owners,
      )

  has_key-all_on_first :
      (ks : List String) (k : String)
      → has_key k (all_on_first weight ks) ≡ any (λ j. str_eq j k) ks
  unfolding all_on_first lookup
  has_key-all_on_first [] k = refl
  has_key-all_on_first (j ∷ ks) k =
      ground (arith, has_key-all_on_first ks k, has_key-insert j k 0 (all_on_first weight ks))

balanced :
    (weight : String → ℕ) (keys : List String) (count top : ℕ)
    → IsDifferent weight keys
    → All (λ k. weight k ≤ top) keys
    → ((k : String) → has_key k (assign_owners weight keys count) ≡ any (λ j. str_eq j k) keys)
      × ((i j : ℕ)
          → i < max 1 count
          → j < max 1 count
          → owned weight i (assign_owners weight keys count)
            ≤ owned weight j (assign_owners weight keys count) + top)
unfolding assign_owners lookup
balanced weight keys count top different small = elim (Bool-cases (max 1 count == 1)) [
  | inl single ↦ rw single (
    has_key-all_on_first weight keys,
    λ i j low high.
        (let same : i ≡ j = ground (arith, single, low, high) in
          omega (arith, ap (λ x. owned weight x (all_on_first weight keys)) same)),
  )
  | inr several ↦ rw several (
    λ k.
        (let found = has_key-place weight (sorted weight keys) (zeros weight (max 1 count)) [] k in
          ground (arith, found, any-sorted weight k keys)),
    λ i j low high.
        (several-balanced weight keys (max 1 count) top i j different small (omega arith) high),
  )
]

-- For keys that are all different and weigh at most `top`: `assign_owners` gives an owner to exactly
-- these keys, and no shard owns more weight than another by more than `top`.
pub assign_owners-balanced :
    (unit : ℕ) (weights : Dict ℕ) (keys : List String) (count top : ℕ)
    → let weight = weight_of unit weights in
      let owners = assign_owners weight keys count in
      IsDifferent weight keys
      → All (λ k. weight k ≤ top) keys
      → ((k : String) → has_key k owners ≡ any (λ j. str_eq j k) keys)
        × ((i j : ℕ)
            → i < max 1 count
            → j < max 1 count
            → owned weight i owners ≤ owned weight j owners + top)
assign_owners-balanced unit weights keys count top different small =
    balanced (weight_of unit weights) keys count top different small
