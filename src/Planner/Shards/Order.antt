-- ===== src/Planner/Shards/Order.antt =====
-- The sorted keys are the same keys, and stay different.
use fabric_shortcut_proxy.Prelude.{
  ℕ, String, str_eq, false, List, [], ◌∷◌, ◌≡◌, refl, arith, All, any, Bool-cases, inl, inr,
  str_eq_iff, ◌||◌,
}
use fabric_shortcut_proxy.Planner.Shards.{sorted, put_sorted, comes_first}

module _ (weight : String → ℕ) where
  put_sorted-All :
      (P : String → Type 0) (k : String) (js : List String)
      → P k
      → All P js
      → All P (put_sorted weight k js)
  unfolding put_sorted
  put_sorted-All P k [] p h = (p, tt)
  put_sorted-All P k (j ∷ js) p h = elim (Bool-cases (comes_first weight k j)) [
    | inl first ↦ rw first (p, h)
    | inr later ↦ rw later (h.0, put_sorted-All P k js p h.1)
  ]

  pub sorted-All : (P : String → Type 0) (ks : List String) → All P ks → All P (sorted weight ks)
  unfolding sorted
  sorted-All P [] h = tt
  sorted-All P (k ∷ ks) h = put_sorted-All P k (sorted weight ks) h.0 (sorted-All P ks h.1)

  -- All keys are different.
  abbrev pub IsDifferent : List String → Type 0
  IsDifferent [] = Unit
  IsDifferent (k ∷ ks) = All (λ j. str_eq k j ≡ false) ks × IsDifferent ks

  pub none_equal :
      (k : String) (ks : List String)
      → All (λ j. str_eq k j ≡ false) ks
      → any (λ j. str_eq k j) ks ≡ false
  none_equal k [] h = refl
  none_equal k (j ∷ ks) h = ground (arith, h.0, none_equal k ks h.1)

  flipped : (k j : String) → str_eq k j ≡ false → str_eq j k ≡ false
  flipped k j h = ground (arith, h, str_eq_iff k j, str_eq_iff j k)

  put_sorted-IsDifferent :
      (k : String) (js : List String)
      → All (λ j. str_eq k j ≡ false) js
      → IsDifferent js
      → IsDifferent (put_sorted weight k js)
  unfolding put_sorted
  put_sorted-IsDifferent k [] h d = (tt, tt)
  put_sorted-IsDifferent k (j ∷ js) h d = elim (Bool-cases (comes_first weight k j)) [
    | inl first ↦ rw first (h, d)
    | inr later ↦ rw later (
      put_sorted-All (λ x. str_eq j x ≡ false) k js (flipped k j h.0) d.0,
      put_sorted-IsDifferent k js h.1 d.1,
    )
  ]

  pub sorted-IsDifferent : (ks : List String) → IsDifferent ks → IsDifferent (sorted weight ks)
  unfolding sorted
  sorted-IsDifferent [] d = tt
  sorted-IsDifferent (k ∷ ks) d =
      put_sorted-IsDifferent k (sorted weight ks) (sorted-All (λ x. str_eq k x ≡ false) ks d.0)
        (sorted-IsDifferent ks d.1)

  any-put_sorted :
      (k x : String) (js : List String)
      → any (λ j. str_eq j x) (put_sorted weight k js) ≡ (str_eq k x || any (λ j. str_eq j x) js)
  unfolding put_sorted
  any-put_sorted k x [] = refl
  any-put_sorted k x (j ∷ js) = elim (Bool-cases (comes_first weight k j)) [
    | inl first ↦ rw first refl
    | inr later ↦ rw later (ground (arith, any-put_sorted k x js))
  ]

  pub any-sorted :
      (x : String) (ks : List String)
      → any (λ j. str_eq j x) (sorted weight ks) ≡ any (λ j. str_eq j x) ks
  unfolding sorted
  any-sorted x [] = refl
  any-sorted x (k ∷ ks) = ground (arith, any-put_sorted k x (sorted weight ks), any-sorted x ks)
