-- ===== src/Planner/Shards/Loads.antt =====
-- The loads of the shards while keys are placed on them.
use fabric_shortcut_proxy.Prelude.{
  ℕ, zero, suc, ◌+◌, ◌≤◌, ◌<◌, String, List, [], ◌∷◌, ◌==◌, leb, if◌then◌else◌, ◌≡◌, refl, arith,
  length, All, Bool-cases, inl, inr,
}
use fabric_shortcut_proxy.Planner.Shards.{least_loaded, add_at, zeros}

module _ (weight : String → ℕ) where
  All-weaken : (a b : ℕ) (ls : List ℕ) → b ≤ a → All (λ x. a ≤ x) ls → All (λ x. b ≤ x) ls
  All-weaken a b [] le h = tt
  All-weaken a b (l ∷ ls) le h = (omega (arith, le, h.0), All-weaken a b ls le h.1)

  All-raise : (a b : ℕ) (ls : List ℕ) → a ≤ b → All (λ x. x ≤ a) ls → All (λ x. x ≤ b) ls
  All-raise a b [] le h = tt
  All-raise a b (l ∷ ls) le h = (omega (arith, le, h.0), All-raise a b ls le h.1)

  least_le-head : (l m : ℕ) (ms : List ℕ) → (least_loaded weight (l ∷ m ∷ ms)).1 ≤ l
  unfolding least_loaded
  least_le-head l m ms = ground arith

  least_le-rest :
      (l m : ℕ) (ms : List ℕ)
      → (least_loaded weight (l ∷ m ∷ ms)).1 ≤ (least_loaded weight (m ∷ ms)).1
  unfolding least_loaded
  least_le-rest l m ms = ground arith

  least-All : (ls : List ℕ) → All (λ x. (least_loaded weight ls).1 ≤ x) ls
  unfolding least_loaded
  least-All [] = tt
  least-All (l ∷ []) = (omega arith, tt)
  least-All (l ∷ m ∷ ms) =
      let x = (least_loaded weight (m ∷ ms)).1 in
      (
        least_le-head l m ms,
        All-weaken x (least_loaded weight (l ∷ m ∷ ms)).1 (m ∷ ms) (least_le-rest l m ms)
            (least-All (m ∷ ms)),
      )

  All-least :
      (b : ℕ) (l : ℕ) (ls : List ℕ)
      → All (λ x. b ≤ x) (l ∷ ls)
      → b ≤ (least_loaded weight (l ∷ ls)).1
  unfolding least_loaded
  All-least b l [] h = h.0
  All-least b l (m ∷ ms) h = ground (arith, h.0, All-least b m ms h.1)

  add_at-upper :
      (b w : ℕ) (ls : List ℕ)
      → All (λ x. x ≤ b) ls
      → (least_loaded weight ls).1 + w ≤ b
      → All (λ x. x ≤ b) (add_at weight (least_loaded weight ls).0 w ls)
  unfolding least_loaded add_at
  add_at-upper b w [] h fits = tt
  add_at-upper b w (l ∷ []) h fits = (fits, tt)
  add_at-upper b w (l ∷ m ∷ ms) h fits =
      let x = (least_loaded weight (m ∷ ms)).1 in
      elim (Bool-cases (leb l x)) [
        | inl low ↦ let room : l + w ≤ b = ground (arith, fits, low) in rw low (room, h.1)
        | inr high ↦
            let room : x + w ≤ b = ground (arith, fits, high) in
            rw high (h.0, add_at-upper b w (m ∷ ms) h.1 room)
      ]

  add_at-lower :
      (b i w : ℕ) (ls : List ℕ) → All (λ x. b ≤ x) ls → All (λ x. b ≤ x) (add_at weight i w ls)
  unfolding add_at
  add_at-lower b i w [] h = tt
  add_at-lower b zero w (l ∷ ls) h = (omega (arith, h.0), h.1)
  add_at-lower b (suc i) w (l ∷ ls) h = (h.0, add_at-lower b i w ls h.1)

  -- No load is above the least one by more than `top`.
  abbrev pub IsEven : ℕ → List ℕ → Type 0
  IsEven top ls = All (λ x. x ≤ (least_loaded weight ls).1 + top) ls

  grows :
      (w i : ℕ) (ls : List ℕ)
      → (least_loaded weight ls).1 ≤ (least_loaded weight (add_at weight i w ls)).1
  unfolding add_at
  grows w i [] = omega arith
  grows w zero (l ∷ ls) =
      All-least _ (l + w) ls (add_at-lower _ zero w (l ∷ ls) (least-All (l ∷ ls)))
  grows w (suc i) (l ∷ ls) =
      All-least _ l (add_at weight i w ls) (add_at-lower _ (suc i) w (l ∷ ls) (least-All (l ∷ ls)))

  pub add_at-IsEven :
      (top w : ℕ) (ls : List ℕ)
      → w ≤ top
      → IsEven top ls
      → IsEven top (add_at weight (least_loaded weight ls).0 w ls)
  add_at-IsEven top w ls small even =
      let m = (least_loaded weight ls).1 in
      All-raise (m + top) _ (add_at weight (least_loaded weight ls).0 w ls)
        (omega (arith, grows w (least_loaded weight ls).0 ls))
        (add_at-upper (m + top) w ls even (omega (arith, small)))

  -- The load of a shard.
  unfoldable pub nth : ℕ → List ℕ → ℕ
  nth i [] = 0
  nth zero (l ∷ ls) = l
  nth (suc i) (l ∷ ls) = nth i ls

  pub nth-add_at :
      (i s w : ℕ) (ls : List ℕ)
      → s < length ls
      → nth i (add_at weight s w ls) ≡ nth i ls + (if s == i then w else 0)
  unfolding nth add_at
  nth-add_at i s w [] h = ground arith
  nth-add_at zero zero w (l ∷ ls) h = ground arith
  nth-add_at zero (suc s) w (l ∷ ls) h = ground arith
  nth-add_at (suc i) zero w (l ∷ ls) h = ground arith
  nth-add_at (suc i) (suc s) w (l ∷ ls) h = ground (arith, nth-add_at i s w ls (omega (arith, h)))

  least-shard : (l : ℕ) (ls : List ℕ) → (least_loaded weight (l ∷ ls)).0 < length (l ∷ ls)
  unfolding least_loaded
  least-shard l [] = omega arith
  least-shard l (m ∷ ms) = ground (arith, least-shard m ms)

  pub length-add_at : (i w : ℕ) (ls : List ℕ) → length (add_at weight i w ls) ≡ length ls
  unfolding add_at
  length-add_at i w [] = refl
  length-add_at zero w (l ∷ ls) = refl
  length-add_at (suc i) w (l ∷ ls) = omega (arith, length-add_at i w ls)

  pub least-length : (ls : List ℕ) → 0 < length ls → (least_loaded weight ls).0 < length ls
  least-length [] h = omega (arith, h)
  least-length (l ∷ ls) h = least-shard l ls

  nth-upper : (b i : ℕ) (ls : List ℕ) → All (λ x. x ≤ b) ls → nth i ls ≤ b
  unfolding nth
  nth-upper b i [] h = omega arith
  nth-upper b zero (l ∷ ls) h = h.0
  nth-upper b (suc i) (l ∷ ls) h = nth-upper b i ls h.1

  nth-lower : (b i : ℕ) (ls : List ℕ) → i < length ls → All (λ x. b ≤ x) ls → b ≤ nth i ls
  unfolding nth
  nth-lower b i [] small h = omega (arith, small)
  nth-lower b zero (l ∷ ls) small h = h.0
  nth-lower b (suc i) (l ∷ ls) small h = nth-lower b i ls (omega (arith, small)) h.1

  pub nth-even :
      (top i j : ℕ) (ls : List ℕ) → IsEven top ls → j < length ls → nth i ls ≤ nth j ls + top
  nth-even top i j ls even small =
      omega (arith, nth-upper _ i ls even, nth-lower _ j ls small (least-All ls))

  pub zeros-length : (n : ℕ) → length (zeros weight n) ≡ n
  unfolding zeros
  zeros-length zero = refl
  zeros-length (suc n) = omega (arith, zeros-length n)

  pub zeros-All : (b n : ℕ) → All (λ x. x ≤ b) (zeros weight n)
  unfolding zeros
  zeros-All b zero = tt
  zeros-All b (suc n) = (omega arith, zeros-All b n)

  pub nth-zeros : (i n : ℕ) → 0 ≡ nth i (zeros weight n)
  unfolding zeros nth
  nth-zeros i zero = refl
  nth-zeros zero (suc n) = refl
  nth-zeros (suc i) (suc n) = nth-zeros i n
