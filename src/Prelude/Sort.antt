-- ===== src/Prelude/Sort.antt =====
-- Python's `sorted(xs, key=...)`: a stable insertion sort by a strict order.
use mathlib.Core.Bool.{Bool}
use mathlib.Core.List.{List, [], ◌∷◌}
use mathlib.Core.Logic.{inl, inr}
use fabric_shortcut_proxy.Prelude.Tests.{if◌then◌else◌, Bool-cases}
use fabric_shortcut_proxy.Prelude.Lists.{All}

module _ {ℓ} {A : Type ℓ} (before : A → A → Bool) where
  unfoldable pub put_by : A → List A → List A
  put_by x [] = x ∷ []
  put_by x (y ∷ ys) = let later = y ∷ put_by x ys in if before y x then later else x ∷ y ∷ ys

  unfoldable pub sort_by : List A → List A
  unfolding put_by
  sort_by [] = []
  sort_by (x ∷ xs) = put_by x (sort_by xs)

  pub put_by-All {κ} : (P : A → Type κ) (x : A) (ys : List A) → P x → All P ys → All P (put_by x ys)
  unfolding put_by
  put_by-All P x [] p h = (p, tt)
  put_by-All P x (y ∷ ys) p h = elim (Bool-cases (before y x)) [
    | inl later ↦ rw later (h.0, put_by-All P x ys p h.1)
    | inr first ↦ rw first (p, h)
  ]

  pub sort_by-All {κ} : (P : A → Type κ) (xs : List A) → All P xs → All P (sort_by xs)
  unfolding sort_by
  sort_by-All P [] h = tt
  sort_by-All P (x ∷ xs) h = put_by-All P x (sort_by xs) h.0 (sort_by-All P xs h.1)
