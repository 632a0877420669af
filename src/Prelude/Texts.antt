-- ===== src/Prelude/Texts.antt =====
-- The order of texts by their characters' numbers, which is Python's order of `str`, and the sorts
-- that go by it.
use Prim.Native.Nat.{ℕ, Ordering, compare as compare_ℕ}
use Prim.Native.Char.{code}
use Prim.Native.String as Text
use Prim.Native.String.compare
use Prim.Native.String.{String, compare, then as and_then}
use mathlib.Core.Path.{◌≡◌, refl}
use mathlib.Core.Bool.{Bool, true, false}
use mathlib.Core.List.{List, [], ◌∷◌}
use mathlib.Core.Logic.{inl, inr}
use native.Mathlib.Omega.{arith}
use text.Mathlib.Text.{◌==◌ as str_eq}
use text.Mathlib.TextEquality.{eq_iff as str_eq_iff, path_by_compare}
use fabric_shortcut_proxy.Prelude.Tests.{if◌then◌else◌, Bool-cases}

flip : Ordering → Ordering
flip Ordering.lt = Ordering.gt
flip Ordering.eq = Ordering.eq
flip Ordering.gt = Ordering.lt

and_then-flip : (a b : Ordering) → and_then (flip a) (flip b) ≡ flip (and_then a b)
unfolding flip
and_then-flip Ordering.lt b = refl
and_then-flip Ordering.eq b = refl
and_then-flip Ordering.gt b = refl

compare-flip_number : (m n : ℕ) → compare_ℕ n m ≡ flip (compare_ℕ m n)
unfolding flip
compare-flip_number m n = ground arith

compare-flip : (s t : String) → compare t s ≡ flip (compare s t)
unfolding flip
compare-flip Text.[] Text.[] = rw compare.nil-nil
compare-flip Text.[] (Text.◌∷◌ d t) = rw (compare.nil-cons d t, compare.cons-nil d t)
compare-flip (Text.◌∷◌ c s) Text.[] = rw (compare.nil-cons c s, compare.cons-nil c s)
compare-flip (Text.◌∷◌ c s) (Text.◌∷◌ d t) =
    rw
      (
        compare.cons-cons c d s t,
        compare.cons-cons d c t s,
        compare-flip s t,
        compare-flip_number (code c) (code d),
      )
      (and_then-flip (compare_ℕ (code c) (code d)) (compare s t))

is_before : Ordering → Bool
is_before Ordering.lt = true
is_before _ = false

unfoldable pub text_before : String → String → Bool
unfolding is_before
text_before a b = is_before (compare a b)

neither_before : (o : Ordering) → is_before o ≡ false → is_before (flip o) ≡ false → o ≡ Ordering.eq
unfolding is_before flip
neither_before Ordering.lt h k = cc
neither_before Ordering.eq h k = refl
neither_before Ordering.gt h k = cc

-- Of two texts one is before the other, or they are the same.
pub text_before_total : (a b : String) → text_before a b ≡ false → text_before b a ≡ false → a ≡ b
unfolding text_before
text_before_total a b h k =
    path_by_compare a b (neither_before (compare a b) h (rw (compare-flip a b) at k))

-- `sorted(set(xs))`
insert_text : String → List String → List String
insert_text x [] = x ∷ []
insert_text x (y ∷ ys) =
    let later = y ∷ insert_text x ys in
    if text_before x y then x ∷ y ∷ ys else if str_eq x y then y ∷ ys else later

unfoldable pub sorted_set : List String → List String
unfolding insert_text
sorted_set [] = []
sorted_set (x ∷ xs) = insert_text x (sorted_set xs)

-- Each element is before the next.
abbrev AheadOf : String → List String → Type 0
AheadOf x [] = Unit
AheadOf x (y ∷ ys) = text_before x y ≡ true

abbrev pub IsAscending : List String → Type 0
IsAscending [] = Unit
IsAscending (x ∷ xs) = AheadOf x xs × IsAscending xs

insert_text-AheadOf :
    (y x : String) (ys : List String)
    → text_before y x ≡ true
    → AheadOf y ys
    → AheadOf y (insert_text x ys)
unfolding insert_text
insert_text-AheadOf y x [] before h = before
insert_text-AheadOf y x (z ∷ zs) before h = ground (arith, before, h)

insert_text-IsAscending :
    (x : String) (ys : List String) → IsAscending ys → IsAscending (insert_text x ys)
unfolding insert_text
insert_text-IsAscending x [] h = (tt, tt)
insert_text-IsAscending x (y ∷ ys) h = elim (Bool-cases (text_before x y)) [
  | inl before ↦ rw before (before, h)
  | inr not_before ↦ elim (Bool-cases (str_eq x y)) [
    | inl same ↦ rw (not_before, same) h
    | inr other ↦ elim (Bool-cases (text_before y x)) [
      | inl after ↦
          rw (not_before, other)
            (insert_text-AheadOf y x ys after h.0, insert_text-IsAscending x ys h.1)
      | inr not_after ↦
          absurd
            (ground (arith, other, (str_eq_iff x y).1 (text_before_total x y not_before not_after)))
    ]
  ]
]

pub sorted_set-IsAscending : (xs : List String) → IsAscending (sorted_set xs)
unfolding sorted_set
sorted_set-IsAscending [] = tt
sorted_set-IsAscending (x ∷ xs) =
    insert_text-IsAscending x (sorted_set xs) (sorted_set-IsAscending xs)

insert_text-ahead : (x : String) (xs : List String) → AheadOf x xs → insert_text x xs ≡ x ∷ xs
unfolding insert_text
insert_text-ahead x [] h = refl
insert_text-ahead x (y ∷ ys) h = rw h

sorted_set-ascending : (xs : List String) → IsAscending xs → sorted_set xs ≡ xs
unfolding sorted_set
sorted_set-ascending [] h = refl
sorted_set-ascending (x ∷ xs) h = rw (sorted_set-ascending xs h.1) (insert_text-ahead x xs h.0)

-- A sorted set stays as it is.
pub sorted_set-sorted_set : (xs : List String) → sorted_set (sorted_set xs) ≡ sorted_set xs
sorted_set-sorted_set xs = sorted_set-ascending (sorted_set xs) (sorted_set-IsAscending xs)
