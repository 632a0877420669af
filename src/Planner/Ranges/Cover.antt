-- ===== src/Planner/Ranges/Cover.antt =====
-- The ranges of the splits cover every key once: no row is lost, and none is read twice.
use fabric_shortcut_proxy.Prelude.{
  ℕ, zero, suc, ◌+◌, ◌-◌, ◌*◌, ◌/◌, ◌≤◌, ◌<◌, max, Bool, true, false, ◌&&◌, List, ◌==◌, ltb, leb,
  if◌then◌else◌, ◌≡◌, refl, arith, length, sum_by, Bool-cases, inl, inr, ap,
}
use native.Mathlib.Nat.{
  le-div_iff_mul-le, div-mul-le_self, mul-le-mul_left, mul-div_cancel, zero-div,
}
use fabric_shortcut_proxy.Planner.Ranges.{Range, bound, ranges_from, compute_key_ranges}

-- `key >= lo AND key < hi`, the predicate of a split's query.
abbrev pub is_within : ℕ → Range → Bool
is_within key r = leb r.0 key && ltb key r.1

abbrev pub readers : ℕ → List Range → ℕ
readers key rs = sum_by (λ r. if is_within key r then 1 else 0) rs

abbrev IsRising : (ℕ → ℕ) → Type 0
IsRising b = (i : ℕ) → b i ≤ b (i + 1)

rising-le : (b : ℕ → ℕ) → IsRising b → (i k : ℕ) → b i ≤ b (i + k)
rising-le b up i zero = let e : i + 0 ≡ i = omega arith in omega (arith, ap b e)
rising-le b up i (suc k) =
    let e : i + 1 + k ≡ i + suc k = omega arith in
    omega (arith, up i, rising-le b up (i + 1) k, ap b e)

-- The ranges between rising bounds read each key between the first and the last bound once.
readers-ranges_from :
    (b : ℕ → ℕ)
    → IsRising b
    → (key i k : ℕ)
    → readers key (ranges_from b i k) ≡ (if leb (b i) key && ltb key (b (i + k)) then 1 else 0)
unfolding ranges_from
readers-ranges_from b up key i zero = let e : i + 0 ≡ i = omega arith in ground (arith, ap b e)
readers-ranges_from b up key i (suc k) =
    let e : i + 1 + k ≡ i + suc k = omega arith in
    ground (arith, readers-ranges_from b up key (i + 1) k, ap b e, up i, rising-le b up (i + 1) k)

div_mono : (x y k : ℕ) → 0 < k → x ≤ y → x / k ≤ y / k
div_mono x y k pos h = (le-div_iff_mul-le pos).1 (omega (arith, div-mul-le_self x k, h))

the_zero : (i : ℕ) → (i == 0) ≡ true → i ≡ 0
the_zero i h = ground arith

length-ranges_from : (b : ℕ → ℕ) (i k : ℕ) → length (ranges_from b i k) ≡ k
unfolding ranges_from
length-ranges_from b i zero = refl
length-ranges_from b i (suc k) = omega (arith, length-ranges_from b (i + 1) k)

plain_bound : (lo hi n i : ℕ) → lo ≤ hi → 0 < n → bound lo hi n i ≡ lo + ((hi - lo + 1) * i) / n
unfolding bound
plain_bound lo hi n i h pos = elim (Bool-cases (i == n)) [
  | inl last ↦
      let e : i ≡ n = ground (arith, last) in
      rw (e, mul-div_cancel (hi - lo + 1) pos) (ground arith)
  | inr inner ↦ elim (Bool-cases (i == 0)) [
    | inr other ↦ rw (inner, other) refl
    | inl first ↦
        let e : (hi - lo + 1) * i ≡ 0 = rw (the_zero i first) (omega arith) in
        rw (inner, first, e, zero-div n) (omega arith)
  ]
]

bound-IsRising : (lo hi n : ℕ) → lo ≤ hi → 0 < n → IsRising (bound lo hi n)
bound-IsRising lo hi n h pos i =
    rw (plain_bound lo hi n i h pos, plain_bound lo hi n (i + 1) h pos)
      (omega (
        arith,
        div_mono ((hi - lo + 1) * i) ((hi - lo + 1) * (i + 1)) n pos
            (mul-le-mul_left (hi - lo + 1) (omega arith)),
      ))

outer_low : (lo hi n : ℕ) → 0 < n → bound lo hi n 0 ≡ lo
unfolding bound
outer_low lo hi n pos = ground arith

outer_high : (lo hi n : ℕ) → bound lo hi n (0 + n) ≡ hi + 1
unfolding bound
outer_high lo hi n = ground arith

-- For a key interval that is not empty: as many ranges as splits, every key of the interval is in
-- exactly one of them, and no range reads a key outside of it.
pub compute_key_ranges-cover :
    (lo hi count key : ℕ)
    → lo ≤ hi
    → (length (compute_key_ranges lo hi count) ≡ max 1 count)
      × (readers key (compute_key_ranges lo hi count) ≡ (if leb lo key && leb key hi then 1 else 0))
unfolding compute_key_ranges
compute_key_ranges-cover lo hi count key h =
    let n = max 1 count in
    let pos : 0 < n = omega arith in
    let b = bound lo hi n in
    let filled : ltb hi lo ≡ false = ground arith in
    let first : b 0 ≡ lo = outer_low lo hi n pos in
    let last : b (0 + n) ≡ hi + 1 = outer_high lo hi n in
    (
      rw filled (length-ranges_from b 0 n),
      rw (filled, readers-ranges_from b (bound-IsRising lo hi n h pos) key 0 n, first, last)
          (ground arith),
    )
