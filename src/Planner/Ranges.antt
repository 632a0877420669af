-- ===== src/Planner/Ranges.antt =====
-- `compute_key_ranges` and `compute_split_count` of
-- src/fabric_shortcut_proxy/planner/split_planner.py, on keys that are not negative.
pub mod Cover
pub mod Count
use fabric_shortcut_proxy.Prelude.{
  ℕ, zero, suc, ◌+◌, ◌-◌, ◌*◌, ◌/◌, max, min, Bool, true, false, ◌&&◌, not, Option, none, some,
  List, [], ◌∷◌, ◌==◌, ltb, leb, if◌then◌else◌,
}

abbrev pub Range : Type 0
Range = ℕ × ℕ

-- `[(key, key)] * count`
repeat : ℕ → Range → List Range
repeat zero r = []
repeat (suc k) r = r ∷ repeat k r

-- `bounds[i]`: the first and the last are set to `lo` and `hi + 1`.
unfoldable pub bound : ℕ → ℕ → ℕ → ℕ → ℕ
bound lo hi n i = if i == n then hi + 1 else if i == 0 then lo else lo + ((hi - lo + 1) * i) / n

-- `[(bounds[i], bounds[i + 1]) for i in range(...)]`, from `i` on, `k` of them.
unfoldable pub ranges_from : (ℕ → ℕ) → ℕ → ℕ → List Range
ranges_from bounds i zero = []
ranges_from bounds i (suc k) = (bounds i, bounds (i + 1)) ∷ ranges_from bounds (i + 1) k

unfoldable pub compute_key_ranges : ℕ → ℕ → ℕ → List Range
unfolding repeat ranges_from bound
compute_key_ranges lo hi count =
    let n = max 1 count in
    if ltb hi lo
    then (lo, lo + 1) ∷ repeat (n - 1) (lo + 1, lo + 1)
    else ranges_from (bound lo hi n) 0 n

-- `math.ceil(rows / target)`, exact as long as the quotient of floats is.
unfoldable pub ceil_div : ℕ → ℕ → ℕ
ceil_div rows target = (rows + (target - 1)) / target

abbrev pub clamp : ℕ → ℕ → ℕ → ℕ
clamp least most n = max least (min most n)

row_proposal : ℕ → ℕ → Option ℕ
unfolding ceil_div
row_proposal rows target = if ltb 0 target then some (ceil_div rows target) else none

byte_proposal : ℕ → ℕ → ℕ → Option ℕ
unfolding ceil_div
byte_proposal rows per_row target =
    if ltb 0 target && ltb 0 per_row then some (ceil_div (rows * per_row) target) else none

larger : Option ℕ → Option ℕ → Option ℕ
larger none b = b
larger (some a) none = some a
larger (some a) (some b) = some (max a b)

or_default : Option ℕ → ℕ → ℕ
or_default none d = d
or_default (some n) d = n

count_for : Option ℕ → ℕ → ℕ → ℕ → Option ℕ
unfolding larger row_proposal byte_proposal
count_for none target_rows target_bytes per_row = none
count_for (some rows) target_rows target_bytes per_row =
    if rows == 0
    then none
    else larger (row_proposal rows target_rows) (byte_proposal rows per_row target_bytes)

-- Every branch is clamped to the configured limits.
unfoldable pub compute_split_count : Option ℕ → ℕ → ℕ → ℕ → ℕ → ℕ → ℕ → ℕ
unfolding count_for or_default
compute_split_count rows target_rows target_bytes per_row least most default_splits =
    clamp least most (or_default (count_for rows target_rows target_bytes per_row) default_splits)
