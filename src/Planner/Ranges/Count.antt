-- ===== src/Planner/Ranges/Count.antt =====
-- `compute_split_count` of src/fabric_shortcut_proxy/planner/split_planner.py meets its targets.
use fabric_shortcut_proxy.Prelude.{ℕ, ◌+◌, ◌-◌, ◌*◌, ◌≤◌, ◌<◌, max, some, arith}
use native.Mathlib.Nat.{lt-div-mul-add, mul-le-mul_right}
use fabric_shortcut_proxy.Planner.Ranges.{
  ceil_div, clamp, row_proposal, byte_proposal, larger, or_default, count_for, compute_split_count,
}

ceil_div-covers : (rows target : ℕ) → 0 < target → rows ≤ ceil_div rows target * target
unfolding ceil_div
ceil_div-covers rows target pos = omega (arith, lt-div-mul-add {a = rows + (target - 1)} pos)

count_for-rows :
    (rows target_rows target_bytes per_row d : ℕ)
    → 0 < rows
    → 0 < target_rows
    → ceil_div rows target_rows
      ≤ or_default (count_for (some rows) target_rows target_bytes per_row) d
unfolding count_for row_proposal byte_proposal larger or_default
count_for-rows rows target_rows target_bytes per_row d some_rows pos = ground arith

-- The count of splits is within the limits; and with a known number of rows and a target for them,
-- unless the upper limit cuts it off, the splits hold all rows at no more than the target each.
pub split_count_meets_target :
    (rows target_rows target_bytes per_row least most default_splits : ℕ)
    → 0 < rows
    → 0 < target_rows
    → let n =
        compute_split_count
          (some rows)
          target_rows
          target_bytes
          per_row
          least
          most
          default_splits in
      (least ≤ n) × (n ≤ max least most) × (n < most → rows ≤ n * target_rows)
unfolding compute_split_count
split_count_meets_target rows target_rows target_bytes per_row least most default_splits some_rows
      pos =
    let p = or_default (count_for (some rows) target_rows target_bytes per_row) default_splits in
    let n = clamp least most p in
    let enough =
      count_for-rows rows target_rows target_bytes per_row default_splits some_rows pos in
    (
      omega arith,
      omega arith,
      λ below.
          (let q = ceil_div rows target_rows in
            let fits : q ≤ n = omega (arith, enough, below) in
            omega (
              arith,
              mul-le-mul_right {m = q} {n = n} target_rows fits,
              ceil_div-covers rows target_rows pos,
            )),
    )
