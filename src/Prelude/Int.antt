-- ===== src/Prelude/Int.antt =====
-- Python's integers, where they may be negative; `negsuc n` is -(n + 1).
use Prim.Native.Nat.{ℕ, zero, suc}
use mathlib.Core.Bool.{Bool, true, false}
use fabric_shortcut_proxy.Prelude.Tests.{◌==◌}

pub data ℤ : Type 0 where
  pos : ℕ → ℤ
  negsuc : ℕ → ℤ

abbrev pub int_eq : ℤ → ℤ → Bool
int_eq (pos m) (pos n) = m == n
int_eq (negsuc m) (negsuc n) = m == n
int_eq _ _ = false

-- `n < -1`
abbrev pub is_below_minus_one : ℤ → Bool
is_below_minus_one (pos n) = false
is_below_minus_one (negsuc zero) = false
is_below_minus_one (negsuc (suc n)) = true
