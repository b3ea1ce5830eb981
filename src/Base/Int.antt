-- ===== src/Base/Int.antt =====
-- Go's `int` and `time.Duration`: integers of 64 bits.
use Prim.Native.Nat.{ℕ, suc, ◌+◌, ◌-◌}
use mathlib.Core.Bool.{Bool, not}
use wizpay_mcp.Base.Tests.{ltb, ◌==◌, if◌then◌else◌}

-- `negsuc n` is -(n + 1).
pub data ℤ : Type 0 where
  pos : ℕ → ℤ
  negsuc : ℕ → ℤ

abbrev pub pos_part : ℤ → ℕ
pos_part (pos n) = n
pos_part (negsuc n) = 0

abbrev pub neg_part : ℤ → ℕ
neg_part (pos n) = 0
neg_part (negsuc n) = suc n

-- `a < b`
abbrev pub ltb_ℤ : ℤ → ℤ → Bool
ltb_ℤ a b = ltb (pos_part a + neg_part b) (pos_part b + neg_part a)

abbrev pub int_max : ℕ
int_max = 9223372036854775807

-- `a++` wraps from the largest integer to the least.
abbrev pub int_incr : ℤ → ℤ
int_incr (pos n) = if n == int_max then negsuc int_max else pos (n + 1)
int_incr (negsuc n) = if n == 0 then pos 0 else negsuc (n - 1)

-- `a >= b`
abbrev pub geb_ℤ : ℤ → ℤ → Bool
geb_ℤ a b = not (ltb_ℤ a b)
