-- ===== src/Base/BigInt.antt =====
-- What the code calls of Go's `math/big`: `Int` without its sharing.
use Prim.Native.Nat.{ℕ, zero, suc, ◌+◌, ◌-◌, ◌*◌, ◌/◌}
use mathlib.Core.Bool.{Bool, ◌&&◌}
use mathlib.Core.List.{[], ◌∷◌}
use mathlib.Core.Option.{Option, none, some, map}
use wizpay_mcp.Base.Tests.{leb, ◌==◌, if◌then◌else◌}
use wizpay_mcp.Base.Texts.{Text, decimal}
use wizpay_mcp.Base.Int.{ℤ, pos, negsuc}

-- The number -n.
abbrev pub minus : ℕ → ℤ
minus zero = pos 0
minus (suc n) = negsuc n

-- The number a - b.
abbrev pub difference : ℕ → ℕ → ℤ
difference a b = if leb b a then pos (a - b) else negsuc (b - a - 1)

-- `Add`
abbrev pub big_add : ℤ → ℤ → ℤ
big_add (pos a) (pos b) = pos (a + b)
big_add (pos a) (negsuc b) = difference a (suc b)
big_add (negsuc a) (pos b) = difference b (suc a)
big_add (negsuc a) (negsuc b) = negsuc (a + b + 1)

-- `Mul`, by a number that is not negative.
abbrev pub big_mul : ℤ → ℕ → ℤ
big_mul (pos a) n = pos (a * n)
big_mul (negsuc a) n = minus (suc a * n)

-- `Quo`, by a positive number: it rounds towards zero.
abbrev pub big_quo : ℤ → ℕ → ℤ
big_quo (pos a) n = pos (a / n)
big_quo (negsuc a) n = minus (suc a / n)

-- `Div`, by a positive number: it rounds down.
abbrev pub big_div : ℤ → ℕ → ℤ
big_div (pos a) n = pos (a / n)
big_div (negsuc a) n = negsuc (a / n)

-- `Cmp(...) == 0`
abbrev pub big_eq : ℤ → ℤ → Bool
big_eq (pos a) (pos b) = a == b
big_eq (negsuc a) (negsuc b) = a == b
big_eq _ _ = Bool.false

-- `BitLen() > 128`
abbrev pub exceeds_uint128 : ℤ → Bool
exceeds_uint128 (pos a) = leb 340282366920938463463374607431768211456 a
exceeds_uint128 (negsuc a) = leb 340282366920938463463374607431768211455 a

-- `String`
abbrev pub big_text : ℤ → Text
big_text (pos n) = decimal n
big_text (negsuc n) = b'-' ∷ decimal (suc n)

-- The value of decimal digits behind those read.
unfoldable pub digits_value : ℕ → Text → Option ℕ
digits_value acc [] = some acc
digits_value acc (c ∷ cs) =
    let rest = digits_value (acc * 10 + (c - b'0')) cs in
    if leb b'0' c && leb c b'9' then rest else none

-- `SetString(value, 10)`: a sign or none, and at least one digit.
unfoldable pub set_string : Text → Option ℤ
unfolding digits_value
set_string [] = none
set_string (c ∷ []) = map pos (digits_value 0 (c ∷ []))
set_string (c ∷ d ∷ ds) =
    if c == b'+'
    then map pos (digits_value 0 (d ∷ ds))
    else if c == b'-'
    then map minus (digits_value 0 (d ∷ ds))
    else map pos (digits_value 0 (c ∷ d ∷ ds))
