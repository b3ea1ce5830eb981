-- ===== src/Payments/Values.antt =====
-- The integers of amounts.
use wizpay_mcp.Base.{
  ℕ, ◌<◌, ◌≡◌, refl, true, Option, none, some, ℤ, geb_ℤ, ◌≢◌, pos, negsuc, pos_part, ok, set_string,
  arith,
}
use wizpay_mcp.Payments.Amount
use wizpay_mcp.Payments.Amount.{Amount, base_int, is_positive, is_positive_value}

-- The base units of an amount.
abbrev or_zero : Option ℤ → ℤ
or_zero none = pos 0
or_zero (some z) = z

abbrev pub units : Amount → ℕ
units a = pos_part (or_zero (set_string a.base_units))

positive_value :
    (o : Option ℤ) → is_positive_value o ≡ true → (n : ℕ) × (o ≡ some (pos n)) × (0 < n)
positive_value none h = cc
positive_value (some (pos n)) h = (n, refl, ground arith)
positive_value (some (negsuc n)) h = absurd (ground arith)

-- The integer of a positive amount.
pub positive-base_int :
    (a : Amount) → is_positive a ≡ true → (base_int a ≡ ok (pos (units a))) × (0 < units a)
unfolding is_positive base_int
positive-base_int a h =
    let (n, e, p) = positive_value (set_string a.base_units) (ground arith) in
    let valid : Amount.validate a ≡ ok tt = ground arith in rw (valid, e) (refl, p)

read_value :
    (o : Option ℤ)
    → o ≢ none
    → geb_ℤ (or_zero o) (pos 0) ≡ true
    → o ≡ some (pos (pos_part (or_zero o)))
read_value none n h = absurd (n refl)
read_value (some (pos n)) m h = refl
read_value (some (negsuc n)) m h = absurd (ground arith)

-- The integer of a valid amount.
pub valid-set_string :
    (a : Amount) → Amount.validate a ≡ ok tt → set_string a.base_units ≡ some (pos (units a))
unfolding Amount.validate
valid-set_string a h = read_value (set_string a.base_units) (λ e. ground (arith, e)) (ground arith)
