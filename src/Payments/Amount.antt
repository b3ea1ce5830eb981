-- ===== src/Payments/Amount.antt =====
-- internal/intents/types.go: `Amount`; and `canonicalAmountDecimal` of internal/policies/evaluator.go.
use wizpay_mcp.Base.{
  ℕ, zero, suc, ◌+◌, ◌-◌, ◌==◌, Bool, true, false, not, ◌&&◌, ◌||◌, ltb, leb, if◌then◌else◌, Option,
  none, some, List, [], ◌∷◌, ◌++◌, ℤ, pos, ltb_ℤ, Text, is_empty, text_eq, trim_space, len, Result,
  ok, err, plain, required, refuse_if, ◌>>=◌, ◌>>◌, all_digits, starts_with_zero, big_eq, big_text,
  set_string,
}

pub record Amount : Type 0 where
  pub decimal_text : Text  -- `Decimal`
  pub base_units : Text
  pub decimals : ℕ  -- uint8

-- `strings.Split`, at one byte.
abbrev extend_first : ℕ → List Text → List Text
extend_first c [] = []
extend_first c (part ∷ parts) = (c ∷ part) ∷ parts

unfoldable pub split_at_byte : ℕ → Text → List Text
split_at_byte s [] = [] ∷ []
split_at_byte s (c ∷ cs) =
    let rest = split_at_byte s cs in if c == s then [] ∷ rest else extend_first c rest

-- `strings.Repeat("0", n)`
unfoldable pub zeros : ℕ → Text
zeros zero = []
zeros (suc n) = b'0' ∷ zeros n

abbrev pub ends_with_zero : Text → Bool
ends_with_zero [] = false
ends_with_zero (c ∷ []) = c == b'0'
ends_with_zero (c ∷ d ∷ ds) = ends_with_zero (d ∷ ds)

-- `strings.HasPrefix`, for a prefix of one byte.
abbrev pub starts_with : ℕ → Text → Bool
starts_with b [] = false
starts_with b (c ∷ cs) = c == b

unfoldable pub check_whole : Text → Result (Unit {0})
check_whole whole = do
  refuse_if (is_empty whole || ltb 1 (len whole) && starts_with_zero whole) plain
  refuse_if (not (all_digits whole)) plain

unfoldable pub check_fraction : Text → ℕ → Result (Unit {0})
check_fraction fraction decimals = do
  refuse_if (is_empty fraction || ltb decimals (len fraction) || ends_with_zero fraction) plain
  refuse_if (not (all_digits fraction)) plain

-- The end of `decimalToBaseUnits`.
abbrev pub units_of : Text → Text → ℕ → Result ℤ
units_of whole fraction decimals =
    required (set_string (whole ++ fraction ++ zeros (decimals - len fraction)))

-- `decimalToBaseUnits`, behind the split at the decimal point.
unfoldable pub units_of_parts : List Text → ℕ → Result ℤ
units_of_parts (whole ∷ []) decimals = check_whole whole >> units_of whole [] decimals
units_of_parts (whole ∷ fraction ∷ []) decimals = do
  check_whole whole
  check_fraction fraction decimals
  units_of whole fraction decimals
units_of_parts _ decimals = err plain

-- `decimalToBaseUnits`
unfoldable pub decimal_to_base_units : Text → ℕ → Result ℤ
decimal_to_base_units value decimals = do
  refuse_if
      (is_empty value
        || not (text_eq (trim_space value) value)
        || starts_with b'+' value
        || starts_with b'-' value)
      plain
  units_of_parts (split_at_byte b'.' value) decimals

-- `Amount.Validate`
unfoldable pub validate : Amount → Result (Unit {0})
validate a = do
  refuse_if (ltb 36 a.decimals) plain
  want ← decimal_to_base_units a.decimal_text a.decimals
  refuse_if (is_empty a.base_units || ltb 1 (len a.base_units) && starts_with_zero a.base_units)
      plain
  got ← required (set_string a.base_units)
  refuse_if (ltb_ℤ got (pos 0)) plain
  refuse_if (not (big_eq want got)) plain

-- `Amount.IsZero`
unfoldable pub is_unset : Amount → Bool
is_unset a = is_empty a.decimal_text && is_empty a.base_units && a.decimals == 0

-- `err == nil`
abbrev pub succeeds {ℓ} : {A : Type ℓ} → Result A → Bool
succeeds (ok _) = true
succeeds (err _) = false

abbrev pub is_positive_value : Option ℤ → Bool
is_positive_value (some z) = ltb_ℤ (pos 0) z
is_positive_value none = false

-- `Amount.IsPositive`
unfoldable pub is_positive : Amount → Bool
is_positive a = succeeds (validate a) && is_positive_value (set_string a.base_units)

-- `Amount.BaseInt`
unfoldable pub base_int : Amount → Result ℤ
base_int a = do validate a; required (set_string a.base_units)

-- `==` on amounts.
unfoldable pub amount_eq : Amount → Amount → Bool
amount_eq a b =
    text_eq a.decimal_text b.decimal_text
    && text_eq a.base_units b.base_units
    && a.decimals == b.decimals

-- `strings.TrimRight(digits, "0")`
unfoldable pub trim_zeros : Text → Text
trim_zeros [] = []
trim_zeros (c ∷ cs) =
    let rest = trim_zeros cs in if c == b'0' && is_empty rest then [] else c ∷ rest

-- `digits[:n]` and `digits[n:]`, for ASCII.
unfoldable pub first_bytes : ℕ → Text → Text
first_bytes (suc n) (c ∷ cs) = c ∷ first_bytes n cs
first_bytes _ _ = []

unfoldable pub after_bytes : ℕ → Text → Text
after_bytes (suc n) (c ∷ cs) = after_bytes n cs
after_bytes zero cs = cs
after_bytes (suc n) [] = []

abbrev pub join_parts : Text → Text → Text
join_parts whole [] = whole
join_parts whole (c ∷ cs) = whole ++ b'.' ∷ c ∷ cs

-- The digits, with zeros before them until one stands before the decimal point.
unfoldable pub padded : ℕ → Text → Text
padded width digits =
    if leb (len digits) width then zeros (width - len digits + 1) ++ digits else digits

-- The point set `width` bytes from the end.
unfoldable pub with_point : ℕ → Text → Text
with_point width digits =
    join_parts (first_bytes (len digits - width) digits)
      (trim_zeros (after_bytes (len digits - width) digits))

-- `canonicalAmountDecimal`
unfoldable pub canonical_amount_decimal : ℤ → ℕ → Text
canonical_amount_decimal value width =
    if width == 0 then big_text value else with_point width (padded width (big_text value))
