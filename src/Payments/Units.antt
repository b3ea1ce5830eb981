-- ===== src/Payments/Units.antt =====
-- Printed amounts are read back.
use wizpay_mcp.Base.{
  ℕ, zero, suc, ◌+◌, ◌-◌, ◌<◌, ◌≤◌, ◌≡◌, ◌≢◌, refl, sym, ap, ◌∙◌, true, false, leb, ◌==◌, some, [],
  ◌∷◌, ◌++◌, Text, len, text_eq_refl, decimal, pos, ok, required, all_digits, starts_with_zero,
  set_string, digits_value, arith, Bool-cases, inl, inr,
}
use wizpay_mcp.Base.Plain.{is_plain, is_plain-append, trim_space-plain}
use mathlib.Core.List.{append-nil, append_assoc}
use wizpay_mcp.Payments.Amount.{
  zeros, split_at_byte, ends_with_zero, check_whole, check_fraction, units_of, units_of_parts,
  decimal_to_base_units, trim_zeros, first_bytes, after_bytes, join_parts, padded, with_point,
  canonical_amount_decimal,
}
use wizpay_mcp.Payments.Digits.{
  all_digits-append, all_digits-zeros, len-append, len-zeros, decimal-all_digits,
  digits_value-decimal, decimal_ne_nil, decimal-starts, digits_value-zeros, set_string-digits,
  trim_zeros-cut, trim_zeros-end, trim_zeros-all_digits, first-after, first_bytes-all_digits,
  len-first_bytes, starts-first_bytes,
}

is_plain-digits : (t : Text) → all_digits t ≡ true → is_plain t ≡ true
unfolding all_digits
is_plain-digits [] h = refl
is_plain-digits (c ∷ cs) h = ground (arith, is_plain-digits cs)

split-digits : (t : Text) → all_digits t ≡ true → split_at_byte b'.' t ≡ t ∷ []
unfolding all_digits split_at_byte
split-digits [] h = refl
split-digits (c ∷ cs) h =
    let other : (c == b'.') ≡ false = ground arith in
    rw (other, split-digits cs (ground arith)) refl

split-point :
    (w f : Text)
    → all_digits w ≡ true
    → all_digits f ≡ true
    → split_at_byte b'.' (w ++ b'.' ∷ f) ≡ w ∷ f ∷ []
unfolding all_digits split_at_byte
split-point [] f h k = rw (split-digits f k) refl
split-point (c ∷ cs) f h k =
    let other : (c == b'.') ≡ false = ground arith in
    rw (other, split-point cs f (ground arith) k) refl

-- A text of digits and points that is not empty is split and read.
plain_is_read :
    (c : ℕ) (cs : Text) (d : ℕ)
    → is_plain (c ∷ cs) ≡ true
    → decimal_to_base_units (c ∷ cs) d ≡ units_of_parts (split_at_byte b'.' (c ∷ cs)) d
unfolding decimal_to_base_units
plain_is_read c cs d h =
    let unsigned : ((c == b'+') ≡ false) × ((c == b'-') ≡ false) = ground arith in
    rw (trim_space-plain (c ∷ cs) h, text_eq_refl (c ∷ cs), unsigned.0, unsigned.1) refl

-- A whole part, canonical digits.
abbrev IsWhole : Text → Type 0
IsWhole w = (w ≢ []) × (all_digits w ≡ true) × (1 < len w → starts_with_zero w ≡ false)

check_whole-IsWhole : (w : Text) → IsWhole w → check_whole w ≡ ok tt
unfolding check_whole
check_whole-IsWhole [] (n, d, z) = absurd (n refl)
check_whole-IsWhole (c ∷ cs) (n, d, z) = ground (arith, d, z)

-- A fraction without trailing zeros.
abbrev IsFraction : Text → ℕ → Type 0
IsFraction f d = (f ≢ []) × (all_digits f ≡ true) × (ends_with_zero f ≡ false) × (len f ≤ d)

check_fraction-IsFraction : (f : Text) (d : ℕ) → IsFraction f d → check_fraction f d ≡ ok tt
unfolding check_fraction
check_fraction-IsFraction [] d (n, h, z, b) = absurd (n refl)
check_fraction-IsFraction (c ∷ cs) d (n, h, z, b) = ground (arith, h, z)

whole_part : (w : Text) (d : ℕ) → IsWhole w → units_of_parts (w ∷ []) d ≡ units_of w [] d
unfolding units_of_parts
whole_part w d h = rw (check_whole-IsWhole w h) refl

whole_is_read : (w : Text) (d : ℕ) → IsWhole w → decimal_to_base_units w d ≡ units_of w [] d
whole_is_read [] d h = absurd (h.0 refl)
whole_is_read (c ∷ cs) d h =
    plain_is_read c cs d (is_plain-digits (c ∷ cs) h.1)
    ∙ rw (split-digits (c ∷ cs) h.1) (whole_part (c ∷ cs) d h)

parts_are_read :
    (w f : Text) (d : ℕ)
    → IsWhole w
    → IsFraction f d
    → units_of_parts (w ∷ f ∷ []) d ≡ units_of w f d
unfolding units_of_parts
parts_are_read w f d h k = rw (check_whole-IsWhole w h, check_fraction-IsFraction f d k) refl

point_is_read :
    (w f : Text) (d : ℕ)
    → IsWhole w
    → IsFraction f d
    → decimal_to_base_units (w ++ b'.' ∷ f) d ≡ units_of w f d
point_is_read [] f d h k = absurd (h.0 refl)
point_is_read (c ∷ cs) f d h k =
    plain_is_read c (cs ++ b'.' ∷ f) d (
      is_plain-append (c ∷ cs) (b'.' ∷ f) (is_plain-digits (c ∷ cs) h.1)
        (ground (arith, is_plain-digits f k.1)))
    ∙ rw (split-point (c ∷ cs) f h.1 k.1) (parts_are_read (c ∷ cs) f d h k)

-- Both forms together: a whole part and trimmed digits.
join_is_read :
    (w f : Text) (d : ℕ)
    → IsWhole w
    → all_digits f ≡ true
    → ends_with_zero f ≡ false
    → len f ≤ d
    → decimal_to_base_units (join_parts w f) d ≡ units_of w f d
join_is_read w [] d h a z b = whole_is_read w d h
join_is_read w (c ∷ cs) d h a z b = point_is_read w (c ∷ cs) d h ((λ e. cc), a, z, b)

-- Digits that spell n.
abbrev Spells : Text → ℕ → Type 0
Spells t n = (t ≢ []) × (all_digits t ≡ true) × (digits_value 0 t ≡ some n)

set_string-Spells : (t : Text) (n : ℕ) → Spells t n → set_string t ≡ some (pos n)
set_string-Spells t n (k, a, v) = set_string-digits t a k ∙ rw v refl

decimal-Spells : (n : ℕ) → Spells (decimal n) n
decimal-Spells n = (decimal_ne_nil n, decimal-all_digits n, digits_value-decimal n)

-- What padding gives: more digits than the width, and no spare zero before the point.
IsPadded : Text → ℕ → Type 0
IsPadded t width = (width < len t) × (width + 1 < len t → starts_with_zero t ≡ false)

long_ne_nil : (t : Text) (k : ℕ) → k < len t → t ≢ []
unfolding len
long_ne_nil [] k h e = omega arith
long_ne_nil (c ∷ cs) k h e = cc

padded-Spells :
    (n width : ℕ) → Spells (padded width (decimal n)) n × IsPadded (padded width (decimal n)) width
unfolding padded IsPadded
padded-Spells n width = elim (Bool-cases (leb (len (decimal n)) width)) [
  | inl short ↦
      let row = zeros (width - len (decimal n) + 1) in
      let long : len (row ++ decimal n) ≡ width + 1 =
        len-append row (decimal n) ∙ ground (arith, len-zeros (width - len (decimal n) + 1)) in
      rw short (
        (
          long_ne_nil (row ++ decimal n) width (omega arith),
          all_digits-append row (decimal n) (all_digits-zeros (width - len (decimal n) + 1))
              (decimal-all_digits n),
          digits_value-zeros (width - len (decimal n) + 1) (decimal n) ∙ digits_value-decimal n,
        ),
        (omega arith, λ h. absurd (omega arith)),
      )
  | inr long ↦ rw long (decimal-Spells n, (ground arith, λ h. decimal-starts n (omega arith)))
]

with_point_is_read :
    (t : Text) (n width : ℕ)
    → Spells t n
    → IsPadded t width
    → decimal_to_base_units (with_point width t) width ≡ ok (pos n)
unfolding with_point IsPadded
with_point_is_read t n width s p =
    let k = len t - width in
    let whole = first_bytes k t in
    let rest = after_bytes k t in
    let digits = first_bytes-all_digits k t s.1 in
    let size = len-first_bytes k t s.1 (omega arith) in
    let rejoined = first-after k t in
    let (j, cut) = trim_zeros-cut rest in
    let rest_size : len rest ≡ width =
      omega (arith, len-append whole rest, ap len rejoined, size, p.0) in
    let row : width - len (trim_zeros rest) ≡ j =
      omega (arith, len-append (trim_zeros rest) (zeros j), ap len cut, rest_size, len-zeros j) in
    join_is_read whole (trim_zeros rest) width
      (
        long_ne_nil whole 0 (omega (arith, size, p.0)),
        digits.0,
        λ h. starts-first_bytes k t (omega (arith, size, p.0)) ∙ p.1 (omega (arith, size, p.0)),
      )
      (trim_zeros-all_digits rest digits.1) (trim_zeros-end rest)
      (omega (arith, len-append (trim_zeros rest) (zeros j), ap len cut, rest_size))
    ∙ ap (λ r. required (set_string (whole ++ trim_zeros rest ++ zeros r))) row
    ∙ ap (λ r. required (set_string r))
        (append_assoc whole (trim_zeros rest) (zeros j) ∙ ap (λ r. whole ++ r) (sym cut) ∙ rejoined)
    ∙ ap required (set_string-Spells t n s)

-- What canonicalAmountDecimal prints for a number of base units that is not negative,
-- decimalToBaseUnits reads back, at any number of decimals.
pub decimal_to_base_units-canonical_amount_decimal :
    (n width : ℕ)
    → decimal_to_base_units (canonical_amount_decimal (pos n) width) width ≡ ok (pos n)
unfolding canonical_amount_decimal zeros len
decimal_to_base_units-canonical_amount_decimal n zero =
    whole_is_read (decimal n) 0 (decimal_ne_nil n, decimal-all_digits n, decimal-starts n)
    ∙ ap (λ r. required (set_string r)) (append-nil (decimal n ++ []) ∙ append-nil (decimal n))
    ∙ ap required (set_string-Spells (decimal n) n (decimal-Spells n))
decimal_to_base_units-canonical_amount_decimal n (suc width) =
    let positive : (suc width == 0) ≡ false = ground arith in
    let (spelled, padded_to) = padded-Spells n (suc width) in
    rw positive
      (with_point_is_read (padded (suc width) (decimal n)) n (suc width) spelled padded_to)
