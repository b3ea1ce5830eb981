-- ===== src/Payments/Signs.antt =====
-- A sign that the check of base units lets through.
use wizpay_mcp.Base.{
  ◌≡◌, ◌≢◌, refl, sym, Bool, true, false, ◌&&◌, ltb, [], ◌∷◌, Text, len, all_digits, ok, set_string,
  arith,
}
use wizpay_mcp.Payments.Amount.{Amount, validate}
use wizpay_mcp.Payments.Digits.{set_string-digits}

abbrev pub with_sign : Amount → Amount
with_sign a = record a { base_units = b'+' ∷ a.base_units }

plus_is_read : (t : Text) → all_digits t ≡ true → t ≢ [] → set_string (b'+' ∷ t) ≡ set_string t
unfolding set_string
plus_is_read [] d n = absurd (n refl)
plus_is_read (c ∷ cs) d n = sym (set_string-digits (c ∷ cs) d n)

and_false : (b : Bool) → (b && false) ≡ false
and_false true = refl
and_false false = refl

valid_has_units : (a : Amount) → validate a ≡ ok tt → a.base_units ≢ []
unfolding validate
valid_has_units a h e = ground arith

-- A valid amount whose base units are digits stays valid when a plus sign is put before them.
pub signed_amount_is_valid :
    (a : Amount)
    → all_digits a.base_units ≡ true
    → validate a ≡ ok tt
    → validate (with_sign a) ≡ ok tt
unfolding validate
signed_amount_is_valid a d h =
    rw
      (
        plus_is_read a.base_units d (valid_has_units a h),
        and_false (ltb 1 (len (b'+' ∷ a.base_units))),
      )
      (ground arith)
