-- ===== src/Payments/Examples.antt =====
-- Sample payments, and the theorems applied to them.
use wizpay_mcp.Base.{
  ◌≡◌, refl, text, ok, pos, decimal, digits_from, set_string, digits_value, all_digits, text_eq,
  trim_space, drop_spaces, len, has_control, validate_text, validate_chain_id,
}
use wizpay_mcp.Payments.Address
use wizpay_mcp.Payments.Amount
use wizpay_mcp.Payments.Token
use wizpay_mcp.Payments.Payroll
use wizpay_mcp.Payments.CrossPayroll
use wizpay_mcp.Payments.Swap
use wizpay_mcp.Payments.Amount.{decimal_to_base_units, canonical_amount_decimal}
use wizpay_mcp.Payments.Swap.{validate_swap_phase12}
use wizpay_mcp.Payments.Units.{decimal_to_base_units-canonical_amount_decimal}
use wizpay_mcp.Payments.Signs.{with_sign, signed_amount_is_valid}
use wizpay_mcp.Payments.Slippage.{IsFloored, IsTimely, swap_is_bounded}
use wizpay_mcp.Payments.Samples.{demo_libraries, amount, demo_swap, demo_timeline}

print_test : canonical_amount_decimal (pos 1250000) 6 ≡ text "1.25"
unfolding canonical_amount_decimal Amount.with_point Amount.trim_zeros Amount.after_bytes len
    Amount.padded decimal digits_from Amount.zeros Amount.first_bytes
print_test = refl

print_small_test : canonical_amount_decimal (pos 25) 6 ≡ text "0.000025"
unfolding canonical_amount_decimal Amount.with_point Amount.trim_zeros Amount.after_bytes len
    Amount.padded decimal digits_from Amount.zeros Amount.first_bytes
print_small_test = refl

decimal_to_base_units-canonical_amount_decimal_example :
    decimal_to_base_units (canonical_amount_decimal (pos 1250000) 6) 6 ≡ ok (pos 1250000)
decimal_to_base_units-canonical_amount_decimal_example =
    decimal_to_base_units-canonical_amount_decimal 1250000 6

signed_amount_is_valid_example :
    Amount.validate (with_sign (amount (text "1.25") (text "1250000"))) ≡ ok tt
unfolding Amount.validate decimal_to_base_units Amount.units_of_parts Amount.split_at_byte
    Amount.check_whole Amount.check_fraction Amount.zeros set_string digits_value all_digits text_eq
    trim_space drop_spaces len
signed_amount_is_valid_example =
    signed_amount_is_valid (amount (text "1.25") (text "1250000")) refl refl

swap_is_bounded_example : IsFloored demo_swap × IsTimely demo_swap demo_timeline
unfolding validate_swap_phase12 Swap.validate_pair Swap.validate_canonical Swap.validate_amounts
    CrossPayroll.validate_price Swap.minimum_output_ceiling Swap.validate_quoted Swap.validate_quote
    Swap.validate_deadline Token.validate_phase12 Token.validate validate_chain_id validate_text
    has_control Address.validate_nonzero_address Address.valid_address Address.normalize_address
    Address.to_lower Address.addresses_equal Token.is_unset Amount.is_positive Amount.base_int
    Amount.amount_eq Amount.is_unset Amount.validate decimal_to_base_units Amount.units_of_parts
    Amount.split_at_byte Amount.check_whole Amount.check_fraction Amount.zeros set_string
    digits_value all_digits text_eq trim_space drop_spaces len
swap_is_bounded_example = swap_is_bounded demo_swap demo_timeline refl
