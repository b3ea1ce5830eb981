-- ===== src/Base/Fields.antt =====
-- The checks of text fields that the packages repeat: `validateIdentityField` of
-- internal/auth/identity.go, the loop of `Binding.Validate`, and the `validateText` and
-- `validateChainID` of internal/intents, internal/policies and internal/wallet.
use Prim.Native.Nat.{ℕ}
use mathlib.Core.Bool.{Bool, true, false, not, ◌&&◌, ◌||◌}
use mathlib.Core.List.{[], ◌∷◌}
use wizpay_mcp.Base.Tests.{ltb, leb, ◌==◌}
use wizpay_mcp.Base.Texts.{Text, is_empty, len, text_eq, trim_space, has_control}
use wizpay_mcp.Base.Outcome.{Result, plain, refuse_if, ◌>>◌}

-- A field that need not be trimmed.
unfoldable pub validate_field : Text → Result (Unit {0})
validate_field value = do
  refuse_if (is_empty value) plain
  refuse_if (ltb 256 (len value)) plain
  refuse_if (has_control value) plain

-- `validateText`. A `Text` is valid UTF-8.
unfoldable pub validate_text : Text → Result (Unit {0})
validate_text value = do
  refuse_if (is_empty value || not (text_eq (trim_space value) value)) plain
  refuse_if (ltb 256 (len value)) plain
  refuse_if (has_control value) plain

abbrev pub is_digit : ℕ → Bool
is_digit c = leb b'0' c && leb c b'9'

unfoldable pub all_digits : Text → Bool
all_digits [] = true
all_digits (c ∷ cs) = is_digit c && all_digits cs

abbrev pub starts_with_zero : Text → Bool
starts_with_zero [] = false
starts_with_zero (c ∷ cs) = c == b'0'

-- `validateChainID`
unfoldable pub validate_chain_id : Text → Result (Unit {0})
unfolding all_digits
validate_chain_id value = do
  refuse_if (is_empty value || ltb 20 (len value) || starts_with_zero value) plain
  refuse_if (not (all_digits value)) plain
