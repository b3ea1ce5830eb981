-- ===== src/Payments/Address.antt =====
-- internal/contracts/address.go and internal/intents/address.go: EVM addresses.
use wizpay_mcp.Base.{
  ℕ, ◌+◌, ◌==◌, Bool, false, not, ◌&&◌, ◌||◌, ltb, leb, if◌then◌else◌, [], ◌∷◌, Text, text, text_eq,
  trim_space, len, Result, plain, refuse_if, ◌>>◌, Libraries,
}

abbrev has_hex_prefix : Text → Bool
has_hex_prefix (a ∷ b ∷ cs) = a == b'0' && (b == b'x' || b == b'X')
has_hex_prefix _ = false

module _ ⦃libraries : Libraries⦄ where
  open libraries use {is_hex_address, lower_rune}

  abbrev lower : ℕ → ℕ
  lower c = if leb b'A' c && leb c b'Z' then c + 32 else if ltb c 128 then c else lower_rune c

  -- `strings.ToLower`
  unfoldable pub to_lower : Text → Text
  to_lower [] = []
  to_lower (c ∷ cs) = lower c ∷ to_lower cs

  -- `ValidAddress`
  unfoldable pub valid_address : Text → Bool
  valid_address value = has_hex_prefix value && len value == 42 && is_hex_address value

  -- The end of `NormalizeAddress`, behind its TrimSpace.
  abbrev lowered : Text → Text
  lowered value = if valid_address value then to_lower value else value

  -- `NormalizeAddress`
  unfoldable pub normalize_address : Text → Text
  normalize_address value = lowered (trim_space value)

  -- `AddressesEqual`
  unfoldable pub addresses_equal : Text → Text → Bool
  addresses_equal a b =
      valid_address a && valid_address b && text_eq (normalize_address a) (normalize_address b)

  -- `validateNonZeroEVMAddress`
  unfoldable pub validate_nonzero_address : Text → Result (Unit {0})
  validate_nonzero_address value = do
    refuse_if (not (valid_address value)) plain
    refuse_if
        (text_eq (normalize_address value) (text "0x0000000000000000000000000000000000000000"))
        plain
