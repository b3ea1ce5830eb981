-- ===== src/Payments/Token.antt =====
-- Tokens, and the addresses of the chain that the code names: `Token` of
-- internal/intents/types.go, internal/contracts/deployment.go and resources.go,
-- `canonicalPayrollToken` and `samePayrollToken` of internal/intents/payroll_params.go.
use wizpay_mcp.Base.{
  ℕ, ◌==◌, Bool, ◌&&◌, ltb, if◌then◌else◌, Text, text, is_empty, text_eq, Result, plain, refuse_if,
  ◌>>◌, validate_text, validate_chain_id, Libraries,
}
use wizpay_mcp.Payments.Address.{addresses_equal, validate_nonzero_address}

pub record Token : Type 0 where
  pub chain_id : Text
  pub standard : Text
  pub address : Text
  pub symbol : Text
  pub decimals : ℕ  -- uint8

-- `Token.IsZero`
unfoldable pub is_unset : Token → Bool
is_unset t =
    is_empty t.chain_id
    && is_empty t.standard
    && is_empty t.address
    && is_empty t.symbol
    && t.decimals == 0

-- `Token.Validate`
unfoldable pub validate : Token → Result (Unit {0})
validate t = do
  validate_chain_id t.chain_id
  validate_text t.standard
  validate_text t.address
  validate_text t.symbol
  refuse_if (ltb 36 t.decimals) plain

abbrev pub chain_id_arc : Text
chain_id_arc = text "5042"

abbrev pub network_arc : Text
network_arc = text "MAINNET"

abbrev pub address_payroll : Text
address_payroll = text "0x77AC7Cb6507D404b5530fC03e3D39BAaEdE10C34"

abbrev pub address_usdc : Text
address_usdc = text "0x3600000000000000000000000000000000000000"

abbrev pub address_eurc : Text
address_eurc = text "0xbEf5f6d51CB62b58e6A8f77868681825C6fe21c1"

abbrev pub address_router : Text
address_router = text "0x4fca4a51ab4f23a7447b3284fbd7d73289a89fb1"

module _ ⦃libraries : Libraries⦄ where
  -- `ValidatePhase12Token`
  unfoldable pub validate_phase12 : Token → Result (Unit {0})
  validate_phase12 t = do validate t; validate_nonzero_address t.address

  -- `canonicalPayrollToken`
  unfoldable pub is_canonical : Token → Bool
  is_canonical t =
      text_eq t.chain_id chain_id_arc
      && text_eq t.standard (text "ERC20")
      && t.decimals == 6
      && (if text_eq t.symbol (text "USDC")
          then addresses_equal t.address address_usdc
          else text_eq t.symbol (text "EURC") && addresses_equal t.address address_eurc)

  -- `samePayrollToken`
  unfoldable pub is_same : Token → Token → Bool
  is_same a b =
      is_canonical a
      && is_canonical b
      && text_eq a.chain_id b.chain_id
      && text_eq a.standard b.standard
      && a.decimals == b.decimals
      && text_eq a.symbol b.symbol
      && addresses_equal a.address b.address
