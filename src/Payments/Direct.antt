-- ===== src/Payments/Direct.antt =====
-- internal/intents/send_params.go and deferred_params.go: transfers, bridges and names.
use wizpay_mcp.Base.{
  ℕ, ◌==◌, Bool, false, not, ◌||◌, if◌then◌else◌, Option, none, some, Text, text, text_eq, [], ◌∷◌,
  Result, plain, required, refuse_if, ◌>>=◌, ◌>>◌, validate_text, validate_chain_id, Libraries,
}
use wizpay_mcp.Payments.Address.{addresses_equal, to_lower, validate_nonzero_address}
use wizpay_mcp.Payments.Amount
use wizpay_mcp.Payments.Amount.{Amount, is_positive}
use wizpay_mcp.Payments.Token
use wizpay_mcp.Payments.Token.{Token, validate_phase12, chain_id_arc, address_usdc, address_eurc}

-- `SendParameters`
pub record Send : Type 0 where
  pub token : Token
  pub recipient : Text
  pub amount : Amount

-- `BridgeParameters`
pub record Bridge : Type 0 where
  pub source_chain_id : Text
  pub destination_chain_id : Text
  pub source_token : Token
  pub source_amount : Amount
  pub destination_amount : Amount
  pub destination_address : Text
  pub plan_reference : Text

-- `ANSParameters`
pub record Ans : Type 0 where
  pub normalized_name : Text
  pub name_version : Text
  pub term_seconds : ℕ  -- uint64
  pub controller : Text
  pub cost_token : Token
  pub cost : Amount

-- `BridgeParameters.validate`
unfoldable pub validate_bridge : Bridge → Result (Unit {0})
validate_bridge b = do
  validate_chain_id b.source_chain_id
  validate_chain_id b.destination_chain_id
  refuse_if (text_eq b.source_chain_id b.destination_chain_id) plain
  Token.validate b.source_token
  refuse_if (not (text_eq b.source_token.chain_id b.source_chain_id)) plain
  Amount.validate b.source_amount
  Amount.validate b.destination_amount
  refuse_if (not (b.source_amount.decimals == b.source_token.decimals)) plain
  validate_text b.destination_address
  validate_text b.plan_reference

abbrev ends_with_dot : Text → Bool
ends_with_dot [] = false
ends_with_dot (c ∷ []) = c == b'.'
ends_with_dot (c ∷ d ∷ ds) = ends_with_dot (d ∷ ds)

-- The address of `CanonicalToken`; its other fields are the same for both tokens.
unfoldable pub canonical_address : Text → Option Text
canonical_address symbol =
    if text_eq symbol (text "USDC")
    then some address_usdc
    else if text_eq symbol (text "EURC")
    then some address_eurc
    else none

module _ ⦃libraries : Libraries⦄ where
  -- `ANSParameters.validate`
  unfoldable pub validate_ans : Ans → Result (Unit {0})
  validate_ans a = do
    validate_text a.normalized_name
    refuse_if
        (not (text_eq a.normalized_name (to_lower a.normalized_name))
          || ends_with_dot a.normalized_name)
        plain
    validate_text a.name_version
    refuse_if (a.term_seconds == 0) plain
    validate_text a.controller
    Token.validate a.cost_token
    Amount.validate a.cost
    refuse_if (not (a.cost.decimals == a.cost_token.decimals)) plain

  -- `SendParameters.validate`
  unfoldable pub validate_send : Send → Result (Unit {0})
  validate_send s = do
    validate_phase12 s.token
    address ← required (canonical_address s.token.symbol)
    refuse_if
        (not (text_eq s.token.chain_id chain_id_arc)
          || not (text_eq s.token.standard (text "ERC20"))
          || not (addresses_equal s.token.address address)
          || not (s.token.decimals == 6))
        plain
    validate_nonzero_address s.recipient
    refuse_if (not (is_positive s.amount)) plain
    refuse_if (not (s.amount.decimals == 6)) plain
