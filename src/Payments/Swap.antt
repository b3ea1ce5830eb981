-- ===== src/Payments/Swap.antt =====
-- internal/intents/swap_params.go, and its types in types.go.
use wizpay_mcp.Base.{
  ℕ, ◌+◌, ◌-◌, ◌==◌, Bool, not, ◌&&◌, ◌||◌, ltb, leb, if◌then◌else◌, Option, none, some, Text, text,
  is_empty, text_eq, Time, is_zero, ℤ, pos, ltb_ℤ, Result, err, plain, required, refuse_if, when,
  ◌>>=◌, ◌>>◌, validate_text, Libraries, big_add, big_div, big_mul, set_string,
}
use wizpay_mcp.Payments.Address.{addresses_equal, validate_nonzero_address}
use wizpay_mcp.Payments.Amount
use wizpay_mcp.Payments.Amount.{Amount, amount_eq, base_int, is_positive, succeeds}
use wizpay_mcp.Payments.Token
use wizpay_mcp.Payments.Token.{
  Token, address_eurc, address_router, address_usdc, chain_id_arc, validate_phase12,
}
use wizpay_mcp.Payments.Payroll.{is_some}
use wizpay_mcp.Payments.CrossPayroll.{Timeline, no_timeline, contract_window, validate_price}

-- `SwapQuote`
pub record Quote : Type 0 where
  pub quote_id : Text
  pub source : Text
  pub expected_amount_out : Amount
  pub min_amount_out : Amount
  pub router : Text
  pub expires_at : Time
  pub evidence_reference : Text

-- `SwapParameters`
pub record Swap : Type 0 where
  pub schema_version : ℕ  -- uint8
  pub input_token : Token
  pub output_token : Token
  pub input_amount : Amount
  pub expected_output : Amount
  pub minimum_output : Amount
  pub quote_reference : Text
  pub max_slippage_bps : ℕ  -- uint16
  pub min_hop_price_x36 : Text
  pub router : Text
  pub recipient : Text
  pub quote : Option Quote
  pub deadline : Time

-- `IsPhase12`
unfoldable pub is_phase12 : Swap → Bool
is_phase12 s =
    leb 1 s.schema_version
    || not (is_empty s.min_hop_price_x36)
    || not (is_empty s.router)
    || not (is_empty s.recipient)
    || is_some s.quote
    || not (is_zero s.deadline)

-- One round of the loop of `validateLegacy`.
abbrev validate_item : Amount → ℕ → Result (Unit {0})
validate_item a decimals = do Amount.validate a; refuse_if (not (a.decimals == decimals)) plain

-- `validateLegacy`. The amounts are valid, so their base units are read.
unfoldable pub validate_legacy : Swap → Result (Unit {0})
validate_legacy s = do
  Token.validate s.input_token
  Token.validate s.output_token
  validate_item s.input_amount s.input_token.decimals
  validate_item s.expected_output s.output_token.decimals
  validate_item s.minimum_output s.output_token.decimals
  validate_text s.quote_reference
  refuse_if (ltb 10000 s.max_slippage_bps) plain
  minimum ← required (set_string s.minimum_output.base_units)
  expected ← required (set_string s.expected_output.base_units)
  refuse_if (ltb_ℤ expected minimum) plain

-- `minimumOutputCeiling`, for at most 10000 basis points.
unfoldable pub minimum_output_ceiling : ℤ → ℕ → ℤ
minimum_output_ceiling expected bps =
    big_div (big_add (big_mul expected (10000 - bps)) (pos 9999)) 10000

-- A positive amount in a token's units.
abbrev validate_positive : Amount → ℕ → Result (Unit {0})
validate_positive a decimals = do
  refuse_if (not (is_positive a)) plain
  refuse_if (not (a.decimals == decimals)) plain

-- The checks of the amounts in `validatePhase12`.
unfoldable pub validate_amounts : Swap → Result (Unit {0})
validate_amounts s = do
  validate_positive s.input_amount s.input_token.decimals
  validate_positive s.expected_output s.output_token.decimals
  validate_positive s.minimum_output s.output_token.decimals
  refuse_if (ltb 10000 s.max_slippage_bps) plain
  validate_price s.min_hop_price_x36
  expected ← base_int s.expected_output
  minimum ← base_int s.minimum_output
  refuse_if (ltb_ℤ expected minimum) plain
  refuse_if (ltb_ℤ minimum (minimum_output_ceiling expected s.max_slippage_bps)) plain

-- The checks of the deadline in `validatePhase12`.
unfoldable pub validate_deadline : Time → Time → Timeline → Result (Unit {0})
validate_deadline deadline quote_expiry t = do
  refuse_if (is_zero deadline) plain
  when (not (is_zero t.created_at)) (do
    refuse_if (leb quote_expiry t.created_at) plain
    refuse_if (leb deadline t.created_at) plain
    refuse_if (ltb (t.created_at + contract_window) deadline) plain)
  refuse_if (not (is_zero quote_expiry) && ltb quote_expiry deadline) plain
  refuse_if (not (is_zero t.constraint_deadline) && ltb t.constraint_deadline deadline) plain
  refuse_if (not (is_zero t.expires_at) && ltb t.expires_at deadline) plain

module _ ⦃libraries : Libraries⦄ where
  -- `validateCanonicalSwapToken`
  unfoldable pub validate_canonical : Token → Result (Unit {0})
  validate_canonical t = do
    refuse_if
        (not (text_eq t.chain_id chain_id_arc)
          || not (text_eq t.standard (text "ERC20"))
          || not (t.decimals == 6))
        plain
    if addresses_equal t.address address_usdc
        then refuse_if (not (text_eq t.symbol (text "USDC"))) plain
        else if addresses_equal t.address address_eurc
        then refuse_if (not (text_eq t.symbol (text "EURC"))) plain
        else err plain

  -- The checks of the tokens in `validatePhase12`.
  unfoldable pub validate_pair : Token → Token → Result (Unit {0})
  validate_pair input output = do
    validate_phase12 input
    validate_phase12 output
    refuse_if (not (text_eq input.chain_id output.chain_id)) plain
    refuse_if (addresses_equal input.address output.address) plain
    validate_canonical input
    validate_canonical output
    refuse_if
        (not (
          addresses_equal input.address address_usdc && addresses_equal output.address address_eurc
          || addresses_equal input.address address_eurc
            && addresses_equal output.address address_usdc))
        plain

  -- `SwapQuote.validate`
  unfoldable pub validate_quote : Quote → ℕ → Result (Unit {0})
  validate_quote q decimals = do
    validate_text q.quote_id
    validate_text q.source
    validate_text q.evidence_reference
    validate_nonzero_address q.router
    refuse_if (is_zero q.expires_at) plain
    validate_positive q.expected_amount_out decimals
    validate_positive q.min_amount_out decimals
    min ← base_int q.min_amount_out
    expected ← base_int q.expected_amount_out
    refuse_if (ltb_ℤ expected min) plain

  -- `validatePhase12` from its quote on.
  unfoldable pub validate_quoted : Swap → Timeline → Quote → Result (Unit {0})
  validate_quoted s t q = do
    validate_quote q s.output_token.decimals
    refuse_if (not (addresses_equal q.router s.router)) plain
    refuse_if (not (amount_eq q.expected_amount_out s.expected_output)) plain
    refuse_if (not (amount_eq q.min_amount_out s.minimum_output)) plain
    refuse_if (not (is_empty s.quote_reference) && not (text_eq s.quote_reference q.quote_id)) plain
    validate_deadline s.deadline q.expires_at t

  abbrev pub require_quote : Swap → Timeline → Option Quote → Result (Unit {0})
  require_quote s t none = err plain
  require_quote s t (some q) = validate_quoted s t q

  -- `validatePhase12`
  unfoldable pub validate_swap_phase12 : Swap → Timeline → Result (Unit {0})
  validate_swap_phase12 s t = do
    refuse_if (not (s.schema_version == 1)) plain
    validate_pair s.input_token s.output_token
    validate_amounts s
    validate_nonzero_address s.router
    refuse_if (not (addresses_equal s.router address_router)) plain
    validate_nonzero_address s.recipient
    require_quote s t s.quote

  -- `validateWithTimeline`
  unfoldable pub validate_with_timeline : Swap → Timeline → Result (Unit {0})
  validate_with_timeline s t = if is_phase12 s then validate_swap_phase12 s t else validate_legacy s

  -- `SwapParameters.validate`
  unfoldable pub validate_swap : Swap → Result (Unit {0})
  validate_swap s = validate_with_timeline s no_timeline

  -- `Phase12Executable`
  unfoldable pub phase12_executable : Swap → Bool
  phase12_executable s = is_phase12 s && succeeds (validate_swap_phase12 s no_timeline)
