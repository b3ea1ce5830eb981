-- ===== src/Payments/CrossPayroll.antt =====
-- internal/intents/payroll_params.go: payrolls paid in another token, and the dispatch between the
-- shapes of a payroll.
use wizpay_mcp.Base.{
  ℕ, ◌+◌, ◌/◌, ◌==◌, Bool, not, ◌&&◌, ◌||◌, ltb, leb, if◌then◌else◌, Option, none, some, List, [],
  ◌∷◌, length, Text, is_empty, text_eq, len, Time, is_zero, ℤ, pos, ltb_ℤ, Result, ok, err, plain,
  required, refuse_if, when, ◌>>=◌, ◌>>◌, starts_with_zero, Libraries, contains, big_add, big_text,
  exceeds_uint128, set_string,
}
use wizpay_mcp.Payments.Address.{addresses_equal, normalize_address, validate_nonzero_address}
use wizpay_mcp.Payments.Amount
use wizpay_mcp.Payments.Amount.{Amount, amount_eq, base_int, is_positive, succeeds}
use wizpay_mcp.Payments.Token
use wizpay_mcp.Payments.Token.{Token, address_payroll, is_canonical, is_same}
use wizpay_mcp.Payments.Payroll.{
  Recipient, CrossToken, Payroll, is_single, is_batch_single, is_phase12, is_some,
  validate_reference_id, validate_legacy, validate_payroll_phase12,
}

-- The clock that a caller gives; zero instants are not checked.
pub record Timeline : Type 0 where
  pub created_at : Time
  pub constraint_deadline : Time
  pub expires_at : Time

abbrev pub no_timeline : Timeline
no_timeline = record { created_at = 0; constraint_deadline = 0; expires_at = 0 }

-- 20 minutes, in nanoseconds.
abbrev pub contract_window : ℕ
contract_window = 1200000000000

-- `Unix() <= 0`: seconds since 1970, which are 62135596800 behind the zero time.
abbrev pub is_before_1970 : Time → Bool
is_before_1970 t = leb (t / 1000000000) 62135596800

-- `positivePayrollUint128`
unfoldable pub positive_uint128 : Amount → ℕ → Result ℤ
positive_uint128 a decimals = do
  refuse_if (not (is_positive a) || not (a.decimals == decimals)) plain
  value ← base_int a
  refuse_if (exceeds_uint128 value) plain
  ok value

-- The check of `MinHopPriceX36`.
unfoldable pub validate_price : Text → Result (Unit {0})
validate_price value = do
  price ← required (set_string value)
  refuse_if
      (not (ltb_ℤ (pos 0) price)
        || exceeds_uint128 price
        || ltb 1 (len value) && starts_with_zero value)
      plain

-- The checks of the deadline.
unfoldable pub validate_deadline : Time → Timeline → Result (Unit {0})
validate_deadline deadline t = do
  refuse_if (is_zero deadline || is_before_1970 deadline) plain
  when (not (is_zero t.created_at)) (do
    refuse_if (leb deadline t.created_at) plain
    refuse_if (ltb (t.created_at + contract_window) deadline) plain)
  refuse_if (not (is_zero t.constraint_deadline) && ltb t.constraint_deadline deadline) plain
  refuse_if (not (is_zero t.expires_at) && ltb t.expires_at deadline) plain

-- What the loop over the recipients keeps.
pub record Obligations : Type 0 where
  pub total : ℤ
  pub seen : List Text
  pub token_out : Option Token

abbrev pub no_obligations : Obligations
no_obligations = record { total = pos 0; seen = []; token_out = none }

module _ ⦃libraries : Libraries⦄ where
  abbrev check_same : Option Token → Token → Result (Unit {0})
  check_same none t = ok tt
  check_same (some first) t = refuse_if (not (is_same first t)) plain

  abbrev first_token : Option Token → Token → Option Token
  first_token none t = some t
  first_token (some first) t = some first

  -- One round of the loop. An amount that is positive is valid, so BaseInt gives no error.
  unfoldable pub next_obligation : Payroll → Text → Recipient → Obligations → Result Obligations
  next_obligation p employer r o = do
    validate_nonzero_address r.address
    refuse_if
        (addresses_equal r.address address_payroll
          || not (is_empty employer) && addresses_equal r.address employer)
        plain
    refuse_if (contains (normalize_address r.address) o.seen) plain
    refuse_if (not (is_canonical r.token_out) || is_same p.token_in r.token_out) plain
    check_same o.token_out r.token_out
    refuse_if (not (Amount.is_unset r.amount_in) || not (Amount.is_unset r.amount)) plain
    refuse_if
        (not (is_positive r.min_amount_out)
          || not (r.min_amount_out.decimals == r.token_out.decimals))
        plain
    amount ← base_int r.min_amount_out
    refuse_if (exceeds_uint128 amount) plain
    ok (record {
      total = big_add o.total amount;
      seen = normalize_address r.address ∷ o.seen;
      token_out = first_token o.token_out r.token_out;
    })

  unfoldable pub all_obligations :
      Payroll → Text → List Recipient → Obligations → Result Obligations
  all_obligations p employer [] o = ok o
  all_obligations p employer (r ∷ rs) o = do
    o' ← next_obligation p employer r o
    all_obligations p employer rs o'

  -- The checks behind the loop.
  unfoldable pub check_aggregate : Payroll → CrossToken → Timeline → ℤ → Token → Result (Unit {0})
  check_aggregate p c t obligations token_out = do
    refuse_if
        (not (is_positive p.total)
          || not (p.total.decimals == token_out.decimals)
          || not (text_eq p.total.base_units (big_text obligations)))
        plain
    gross ← positive_uint128 c.gross_input p.token_in.decimals
    minimum ← positive_uint128 c.min_total_out token_out.decimals
    refuse_if (ltb_ℤ minimum obligations) plain
    validate_price c.min_hop_price_x36
    refuse_if (not (ltb_ℤ (pos 0) gross)) plain
    validate_deadline c.deadline t
    refuse_if (not (Token.is_unset p.token)) plain

  -- There is a recipient, so there is a token.
  abbrev pub check_obligations :
      Payroll → CrossToken → Timeline → ℤ → Option Token → Result (Unit {0})
  check_obligations p c t total none = err plain
  check_obligations p c t total (some token_out) = check_aggregate p c t total token_out

  unfoldable pub validate_cross : Payroll → CrossToken → Timeline → Text → Result (Unit {0})
  validate_cross p c t employer = do
    refuse_if (not (p.schema_version == 1)) plain
    refuse_if (not (is_single p.variant) && not (is_batch_single p.variant)) plain
    refuse_if (not (is_canonical p.token_in)) plain
    refuse_if (length p.recipients == 0 || ltb 50 (length p.recipients)) plain
    refuse_if (is_single p.variant && not (length p.recipients == 1)) plain
    validate_reference_id p.reference_id
    o ← all_obligations p employer p.recipients no_obligations
    check_obligations p c t o.total o.token_out

  abbrev pub require_cross : Payroll → Timeline → Text → Option CrossToken → Result (Unit {0})
  require_cross p t employer none = err plain
  require_cross p t employer (some c) = validate_cross p c t employer

  -- `validateCrossTokenTimeline`
  unfoldable pub validate_cross_timeline : Payroll → Timeline → Text → Result (Unit {0})
  validate_cross_timeline p t employer = require_cross p t employer p.cross_token

  -- `ValidateCrossToken`
  unfoldable pub validate_cross_token : Payroll → Result (Unit {0})
  validate_cross_token p = validate_cross_timeline p no_timeline []

  -- `CrossTokenExecutable`
  unfoldable pub cross_token_executable : Payroll → Bool
  cross_token_executable p = succeeds (validate_cross_token p)

  -- The loop of `ValidateSameToken`.
  unfoldable pub same_lines : Token → List Recipient → Result (Unit {0})
  same_lines token_in [] = ok tt
  same_lines token_in (r ∷ rs) = do
    refuse_if (not (is_same token_in r.token_out)) plain
    refuse_if (not (amount_eq r.amount_in r.min_amount_out)) plain
    same_lines token_in rs

  -- `ValidateSameToken`
  unfoldable pub validate_same_token : Payroll → Result (Unit {0})
  validate_same_token p = do
    refuse_if (is_some p.cross_token) plain
    validate_payroll_phase12 p
    validate_reference_id p.reference_id
    refuse_if (not (is_single p.variant) && not (is_batch_single p.variant)) plain
    refuse_if (not (is_canonical p.token_in)) plain
    same_lines p.token_in p.recipients

  -- `SameTokenExecutable`
  unfoldable pub same_token_executable : Payroll → Bool
  same_token_executable p = succeeds (validate_same_token p)

  -- `PayrollParameters.validate`
  unfoldable pub validate_payroll : Payroll → Result (Unit {0})
  validate_payroll p =
      if is_phase12 p
      then (if is_some p.cross_token then validate_cross_token p else validate_payroll_phase12 p)
      else validate_legacy p

  -- `Phase12Executable`
  unfoldable pub phase12_executable : Payroll → Bool
  phase12_executable p = is_phase12 p && succeeds (validate_payroll p)
