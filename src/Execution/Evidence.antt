-- ===== src/Execution/Evidence.antt =====
-- internal/execution/result.go: observations of an adapter or a verifier.
use wizpay_mcp.Base.{
  ℕ, true, false, not, ◌||◌, ◌==◌, Time, is_zero, Text, is_empty, text_eq, trim_space, Result, ok,
  err, new_error, execution_conflict, ◌>>◌, refuse_if, when, wrap_error, Platform,
}
use wizpay_mcp.Execution.Types.{
  Status, submitted, confirming, confirmed, verified, completed, failed, recovery_required,
  validate_execution_text, validate_adapter_reference, validate_reason_code,
}
use wizpay_mcp.Execution.Request
use wizpay_mcp.Execution.Request.{Request, invalid_execution}

-- `Result`; `ResultParams` has the same fields.
pub record Observation : Type 0 where
  pub execution_id : Text
  pub execution_version : ℕ
  pub status : Status
  pub adapter_reference : Text
  pub error_code : Text
  pub observed_at : Time

-- The switch of `Result.Validate`.
unfoldable pub validate_status : Status → Text → Text → Result (Unit {0})
validate_status failed reference code = refuse_if (is_empty code) invalid_execution
validate_status recovery_required reference code = refuse_if (is_empty code) invalid_execution
validate_status submitted reference code = do
  refuse_if (is_empty reference) invalid_execution
  refuse_if (not (is_empty code)) invalid_execution
validate_status confirming reference code = do
  refuse_if (is_empty reference) invalid_execution
  refuse_if (not (is_empty code)) invalid_execution
validate_status confirmed reference code = do
  refuse_if (is_empty reference) invalid_execution
  refuse_if (not (is_empty code)) invalid_execution
validate_status verified reference code = do
  refuse_if (is_empty reference) invalid_execution
  refuse_if (not (is_empty code)) invalid_execution
validate_status completed reference code = do
  refuse_if (is_empty reference) invalid_execution
  refuse_if (not (is_empty code)) invalid_execution
validate_status _ reference code = err invalid_execution

-- `Result.Validate`
unfoldable pub validate : Observation → Result (Unit {0})
unfolding validate_status
validate r = do
  wrap_error (validate_execution_text r.execution_id) invalid_execution
  refuse_if (r.execution_version == 0 || is_zero r.observed_at) invalid_execution
  validate_status r.status r.adapter_reference r.error_code
  when (not (is_empty r.adapter_reference))
      (wrap_error (validate_adapter_reference r.adapter_reference) invalid_execution)
  when (not (is_empty r.error_code))
      (wrap_error (validate_reason_code r.error_code) invalid_execution)

-- `NewResult`
unfoldable pub new_result : Observation → Result Observation
new_result params = do
  let result = record params {
    execution_id = trim_space params.execution_id;
    adapter_reference = trim_space params.adapter_reference;
    error_code = trim_space params.error_code;
  }
  validate result
  ok result

module _ ⦃platform : Platform⦄ where
  -- `Result.EnsureMatches`
  unfoldable pub ensure_matches : Observation → Request → Result (Unit {0})
  ensure_matches r request = do
    validate r
    Request.validate request
    refuse_if
        (not (text_eq r.execution_id request.execution_id)
          || not (r.execution_version == request.version))
        (new_error execution_conflict false true true)
