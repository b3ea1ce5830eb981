-- ===== src/Execution/Lifecycle.antt =====
-- internal/execution/lifecycle.go, and `Restore` of internal/execution/restore.go.
use wizpay_mcp.Base.{
  ℕ, Bool, true, false, not, ◌&&◌, ◌||◌, ltb, ◌==◌, if◌then◌else◌, u64_max, u64_incr, Time, is_zero,
  Text, is_empty, text_eq, Result, ok, err, new_error, execution_conflict, execution_failed, ◌>>◌,
  refuse_if, when, wrap_error, Platform,
}
use wizpay_mcp.Execution.Types.{
  Status, created, authorized, queued, executing, submitted, confirming, confirmed, verified,
  completed, failed, recovery_required, cancelled, unset, status_eq, is_valid, terminal,
  recoverable, eligibility_eq, Failure, no_failure, Recovery, no_recovery, validate_failure,
  validate_recovery, failure_eq,
}
use wizpay_mcp.Execution.Request
use wizpay_mcp.Execution.Request.{Request, invalid_execution}

pub record Execution : Type 0 where
  pub request : Request
  pub status : Status
  pub revision : ℕ  -- uint64
  pub created_at : Time
  pub updated_at : Time
  pub failure : Failure
  pub failed_from : Status
  pub recovery : Recovery

-- `validTransition`
unfoldable pub valid_transition : Status → Status → Bool
valid_transition created next = status_eq next authorized || status_eq next cancelled
valid_transition authorized next = status_eq next queued || status_eq next cancelled
valid_transition queued next = status_eq next executing
valid_transition executing next = status_eq next submitted || status_eq next confirming
valid_transition submitted next = status_eq next confirming
valid_transition confirming next = status_eq next confirmed
valid_transition confirmed next = status_eq next verified
valid_transition verified next = status_eq next completed
valid_transition _ next = false

-- `recoveryTarget`
unfoldable pub recovery_target : Status → Status
recovery_target queued = executing
recovery_target executing = executing
recovery_target submitted = confirming
recovery_target confirming = confirming
recovery_target confirmed = confirmed
recovery_target verified = verified
recovery_target _ = unset

-- The switch of `Fail`.
unfoldable pub can_fail : Status → Bool
can_fail executing = true
can_fail submitted = true
can_fail confirming = true
can_fail confirmed = true
can_fail _ = false

-- `Execution.Terminal`
unfoldable pub is_terminal : Execution → Bool
is_terminal e =
    status_eq e.status completed
    || status_eq e.status cancelled
    || status_eq e.status failed && eligibility_eq e.failure.eligibility terminal

-- The part of `Validate` about a FAILED execution.
unfoldable pub validate_failed : Execution → Result (Unit {0})
validate_failed e = do
  refuse_if
      (not (is_valid e.failed_from) || status_eq e.failed_from failed || is_empty e.failure.code)
      invalid_execution
  wrap_error (validate_failure e.failure e.failed_from) invalid_execution

-- `validateTransitionTime`
unfoldable pub validate_transition_time : Execution → Time → Result (Unit {0})
validate_transition_time e at = do
  refuse_if (is_zero at || ltb at e.updated_at) invalid_execution
  refuse_if (e.revision == u64_max) invalid_execution

module _ ⦃platform : Platform⦄ where
  -- `Execution.Validate`
  unfoldable pub validate : Execution → Result (Unit {0})
  unfolding validate_failed is_valid
  validate e = do
    Request.validate e.request
    refuse_if (not (is_valid e.status)) invalid_execution
    refuse_if
        (e.revision == 0
          || is_zero e.created_at
          || is_zero e.updated_at
          || ltb e.updated_at e.created_at)
        invalid_execution
    when (status_eq e.status failed) (validate_failed e)
    when (status_eq e.status recovery_required)
        (wrap_error (validate_recovery e.recovery) invalid_execution)

  -- `New`
  unfoldable pub new : Request → Result Execution
  new request = do
    Request.validate request
    let execution : Execution = record {
      request = request;
      status = created;
      revision = 1;
      created_at = request.created_at;
      updated_at = request.created_at;
      failure = no_failure;
      failed_from = unset;
      recovery = no_recovery;
    }
    validate execution
    ok execution

  -- `Restore`: the parameters have the fields of an execution.
  unfoldable pub restore : Execution → Result Execution
  restore e = do validate e; ok e

  -- `advance`
  unfoldable pub advance : Execution → Status → Time → Result Execution
  advance e status at = do
    let next = record e { status = status; updated_at = at; revision = u64_incr e.revision }
    validate next
    ok next

  -- `Transition`
  unfoldable pub transition : Execution → Status → Time → Result Execution
  unfolding valid_transition validate_transition_time
  transition e next at = do
    validate e
    if status_eq next e.status then ok e else do
      refuse_if (status_eq next failed || status_eq next recovery_required) invalid_execution
      validate_transition_time e at
      refuse_if (not (valid_transition e.status next)) invalid_execution
      advance e next at

  -- `Fail`
  unfoldable pub fail : Execution → Failure → Time → Result Execution
  unfolding can_fail validate_transition_time
  fail e failure at = do
    validate e
    if status_eq e.status failed
        then (if failure_eq e.failure failure
            then ok e
            else err (new_error execution_conflict false true true))
        else do
          validate_transition_time e at
          refuse_if (not (can_fail e.status)) invalid_execution
          wrap_error (validate_failure failure e.status) invalid_execution
          advance (record e { failure = failure; failed_from = e.status }) failed at

  -- `RequireRecovery`
  unfoldable pub require_recovery : Execution → Text → Time → Result Execution
  unfolding recovery_target validate_transition_time
  require_recovery e reason_code at = do
    validate e
    if status_eq e.status recovery_required
        then (if text_eq e.recovery.reason_code reason_code
            then ok e
            else err (new_error execution_conflict false true true))
        else do
          validate_transition_time e at
          let recovery : Recovery = record {
            reason_code = reason_code;
            from_status = e.status;
            target = recovery_target e.status;
          }
          wrap_error (validate_recovery recovery) invalid_execution
          advance (record e { recovery = recovery }) recovery_required at

  -- `Recover`
  unfoldable pub recover : Execution → Time → Result Execution
  unfolding validate_transition_time
  recover e at = do
    validate e
    refuse_if (not (status_eq e.status failed)) invalid_execution
    refuse_if (not (eligibility_eq e.failure.eligibility recoverable))
        (new_error execution_failed false true true)
    validate_transition_time e at
    advance
        (record e {
          recovery = record {
            reason_code = e.failure.code;
            from_status = e.failed_from;
            target = e.failure.recovery_target;
          };
        })
        recovery_required at

  -- `Resume`
  unfoldable pub resume : Execution → Time → Result Execution
  unfolding validate_transition_time
  resume e at = do
    validate e
    refuse_if (not (status_eq e.status recovery_required)) invalid_execution
    validate_transition_time e at
    advance e e.recovery.target at
