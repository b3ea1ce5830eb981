-- ===== src/Execution/Request.antt =====
-- internal/execution/request.go: the request's identity and its validation, and `RestoreRequest`
-- of internal/execution/restore.go.
use wizpay_mcp.Base.{
  ℕ, ◌++◌, Bool, true, false, not, ◌||◌, List, [], ◌∷◌, ltb, ◌==◌, Time, is_zero, Text, text,
  text_eq, len, decimal, Result, ok, Error, new_error, execution_invalid, ◌>>◌, refuse_if,
  wrap_error, Platform,
}
use wizpay_mcp.Policies.Types.{EvaluationStage, before_execution}
use wizpay_mcp.Execution.Types.{validate_execution_text}

abbrev pub is_before_execution : EvaluationStage → Bool
is_before_execution before_execution = true
is_before_execution _ = false

pub record Request : Type 0 where
  pub request_id : Text
  pub request_key : Text
  pub version : ℕ
  pub execution_id : Text
  pub operation_key : Text
  pub operation_version : ℕ
  pub intent_id : Text
  pub intent_version : ℕ
  pub intent_digest : Text
  pub approval_id : Text
  pub approval_version : ℕ
  pub policy_id : Text
  pub policy_version : ℕ
  pub policy_evaluation_key : Text
  pub policy_evaluation_stage : EvaluationStage
  pub policy_evaluated_at : Time
  pub created_at : Time

abbrev pub request_version : ℕ
request_version = 1

-- `invalidExecution`
abbrev pub invalid_execution : Error
invalid_execution = new_error execution_invalid false true true

-- What `hash` writes behind the domain: each part behind its length in bytes and a colon.
unfoldable pub frame : List Text → Text
frame [] = []
frame (part ∷ parts) = decimal (len part) ++ b':' ∷ (part ++ frame parts)

unfoldable pub validate_texts : List Text → Result (Unit {0})
validate_texts [] = ok tt
validate_texts (value ∷ values) = do
  wrap_error (validate_execution_text value) invalid_execution
  validate_texts values

module _ ⦃platform : Platform⦄ where
  open platform use {sha256_hex, rfc3339_nano}

  -- `hash`
  unfoldable pub hash : Text → List Text → Text
  hash domain parts = sha256_hex (domain ++ frame parts)

  unfoldable pub want_execution_id : Request → Text
  want_execution_id r =
      text "exec_"
      ++ hash (text "WIZPAY_MCP_EXECUTION_V1\n")
          (r.operation_key ∷ decimal r.operation_version ∷ [])

  -- The stage is `BEFORE_EXECUTION` where the code reaches this.
  unfoldable pub want_policy_evaluation_key : Request → Text
  want_policy_evaluation_key r = hash (text "WIZPAY_MCP_POLICY_EVALUATION_REFERENCE_V1\n") (
      r.policy_id
      ∷ decimal r.policy_version
      ∷ r.intent_id
      ∷ decimal r.intent_version
      ∷ r.intent_digest
      ∷ text "BEFORE_EXECUTION"
      ∷ rfc3339_nano r.policy_evaluated_at
      ∷ text "ALLOW"
      ∷ [])

  unfoldable pub want_request_key : Request → Text
  want_request_key r = hash (text "WIZPAY_MCP_EXECUTION_REQUEST_V1\n") (
      r.operation_key
      ∷ decimal r.operation_version
      ∷ r.approval_id
      ∷ decimal r.approval_version
      ∷ want_policy_evaluation_key r
      ∷ [])

  -- `Request.Validate`
  unfoldable pub validate : Request → Result (Unit {0})
  validate r = do
    validate_texts (
        r.request_id ∷ r.request_key ∷ r.execution_id ∷ r.operation_key ∷ r.intent_id
        ∷ r.intent_digest ∷ r.approval_id ∷ r.policy_id ∷ r.policy_evaluation_key ∷ [])
    refuse_if
        (not (r.version == request_version)
          || r.operation_version == 0
          || r.intent_version == 0
          || r.approval_version == 0
          || r.policy_version == 0)
        invalid_execution
    refuse_if (not (is_before_execution r.policy_evaluation_stage)) invalid_execution
    refuse_if
        (is_zero r.policy_evaluated_at
          || is_zero r.created_at
          || ltb r.created_at r.policy_evaluated_at)
        invalid_execution
    refuse_if
        (not (text_eq r.execution_id (want_execution_id r))
          || not (text_eq r.policy_evaluation_key (want_policy_evaluation_key r))
          || not (text_eq r.request_key (want_request_key r))
          || not (text_eq r.request_id (text "exreq_" ++ want_request_key r)))
        invalid_execution

  -- `RestoreRequest`: the parameters have the fields of a request.
  unfoldable pub restore_request : Request → Result Request
  unfolding validate
  restore_request r = do validate r; ok r
