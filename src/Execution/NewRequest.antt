-- ===== src/Execution/NewRequest.antt =====
-- internal/execution/request.go: `NewRequest`, which binds an intent, its consumed approval and a
-- policy result.
use wizpay_mcp.Base.{
  ◌++◌, ◌==◌, Bool, true, false, not, ◌&&◌, ◌||◌, ltb, leb, [], ◌∷◌, length, Time, is_zero, Text,
  text, is_empty, text_eq, decimal, Result, ok, Error, new_error, execution_not_authorized,
  intent_expired, ◌>>=◌, ◌>>◌, refuse_if, Platform, Libraries,
}
use wizpay_mcp.Intents.Intent
use wizpay_mcp.Intents.Intent.{Intent}
use wizpay_mcp.Intents.Operation.{OperationIdentity, new_operation_identity}
use wizpay_mcp.Approvals.Defs
use wizpay_mcp.Approvals.Defs.{Approval, is_bound_to}
use wizpay_mcp.Payments.Normal.{Encoding, intent_material}
use wizpay_mcp.Policies.Types.{
  EvaluationStage, before_approval, before_execution, unknown_stage, Decision, allow, deny,
  require_review, unknown_decision, Evaluation,
}
use wizpay_mcp.Execution.Request
use wizpay_mcp.Execution.Request.{Request, hash, invalid_execution, is_before_execution}

abbrev stage_text : EvaluationStage → Text
stage_text before_approval = text "BEFORE_APPROVAL"
stage_text before_execution = text "BEFORE_EXECUTION"
stage_text (unknown_stage t) = t

abbrev decision_text : Decision → Text
decision_text allow = text "ALLOW"
decision_text deny = text "DENY"
decision_text require_review = text "REQUIRE_REVIEW"
decision_text (unknown_decision t) = t

abbrev is_allow : Decision → Bool
is_allow allow = true
is_allow _ = false

abbrev unauthorized : Error
unauthorized = new_error execution_not_authorized false true true

module _ ⦃platform : Platform⦄ where
  open platform use {rfc3339_nano}

  -- `PolicyEvaluationKey`
  unfoldable pub policy_evaluation_key : Evaluation → Text
  policy_evaluation_key e = hash (text "WIZPAY_MCP_POLICY_EVALUATION_REFERENCE_V1\n") (
      e.policy_id
      ∷ decimal e.policy_version
      ∷ e.intent_id
      ∷ decimal e.intent_version
      ∷ e.intent_digest
      ∷ stage_text e.stage
      ∷ rfc3339_nano e.evaluated_at
      ∷ decision_text e.decision
      ∷ [])

module _ ⦃libraries : Libraries⦄ ⦃platform : Platform⦄ ⦃encoding : Encoding⦄ where
  -- The approval was not consumed for this operation of this intent.
  unfoldable pub approval_differs : Intent → OperationIdentity → Approval → Bool
  approval_differs i o a =
      not (Defs.status_eq a.status Defs.consumed)
      || not (Defs.decision_eq a.decision Defs.granted)
      || not (is_bound_to a i)
      || not (text_eq a.operation_key o.operation_key)
      || not (a.operation_version == o.version)

  -- The policy result does not allow the execution of this intent, before its approval was
  -- consumed.
  unfoldable pub result_differs : Intent → Approval → Evaluation → Bool
  result_differs i a e =
      not (is_allow e.decision)
      || not (is_before_execution e.stage)
      || not (length e.findings == 0)
      || is_empty e.policy_id
      || e.policy_version == 0
      || not (text_eq e.intent_id i.params.intent_id)
      || not (e.intent_version == i.params.version)
      || not (text_eq e.intent_digest i.digest)
      || is_zero e.evaluated_at
      || ltb a.consumed_at e.evaluated_at
      || not (
          text_eq i.params.constraints.policy_reference
            (e.policy_id ++ b':' ∷ decimal e.policy_version))

  -- The checks of the status and the clock.
  unfoldable pub check_intent : Intent → Time → Result (Unit {0})
  check_intent i at = do
    refuse_if (is_zero at) invalid_execution
    refuse_if
        (not (Intent.status_eq i.status Intent.approved)
          && not (Intent.status_eq i.status Intent.ready_for_execution))
        unauthorized
    refuse_if (leb i.params.expires_at at || leb i.params.constraints.deadline at)
        (new_error intent_expired false true true)

  -- The request that `NewRequest` validates.
  unfoldable pub request_of : Intent → OperationIdentity → Approval → Evaluation → Request
  request_of i o a e =
      let key = policy_evaluation_key e in
      let request_key =
        hash (text "WIZPAY_MCP_EXECUTION_REQUEST_V1\n")
          (o.operation_key ∷ decimal o.version ∷ a.approval_id ∷ decimal a.version ∷ key ∷ []) in
      record {
        request_id = text "exreq_" ++ request_key;
        request_key = request_key;
        version = 1;
        execution_id =
            text "exec_"
            ++ hash (text "WIZPAY_MCP_EXECUTION_V1\n") (o.operation_key ∷ decimal o.version ∷ []);
        operation_key = o.operation_key;
        operation_version = o.version;
        intent_id = i.params.intent_id;
        intent_version = i.params.version;
        intent_digest = i.digest;
        approval_id = a.approval_id;
        approval_version = a.version;
        policy_id = e.policy_id;
        policy_version = e.policy_version;
        policy_evaluation_key = key;
        policy_evaluation_stage = e.stage;
        policy_evaluated_at = e.evaluated_at;
        created_at = a.consumed_at;
      }

  -- `NewRequest`
  unfoldable pub new_request : Intent → Approval → Evaluation → Time → Result Request
  new_request i a e at = do
    Intent.validate i
    Defs.validate a
    check_intent i at
    o ← new_operation_identity i
    refuse_if (approval_differs i o a) unauthorized
    refuse_if (ltb at a.consumed_at) invalid_execution
    refuse_if (result_differs i a e) unauthorized
    Request.validate (request_of i o a e)
    ok (request_of i o a e)
