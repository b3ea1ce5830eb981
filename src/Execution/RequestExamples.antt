-- ===== src/Execution/RequestExamples.antt =====
-- A request for the sample intent, and the theorem applied to it.
use wizpay_mcp.Base.{
  ◌≡◌, ◌≤◌, refl, text, ok, text_eq, trim_space, drop_spaces, len, has_control, decimal,
  digits_from,
}
use wizpay_mcp.Intents.Intent
use wizpay_mcp.Intents.Operation
use wizpay_mcp.Intents.Operation.{identity_of}
use wizpay_mcp.Intents.Samples.{demo_platform}
use wizpay_mcp.Approvals.Defs
use wizpay_mcp.Approvals.Defs.{Approval}
use wizpay_mcp.Payments.Normal.{intent_material}
use wizpay_mcp.Payments.Samples.{demo_libraries}
use wizpay_mcp.Policies.Types.{before_execution, Evaluation}
use wizpay_mcp.Policies.Evaluation.{evaluate, initial}
use wizpay_mcp.Policies.Authorized.{IsAuthorized, evaluate-IsAuthorized}
use wizpay_mcp.Policies.Samples.{
  demo_encoding, demo_intent, demo_identity, demo_binding, demo_policy,
}
use wizpay_mcp.Policies.Allowed.{demo-IsAuthorized, intent_valid}
use wizpay_mcp.Execution.Types
use wizpay_mcp.Execution.Request
use wizpay_mcp.Execution.NewRequest
use wizpay_mcp.Execution.NewRequest.{new_request, request_of}
use wizpay_mcp.Execution.Authority.{IsConsumedFor, IsDue, new_request-evaluate}

abbrev demo_approval : Approval
demo_approval = record {
  approval_id = text "a1";
  version = 1;
  approval_request_id = text "ar1";
  intent_id = text "i1";
  intent_version = 1;
  intent_digest = demo_intent.digest;
  user_id = text "u";
  wallet_binding_id = text "b";
  wallet_binding_version = 2;
  wallet_id = text "w";
  wallet_address = text "0x1";
  chain_id = text "5042";
  status = Defs.consumed;
  decision = Defs.granted;
  created_at = 20;
  expires_at = 80;
  decided_at = 30;
  consumed_at = 60;
  operation_key = (identity_of demo_intent).operation_key;
  operation_version = 1;
  lifecycle_revision = 4;
}

abbrev demo_result : Evaluation
demo_result = initial demo_policy demo_intent 50 before_execution

result_test :
    evaluate demo_policy demo_intent demo_identity demo_binding 50 before_execution ≡ ok demo_result
result_test =
    (evaluate-IsAuthorized demo_policy demo_intent demo_identity demo_binding 50 before_execution).1
      demo-IsAuthorized

approval_test : Defs.validate demo_approval ≡ ok tt
unfolding Defs.validate Defs.validate_texts text_eq trim_space len has_control Intent.digest_bytes
    decimal identity_of
approval_test = refl

request_test :
    new_request demo_intent demo_approval demo_result 70
    ≡ ok (request_of demo_intent (identity_of demo_intent) demo_approval demo_result)
unfolding new_request NewRequest.check_intent Operation.new_operation_identity identity_of
    NewRequest.approval_differs Defs.is_bound_to NewRequest.result_differs request_of
    NewRequest.policy_evaluation_key Intent.digest_bytes text_eq len decimal digits_from trim_space
    drop_spaces has_control Request.validate Request.validate_texts Request.want_request_key
    Request.want_policy_evaluation_key Request.want_execution_id Request.hash Request.frame
    Types.validate_execution_text Types.validate_bounded_text
request_test = rw (intent_valid, approval_test) refl

new_request-evaluate_example :
    IsAuthorized demo_policy demo_intent demo_identity demo_binding 50 before_execution
    × (demo_intent.params.intent_id ≡ demo_intent.params.intent_id)
    × (demo_intent.params.version ≡ demo_intent.params.version)
    × (demo_intent.digest ≡ demo_intent.digest)
    × (50 ≤ 60)
    × IsDue demo_intent 70
    × IsConsumedFor demo_approval demo_intent 70
    × (Request.validate (request_of demo_intent (identity_of demo_intent) demo_approval demo_result)
        ≡ ok tt)
    × (request_of demo_intent (identity_of demo_intent) demo_approval demo_result
        ≡ request_of demo_intent (identity_of demo_intent) demo_approval demo_result)
new_request-evaluate_example =
    new_request-evaluate demo_intent demo_intent demo_approval demo_policy demo_identity
      demo_binding 50 70 before_execution result_test request_test
