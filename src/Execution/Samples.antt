-- ===== src/Execution/Samples.antt =====
-- A platform, a request and executions of it, for the examples.
use wizpay_mcp.Base.{
  ◌≡◌, refl, [], ◌++◌, text, len, decimal, text_eq, trim_space, has_control, ok, Platform,
}
use wizpay_mcp.Policies.Types.{before_execution}
use wizpay_mcp.Execution.Types.{
  Status, unset, no_failure, no_recovery, validate_execution_text, validate_bounded_text,
}
use wizpay_mcp.Execution.Request
use wizpay_mcp.Execution.Request.{
  Request, frame, want_execution_id, want_policy_evaluation_key, want_request_key,
}
use wizpay_mcp.Execution.Lifecycle.{Execution}

instance abbrev pub demo_platform : Platform
demo_platform = record { sha256_hex = λ t. decimal (len t); rfc3339_nano = λ t. decimal t }

abbrev blank : Request
blank = record {
  request_id = [];
  request_key = [];
  version = 1;
  execution_id = [];
  operation_key = text "op-1";
  operation_version = 1;
  intent_id = text "intent-1";
  intent_version = 1;
  intent_digest = text "sha256:1";
  approval_id = text "approval-1";
  approval_version = 1;
  policy_id = text "policy-1";
  policy_version = 1;
  policy_evaluation_key = [];
  policy_evaluation_stage = before_execution;
  policy_evaluated_at = 10;
  created_at = 20;
}

pub request : Request
request = record blank {
  execution_id = want_execution_id blank;
  policy_evaluation_key = want_policy_evaluation_key blank;
  request_key = want_request_key blank;
  request_id = text "exreq_" ++ want_request_key blank;
}

abbrev pub at_status : Status → Execution
at_status s = record {
  request = request;
  status = s;
  revision = 1;
  created_at = 20;
  updated_at = 20;
  failure = no_failure;
  failed_from = unset;
  recovery = no_recovery;
}

pub request_validates : Request.validate request ≡ ok tt
unfolding Request.validate request want_request_key want_policy_evaluation_key want_execution_id
    Request.hash frame Request.validate_texts validate_execution_text validate_bounded_text text_eq
    trim_space has_control decimal len
request_validates = refl
