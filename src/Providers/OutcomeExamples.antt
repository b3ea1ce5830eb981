-- ===== src/Providers/OutcomeExamples.antt =====
-- Outcomes with a reference, their answers, and the theorem applied to one.
use wizpay_mcp.Base.{
  ◌≡◌, refl, true, false, [], text, ok, len, trim_space, drop_spaces, has_control, text_eq, Text,
}
use wizpay_mcp.Payments.Samples.{demo_libraries}
use wizpay_mcp.Execution.Types
use wizpay_mcp.Execution.Evidence
use wizpay_mcp.Runtime.Ports.{observed, judged, verified}
use wizpay_mcp.Providers.Reference
use wizpay_mcp.Providers.Reference.{Reference, circle_user_controlled, encode}
use wizpay_mcp.Providers.Classification
use wizpay_mcp.Providers.Classification.{
  Outcome, verified_success, transient_provider_error, adapter_result, verification_result,
}
use wizpay_mcp.Providers.Answers.{AdapterAnswer, VerifierAnswer}
use wizpay_mcp.Providers.Outcomes.{outcome_is_answered}

abbrev reference : Reference
reference = record {
  provider = circle_user_controlled;
  chain_id = text "5042";
  wallet_id = text "w-1";
  challenge_id = [];
  provider_transaction_id = text "t-1";
  transaction_hash = [];
  obs_present = false;
  obs_known = false;
  obs_block_hash = [];
  obs_block_number = 0;
  obs_confirmations = 0;
  obs_log_fingerprint = [];
}

abbrev line : Text
line = text "wzp1;p=CIRCLE_USER_CONTROLLED_WALLET;chain=5042;w=w-1;tx=t-1"

encode_test : encode reference ≡ ok line
unfolding encode Reference.normalize_observation_metadata Reference.validate Reference.line_of
    Reference.join Reference.part Reference.observation_parts Reference.is_valid_provider
    Reference.valid_chain_id Reference.all_digits Reference.valid_provider_identifier
    Reference.identifier_characters Reference.validate_observation_metadata
    Reference.has_observation_metadata len
encode_test = refl

abbrev success : Outcome
success = record {
  class = verified_success;
  reason_code = [];
  reference = reference;
  observed_at = 5;
  has_reference = true;
}

-- The adapter never reports more than CONFIRMING.
adapter_result_test :
    adapter_result success (text "exec_1")
    ≡ observed (record {
      execution_id = text "exec_1";
      execution_version = 1;
      status = Types.confirming;
      adapter_reference = line;
      error_code = [];
      observed_at = 5;
    })
unfolding adapter_result Classification.validate Classification.is_valid
    Classification.validate_class Classification.encoded_reference Classification.adapter_switch
    encode Reference.normalize_observation_metadata Reference.validate Reference.line_of
    Reference.join Reference.part Reference.observation_parts Reference.is_valid_provider
    Reference.valid_chain_id Reference.all_digits Reference.valid_provider_identifier
    Reference.identifier_characters Reference.validate_observation_metadata
    Reference.has_observation_metadata len Evidence.new_result Evidence.validate
    Evidence.validate_status Types.validate_execution_text Types.validate_adapter_reference
    Types.validate_bounded_text trim_space drop_spaces has_control text_eq
adapter_result_test = refl

verification_result_test :
    verification_result success
    ≡ judged (record { outcome = verified; reference = line; reason_code = []; observed_at = 5 })
unfolding verification_result Classification.validate Classification.is_valid
    Classification.validate_class Classification.encoded_reference
    Classification.verification_switch encode Reference.normalize_observation_metadata
    Reference.validate Reference.line_of Reference.join Reference.part Reference.observation_parts
    Reference.is_valid_provider Reference.valid_chain_id Reference.all_digits
    Reference.valid_provider_identifier Reference.identifier_characters
    Reference.validate_observation_metadata Reference.has_observation_metadata len
verification_result_test = refl

outcome_is_answered_example :
    AdapterAnswer success (text "exec_1") (adapter_result success (text "exec_1"))
    × VerifierAnswer success (verification_result success)
outcome_is_answered_example = outcome_is_answered success (text "exec_1")
