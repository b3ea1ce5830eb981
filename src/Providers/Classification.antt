-- ===== src/Providers/Classification.antt =====
-- internal/providers/classification.go: outcomes of providers, and what the runtime is told of them.
use wizpay_mcp.Base.{
  ℕ, ◌==◌, if◌then◌else◌, Bool, true, false, not, ◌&&◌, ◌||◌, leb, [], ◌∷◌, Time, is_zero, Text,
  is_empty, len, Libraries, Result, ok, err, plain, ◌>>◌, refuse_if, when,
}
use wizpay_mcp.Execution.Types
use wizpay_mcp.Execution.Evidence.{Observation, new_result}
use wizpay_mcp.Runtime.Ports
use wizpay_mcp.Runtime.Ports.{
  AdapterReply, observed, refused, broken, transient, permanent, VerifierReply, judged, unavailable,
  broken_verifier,
}
use wizpay_mcp.Providers.Reference
use wizpay_mcp.Providers.Reference.{Reference, encode}

-- A classification that is none of the constants has its string.
pub data Classification : Type 0 where
  pre_submission_validation_failure user_authorization_required : Classification
  transient_provider_error permanent_provider_rejection : Classification
  ambiguous_submission submitted_pending : Classification
  confirmed_onchain_failed verified_success : Classification
  other_class : Text → Classification

-- `Classification.Valid`
unfoldable pub is_valid : Classification → Bool
is_valid (other_class _) = false
is_valid _ = true

-- `ReconciliationOnly`
unfoldable pub reconciliation_only : Classification → Bool
reconciliation_only pre_submission_validation_failure = false
reconciliation_only permanent_provider_rejection = false
reconciliation_only _ = true

-- `Terminal`
unfoldable pub is_terminal : Classification → Bool
is_terminal pre_submission_validation_failure = true
is_terminal permanent_provider_rejection = true
is_terminal confirmed_onchain_failed = true
is_terminal _ = false

pub record Outcome : Type 0 where
  pub class : Classification
  pub reason_code : Text
  pub reference : Reference
  pub observed_at : Time
  pub has_reference : Bool

abbrev is_upper : ℕ → Bool
is_upper c = leb b'A' c && leb c b'Z'

-- The loop of `validReasonCode`.
unfoldable pub reason_characters : Text → Bool
reason_characters [] = true
reason_characters (c ∷ cs) =
    (is_upper c || (leb b'0' c && leb c b'9') || c == b'_') && reason_characters cs

-- `validReasonCode`
unfoldable pub valid_reason_code : Text → Bool
valid_reason_code [] = false
valid_reason_code (c ∷ cs) =
    leb 2 (len (c ∷ cs)) && leb (len (c ∷ cs)) 64 && is_upper c && reason_characters cs

-- The switch of `Outcome.Validate`.
unfoldable pub validate_class : Classification → Text → Bool → Result (Unit {0})
validate_class submitted_pending code has_reference = do
  refuse_if (not (is_empty code)) plain
  refuse_if (not has_reference) plain
validate_class verified_success code has_reference = do
  refuse_if (not (is_empty code)) plain
  refuse_if (not has_reference) plain
validate_class _ code has_reference = refuse_if (not (valid_reason_code code)) plain

-- `Outcome.Validate`
unfoldable pub validate : Outcome → Result (Unit {0})
validate o = do
  refuse_if (not (is_valid o.class)) plain
  refuse_if (is_zero o.observed_at) plain
  validate_class o.class o.reason_code o.has_reference
  when o.has_reference (Reference.validate o.reference)

-- What a call of `NewResult` makes of its result.
abbrev pub reply_of : Result Observation → AdapterReply
reply_of (ok r) = observed r
reply_of (err _) = broken

-- The parameters of `NewResult`, with the version of requests.
abbrev pub params_of : Outcome → Text → Types.Status → Text → Text → Observation
params_of o id status reference code = record {
  execution_id = id;
  execution_version = 1;
  status = status;
  adapter_reference = reference;
  error_code = code;
  observed_at = o.observed_at;
}

-- The switch of `AdapterResult`, for an encoded reference.
unfoldable pub adapter_switch : Classification → Outcome → Text → Text → AdapterReply
adapter_switch pre_submission_validation_failure o id reference =
    refused (record { kind = permanent; reason_code = o.reason_code })
adapter_switch permanent_provider_rejection o id reference =
    refused (record { kind = permanent; reason_code = o.reason_code })
adapter_switch transient_provider_error o id reference =
    refused (record { kind = transient; reason_code = o.reason_code })
adapter_switch user_authorization_required o id reference =
    reply_of (new_result (params_of o id Types.recovery_required reference o.reason_code))
adapter_switch ambiguous_submission o id reference =
    reply_of (new_result (params_of o id Types.recovery_required reference o.reason_code))
adapter_switch submitted_pending o id reference =
    reply_of (new_result (params_of o id Types.submitted reference []))
adapter_switch confirmed_onchain_failed o id reference =
    reply_of (new_result (params_of o id Types.failed reference o.reason_code))
adapter_switch verified_success o id reference =
    reply_of (new_result (params_of o id Types.confirming reference []))
adapter_switch (other_class _) o id reference = broken

-- The switch of `VerificationResult`, for an encoded reference.
unfoldable pub verification_switch : Classification → Outcome → Text → VerifierReply
verification_switch verified_success o reference = judged (record {
  outcome = Ports.verified;
  reference = reference;
  reason_code = [];
  observed_at = o.observed_at;
})
verification_switch confirmed_onchain_failed o reference = judged (record {
  outcome = Ports.failed;
  reference = [];
  reason_code = o.reason_code;
  observed_at = o.observed_at;
})
verification_switch transient_provider_error o reference = unavailable
verification_switch _ o reference =
    if is_empty reference
    then unavailable
    else judged (record {
      outcome = Ports.pending;
      reference = reference;
      reason_code = [];
      observed_at = o.observed_at;
    })

module _ ⦃libraries : Libraries⦄ where
  -- `encodedReference`
  unfoldable pub encoded_reference : Outcome → Result Text
  encoded_reference o = if o.has_reference then encode o.reference else ok []

  abbrev pub adapter_case : Outcome → Text → Result (Unit {0}) → Result Text → AdapterReply
  adapter_case o id (ok _) (ok reference) = adapter_switch o.class o id reference
  adapter_case o id _ _ = broken

  -- `AdapterResult`
  unfoldable pub adapter_result : Outcome → Text → AdapterReply
  adapter_result o id = adapter_case o id (validate o) (encoded_reference o)

  abbrev pub verification_case : Outcome → Result (Unit {0}) → Result Text → VerifierReply
  verification_case o (ok _) (ok reference) = verification_switch o.class o reference
  verification_case o _ _ = broken_verifier

  -- `VerificationResult`
  unfoldable pub verification_result : Outcome → VerifierReply
  verification_result o = verification_case o (validate o) (encoded_reference o)
