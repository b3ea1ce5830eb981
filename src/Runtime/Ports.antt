-- ===== src/Runtime/Ports.antt =====
-- internal/execution/runtime/boundaries.go, the claim of internal/storage/runtime.go, and the
-- interfaces that the service calls. What stands behind them, a database and providers, is not
-- read: each call is a function of the world that returns the world it leaves.
use wizpay_mcp.Base.{
  ℕ, Bool, not, ◌||◌, Time, is_zero, Text, is_empty, Option, List, Result, Error, err, plain,
  refuse_if, ◌>>◌,
}
use wizpay_mcp.Execution.Types.{Status}
use wizpay_mcp.Execution.Request.{Request}
use wizpay_mcp.Execution.Evidence.{Observation}
use wizpay_mcp.Execution.Lifecycle.{Execution}

-- `storage.Scope`
pub record Scope : Type 0 where
  pub tenant_id : Text
  pub actor_id : Text
  pub request_id : Text
  pub trace_id : Text

-- `storage.ExecutionClaim`
pub record ExecutionClaim : Type 0 where
  pub scope : Scope
  pub execution : Execution
  pub lease_owner : Text
  pub fencing_token : ℕ  -- uint64
  pub lease_expires_at : Time
  pub submission_started : Bool

-- `VerificationOutcome`: its constants, and the other strings, numbered.
pub data VerificationOutcome : Type 0 where
  pending verified failed : VerificationOutcome
  unknown_outcome : ℕ → VerificationOutcome

pub record VerificationResult : Type 0 where
  pub outcome : VerificationOutcome
  pub reference : Text
  pub reason_code : Text
  pub observed_at : Time

-- The switch of `VerificationResult.Validate`.
unfoldable pub validate_outcome : VerificationOutcome → VerificationResult → Result (Unit {0})
validate_outcome pending r = refuse_if (is_empty r.reference || not (is_empty r.reason_code)) plain
validate_outcome verified r = refuse_if (is_empty r.reference || not (is_empty r.reason_code)) plain
validate_outcome failed r = refuse_if (is_empty r.reason_code) plain
validate_outcome (unknown_outcome _) r = err plain

-- `VerificationResult.Validate`
unfoldable pub validate : VerificationResult → Result (Unit {0})
unfolding validate_outcome
validate r = do refuse_if (is_zero r.observed_at) plain; validate_outcome r.outcome r

-- `AdapterFailureKind`, likewise.
pub data AdapterFailureKind : Type 0 where
  transient permanent : AdapterFailureKind
  unknown_kind : ℕ → AdapterFailureKind

-- `AdapterError`
pub record AdapterError : Type 0 where
  pub kind : AdapterFailureKind
  pub reason_code : Text

-- What `Execute` and `GetStatus` return: a result, an error in which `adapterFailure` finds an
-- `AdapterError`, or another error.
pub data AdapterReply : Type 0 where
  observed : Observation → AdapterReply
  refused : AdapterError → AdapterReply
  broken : AdapterReply

-- What `Verify` returns: a result, an error in which `verificationFailure` finds a
-- `VerificationError`, or another error.
pub data VerifierReply : Type 0 where
  judged : VerificationResult → VerifierReply
  unavailable : VerifierReply
  broken_verifier : VerifierReply

-- `audit.EventType`: the constants for executions.
pub data EventType : Type 0 where
  execution_created execution_authorized execution_queued execution_executing : EventType
  execution_submitted execution_confirming execution_confirmed execution_verified : EventType
  execution_completed execution_failed execution_recovery_required : EventType
  execution_recovered execution_cancelled : EventType

-- `audit.Record`, without the event's identifier, which is a digest of three of the fields here,
-- and without the fields that repeat the request, the scope and the lease owner, or are constant.
pub record AuditRecord : Type 0 where
  pub resource_id : Text
  pub previous_state : Status
  pub new_state : Status
  pub event_execution_id : Text
  pub event_revision : ℕ
  pub event_status : Status
  pub event_type : EventType
  pub occurred_at : Time
  pub safe_reason_code : Text

-- An execution and an error, either of which Go may return beside the other, and the world.
pub record Reply (W : Type 0) : Type 0 where
  pub value : Execution
  pub problem : Option Error
  pub world : W

-- `storage.ExecutionRuntimeRepository` and the other dependencies of a `Service`, as far as it
-- calls them.
pub record Ports (W : Type 0) : Type 0 where
  pub create_execution : Scope → Execution → W → Result Execution × W
  pub claim_execution_work : Scope → Text → Text → Time → ℕ → W → Result (ExecutionClaim × Bool) × W
  pub find_execution_by_id : Scope → Text → W → Reply W
  pub mark_submission_started : ExecutionClaim → Time → W → Result (ExecutionClaim × Bool) × W
  pub update_claimed_execution : ExecutionClaim → Execution → ℕ → AuditRecord → Time → W → Reply W
  pub persist_claimed_observation :
      ExecutionClaim → Observation → Execution → ℕ → AuditRecord → Time → W → Reply W
  pub persist_claimed_evidence :
      ExecutionClaim → Observation → Execution → ℕ → AuditRecord → Time → W → Reply W
  pub release_execution_work : ExecutionClaim → Time → W → Option Error × W
  pub append_verification_evidence : Scope → Observation → W → Option Error × W
  pub find_verification_evidence : Scope → Text → W → Result (List Observation) × W
  pub execute : Request → W → AdapterReply × W
  pub get_status : Text → W → AdapterReply × W
  pub verify : Execution → Text → W → VerifierReply × W
