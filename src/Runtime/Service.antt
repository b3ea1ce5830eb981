-- ===== src/Runtime/Service.antt =====
-- internal/execution/runtime/service.go. Contexts, which carry the scope of the claim to the
-- providers, are left out.
use wizpay_mcp.Base.{
  ℕ, Bool, true, false, ◌&&◌, ◌||◌, ltb, leb, ◌==◌, if◌then◌else◌, Time, Text, text, is_empty,
  Option, none, some, List, [], ◌∷◌, Result, ok, err, Error, plain, new_error, execution_invalid,
  refuse_if, Platform,
}
use wizpay_mcp.Execution.Types.{
  Status, authorized, queued, completed, executing, submitted, confirming, confirmed, verified,
  failed, recovery_required, unset, status_eq, terminal, recoverable, Failure, no_failure,
  no_recovery,
}
use wizpay_mcp.Policies.Types.{unknown_stage}
use wizpay_mcp.Execution.Evidence.{Observation, new_result, ensure_matches}
use wizpay_mcp.Execution.Lifecycle
use wizpay_mcp.Execution.Lifecycle.{Execution, is_terminal}
use wizpay_mcp.Runtime.Ports.{
  ExecutionClaim, permanent, AdapterError, AdapterReply, observed, refused, broken, AuditRecord,
  EventType, execution_authorized, execution_queued, execution_executing, execution_submitted,
  execution_confirming, execution_confirmed, execution_verified, execution_completed,
  execution_failed, execution_recovery_required, execution_recovered, Reply, Ports,
}

pub record Config : Type 0 where
  pub worker_id : Text
  pub lease_duration : ℕ  -- a duration, in nanoseconds, that is not negative
  pub retry_interval : ℕ

abbrev pub hour : ℕ
hour = 3600000000000

-- `Config.Validate`
unfoldable pub validate_config : Config → Result (Unit {0})
validate_config c =
    refuse_if
      (is_empty c.worker_id
        || leb c.lease_duration 0
        || ltb hour c.lease_duration
        || leb c.retry_interval 0
        || ltb hour c.retry_interval)
      plain

-- `execution.Execution{}`
abbrev pub no_execution : Execution
no_execution = record {
  request = record {
    request_id = [];
    request_key = [];
    version = 0;
    execution_id = [];
    operation_key = [];
    operation_version = 0;
    intent_id = [];
    intent_version = 0;
    intent_digest = [];
    approval_id = [];
    approval_version = 0;
    policy_id = [];
    policy_version = 0;
    policy_evaluation_key = [];
    policy_evaluation_stage = unknown_stage [];
    policy_evaluated_at = 0;
    created_at = 0;
  };
  status = unset;
  revision = 0;
  created_at = 0;
  updated_at = 0;
  failure = no_failure;
  failed_from = unset;
  recovery = no_recovery;
}

-- The choice of the event's type in `auditRecord`, from the previous status and the next.
unfoldable pub event_type : Status → Status → EventType
event_type recovery_required next = execution_recovered
event_type previous authorized = execution_authorized
event_type previous queued = execution_queued
event_type previous executing = execution_executing
event_type previous submitted = execution_submitted
event_type previous confirming = execution_confirming
event_type previous confirmed = execution_confirmed
event_type previous verified = execution_verified
event_type previous completed = execution_completed
event_type previous failed = execution_failed
event_type previous recovery_required = execution_recovery_required
event_type previous next = execution_recovered

-- `auditRecord`
unfoldable pub audit_record : Execution → Execution → Time → Text → AuditRecord
audit_record previous next at reason = record {
  resource_id = next.request.execution_id;
  previous_state = previous.status;
  new_state = next.status;
  event_execution_id = next.request.execution_id;
  event_revision = next.revision;
  event_status = next.status;
  event_type = event_type previous.status next.status;
  occurred_at = at;
  safe_reason_code = reason;
}

-- The loop of `latestReference`, from the last observation back.
unfoldable pub last_reference : List Observation → Option Text
last_reference [] = none
last_reference (v ∷ vs) = elim (last_reference vs) [
  | some later ↦ some later
  | none ↦ if is_empty v.adapter_reference then none else some v.adapter_reference
]

-- The loop of `hasVerifiedEvidence`.
unfoldable pub any_verified : List Observation → ℕ → Bool
any_verified [] revision = false
any_verified (v ∷ vs) revision =
    status_eq v.status verified && v.execution_version == revision || any_verified vs revision

abbrev pub invalid_state : Error
invalid_state = new_error execution_invalid false true true

-- The failure that an adapter's error stands for.
unfoldable pub adapter_failure : AdapterError → Failure
adapter_failure e = elim e.kind [
  | permanent ↦ record { code = e.reason_code; eligibility = terminal; recovery_target = unset }
  | _ ↦ record { code = e.reason_code; eligibility = recoverable; recovery_target = executing }
]

-- The observation that records a failure or an interruption.
unfoldable pub failure_observation : Execution → Text → Text → Time → Observation
failure_observation next reference code at = record {
  execution_id = next.request.execution_id;
  execution_version = next.revision;
  status = next.status;
  adapter_reference = reference;
  error_code = code;
  observed_at = at;
}

-- The observation that records a reference.
unfoldable pub reference_observation : Execution → Text → Time → Observation
reference_observation next reference at = record {
  execution_id = next.request.execution_id;
  execution_version = next.revision;
  status = next.status;
  adapter_reference = reference;
  error_code = [];
  observed_at = at;
}

module _ {W : Type 0} where
  -- `return value, nil`
  abbrev pub done : Execution → W → Reply W
  done e w = record { value = e; problem = none; world = w }

  -- `return value, err`
  abbrev pub stop : Execution → Error → W → Reply W
  stop e problem w = record { value = e; problem = some problem; world = w }

  -- `x, err := r; if err != nil { return value, err }`
  unfoldable pub attempt {ℓ} : {A : Type ℓ} → Result A → Execution → W → (A → Reply W) → Reply W
  attempt (ok x) e w rest = rest x
  attempt (err problem) e w rest = stop e problem w

  -- `if err := r(); err != nil { return value, err }; return value, nil`
  unfoldable pub report : Execution → Option Error × W → Reply W
  report e (some problem, w) = stop e problem w
  report e (none, w) = done e w

  -- `x, err := r(); if err != nil { return value, err }` for a call that returns an execution: its
  -- error, what it returned, the value, and what follows.
  unfoldable pub proceed : Option Error → Reply W → Execution → (Execution → W → Reply W) → Reply W
  proceed (some problem) reply e rest = stop e problem reply.world
  proceed none reply e rest = rest reply.value reply.world

module _ ⦃platform : Platform⦄ {W : Type 0} (ports : Ports W) where
  -- `persist`
  unfoldable pub persist : ExecutionClaim → Execution → Execution → Time → Text → W → Reply W
  persist claim current next now reason w =
      ports.update_claimed_execution claim next current.revision
        (audit_record current next now reason) now w

  -- `transition`
  unfoldable pub transition : ExecutionClaim → Execution → Status → Time → W → Reply W
  transition claim current status now w =
      attempt (Lifecycle.transition current status now) current w
        λ next. persist claim current next now [] w

  -- `persistObservation`
  unfoldable pub persist_observation :
      ExecutionClaim → Execution → Observation → Status → Time → W → Reply W
  persist_observation claim current result status now w =
      attempt (Lifecycle.transition current status now) current w λ next.
        attempt
          (new_result (reference_observation next result.adapter_reference result.observed_at))
          current w
          λ evidence.
            ports.persist_claimed_observation claim evidence next current.revision
              (audit_record current next now []) now w

  -- `persistFailureObservation`
  unfoldable pub persist_failure_observation :
      ExecutionClaim → Execution → Execution → Observation → Time → Text → W → Reply W
  persist_failure_observation claim current next result now reason w =
      attempt
        (new_result
          (failure_observation next result.adapter_reference result.error_code result.observed_at))
        current w
        λ observation.
          ports.persist_claimed_observation claim observation next current.revision
            (audit_record current next now reason) now w

  -- `value.RequireRecovery` and `persist`, for one reason.
  unfoldable pub interrupt : ExecutionClaim → Execution → Text → Time → W → Reply W
  unfolding persist
  interrupt claim e reason now w =
      attempt (Lifecycle.require_recovery e reason now) e w
        λ next. persist claim e next now reason w

  -- The branches of `submitOrReconcile` where the adapter returned an error.
  unfoldable pub submission_refused : ExecutionClaim → Execution → AdapterError → Time → W → Reply W
  submission_refused claim e classified now w =
      attempt (Lifecycle.fail e (adapter_failure classified) now) e w λ next.
        attempt
          (new_result
            (record (failure_observation next [] classified.reason_code now) { status = failed }))
          e w
          λ observation.
            persist_failure_observation claim e next observation now classified.reason_code w

  unfoldable pub submission_broken : ExecutionClaim → Execution → Time → W → Reply W
  submission_broken claim e now w =
      let reason = text "SUBMISSION_OUTCOME_AMBIGUOUS" in
      attempt (Lifecycle.require_recovery e reason now) e w λ next.
        attempt
          (new_result
            (record (failure_observation next [] reason now) { status = recovery_required }))
          e w λ observation. persist_failure_observation claim e next observation now reason w

  -- The switch on the status of the adapter's result.
  unfoldable pub submission_observed :
      Status → ExecutionClaim → Execution → Observation → Time → W → Reply W
  submission_observed submitted claim e result now w =
      persist_observation claim e result submitted now w
  submission_observed confirming claim e result now w =
      persist_observation claim e result confirming now w
  submission_observed confirmed claim e result now w =
      persist_observation claim e result confirming now w
  submission_observed failed claim e result now w =
      attempt
        (Lifecycle.fail e
          (record { code = result.error_code; eligibility = terminal; recovery_target = unset })
          now)
        e w λ next. persist_failure_observation claim e next result now result.error_code w
  submission_observed recovery_required claim e result now w =
      attempt (Lifecycle.require_recovery e result.error_code now) e w
        λ next. persist_failure_observation claim e next result now result.error_code w
  submission_observed _ claim e result now w = stop e invalid_state w

  -- `submitOrReconcile` from the adapter's answer on.
  unfoldable pub settle : ExecutionClaim → Execution → Time → AdapterReply × W → Reply W
  settle claim e now (observed result, w) =
      attempt (ensure_matches result e.request) e w
        λ _. submission_observed result.status claim e result now w
  settle claim e now (refused classified, w) = submission_refused claim e classified now w
  settle claim e now (broken, w) = submission_broken claim e now w

  -- `submitOrReconcile` from the answer of `MarkSubmissionStarted` on.
  unfoldable pub after_mark :
      ExecutionClaim → Execution → Time → Result (ExecutionClaim × Bool) × W → Reply W
  after_mark claim e now (err problem, w) = stop e problem w
  after_mark claim e now (ok (marked, false), w) =
      interrupt claim e (text "SUBMISSION_ALREADY_STARTED") now w
  after_mark claim e now (ok (marked, true), w) = settle marked e now (ports.execute e.request w)

  -- `submitOrReconcile`
  unfoldable pub submit_or_reconcile : ExecutionClaim → Execution → Time → W → Reply W
  submit_or_reconcile claim e now w =
      if claim.submission_started
      then settle claim e now (ports.get_status e.request.execution_id w)
      else after_mark claim e now (ports.mark_submission_started claim now w)
