-- ===== src/Runtime/RowExamples.antt =====
-- Evidence that is written and read back, an observation that cannot be read, and the theorems
-- applied to them.
use wizpay_mcp.Base.{
  ℕ, pos, true, ◌*◌, ◌/◌, ◌≡◌, ◌≢◌, refl, inl, List, [], ◌∷◌, ◌++◌, map, text, text_eq, len,
  has_control, trim_space, ok, arith,
}
use wizpay_mcp.Execution.Lifecycle.{Execution}
use wizpay_mcp.Execution.Types.{
  Status, confirmed, verified, failed, validate_execution_text, validate_adapter_reference,
  validate_bounded_text, validate_reason_code,
}
use wizpay_mcp.Execution.Evidence
use wizpay_mcp.Execution.Evidence.{Observation}
use wizpay_mcp.Execution.Samples.{demo_platform, request, at_status}
use wizpay_mcp.Runtime.Ports.{Scope, ExecutionClaim, AuditRecord, execution_verified}
use wizpay_mcp.Runtime.Advance.{validate_runtime_audit}
use wizpay_mcp.Runtime.Rows
use wizpay_mcp.Runtime.Rows.{
  Row, Database, observation_row, read_rows, stored, failure_rows_are_unreadable,
}
use wizpay_mcp.Runtime.Written
use wizpay_mcp.Runtime.Written.{
  EvidenceWrite, persisted, appended, evidence_of, written, persist_claimed_evidence,
  append_verification_evidence,
}
use wizpay_mcp.Runtime.ReadBack.{AreWritten, read_rows-written}

-- A column keeps microseconds.
instance abbrev demo_database : Database
demo_database = record { timestamptz = λ at. at / 1000 * 1000 }

abbrev scope : Scope
scope = record { tenant_id = text "t"; actor_id = text "a"; request_id = text "r"; trace_id = [] }

abbrev at_revision : Status → ℕ → Execution
at_revision s n = record (at_status s) {
  request = record request { execution_id = text "exec_1" };
  revision = n;
}

abbrev lost : Observation
lost = record {
  execution_id = text "exec_1";
  execution_version = 4;
  status = failed;
  adapter_reference = [];
  error_code = text "PROVIDER_TIMEOUT";
  observed_at = 5_000_040;
}

failure_rows_are_unreadable_example : read_rows ([] ++ stored (observation_row lost) ∷ []) ≢ ok []
failure_rows_are_unreadable_example = failure_rows_are_unreadable lost [] [] [] (inl refl)

abbrev proof : Observation
proof = record lost {
  execution_version = 8;
  status = verified;
  adapter_reference = text "ref-1";
  error_code = [];
  observed_at = 6_000_007;
}

abbrev claim : ExecutionClaim
claim = record {
  scope = scope;
  execution = at_revision confirmed 7;
  lease_owner = text "worker-1";
  fencing_token = 1;
  lease_expires_at = 9_000_000;
  submission_started = true;
}

abbrev audit_record : AuditRecord
audit_record = record {
  resource_id = text "exec_1";
  previous_state = confirmed;
  new_state = verified;
  event_execution_id = text "exec_1";
  event_revision = 8;
  event_status = verified;
  event_type = execution_verified;
  occurred_at = 6_000_007;
  safe_reason_code = [];
}

abbrev writes : List EvidenceWrite
writes =
    appended scope lost
    ∷ persisted claim proof (at_revision verified 8) 7 audit_record (ok tt) 6_000_010
    ∷ []

abbrev rows : List Row
rows = Written.evidence_row lost (pos 4) ∷ Written.evidence_row proof (pos 8) ∷ []

writes-AreWritten : AreWritten writes rows
unfolding AreWritten written persist_claimed_evidence append_verification_evidence
    Written.validate_scope Written.validate_scope_field Written.validate_claim_params
    Written.evidence_differs validate_runtime_audit Rows.db_version Evidence.validate
    validate_execution_text validate_adapter_reference validate_bounded_text validate_reason_code
    text_eq trim_space len has_control
writes-AreWritten = (refl, omega arith, (refl, omega arith, tt))

-- The instants are cut to microseconds.
abbrev found : List Observation
found = (record lost { observed_at = 5_000_000 }) ∷ (record proof { observed_at = 6_000_000 }) ∷ []

read_rows-written_example : read_rows (map stored rows) ≡ ok found
read_rows-written_example = read_rows-written (λ at. omega arith) writes rows writes-AreWritten
