-- ===== src/Runtime/Written.antt =====
-- internal/storage/postgres: what PersistClaimedEvidence (runtime_repository.go) and
-- AppendVerificationEvidence (evidence_repository.go) check before they insert a row of
-- verification_evidence, and how such rows are read back.
use wizpay_mcp.Base.{
  ℕ, ℤ, Bool, true, false, not, ◌||◌, ◌&&◌, ◌==◌, ltb, u64_incr, Time, is_zero, Text, is_empty, len,
  text_eq, trim_space, has_control, Result, ok, plain, new_error, validation_error,
  execution_invalid, refuse_if, ◌>>=◌, ◌>>◌,
}
use wizpay_mcp.Execution.Types.{verified, status_eq}
use wizpay_mcp.Execution.Evidence
use wizpay_mcp.Execution.Evidence.{Observation, new_result}
use wizpay_mcp.Execution.Lifecycle.{Execution}
use wizpay_mcp.Runtime.Ports.{Scope, ExecutionClaim, AuditRecord}
use wizpay_mcp.Runtime.Advance.{validate_runtime_audit}
use wizpay_mcp.Runtime.Rows.{Row, db_version, db_time}

-- `validateScopeField`
unfoldable pub validate_scope_field : Text → Bool → Result (Unit {0})
validate_scope_field value required = do
  refuse_if (required && is_empty value) plain
  refuse_if (not (is_empty value) && (ltb 256 (len value) || has_control value)) plain

-- `Scope.Validate`
unfoldable pub validate_scope : Scope → Result (Unit {0})
validate_scope s = do
  validate_scope_field (trim_space s.tenant_id) true
  validate_scope_field (trim_space s.actor_id) true
  validate_scope_field (trim_space s.request_id) true
  validate_scope_field (trim_space s.trace_id) false

-- `validateClaimParams`
unfoldable pub validate_claim_params : ExecutionClaim → Time → Result ℤ
validate_claim_params claim now = do
  validate_scope claim.scope
  refuse_if (is_empty claim.lease_owner || is_zero now) (new_error validation_error false true true)
  db_version claim.fencing_token

-- The parameters in `PersistClaimedEvidence` and `AppendVerificationEvidence`, with the version that
-- `dbVersion` returns.
unfoldable pub evidence_row : Observation → ℤ → Row
evidence_row o version = record {
  execution_id = o.execution_id;
  execution_version = version;
  status = o.status;
  adapter_reference = o.adapter_reference;
  error_code = o.error_code;
  observed_at = db_time o.observed_at;
}

-- The evidence and the execution are not the verified ones of one next revision.
unfoldable pub evidence_differs : Observation → Execution → ℕ → Bool
evidence_differs o value expected =
    not (status_eq value.status verified)
    || not (status_eq o.status verified)
    || not (text_eq o.execution_id value.request.execution_id)
    || not (value.revision == u64_incr expected)
    || not (o.execution_version == value.revision)

-- `PersistClaimedEvidence`, up to its transaction: the row that it inserts. `audited` is what
-- `auditParams` returns, which reads fields of an audit record that the model does not have.
unfoldable pub persist_claimed_evidence :
    ExecutionClaim
    → Observation
    → Execution
    → ℕ
    → AuditRecord
    → Result (Unit {0})
    → Time
    → Result Row
persist_claimed_evidence claim o value expected audit_record audited now = do
  token ← validate_claim_params claim now
  Evidence.validate o
  validate_runtime_audit claim value audit_record
  refuse_if (evidence_differs o value expected) (new_error execution_invalid false true true)
  version ← db_version o.execution_version
  revision ← db_version value.revision
  expected_revision ← db_version expected
  audited
  ok (evidence_row o version)

-- `AppendVerificationEvidence`, up to its query: the row that it inserts.
unfoldable pub append_verification_evidence : Scope → Observation → Result Row
append_verification_evidence scope o = do
  validate_scope scope
  Evidence.validate o
  version ← db_version o.execution_version
  ok (evidence_row o version)

-- A call of one of the two, with its arguments.
pub data EvidenceWrite : Type 0 where
  persisted :
      ExecutionClaim
      → Observation
      → Execution
      → ℕ
      → AuditRecord
      → Result (Unit {0})
      → Time
      → EvidenceWrite
  appended : Scope → Observation → EvidenceWrite

abbrev pub evidence_of : EvidenceWrite → Observation
evidence_of (persisted _ o _ _ _ _ _) = o
evidence_of (appended _ o) = o

unfoldable pub written : EvidenceWrite → Result Row
written (persisted claim o value expected audit_record audited now) =
    persist_claimed_evidence claim o value expected audit_record audited now
written (appended scope o) = append_verification_evidence scope o
