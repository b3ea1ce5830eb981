-- ===== src/Runtime/Advance.antt =====
-- What the service persists: each write is one advance of the claimed execution, with an audit
-- record that internal/storage/postgres/runtime_repository.go accepts.
use wizpay_mcp.Base.{
  ◌≡◌, refl, ◌∙◌, ap, true, false, not, ◌||◌, ◌==◌, ==_refl, u64_incr, Time, Text, text_eq,
  text_eq_refl, text_eq→≡, trim_space, Result, ok, new_error, execution_invalid, refuse_if,
  Platform, arith,
}
use wizpay_mcp.Execution.Types.{
  Status, failed, recovery_required, ordinal, status_eq, Failure, validate_execution_text,
  validate_bounded_text,
}
use wizpay_mcp.Execution.Request
use wizpay_mcp.Execution.Evidence
use wizpay_mcp.Execution.Evidence.{Observation, new_result}
use wizpay_mcp.Execution.Lifecycle.{
  Execution, validate, transition, fail, require_recovery, recover, resume, advance,
  recovery_target,
}
use wizpay_mcp.Execution.Steps.{
  Step, advance_lem, transition-Step, fail-Step, require_recovery-Step, recover-Step, resume-Step,
  recover_outcome, resume_outcome,
}
use wizpay_mcp.Runtime.Ports.{ExecutionClaim, AuditRecord}
use wizpay_mcp.Runtime.Service.{audit_record}

-- `validateRuntimeAudit`
unfoldable pub validate_runtime_audit : ExecutionClaim → Execution → AuditRecord → Result (Unit {0})
validate_runtime_audit claim next record_ =
    refuse_if
      (not (text_eq claim.execution.request.execution_id next.request.execution_id)
        || not (text_eq record_.resource_id next.request.execution_id)
        || not (status_eq record_.previous_state claim.execution.status)
        || not (status_eq record_.new_state next.status)
        || not (text_eq record_.event_execution_id next.request.execution_id)
        || not (record_.event_revision == next.revision)
        || not (status_eq record_.event_status next.status))
      (new_error execution_invalid false true true)

module _ ⦃platform : Platform⦄ where
  -- One advance of an execution: an edge of its diagram, to the next revision of the same
  -- request, and valid.
  pub record Advance (at : Time) (e next : Execution) : Type 0 where
    pub step : Step at e next
    pub next_revision : next.revision ≡ u64_incr e.revision
    pub same_request : next.request ≡ e.request
    pub valid : validate next ≡ ok tt

  advanced :
      (e base : Execution) (s : Status) (at : Time) {next : Execution}
      → base.revision ≡ e.revision
      → base.request ≡ e.request
      → advance base s at ≡ ok next
      → Step at e next
      → Advance at e next
  advanced e base s at {next} rev req adv step =
      let (stamped, good) = advance_lem base s at adv in
      record {
        step = step;
        next_revision = ap (λ (x : Execution). x.revision) stamped ∙ ap u64_incr rev;
        same_request = ap (λ (x : Execution). x.request) stamped ∙ req;
        valid = good;
      }

  transition_advances :
      (e : Execution) (s : Status) (at : Time) {next : Execution}
      → status_eq s e.status ≡ false
      → transition e s at ≡ ok next
      → advance e s at ≡ ok next
  unfolding transition
  transition_advances e s at new h = ground (arith, new)

  fail_advances :
      (e : Execution) (f : Failure) (at : Time) {next : Execution}
      → status_eq e.status failed ≡ false
      → fail e f at ≡ ok next
      → advance (record e { failure = f; failed_from = e.status }) failed at ≡ ok next
  unfolding fail
  fail_advances e f at new h = ground (arith, new)

  pub transition-Advance :
      (e : Execution) (s : Status) (at : Time) {next : Execution}
      → status_eq s e.status ≡ false
      → transition e s at ≡ ok next
      → Advance at e next × (next.status ≡ s)
  transition-Advance e s at new h =
      let adv = transition_advances e s at new h in
      (
        advanced e e s at refl refl adv (transition-Step e s at h),
        ap (λ (x : Execution). x.status) ((advance_lem e s at adv).0),
      )

  pub fail-Advance :
      (e : Execution) (f : Failure) (at : Time) {next : Execution}
      → status_eq e.status failed ≡ false
      → fail e f at ≡ ok next
      → Advance at e next × (next.status ≡ failed)
  fail-Advance e f at new h =
      let adv = fail_advances e f at new h in
      (
        advanced e _ failed at refl refl adv (fail-Step e f at h),
        ap (λ (x : Execution). x.status) ((advance_lem _ failed at adv).0),
      )

  require_recovery_advances :
      (e : Execution) (reason : Text) (at : Time) {next : Execution}
      → status_eq e.status recovery_required ≡ false
      → require_recovery e reason at ≡ ok next
      → advance
          (record e {
            recovery = record {
              reason_code = reason;
              from_status = e.status;
              target = recovery_target e.status;
            };
          })
          recovery_required
          at
        ≡ ok next
  unfolding require_recovery
  require_recovery_advances e reason at new h = ground (arith, new)

  pub require_recovery-Advance :
      (e : Execution) (reason : Text) (at : Time) {next : Execution}
      → status_eq e.status recovery_required ≡ false
      → require_recovery e reason at ≡ ok next
      → Advance at e next × (next.status ≡ recovery_required)
  require_recovery-Advance e reason at new h =
      let adv = require_recovery_advances e reason at new h in
      (
        advanced e _ recovery_required at refl refl adv (require_recovery-Step e reason at h),
        ap (λ (x : Execution). x.status) ((advance_lem _ recovery_required at adv).0),
      )

  pub recover-Advance :
      (e : Execution) (at : Time) {next : Execution} → recover e at ≡ ok next → Advance at e next
  recover-Advance e at h =
      let (fresh, valid, is_failed, open_again, adv) = recover_outcome e at h in
      advanced e _ recovery_required at refl refl adv (recover-Step e at h)

  pub resume-Advance :
      (e : Execution) (at : Time) {next : Execution} → resume e at ≡ ok next → Advance at e next
  resume-Advance e at h =
      let (fresh, valid, waiting, adv) = resume_outcome e at h in
      advanced e e _ at refl refl adv (resume-Step e at h)

  -- The record that the service writes beside an advance is one that the storage accepts.
  pub Advance-validate_runtime_audit :
      (claim : ExecutionClaim) (next : Execution) (at : Time) (reason : Text)
      → Advance at claim.execution next
      → validate_runtime_audit claim next (audit_record claim.execution next at reason) ≡ ok tt
  unfolding validate_runtime_audit audit_record
  Advance-validate_runtime_audit claim next at reason a = rw (
    a.same_request,
    text_eq_refl claim.execution.request.execution_id,
    ==_refl next.revision,
    ==_refl (ordinal next.status),
    ==_refl (ordinal claim.execution.status),
  )

  trimmed : (t : Text) → validate_execution_text t ≡ ok tt → text_eq (trim_space t) t ≡ true
  unfolding validate_execution_text validate_bounded_text
  trimmed t h = ground arith

  id_text :
      (e : Execution) → validate e ≡ ok tt → validate_execution_text e.request.execution_id ≡ ok tt
  unfolding validate Request.validate Request.validate_texts
  id_text e v = ground arith

  -- The identifier of a valid request has no space around it.
  trimmed_id :
      (e : Execution)
      → validate e ≡ ok tt
      → trim_space e.request.execution_id ≡ e.request.execution_id
  trimmed_id e v = text_eq→≡ _ _ (trimmed e.request.execution_id (id_text e v))

  -- An observation as the storage takes it beside an execution.
  pub record Describes (o : Observation) (next : Execution) : Type 0 where
    pub valid : Evidence.validate o ≡ ok tt
    pub same_id : o.execution_id ≡ next.request.execution_id
    pub same_version : o.execution_version ≡ next.revision

  pub new_result_lem :
      (o : Observation) {o' : Observation}
      → new_result o ≡ ok o'
      → (Evidence.validate o' ≡ ok tt)
        × (o'.execution_id ≡ trim_space o.execution_id)
        × (o'.execution_version ≡ o.execution_version)
        × (o'.status ≡ o.status)
        × (o'.adapter_reference ≡ trim_space o.adapter_reference)
  unfolding new_result
  new_result_lem o h = ground arith

  pub new_result-Describes :
      (o : Observation) (next : Execution) {o' : Observation}
      → validate next ≡ ok tt
      → o.execution_id ≡ next.request.execution_id
      → o.execution_version ≡ next.revision
      → new_result o ≡ ok o'
      → Describes o' next
  new_result-Describes o next valid id version h =
      let (good, kept_id, kept_version, _, _) = new_result_lem o h in
      record {
        valid = good;
        same_id = kept_id ∙ ap trim_space id ∙ trimmed_id next valid;
        same_version = kept_version ∙ version;
      }
