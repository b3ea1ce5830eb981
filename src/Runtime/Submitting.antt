-- ===== src/Runtime/Submitting.antt =====
-- internal/execution/runtime/service.go: `submitOrReconcile` keeps what its calls keep.
use wizpay_mcp.Base.{
  ◌≡◌, refl, ap, ◌∙◌, Bool, true, false, Time, Text, Result, ok, err, Platform, [],
}
use wizpay_mcp.Execution.Types.{
  Status, executing, submitted, confirming, confirmed, failed, recovery_required, status_eq,
}
use wizpay_mcp.Execution.Evidence.{Observation, new_result, ensure_matches}
use wizpay_mcp.Execution.Lifecycle
use wizpay_mcp.Execution.Lifecycle.{Execution}
use wizpay_mcp.Runtime.Ports.{ExecutionClaim, AdapterReply, observed, refused, broken, Ports}
use wizpay_mcp.Runtime.Service.{
  audit_record, persist_observation, persist_failure_observation, interrupt, submission_refused,
  submission_broken, submission_observed, settle, after_mark, submit_or_reconcile,
  reference_observation, failure_observation,
}
use wizpay_mcp.Runtime.Advance.{
  Advance, transition-Advance, fail-Advance, require_recovery-Advance, new_result-Describes,
}
use wizpay_mcp.Runtime.Writes.{Preserves, attempt_keeps, if_keeps, persist_keeps, Advance-Accepted}

module _ ⦃platform : Platform⦄ {W : Type 0} (ports : Ports W) {P : W → Type 0}
    (keeps : Preserves ports P) where
  observed_keeps :
      (claim : ExecutionClaim) (e next : Execution) (o o' : Observation) (at : Time) (reason : Text)
      (w : W)
      → claim.execution ≡ e
      → Advance at e next
      → o.execution_id ≡ next.request.execution_id
      → o.execution_version ≡ next.revision
      → new_result o ≡ ok o'
      → P w
      → P
          (ports.persist_claimed_observation claim o' next e.revision
            (audit_record e next at reason)
            at
            w).world
  observed_keeps claim e next o o' at reason w same a id version h p =
      keeps.observation claim o' next e.revision _ at w
        (Advance-Accepted ports keeps claim e next at reason same a)
        (new_result-Describes o next a.valid id version h) p

  persist_observation_keeps :
      (claim : ExecutionClaim) (e : Execution) (r : Observation) (s : Status) (at : Time) (w : W)
      → claim.execution ≡ e
      → status_eq s e.status ≡ false
      → P w
      → P (persist_observation ports claim e r s at w).world
  unfolding persist_observation reference_observation
  persist_observation_keeps claim e r s at w same new p =
      attempt_keeps P (Lifecycle.transition e s at) e w _ p λ next h.
        attempt_keeps P _ e w _ p λ o made.
          observed_keeps claim e next _ o at [] w same ((transition-Advance e s at new h).0) refl
            refl made p

  pub persist_failure_keeps :
      (claim : ExecutionClaim) (e next : Execution) (r : Observation) (at : Time) (reason : Text)
      (w : W)
      → claim.execution ≡ e
      → Advance at e next
      → P w
      → P (persist_failure_observation ports claim e next r at reason w).world
  unfolding persist_failure_observation failure_observation
  persist_failure_keeps claim e next r at reason w same a p =
      attempt_keeps P _ e w _ p
        λ o made. observed_keeps claim e next _ o at reason w same a refl refl made p

  pub interrupt_keeps :
      (claim : ExecutionClaim) (e : Execution) (reason : Text) (at : Time) (w : W)
      → claim.execution ≡ e
      → status_eq e.status recovery_required ≡ false
      → P w
      → P (interrupt ports claim e reason at w).world
  unfolding interrupt
  interrupt_keeps claim e reason at w same new p =
      attempt_keeps P (Lifecycle.require_recovery e reason at) e w _ p λ next h.
        persist_keeps ports keeps claim e next at reason w same
          ((require_recovery-Advance e reason at new h).0) p

  submission_observed_keeps :
      (s : Status) (claim : ExecutionClaim) (e : Execution) (r : Observation) (at : Time) (w : W)
      → claim.execution ≡ e
      → e.status ≡ executing
      → P w
      → P (submission_observed ports s claim e r at w).world
  unfolding submission_observed
  submission_observed_keeps submitted claim e r at w same was p =
      persist_observation_keeps claim e r submitted at w same (rw was refl) p
  submission_observed_keeps confirming claim e r at w same was p =
      persist_observation_keeps claim e r confirming at w same (rw was refl) p
  submission_observed_keeps confirmed claim e r at w same was p =
      persist_observation_keeps claim e r confirming at w same (rw was refl) p
  submission_observed_keeps failed claim e r at w same was p =
      attempt_keeps P (Lifecycle.fail e _ at) e w _ p λ next h.
        persist_failure_keeps claim e next r at _ w same ((fail-Advance e _ at (rw was refl) h).0) p
  submission_observed_keeps recovery_required claim e r at w same was p =
      attempt_keeps P (Lifecycle.require_recovery e _ at) e w _ p λ next h.
        persist_failure_keeps claim e next r at _ w same
          ((require_recovery-Advance e _ at (rw was refl) h).0) p
  submission_observed_keeps _ claim e r at w same was p = p

  settle_keeps :
      (claim : ExecutionClaim) (e : Execution) (at : Time) (answer : AdapterReply × W)
      → claim.execution ≡ e
      → e.status ≡ executing
      → P answer.1
      → P (settle ports claim e at answer).world
  unfolding settle submission_refused submission_broken
  settle_keeps claim e at (observed r, w) same was p =
      attempt_keeps P (ensure_matches r e.request) e w _ p
        λ _ _. submission_observed_keeps r.status claim e r at w same was p
  settle_keeps claim e at (refused f, w) same was p =
      attempt_keeps P (Lifecycle.fail e _ at) e w _ p λ next h. attempt_keeps P _ e w _ p λ o _.
        persist_failure_keeps claim e next o at _ w same ((fail-Advance e _ at (rw was refl) h).0) p
  settle_keeps claim e at (broken, w) same was p =
      attempt_keeps P (Lifecycle.require_recovery e _ at) e w _ p λ next h.
        attempt_keeps P _ e w _ p λ o _.
          persist_failure_keeps claim e next o at _ w same
            ((require_recovery-Advance e _ at (rw was refl) h).0) p

  after_mark_keeps :
      (claim : ExecutionClaim) (e : Execution) (at : Time) (w : W)
      (answer : Result (ExecutionClaim × Bool) × W)
      → ports.mark_submission_started claim at w ≡ answer
      → claim.execution ≡ e
      → e.status ≡ executing
      → P w
      → P (after_mark ports claim e at answer).world
  unfolding after_mark
  after_mark_keeps claim e at w (err problem, w') h same was p =
      rw (ap (λ x. x.1) h) at (keeps.mark claim at w p)
  after_mark_keeps claim e at w (ok (marked, false), w') h same was p =
      interrupt_keeps claim e _ at w' same (rw was refl)
        (rw (ap (λ x. x.1) h) at (keeps.mark claim at w p))
  after_mark_keeps claim e at w (ok (marked, true), w') h same was p =
      settle_keeps marked e at (ports.execute e.request w')
        (keeps.mark_keeps claim marked true at w w' h ∙ same) was
        (rw same at (keeps.execute claim marked at w w' h p))

  pub submit_or_reconcile_keeps :
      (claim : ExecutionClaim) (e : Execution) (at : Time) (w : W)
      → claim.execution ≡ e
      → e.status ≡ executing
      → P w
      → P (submit_or_reconcile ports claim e at w).world
  unfolding submit_or_reconcile
  submit_or_reconcile_keeps claim e at w same was p =
      if_keeps P claim.submission_started _ _
        (settle_keeps claim e at (ports.get_status e.request.execution_id w) same was
          (keeps.status _ w p))
        (after_mark_keeps claim e at w (ports.mark_submission_started claim at w) refl same was p)
