-- ===== src/Runtime/Preserved.antt =====
-- The whole service of internal/execution/runtime/service.go keeps what its calls keep.
use wizpay_mcp.Base.{
  ◌≡◌, inl, inr, refl, Bool, true, false, Time, Text, [], Result, ok, err, Platform,
}
use wizpay_mcp.Execution.Types.{
  Status, created, authorized, queued, executing, submitted, confirming, confirmed, verified,
  completed, failed, recovery_required,
}
use wizpay_mcp.Execution.Lifecycle.{Execution}
use wizpay_mcp.Runtime.Ports.{Scope, ExecutionClaim, Ports}
use wizpay_mcp.Runtime.Service.{Config}
use wizpay_mcp.Runtime.Process.{
  complete, reopen, process_status, process_claim, release, after_claim, process,
}
use wizpay_mcp.Runtime.Advance.{recover-Advance, resume-Advance}
use wizpay_mcp.Runtime.Writes.{Preserves, attempt_keeps, if_keeps, persist_keeps, transition_keeps}
use wizpay_mcp.Runtime.Submitting.{submit_or_reconcile_keeps}
use wizpay_mcp.Runtime.Verifying.{verify_keeps}

module _ ⦃platform : Platform⦄ {W : Type 0} (ports : Ports W) {P : W → Type 0}
    (keeps : Preserves ports P) where
  complete_keeps :
      (claim : ExecutionClaim) (e : Execution) (at : Time) (w : W)
      → claim.execution ≡ e
      → e.status ≡ verified
      → P w
      → P (complete ports claim e at w).world
  unfolding complete
  complete_keeps claim e at w same was p =
      let p' = keeps.find claim.scope e.request.execution_id w p in
      attempt_keeps P _ e _ _ p' λ found _.
        if_keeps P found _ _
          (transition_keeps ports keeps claim e completed at _ same (rw was refl) p') p'

  reopen_keeps :
      (claim : ExecutionClaim) (e : Execution) (at : Time) (w : W)
      → claim.execution ≡ e
      → P w
      → P (reopen ports claim e at w).world
  unfolding reopen
  reopen_keeps claim e at w same p = if_keeps P _ _ _ p (
      attempt_keeps P _ e w _ p
        λ next h. persist_keeps ports keeps claim e next at [] w same (recover-Advance e at h) p)

  process_status_keeps :
      (s : Status) (claim : ExecutionClaim) (e : Execution) (at : Time) (w : W)
      → e.status ≡ s
      → claim.execution ≡ e
      → P w
      → P (process_status ports s claim e at w).world
  unfolding process_status
  process_status_keeps created claim e at w was same p =
      transition_keeps ports keeps claim e authorized at w same (rw was refl) p
  process_status_keeps authorized claim e at w was same p =
      transition_keeps ports keeps claim e queued at w same (rw was refl) p
  process_status_keeps queued claim e at w was same p =
      transition_keeps ports keeps claim e executing at w same (rw was refl) p
  process_status_keeps executing claim e at w was same p =
      submit_or_reconcile_keeps ports keeps claim e at w same was p
  process_status_keeps submitted claim e at w was same p =
      transition_keeps ports keeps claim e confirming at w same (rw was refl) p
  process_status_keeps confirming claim e at w was same p =
      verify_keeps ports keeps claim e at w same (inl was) p
  process_status_keeps confirmed claim e at w was same p =
      verify_keeps ports keeps claim e at w same (inr was) p
  process_status_keeps verified claim e at w was same p = complete_keeps claim e at w same was p
  process_status_keeps failed claim e at w was same p = reopen_keeps claim e at w same p
  process_status_keeps recovery_required claim e at w was same p =
      attempt_keeps P _ e w _ p
        λ next h. persist_keeps ports keeps claim e next at [] w same (resume-Advance e at h) p
  process_status_keeps _ claim e at w was same p = p

  -- Whatever the claim and the instant, `processClaim` keeps what its calls keep.
  pub process_claim_keeps :
      (claim : ExecutionClaim) (at : Time) (w : W) → P w → P (process_claim ports claim at w).world
  unfolding process_claim
  process_claim_keeps claim at w p =
      process_status_keeps claim.execution.status claim claim.execution at w refl refl p

  after_claim_keeps :
      (config : Config) (scope : Scope) (id : Text) (at : Time)
      (answer : Result (ExecutionClaim × Bool) × W)
      → P answer.1
      → P (after_claim ports config scope id at answer).world
  unfolding after_claim release
  after_claim_keeps config scope id at (err problem, w) p = p
  after_claim_keeps config scope id at (ok (claim, false), w) p = keeps.find_execution scope id w p
  after_claim_keeps config scope id at (ok (claim, true), w) p =
      keeps.release_work claim _ _ (process_claim_keeps claim at w p)

  -- A property of the world is kept by Process if each call keeps it under the guarantees of
  -- Preserves: every write advances the claimed execution by one edge to a valid one, guarded by
  -- its revision, with an audit record that validateRuntimeAudit accepts; observations describe
  -- what is written; evidence is written for VERIFIED only, after the verifier answered so for the
  -- claimed request; Execute is called only right after a mark that reports the start.
  pub process_keeps :
      (config : Config) (scope : Scope) (id : Text) (at : Time) (w : W)
      → P w
      → P (process ports config scope id at w).world
  unfolding process
  process_keeps config scope id at w p =
      after_claim_keeps config scope id at _
        (keeps.claim_work scope id config.worker_id at config.lease_duration w p)
