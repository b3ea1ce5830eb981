-- ===== src/Runtime/Reconcile.antt =====
-- internal/execution/runtime/service.go: a claim that says a submission was started only asks for
-- the status of that submission.
use wizpay_mcp.Base.{
  ◌≡◌, refl, Bool, true, false, if◌then◌else◌, Time, Text, Result, ok, err, Platform,
}
use wizpay_mcp.Execution.Types.{
  Status, executing, submitted, confirming, confirmed, failed, recovery_required,
}
use wizpay_mcp.Execution.Request.{Request}
use wizpay_mcp.Execution.Evidence.{Observation}
use wizpay_mcp.Execution.Lifecycle.{Execution}
use wizpay_mcp.Runtime.Ports
use wizpay_mcp.Runtime.Ports.{
  Scope, ExecutionClaim, VerificationResult, AdapterReply, observed, refused, broken, VerifierReply,
  judged, unavailable, broken_verifier, AuditRecord, Reply, Ports,
}
use wizpay_mcp.Runtime.Service.{
  attempt, persist, transition, interrupt, settle, submit_or_reconcile, persist_observation,
  persist_failure_observation, submission_observed, submission_refused, submission_broken,
}
use wizpay_mcp.Runtime.Process.{
  still_pending, verification_failed, record_verified, verification_verified, settle_verification,
  after_verify, verify, complete, reopen, process_status, process_claim,
}

module _ {W : Type 0} where
  attempt_same :
      {A : Type 0} (r : Result A) (e : Execution) (w : W) (f g : A → Reply W)
      → ((x : A) → f x ≡ g x)
      → attempt r e w f ≡ attempt r e w g
  unfolding attempt
  attempt_same (ok x) e w f g h = h x
  attempt_same (err problem) e w f g h = refl

  if_same :
      (b : Bool) {x y : Reply W} (u v : Reply W)
      → b ≡ true
      → x ≡ y
      → (if b then x else u) ≡ (if b then y else v)
  if_same true u v h same = same
  if_same false u v h same = cc

module _ ⦃platform : Platform⦄ {W : Type 0} (ports : Ports W) where
  submission_observed_same :
      (other : Request → W → AdapterReply × W) (s : Status) (claim : ExecutionClaim) (e : Execution)
      (o : Observation) (at : Time) (w : W)
      → submission_observed ports s claim e o at w
        ≡ submission_observed (record ports { execute = other }) s claim e o at w
  unfolding submission_observed persist_observation persist_failure_observation
  submission_observed_same other submitted claim e o at w = refl
  submission_observed_same other confirming claim e o at w = refl
  submission_observed_same other confirmed claim e o at w = refl
  submission_observed_same other failed claim e o at w = refl
  submission_observed_same other recovery_required claim e o at w = refl
  submission_observed_same other _ claim e o at w = refl

  settle_same :
      (other : Request → W → AdapterReply × W) (claim : ExecutionClaim) (e : Execution) (at : Time)
      (answer : AdapterReply × W)
      → settle ports claim e at answer ≡ settle (record ports { execute = other }) claim e at answer
  unfolding settle submission_refused submission_broken persist_failure_observation
  settle_same other claim e at (observed o, w) =
      attempt_same _ e w _ _ (λ _. submission_observed_same other o.status claim e o at w)
  settle_same other claim e at (refused f, w) = refl
  settle_same other claim e at (broken, w) = refl

  submit_or_reconcile_same :
      (other : Request → W → AdapterReply × W) (claim : ExecutionClaim) (e : Execution) (at : Time)
      (w : W)
      → claim.submission_started ≡ true
      → submit_or_reconcile ports claim e at w
        ≡ submit_or_reconcile (record ports { execute = other }) claim e at w
  unfolding submit_or_reconcile
  submit_or_reconcile_same other claim e at w begun =
      if_same claim.submission_started _ _ begun
        (settle_same other claim e at (ports.get_status e.request.execution_id w))

  settle_verification_same :
      (other : Request → W → AdapterReply × W) (o : Ports.VerificationOutcome)
      (claim : ExecutionClaim) (e : Execution) (reference : Text) (r : VerificationResult)
      (at : Time) (w : W)
      → settle_verification ports o claim e reference r at w
        ≡ settle_verification (record ports { execute = other }) o claim e reference r at w
  unfolding settle_verification still_pending verification_failed persist_failure_observation
      verification_verified persist record_verified
  settle_verification_same other Ports.pending claim e reference r at w = refl
  settle_verification_same other Ports.verified claim e reference r at w = refl
  settle_verification_same other Ports.failed claim e reference r at w = refl
  settle_verification_same other (Ports.unknown_outcome _) claim e reference r at w = refl

  after_verify_same :
      (other : Request → W → AdapterReply × W) (claim : ExecutionClaim) (e : Execution)
      (reference : Text) (at : Time) (answer : VerifierReply × W)
      → after_verify ports claim e reference at answer
        ≡ after_verify (record ports { execute = other }) claim e reference at answer
  unfolding after_verify interrupt
  after_verify_same other claim e reference at (judged r, w) =
      attempt_same _ e w _ _
        (λ _. settle_verification_same other r.outcome claim e reference r at w)
  after_verify_same other claim e reference at (unavailable, w) = refl
  after_verify_same other claim e reference at (broken_verifier, w) = refl

  verify_same :
      (other : Request → W → AdapterReply × W) (claim : ExecutionClaim) (e : Execution) (at : Time)
      (w : W)
      → verify ports claim e at w ≡ verify (record ports { execute = other }) claim e at w
  unfolding verify
  verify_same other claim e at w =
      attempt_same _ e _ _ _ (λ reference. after_verify_same other claim e reference at _)

  process_status_same :
      (other : Request → W → AdapterReply × W) (s : Status) (claim : ExecutionClaim) (e : Execution)
      (at : Time) (w : W)
      → claim.submission_started ≡ true
      → process_status ports s claim e at w
        ≡ process_status (record ports { execute = other }) s claim e at w
  unfolding process_status transition persist complete reopen
  process_status_same other executing claim e at w begun =
      submit_or_reconcile_same other claim e at w begun
  process_status_same other confirming claim e at w begun = verify_same other claim e at w
  process_status_same other confirmed claim e at w begun = verify_same other claim e at w
  process_status_same other _ claim e at w begun = refl

  -- For a claim that says a submission was started, ProcessClaim returns the same value, error and
  -- world whatever Execute would do.
  pub started_sends_nothing :
      (other : Request → W → AdapterReply × W) (claim : ExecutionClaim) (at : Time) (w : W)
      → claim.submission_started ≡ true
      → process_claim ports claim at w ≡ process_claim (record ports { execute = other }) claim at w
  unfolding process_claim
  started_sends_nothing other claim at w begun =
      process_status_same other claim.execution.status claim claim.execution at w begun
