-- ===== src/Runtime/Process.antt =====
-- internal/execution/runtime/service.go: `verify`, `processClaim`, `Process` and `Start`, and one
-- round of the loop of internal/execution/runtime/worker.go.
use wizpay_mcp.Base.{
  ◌+◌, Bool, true, false, not, ◌&&◌, ◌||◌, if◌then◌else◌, Time, Text, text, is_empty, text_eq,
  Option, none, some, List, [], Result, ok, err, Error, new_error, execution_recoverable,
  wrap_error, Platform,
}
use wizpay_mcp.Execution.Types.{
  Status, created, authorized, queued, executing, submitted, confirming, confirmed, verified,
  completed, failed, recovery_required, cancelled, unset, status_eq, terminal, eligibility_eq,
}
use wizpay_mcp.Execution.Evidence.{Observation, new_result}
use wizpay_mcp.Execution.Lifecycle
use wizpay_mcp.Execution.Lifecycle.{Execution, is_terminal}
use wizpay_mcp.Runtime.Ports
use wizpay_mcp.Runtime.Ports.{
  Scope, ExecutionClaim, VerificationResult, VerifierReply, judged, unavailable, broken_verifier,
  Reply, Ports,
}
use wizpay_mcp.Runtime.Service.{
  Config, hour, no_execution, last_reference, any_verified, audit_record, invalid_state,
  failure_observation, reference_observation, done, stop, attempt, report, proceed, persist,
  transition, persist_failure_observation, interrupt, submit_or_reconcile,
}

abbrev no_reference : Error
no_reference = new_error execution_recoverable true false false

-- `latestReference`, from the answer of the repository on.
unfoldable pub latest_reference : Result (List Observation) → Result Text
latest_reference (err problem) = err problem
latest_reference (ok values) = elim (last_reference values) [
  | some reference ↦ ok reference
  | none ↦ err no_reference
]

-- `hasVerifiedEvidence`, from the answer of the repository on.
unfoldable pub has_verified_evidence : Result (List Observation) → Execution → Result Bool
has_verified_evidence (err problem) e = err problem
has_verified_evidence (ok values) e = ok (any_verified values e.revision)

-- The error that `Process` returns: that of the work, or that of the release.
unfoldable pub first_problem : Option Error → Option Error → Option Error
first_problem (some problem) release_problem = some problem
first_problem none release_problem = release_problem

module _ ⦃platform : Platform⦄ {W : Type 0} (ports : Ports W) where
  -- The branch of a pending verification.
  unfoldable pub still_pending :
      ExecutionClaim → Execution → Text → VerificationResult → W → Reply W
  still_pending claim e reference result w =
      if not (is_empty result.reference) && not (text_eq result.reference reference)
      then attempt (new_result (reference_observation e result.reference result.observed_at)) e w
          (λ observation. report e (ports.append_verification_evidence claim.scope observation w))
      else done e w

  -- The branch of a failed verification.
  unfoldable pub verification_failed :
      ExecutionClaim → Execution → VerificationResult → Time → W → Reply W
  verification_failed claim e result now w =
      attempt
        (Lifecycle.fail e
          (record { code = result.reason_code; eligibility = terminal; recovery_target = unset })
          now)
        e w
        λ next.
          attempt
            (new_result
              (record (failure_observation next [] result.reason_code result.observed_at) {
                status = failed;
              }))
            e w
            λ observation.
              persist_failure_observation ports claim e next observation now result.reason_code w

  -- The branch of a verified result, for an execution that is confirmed.
  unfoldable pub record_verified :
      ExecutionClaim → VerificationResult → Time → Execution → W → Reply W
  record_verified claim result now e w = attempt (Lifecycle.transition e verified now) e w λ next.
      attempt
        (new_result (record (reference_observation next result.reference result.observed_at) {
          status = verified;
        }))
        e w
        λ evidence.
          ports.persist_claimed_evidence claim evidence next e.revision (audit_record e next now [])
            now w

  -- The branch of a verified result.
  unfoldable pub verification_verified :
      ExecutionClaim → Execution → VerificationResult → Time → W → Reply W
  verification_verified claim e result now w =
      if status_eq e.status confirming
      then attempt (Lifecycle.transition e confirmed now) e w (λ next.
        let reply = persist ports claim e next now [] w in
        proceed reply.problem reply e
          (λ stored w'. record_verified (record claim { execution = stored }) result now stored w'))
      else record_verified claim result now e w

  -- The switch of `verify`, on a result that validates.
  unfoldable pub settle_verification :
      Ports.VerificationOutcome
      → ExecutionClaim
      → Execution
      → Text
      → VerificationResult
      → Time
      → W
      → Reply W
  settle_verification Ports.pending claim e reference result now w =
      still_pending claim e reference result w
  settle_verification Ports.failed claim e reference result now w =
      verification_failed claim e result now w
  settle_verification Ports.verified claim e reference result now w =
      verification_verified claim e result now w
  settle_verification (Ports.unknown_outcome _) claim e reference result now w =
      stop e invalid_state w

  -- `verify` from the verifier's answer on.
  unfoldable pub after_verify :
      ExecutionClaim → Execution → Text → Time → VerifierReply × W → Reply W
  after_verify claim e reference now (judged result, w) =
      attempt (wrap_error (Ports.validate result) invalid_state) e w
        λ _. settle_verification result.outcome claim e reference result now w
  after_verify claim e reference now (unavailable, w) = done e w
  after_verify claim e reference now (broken_verifier, w) =
      interrupt ports claim e (text "VERIFICATION_OUTCOME_AMBIGUOUS") now w

  -- `verify`
  unfoldable pub verify : ExecutionClaim → Execution → Time → W → Reply W
  verify claim e now w =
      let (found, w') = ports.find_verification_evidence claim.scope e.request.execution_id w in
      attempt (latest_reference found) e w'
        λ reference. after_verify claim e reference now (ports.verify e reference w')

  -- `processClaim` on a verified execution.
  unfoldable pub complete : ExecutionClaim → Execution → Time → W → Reply W
  complete claim e now w =
      let (found, w') = ports.find_verification_evidence claim.scope e.request.execution_id w in
      attempt (has_verified_evidence found e) e w' λ is_verified.
        if is_verified then transition ports claim e completed now w' else stop e no_reference w'

  -- `processClaim` on a failed execution.
  unfoldable pub reopen : ExecutionClaim → Execution → Time → W → Reply W
  reopen claim e now w =
      if is_empty e.failure.code || eligibility_eq e.failure.eligibility terminal
      then done e w
      else attempt (Lifecycle.recover e now) e w (λ next. persist ports claim e next now [] w)

  -- The switch of `processClaim`.
  unfoldable pub process_status : Status → ExecutionClaim → Execution → Time → W → Reply W
  process_status created claim e now w = transition ports claim e authorized now w
  process_status authorized claim e now w = transition ports claim e queued now w
  process_status queued claim e now w = transition ports claim e executing now w
  process_status executing claim e now w = submit_or_reconcile ports claim e now w
  process_status submitted claim e now w = transition ports claim e confirming now w
  process_status confirming claim e now w = verify claim e now w
  process_status confirmed claim e now w = verify claim e now w
  process_status verified claim e now w = complete claim e now w
  process_status failed claim e now w = reopen claim e now w
  process_status recovery_required claim e now w =
      attempt (Lifecycle.resume e now) e w λ next. persist ports claim e next now [] w
  process_status completed claim e now w = done e w
  process_status cancelled claim e now w = done e w
  process_status _ claim e now w = stop e invalid_state w

  -- `processClaim`
  unfoldable pub process_claim : ExecutionClaim → Time → W → Reply W
  process_claim claim now w = process_status claim.execution.status claim claim.execution now w

  -- The part of `Process` after `processClaim`.
  unfoldable pub release : Config → ExecutionClaim → Time → Reply W → Reply W
  unfolding first_problem
  release config claim now reply =
      let next_run = if is_terminal reply.value then now + hour else now + config.retry_interval in
      let (release_problem, w) = ports.release_execution_work claim next_run reply.world in
      record {
        value = reply.value;
        problem = first_problem reply.problem release_problem;
        world = w;
      }

  -- `Process` from the answer of `ClaimExecutionWork` on.
  unfoldable pub after_claim :
      Config → Scope → Text → Time → Result (ExecutionClaim × Bool) × W → Reply W
  after_claim config scope execution_id now (err problem, w) = stop no_execution problem w
  after_claim config scope execution_id now (ok (claim, false), w) =
      ports.find_execution_by_id scope execution_id w
  after_claim config scope execution_id now (ok (claim, true), w) =
      release config claim now (process_claim claim now w)

  -- `Process`, at an instant of the clock.
  unfoldable pub process : Config → Scope → Text → Time → W → Reply W
  process config scope execution_id now w =
      after_claim config scope execution_id now
        (ports.claim_execution_work scope execution_id config.worker_id now config.lease_duration w)
