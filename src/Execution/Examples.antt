-- ===== src/Execution/Examples.antt =====
-- A request and an execution, and the theorems applied to them.
use wizpay_mcp.Base.{◌≡◌, ◌≢◌, refl, List, [], ◌∷◌, Time, text, ok, arith}
use wizpay_mcp.Execution.Types.{
  created, authorized, queued, executing, submitted, completed, cancelled, recoverable, Failure,
}
use wizpay_mcp.Execution.Framing.{frame-injective}
use wizpay_mcp.Execution.Lifecycle.{validate, is_terminal, transition}
use wizpay_mcp.Execution.Steps.{
  authorize, stamp, Step, Operation, to_status, fail_as, interrupt_for, resume_work, perform,
  perform-Step, perform-valid, transition_ok,
}
use wizpay_mcp.Execution.Progress.{play, submitted_never_resubmits, terminal_absorbs}
use wizpay_mcp.Execution.Liveness.{live_can_complete}
use wizpay_mcp.Execution.Samples.{demo_platform, at_status, request_validates}

abbrev timeout_failure : Failure
timeout_failure = record {
  code = text "PROVIDER_TIMEOUT";
  eligibility = recoverable;
  recovery_target = executing;
}

created_valid : validate (at_status created) ≡ ok tt
unfolding validate
created_valid = rw request_validates

authorized_next :
    perform (to_status authorized) (at_status created) 30
    ≡ ok (stamp (at_status created) authorized 30)
authorized_next =
    transition_ok (at_status created) authorized 30 created_valid (omega arith) (omega arith)
      (omega arith) authorize

transition_ok_example :
    transition (at_status created) authorized 30 ≡ ok (stamp (at_status created) authorized 30)
transition_ok_example =
    transition_ok (at_status created) authorized 30 created_valid (omega arith) (omega arith)
      (omega arith) authorize

perform-Step_example : Step 30 (at_status created) (stamp (at_status created) authorized 30)
perform-Step_example = perform-Step (to_status authorized) (at_status created) 30 authorized_next

perform-valid_example : validate (stamp (at_status created) authorized 30) ≡ ok tt
perform-valid_example = perform-valid (to_status authorized) (at_status created) 30 authorized_next

abbrev attempts : List (Operation × Time)
attempts =
    (fail_as timeout_failure, 30)
    ∷ (interrupt_for (text "OUTCOME_AMBIGUOUS"), 31)
    ∷ (resume_work, 32)
    ∷ (to_status executing, 33)
    ∷ []

submitted_never_resubmits_example :
    let s = (play attempts (at_status submitted)).status in
    (s ≢ queued) × (s ≢ executing) × (s ≢ cancelled)
submitted_never_resubmits_example =
    submitted_never_resubmits attempts (at_status submitted) (omega arith)

terminal_absorbs_example : play attempts (at_status cancelled) ≡ at_status cancelled
unfolding is_terminal
terminal_absorbs_example = terminal_absorbs attempts (at_status cancelled) refl

live_can_complete_example :
    (ops : List (Operation × Time)) × ((play ops (at_status created)).status ≡ completed)
unfolding is_terminal
live_can_complete_example = live_can_complete (at_status created) created_valid refl (omega arith)

frame-injective_example : text "a" ∷ [] ≡ text "a" ∷ []
frame-injective_example = frame-injective (text "a" ∷ []) (text "a" ∷ []) refl
