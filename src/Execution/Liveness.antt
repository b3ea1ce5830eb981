-- ===== src/Execution/Liveness.antt =====
-- From every valid execution that is not terminal, some operations lead to COMPLETED.
use wizpay_mcp.Base.{
  ℕ, suc, ◌+◌, ◌≤◌, ◌<◌, ◌≡◌, ◌≢◌, ◌⊎◌, inl, inr, refl, List, [], ◌∷◌, true, false, u64_max, Time,
  ok, Platform, arith,
}
use wizpay_mcp.Execution.Types.{
  Status, created, authorized, queued, executing, submitted, confirming, confirmed, verified,
  completed, failed, recovery_required, cancelled, unset, unknown, recoverable, Failure,
  validate_recovery, validate_failure, status_eq, eligibility_eq,
}
use wizpay_mcp.Execution.Request
use wizpay_mcp.Execution.Lifecycle.{Execution, is_terminal, validate, recover, resume, advance}
use wizpay_mcp.Execution.Steps.{
  Edge, authorize, enqueue, start, observe, watch, confirm, verify, complete, Checkpoint,
  from_queued, stamp, is_ordinary, valid_of_ordinary, valid_parts, recovery_parts, failed_parts,
  target_of_recovery, Checkpoint-valid_recovery_target, time_of_fresh, transition_ok, Operation,
  to_status, reopen_failed, resume_work, perform, perform-valid,
}
use wizpay_mcp.Execution.Progress.{play}

-- A way of `n` edges to COMPLETED.
data Route : Status → ℕ → Type 0 where
  arrived : Route completed 0
  along : {s t : Status} {n : ℕ} → Edge s t → Route t n → Route s (suc n)

from_confirming_on : Route confirming 3
from_confirming_on = along confirm (along verify (along complete arrived))

-- The ordinary statuses short of the end have such a way, of seven edges at most.
route : (s : Status) → is_ordinary s ≡ true → s ≢ cancelled → (n : ℕ) × (n ≤ 7) × Route s n
route created o c = (
  7,
  omega arith,
  along authorize (along enqueue (along start (along observe from_confirming_on))),
)
route authorized o c =
    (6, omega arith, along enqueue (along start (along observe from_confirming_on)))
route queued o c = (5, omega arith, along start (along observe from_confirming_on))
route executing o c = (4, omega arith, along observe from_confirming_on)
route submitted o c = (4, omega arith, along watch from_confirming_on)
route confirming o c = (3, omega arith, from_confirming_on)
route confirmed o c = (2, omega arith, along verify (along complete arrived))
route verified o c = (1, omega arith, along complete arrived)
route completed o c = (0, omega arith, arrived)
route cancelled o c = absurd (c refl)
route failed o c = cc
route recovery_required o c = cc
route unset o c = cc
route (unknown n) o c = cc

recovery_of_failure :
    (f : Failure) (s : Status)
    → validate_failure f s ≡ ok tt
    → f.eligibility ≡ recoverable
    → validate_recovery
        (record { reason_code = f.code; from_status = s; target = f.recovery_target })
      ≡ ok tt
unfolding validate_failure validate_recovery
recovery_of_failure f s h r = ground arith

Checkpoint-target : {s t : Status} → Checkpoint s t → (is_ordinary t ≡ true) × (t ≢ cancelled)
Checkpoint-target from_queued = (refl, λ e. cc)
Checkpoint-target _ = (refl, λ e. cc)

module _ ⦃platform : Platform⦄ where
  live_kinds :
      (e : Execution)
      → validate e ≡ ok tt
      → is_terminal e ≡ false
      → (is_ordinary e.status ≡ true) × (e.status ≢ cancelled)
        ⊎ (e.status ≡ recovery_required)
        ⊎ (e.status ≡ failed) × (e.failure.eligibility ≡ recoverable)
  unfolding validate is_terminal validate_failure
  live_kinds e v live = ground arith

  valid_of_recovery :
      (e : Execution)
      → e.status ≡ recovery_required
      → validate_recovery e.recovery ≡ ok tt
      → Request.validate e.request ≡ ok tt
      → 0 < e.revision
      → 0 < e.created_at
      → e.created_at ≤ e.updated_at
      → validate e ≡ ok tt
  unfolding validate
  valid_of_recovery e w good r rev c u = ground arith

  abbrev CanComplete : Execution → Type 0
  CanComplete e = (ops : List (Operation × Time)) × ((play ops e).status ≡ completed)

  -- One successful operation, and then the rest.
  after :
      (op : Operation) (e : Execution) (at : Time) {e' : Execution}
      → perform op e at ≡ ok e'
      → CanComplete e'
      → CanComplete e
  unfolding play
  after op e at h (ops, done) = ((op, at) ∷ ops, rw (play, h) done)

  follow :
      {s : Status} {n : ℕ}
      → Route s n
      → (e : Execution) → e.status ≡ s
      → validate e ≡ ok tt
      → e.revision + n ≤ u64_max
      → CanComplete e
  unfolding play
  follow arrived e at_end v room = ([], at_end)
  follow (along {s = s} {t = t} edge rest) e here v room =
      let (r, c, u) = valid_parts e v in
      let moved =
        transition_ok e t e.updated_at v (omega arith) (omega arith) (omega arith) (rw here edge) in
      after (to_status t) e e.updated_at moved (
        follow rest (stamp e t e.updated_at) refl (perform-valid (to_status t) e e.updated_at moved)
          (omega arith))

  resume_ok :
      (e : Execution) (at : Time)
      → validate e ≡ ok tt
      → e.status ≡ recovery_required
      → 0 < at
      → e.updated_at ≤ at
      → e.revision < u64_max
      → is_ordinary e.recovery.target ≡ true
      → resume e at ≡ ok (stamp e e.recovery.target at)
  unfolding resume advance
  resume_ok e at v waiting pos fresh room o =
      let (r, c, u) = valid_parts e v in
      let good =
        valid_of_ordinary (stamp e e.recovery.target at) o r (omega arith) c (omega arith) in
      let is : status_eq e.status recovery_required ≡ true = rw waiting in
      rw (v, is, time_of_fresh e at pos fresh room, good)

  -- A recoverable failure, opened again.
  abbrev reopened : Execution → Time → Execution
  reopened e at =
      stamp
        (record e {
          recovery = record {
            reason_code = e.failure.code;
            from_status = e.failed_from;
            target = e.failure.recovery_target;
          };
        })
        recovery_required at

  reopened_valid :
      (e : Execution) (at : Time)
      → validate e ≡ ok tt
      → e.status ≡ failed
      → e.failure.eligibility ≡ recoverable
      → e.updated_at ≤ at
      → e.revision < u64_max
      → validate (reopened e at) ≡ ok tt
  reopened_valid e at v is_failed open_again fresh room =
      let (r, c, u) = valid_parts e v in
      valid_of_recovery (reopened e at) refl
        (recovery_of_failure e.failure e.failed_from (failed_parts e v is_failed) open_again) r
        (omega arith) c (omega arith)

  recover_ok :
      (e : Execution) (at : Time)
      → validate e ≡ ok tt
      → e.status ≡ failed
      → e.failure.eligibility ≡ recoverable
      → 0 < at
      → e.updated_at ≤ at
      → e.revision < u64_max
      → recover e at ≡ ok (reopened e at)
  unfolding recover advance
  recover_ok e at v is_failed open_again pos fresh room =
      let is : status_eq e.status failed ≡ true = rw is_failed in
      let can : eligibility_eq e.failure.eligibility recoverable ≡ true = rw open_again in
      rw (
        v,
        is,
        can,
        time_of_fresh e at pos fresh room,
        reopened_valid e at v is_failed open_again fresh room,
      )

  -- An interrupted execution resumes at its checkpoint and goes on from there.
  resumed :
      (e : Execution)
      → validate e ≡ ok tt
      → e.status ≡ recovery_required
      → e.revision + 8 ≤ u64_max
      → CanComplete e
  resumed e v waiting room =
      let (r, c, u) = valid_parts e v in
      let point =
        Checkpoint-valid_recovery_target e.recovery.from_status e.recovery.target
          (target_of_recovery e.recovery (recovery_parts e v waiting)) in
      let (o, live) = Checkpoint-target point in
      let (n, short, way) = route e.recovery.target o live in
      let moved = resume_ok e e.updated_at v waiting (omega arith) (omega arith) (omega arith) o in
      after resume_work e e.updated_at moved (
        follow way (stamp e e.recovery.target e.updated_at) refl
          (perform-valid resume_work e e.updated_at moved) (omega arith))

  reopened_completes :
      (e : Execution)
      → validate e ≡ ok tt
      → e.status ≡ failed
      → e.failure.eligibility ≡ recoverable
      → e.revision + 9 ≤ u64_max
      → CanComplete e
  reopened_completes e v is_failed open_again room =
      let (r, c, u) = valid_parts e v in
      let moved =
        recover_ok e e.updated_at v is_failed open_again (omega arith) (omega arith)
          (omega arith) in
      after reopen_failed e e.updated_at moved (
        resumed (reopened e e.updated_at) (perform-valid reopen_failed e e.updated_at moved) refl
          (omega arith))

  ordinary_completes :
      (e : Execution)
      → validate e ≡ ok tt
      → is_ordinary e.status ≡ true
      → e.status ≢ cancelled
      → e.revision + 9 ≤ u64_max
      → CanComplete e
  ordinary_completes e v o live room =
      let (n, short, way) = route e.status o live in follow way e refl v (omega arith)

  -- A valid execution that is not terminal, with nine revisions left, has a sequence of operations
  -- after which it is completed.
  pub live_can_complete :
      (e : Execution)
      → validate e ≡ ok tt
      → is_terminal e ≡ false
      → e.revision + 9 ≤ u64_max
      → (ops : List (Operation × Time)) × ((play ops e).status ≡ completed)
  live_can_complete e v live room = elim (live_kinds e v live) [
    | inl (o, nc) ↦ ordinary_completes e v o nc room
    | inr (inl waiting) ↦ resumed e v waiting (omega arith)
    | inr (inr (is_failed, open_again)) ↦ reopened_completes e v is_failed open_again room
  ]
