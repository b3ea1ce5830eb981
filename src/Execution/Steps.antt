-- ===== src/Execution/Steps.antt =====
-- The lifecycle of an execution as a diagram: which statuses follow one another, what each
-- operation of internal/execution/lifecycle.go writes, and that the operations keep to it.
use wizpay_mcp.Base.{
  false, ◌||◌, refl, ◌≤◌, ◌<◌, ◌<◌, ◌≡◌, ◌≢◌, ◌⊎◌, inl, inr, refl, Bool, true, false, ◌||◌, u64_max,
  u64_incr, Time, Text, Result, ok, Platform, arith,
}
use wizpay_mcp.Execution.Types.{
  Status, created, authorized, queued, executing, submitted, confirming, confirmed, verified,
  completed, failed, recovery_required, cancelled, unset, unknown, status_eq, recoverable, Failure,
  Recovery, validate_failure, validate_recovery, valid_recovery_target,
}
use wizpay_mcp.Execution.Request
use wizpay_mcp.Execution.Request.{Request, invalid_execution}
use wizpay_mcp.Execution.Lifecycle.{
  Execution, valid_transition, recovery_target, can_fail, validate_transition_time, validate,
  advance, transition, fail, require_recovery, recover, resume,
}

-- The ordinary edges.
pub data Edge : Status → Status → Type 0 where
  authorize : Edge created authorized
  drop_created : Edge created cancelled
  enqueue : Edge authorized queued
  drop_authorized : Edge authorized cancelled
  start : Edge queued executing
  submit : Edge executing submitted
  observe : Edge executing confirming
  watch : Edge submitted confirming
  confirm : Edge confirming confirmed
  verify : Edge confirmed verified
  complete : Edge verified completed

ruleset edges = (
  authorize, drop_created, enqueue, drop_authorized, start, submit, observe, watch, confirm, verify,
  complete,
)

-- Where a failure may be recorded.
pub data CanFail : Status → Type 0 where
  executing_fails : CanFail executing
  submitted_fails : CanFail submitted
  confirming_fails : CanFail confirming
  confirmed_fails : CanFail confirmed

-- The checkpoint at which an interrupted execution goes on.
pub data Checkpoint : Status → Status → Type 0 where
  from_queued : Checkpoint queued executing
  from_executing : Checkpoint executing executing
  from_submitted : Checkpoint submitted confirming
  from_confirming : Checkpoint confirming confirming
  from_confirmed : Checkpoint confirmed confirmed
  from_verified : Checkpoint verified verified

ruleset checkpoints =
    (from_queued, from_executing, from_submitted, from_confirming, from_confirmed, from_verified)

-- The record with a new status, stamped with the time and the next revision.
abbrev pub stamp : Execution → Status → Time → Execution
stamp e s at = record e { status = s; updated_at = at; revision = u64_incr e.revision }

-- The instant does not precede the record, and the revision can advance.
abbrev pub Fresh : Time → Execution → Type 0
Fresh at e = (e.updated_at ≤ at) × (e.revision ≢ u64_max)

-- One successful operation at a time.
pub data Step (at : Time) (e : Execution) : Execution → Type 0 where
  stay : Step at e e
  move : (s : Status) → Fresh at e → Edge e.status s → Step at e (stamp e s at)
  fail_with :
      (f : Failure)
      → Fresh at e
      → CanFail e.status
      → (f.eligibility ≡ recoverable → Checkpoint e.status f.recovery_target)
      → Step at e (stamp (record e { failure = f; failed_from = e.status }) failed at)
  interrupt :
      (reason : Text) (s : Status)
      → Fresh at e
      → Checkpoint e.status s
      → Step at e (
          stamp
            (record e {
              recovery = record { reason_code = reason; from_status = e.status; target = s };
            })
            recovery_required
            at)
  reopen :
      Fresh at e
      → e.status ≡ failed
      → e.failure.eligibility ≡ recoverable
      → Checkpoint e.failed_from e.failure.recovery_target
      → Step at e (
          stamp
            (record e {
              recovery = record {
                reason_code = e.failure.code;
                from_status = e.failed_from;
                target = e.failure.recovery_target;
              };
            })
            recovery_required
            at)
  resume_at :
      Fresh at e
      → e.status ≡ recovery_required
      → Checkpoint e.recovery.from_status e.recovery.target
      → Step at e (stamp e e.recovery.target at)

Edge-valid_transition : (s t : Status) → valid_transition s t ≡ true → Edge s t
unfolding valid_transition
Edge-valid_transition created t h = grind (arith, edges)
Edge-valid_transition _ t h = grind (arith, edges)

pub Checkpoint-valid_recovery_target :
    (s t : Status) → valid_recovery_target s t ≡ true → Checkpoint s t
unfolding valid_recovery_target
Checkpoint-valid_recovery_target queued t h = grind (arith, checkpoints)
Checkpoint-valid_recovery_target _ t h = grind (arith, checkpoints)

can_fail-CanFail : (s : Status) → can_fail s ≡ true → CanFail s
unfolding can_fail
can_fail-CanFail executing h = executing_fails
can_fail-CanFail submitted h = submitted_fails
can_fail-CanFail confirming h = confirming_fails
can_fail-CanFail confirmed h = confirmed_fails
can_fail-CanFail _ h = cc

Fresh-validate_transition_time :
    (e : Execution) (at : Time) → validate_transition_time e at ≡ ok tt → Fresh at e
unfolding validate_transition_time
Fresh-validate_transition_time e at h = ground arith

pub time_of_fresh :
    (e : Execution) (at : Time)
    → 0 < at
    → e.updated_at ≤ at
    → e.revision < u64_max
    → validate_transition_time e at ≡ ok tt
unfolding validate_transition_time
time_of_fresh e at pos fresh room = ground arith

-- What an accepted failure says of its target.
pub target_of_failure :
    (f : Failure) (s : Status)
    → validate_failure f s ≡ ok tt
    → f.eligibility ≡ recoverable
    → valid_recovery_target s f.recovery_target ≡ true
unfolding validate_failure
target_of_failure f s h r = ground arith

pub target_of_recovery :
    (r : Recovery)
    → validate_recovery r ≡ ok tt
    → valid_recovery_target r.from_status r.target ≡ true
unfolding validate_recovery
target_of_recovery r h = ground arith

-- The statuses with no record of their own.
abbrev pub is_ordinary : Status → Bool
is_ordinary failed = false
is_ordinary recovery_required = false
is_ordinary unset = false
is_ordinary (unknown _) = false
is_ordinary _ = true

pub Edge-facts :
    {s t : Status}
    → Edge s t
    → (is_ordinary t ≡ true)
      × (valid_transition s t ≡ true)
      × (status_eq t s ≡ false)
      × (status_eq t failed || status_eq t recovery_required ≡ false)
unfolding valid_transition
Edge-facts authorize = (refl, refl, refl, refl)
Edge-facts _ = (refl, refl, refl, refl)

module _ ⦃platform : Platform⦄ where
  pub advance_lem :
      (e : Execution) (s : Status) (at : Time) {e' : Execution}
      → advance e s at ≡ ok e'
      → (e' ≡ stamp e s at) × (validate e' ≡ ok tt)
  unfolding advance
  advance_lem e s at h = ground arith

  pub failed_parts :
      (e : Execution)
      → validate e ≡ ok tt
      → e.status ≡ failed
      → validate_failure e.failure e.failed_from ≡ ok tt
  unfolding validate
  failed_parts e h s = ground arith

  pub recovery_parts :
      (e : Execution)
      → validate e ≡ ok tt
      → e.status ≡ recovery_required
      → validate_recovery e.recovery ≡ ok tt
  unfolding validate
  recovery_parts e h s = ground arith

  pub transition_outcome :
      (e : Execution) (s : Status) (at : Time) {e' : Execution}
      → transition e s at ≡ ok e'
      → (e' ≡ e) ⊎ (Fresh at e × (valid_transition e.status s ≡ true) × (advance e s at ≡ ok e'))
  unfolding transition
  transition_outcome e s at h = ground arith

  pub fail_outcome :
      (e : Execution) (f : Failure) (at : Time) {e' : Execution}
      → fail e f at ≡ ok e'
      → (e' ≡ e)
        ⊎ (Fresh at e
            × (can_fail e.status ≡ true)
            × (validate_failure f e.status ≡ ok tt)
            × (advance (record e { failure = f; failed_from = e.status }) failed at ≡ ok e'))
  unfolding fail
  fail_outcome e f at h = ground arith

  pub require_recovery_outcome :
      (e : Execution) (reason : Text) (at : Time) {e' : Execution}
      → require_recovery e reason at ≡ ok e'
      → let r : Recovery = record {
        reason_code = reason;
        from_status = e.status;
        target = recovery_target e.status;
      } in
        (e' ≡ e)
        ⊎ (Fresh at e
            × (validate_recovery r ≡ ok tt)
            × (advance (record e { recovery = r }) recovery_required at ≡ ok e'))
  unfolding require_recovery
  require_recovery_outcome e reason at h = ground arith

  pub recover_outcome :
      (e : Execution) (at : Time) {e' : Execution}
      → recover e at ≡ ok e'
      → let r : Recovery = record {
        reason_code = e.failure.code;
        from_status = e.failed_from;
        target = e.failure.recovery_target;
      } in
        Fresh at e
        × (validate e ≡ ok tt)
        × (e.status ≡ failed)
        × (e.failure.eligibility ≡ recoverable)
        × (advance (record e { recovery = r }) recovery_required at ≡ ok e')
  unfolding recover
  recover_outcome e at h = ground arith

  pub resume_outcome :
      (e : Execution) (at : Time) {e' : Execution}
      → resume e at ≡ ok e'
      → Fresh at e
        × (validate e ≡ ok tt)
        × (e.status ≡ recovery_required)
        × (advance e e.recovery.target at ≡ ok e')
  unfolding resume
  resume_outcome e at h = ground arith

  pub transition-Step :
      (e : Execution) (s : Status) (at : Time) {e' : Execution}
      → transition e s at ≡ ok e'
      → Step at e e'
  transition-Step e s at h = elim (transition_outcome e s at h) [
    | inl same ↦ rw same stay
    | inr (fresh, edge, adv) ↦
        rw ((advance_lem e s at adv).0) (move s fresh (Edge-valid_transition e.status s edge))
  ]

  pub fail-Step :
      (e : Execution) (f : Failure) (at : Time) {e' : Execution}
      → fail e f at ≡ ok e'
      → Step at e e'
  fail-Step e f at h = elim (fail_outcome e f at h) [
    | inl same ↦ rw same stay
    | inr (fresh, can, good, adv) ↦ rw ((advance_lem _ failed at adv).0) (
        fail_with f fresh (can_fail-CanFail e.status can) (λ r.
          Checkpoint-valid_recovery_target e.status f.recovery_target
            (target_of_failure f e.status good r)))
  ]

  pub require_recovery-Step :
      (e : Execution) (reason : Text) (at : Time) {e' : Execution}
      → require_recovery e reason at ≡ ok e'
      → Step at e e'
  require_recovery-Step e reason at h = elim (require_recovery_outcome e reason at h) [
    | inl same ↦ rw same stay
    | inr (fresh, good, adv) ↦ rw ((advance_lem _ recovery_required at adv).0) (
        interrupt reason (recovery_target e.status) fresh (
          Checkpoint-valid_recovery_target e.status (recovery_target e.status)
            (target_of_recovery _ good)))
  ]

  pub recover-Step :
      (e : Execution) (at : Time) {e' : Execution} → recover e at ≡ ok e' → Step at e e'
  recover-Step e at h =
      let (fresh, valid, is_failed, open_again, adv) = recover_outcome e at h in
      rw ((advance_lem _ recovery_required at adv).0) (
        reopen fresh is_failed open_again (
          Checkpoint-valid_recovery_target e.failed_from e.failure.recovery_target (
            target_of_failure e.failure e.failed_from (failed_parts e valid is_failed) open_again)))

  pub resume-Step :
      (e : Execution) (at : Time) {e' : Execution} → resume e at ≡ ok e' → Step at e e'
  resume-Step e at h =
      let (fresh, valid, waiting, adv) = resume_outcome e at h in
      rw ((advance_lem e e.recovery.target at adv).0) (
        resume_at fresh waiting (
          Checkpoint-valid_recovery_target e.recovery.from_status e.recovery.target
            (target_of_recovery e.recovery (recovery_parts e valid waiting))))

-- The operations, as data.
pub data Operation : Type 0 where
  to_status : Status → Operation
  fail_as : Failure → Operation
  interrupt_for : Text → Operation
  reopen_failed resume_work : Operation

module _ ⦃platform : Platform⦄ where
  abbrev pub perform : Operation → Execution → Time → Result Execution
  perform (to_status s) e at = transition e s at
  perform (fail_as f) e at = fail e f at
  perform (interrupt_for reason) e at = require_recovery e reason at
  perform reopen_failed e at = recover e at
  perform resume_work e at = resume e at

  -- Every successful operation returns the execution unchanged, or takes one edge of the status
  -- diagram at an instant not before the last update, stamps the record with that instant and the
  -- next revision, and writes nothing else but the failure or recovery record of that edge.
  pub perform-Step :
      (op : Operation) (e : Execution) (at : Time) {e' : Execution}
      → perform op e at ≡ ok e'
      → Step at e e'
  perform-Step (to_status s) e at h = transition-Step e s at h
  perform-Step (fail_as f) e at h = fail-Step e f at h
  perform-Step (interrupt_for reason) e at h = require_recovery-Step e reason at h
  perform-Step reopen_failed e at h = recover-Step e at h
  perform-Step resume_work e at h = resume-Step e at h

  -- Every successful operation returns an execution that validates.
  pub perform-valid :
      (op : Operation) (e : Execution) (at : Time) {e' : Execution}
      → perform op e at ≡ ok e'
      → validate e' ≡ ok tt
  unfolding transition fail require_recovery recover resume
  perform-valid (to_status s) e at {e'} h = ground (arith, advance_lem e s at {e' = e'})
  perform-valid (fail_as f) e at {e'} h =
      ground
        (arith, advance_lem (record e { failure = f; failed_from = e.status }) failed at {e' = e'})
  perform-valid (interrupt_for reason) e at {e'} h =
      let r : Recovery = record {
        reason_code = reason;
        from_status = e.status;
        target = recovery_target e.status;
      } in
      ground (arith, advance_lem (record e { recovery = r }) recovery_required at {e' = e'})
  perform-valid reopen_failed e at h =
      (advance_lem _ recovery_required at ((recover_outcome e at h).4)).1
  perform-valid resume_work e at h =
      (advance_lem e e.recovery.target at ((resume_outcome e at h).3)).1

  pub valid_parts :
      (e : Execution)
      → validate e ≡ ok tt
      → (Request.validate e.request ≡ ok tt) × (0 < e.created_at) × (e.created_at ≤ e.updated_at)
  unfolding validate
  valid_parts e v = ground arith

  -- A record in an ordinary status validates by its request and its stamps.
  pub valid_of_ordinary :
      (e : Execution)
      → is_ordinary e.status ≡ true
      → Request.validate e.request ≡ ok tt
      → 0 < e.revision
      → 0 < e.created_at
      → e.created_at ≤ e.updated_at
      → validate e ≡ ok tt
  unfolding validate
  valid_of_ordinary e o r rev c u = ground arith

  -- A valid execution takes every edge of the diagram at any instant that is not zero and not
  -- before its last update, while a revision is left, and the result is the record with the new
  -- status, that instant and the next revision.
  pub transition_ok :
      (e : Execution) (s : Status) (at : Time)
      → validate e ≡ ok tt
      → 0 < at
      → e.updated_at ≤ at
      → e.revision < u64_max
      → Edge e.status s
      → transition e s at ≡ ok (stamp e s at)
  unfolding transition advance
  transition_ok e s at v pos fresh room edge =
      let (o, t, ne, nf) = Edge-facts edge in
      let (r, c, u) = valid_parts e v in
      let good = valid_of_ordinary (stamp e s at) o r (omega arith) c (omega arith) in
      rw (v, ne, nf, time_of_fresh e at pos fresh room, t, good)
