-- ===== src/Execution/Progress.antt =====
-- What follows of an execution's history: it never goes back behind a submission, its end is final,
-- and from any point on the way it can still complete.
use wizpay_mcp.Base.{
  ◌∙◌, ℕ, ◌≤◌, ◌≡◌, ◌≢◌, refl, List, [], ◌∷◌, Bool, true, false, Time, Result, ok, err, Platform,
  arith,
}
use wizpay_mcp.Execution.Types.{
  Status, created, authorized, queued, executing, submitted, confirming, confirmed, verified,
  completed, failed, recovery_required, cancelled,
}
use wizpay_mcp.Execution.Lifecycle.{Execution, is_terminal}
use wizpay_mcp.Execution.Steps.{
  Edge, authorize, CanFail, executing_fails, Checkpoint, from_queued, Step, stay, move, fail_with,
  interrupt, reopen, resume_at, Operation, perform, perform-Step,
}

-- How far a status is on the way. From 4 on, a request may have left the process.
abbrev stage_of : Status → ℕ
stage_of created = 0
stage_of authorized = 1
stage_of queued = 2
stage_of cancelled = 2
stage_of executing = 3
stage_of submitted = 4
stage_of confirming = 5
stage_of confirmed = 6
stage_of verified = 7
stage_of completed = 8
stage_of _ = 0

-- The status that a failed or interrupted execution stands for.
abbrev behind : Status → Status → Status → Status
behind failed from target = from
behind recovery_required from target = target
behind s from target = s

abbrev pub stage : Execution → ℕ
stage e = stage_of (behind e.status e.failed_from e.recovery.target)

Edge-stage :
    {s t : Status} → Edge s t → (a b : Status) → stage_of (behind s a b) ≤ stage_of (behind t a b)
Edge-stage authorize a b = omega arith
Edge-stage _ a b = omega arith

CanFail-stage : {s : Status} → CanFail s → (a b : Status) → stage_of (behind s a b) ≤ stage_of s
CanFail-stage executing_fails a b = omega arith
CanFail-stage _ a b = omega arith

Checkpoint-stage :
    {s t : Status}
    → Checkpoint s t
    → (stage_of s ≤ stage_of t)
      × ((a b : Status)
          → (stage_of (behind s a b) ≤ stage_of s) × (stage_of t ≤ stage_of (behind t a b)))
Checkpoint-stage from_queued = (omega arith, λ a b. (omega arith, omega arith))
Checkpoint-stage _ = (omega arith, λ a b. (omega arith, omega arith))

Step-stage : {at : Time} {e e' : Execution} → Step at e e' → stage e ≤ stage e'
Step-stage stay = omega arith
Step-stage {e = e} (move s fresh edge) = Edge-stage edge e.failed_from e.recovery.target
Step-stage {e = e} (fail_with f fresh can keep) = CanFail-stage can e.failed_from e.recovery.target
Step-stage {e = e} (interrupt reason s fresh c) =
    omega (arith, Checkpoint-stage c, (Checkpoint-stage c).1 e.failed_from e.recovery.target)
Step-stage {e = e} (reopen fresh is_failed open_again c) =
    rw is_failed (omega (arith, Checkpoint-stage c))
Step-stage {e = e} (resume_at fresh waiting c) =
    rw waiting
      (omega (arith, (Checkpoint-stage c), (Checkpoint-stage c).1 e.failed_from e.recovery.target))

-- The statuses that some operation leaves.
abbrev is_open : Status → Bool
is_open completed = false
is_open cancelled = false
is_open failed = false
is_open _ = true

Edge-is_open : {s t : Status} → Edge s t → is_open s ≡ true
Edge-is_open authorize = refl
Edge-is_open _ = refl

CanFail-is_open : {s : Status} → CanFail s → is_open s ≡ true
CanFail-is_open executing_fails = refl
CanFail-is_open _ = refl

Checkpoint-is_open : {s t : Status} → Checkpoint s t → is_open s ≡ true
Checkpoint-is_open from_queued = refl
Checkpoint-is_open _ = refl

not_open : (e : Execution) → is_terminal e ≡ true → is_open e.status ≡ true → ⊥
unfolding is_terminal
not_open e t o = ground arith

Step-terminal : {at : Time} {e e' : Execution} → Step at e e' → is_terminal e ≡ true → e' ≡ e
unfolding is_terminal
Step-terminal stay t = refl
Step-terminal {e = e} (move s fresh edge) t = absurd (not_open e t (Edge-is_open edge))
Step-terminal {e = e} (fail_with f fresh can keep) t = absurd (not_open e t (CanFail-is_open can))
Step-terminal {e = e} (interrupt reason s fresh c) t = absurd (not_open e t (Checkpoint-is_open c))
Step-terminal (reopen fresh is_failed open_again c) t = ground arith
Step-terminal (resume_at fresh waiting c) t = ground arith

-- A caller keeps its record where an operation returns an error.
abbrev pub kept : Result Execution → Execution → Execution
kept (ok e') e = e'
kept (err _) e = e

module _ ⦃platform : Platform⦄ where
  -- Any operations, each at any instant.
  unfoldable pub play : List (Operation × Time) → Execution → Execution
  play [] e = e
  play ((op, at) ∷ ops) e = play ops (kept (perform op e at) e)

  module _ {P : Execution → Execution → Type 0} (reflexive : (e : Execution) → P e e)
      (transitive : (a b c : Execution) → P a b → P b c → P a c)
      (one : (at : Time) (e e' : Execution) → Step at e e' → P e e') where
    kept_induction :
        (op : Operation) (e : Execution) (at : Time) (r : Result Execution)
        → perform op e at ≡ r
        → P e (kept r e)
    kept_induction op e at (ok e') h = one at e e' (perform-Step op e at h)
    kept_induction op e at (err x) h = reflexive e

    play_induction : (ops : List (Operation × Time)) (e : Execution) → P e (play ops e)
    unfolding play
    play_induction [] e = reflexive e
    play_induction ((op, at) ∷ ops) e =
        transitive e _ _ (kept_induction op e at (perform op e at) refl)
          (play_induction ops (kept (perform op e at) e))

  -- Whatever operations run, at whatever instants, the stage never falls.
  pub play-stage : (ops : List (Operation × Time)) (e : Execution) → stage e ≤ stage (play ops e)
  play-stage =
      play_induction {P = λ a b. stage a ≤ stage b} (λ e. omega arith) (λ a b c p q. omega arith)
        (λ at e e' s. Step-stage s)

  stage_at :
      (e : Execution) (s : Status)
      → e.status ≡ s
      → stage e ≡ stage_of (behind s e.failed_from e.recovery.target)
  stage_at e s h = rw h

  -- Once an execution is submitted, or stands failed or interrupted for a submitted one, no
  -- sequence of operations at any instants makes it queued, executing or cancelled again.
  pub submitted_never_resubmits :
      (ops : List (Operation × Time)) (e : Execution)
      → 4 ≤ stage e
      → let s = (play ops e).status in (s ≢ queued) × (s ≢ executing) × (s ≢ cancelled)
  submitted_never_resubmits ops e h =
      let bound = play-stage ops e in
      (
        λ q. omega (arith, stage_at (play ops e) queued q),
        λ q. omega (arith, stage_at (play ops e) executing q),
        λ q. omega (arith, stage_at (play ops e) cancelled q),
      )

  -- No sequence of operations changes a terminal execution: completed, cancelled, or failed with a
  -- terminal failure.
  pub terminal_absorbs :
      (ops : List (Operation × Time)) (e : Execution) → is_terminal e ≡ true → play ops e ≡ e
  terminal_absorbs =
      play_induction {P = λ a b. is_terminal a ≡ true → b ≡ a} (λ e t. refl)
        (λ a b c p q t. q (rw (p t) t) ∙ p t) (λ at e e' s t. Step-terminal s t)
