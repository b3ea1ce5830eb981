-- ===== src/Breaker/Traces.antt =====
-- What histories of calls can do.
use wizpay_mcp.Base.{
  ap, ◌∙◌, ℕ, ◌+◌, ◌-◌, ◌≤◌, ◌<◌, ◌≡◌, ◌⊎◌, refl, Bool, true, false, arith, if◌then◌else◌, Time, ok,
  ℤ, pos, pos_part, List, [], ◌∷◌, map, int_max, length,
}
use wizpay_mcp.Breaker.{
  State, closed, opened, half_open, Config, validate, Breaker, new, Call, ask, succeed, fail, step,
  run,
}
use wizpay_mcp.Breaker.Invariant.{Inv, step-Inv}

run-Inv : (cs : List Call) (b : Breaker) → Inv b → Inv (run b cs).0
unfolding run
run-Inv [] b h = h
run-Inv (c ∷ cs) b h = run-Inv cs (step b c).0 (step-Inv b c h)

-- After any history of calls on a breaker made by New from 64-bit thresholds, its state is one of
-- the three, a closed breaker has from 0 up to fewer than FailureThreshold failures, a half-open
-- one from 1 to HalfOpenMaxProbes probes, and any other no probe.
pub history-Inv :
    (config : Config) (cs : List Call) {b : Breaker}
    → pos_part config.failure_threshold ≤ int_max
    → pos_part config.half_open_max_probes ≤ int_max
    → new config ≡ ok b
    → Inv (run b cs).0
unfolding new validate
history-Inv config cs {b} t p h = run-Inv cs b (ground arith)

-- The calls of a history at which the clock stays short of `limit`, without a reported success.
abbrev pub Early : Time → List Call → Type 0
Early limit [] = Unit {0}
Early limit (ask now ∷ cs) = (now < limit) × Early limit cs
Early limit (fail now ∷ cs) = (now < limit) × Early limit cs
Early limit (succeed now ∷ cs) = ⊥

step-Early :
    (b : Breaker) (c : Call)
    → Inv b
    → b.state ≡ opened
    → Early (b.opened_at + pos_part b.config.open_duration) (c ∷ [])
    → ((step b c).0.state ≡ opened)
      × ((step b c).0.opened_at ≡ b.opened_at)
      × ((step b c).0.config ≡ b.config)
      × ((step b c).1 ≡ false)
unfolding step validate
step-Early b (ask now) v o e = ground (arith, v.valid)
step-Early b (fail now) v o e = ground (arith, v.valid)
step-Early b (succeed now) v o e = absurd e

Early-uncons :
    (limit : Time) (c : Call) (cs : List Call)
    → Early limit (c ∷ cs)
    → Early limit (c ∷ []) × Early limit cs
Early-uncons limit (ask now) cs e = ((e.0, tt), e.1)
Early-uncons limit (fail now) cs e = ((e.0, tt), e.1)
Early-uncons limit (succeed now) cs e = absurd e

-- While the clock is short of the end of the cooldown of an open breaker that satisfies the
-- invariant, failures and asks let no request through, and the breaker stays open with its first
-- opening time.
pub cooldown_blocks :
    (cs : List Call) (b : Breaker)
    → Inv b
    → b.state ≡ opened
    → Early (b.opened_at + pos_part b.config.open_duration) cs
    → ((run b cs).1 ≡ 0) × ((run b cs).0.state ≡ opened) × ((run b cs).0.opened_at ≡ b.opened_at)
unfolding run
cooldown_blocks [] b v o e = (refl, o, refl)
cooldown_blocks (c ∷ cs) b v o e =
    let (now, later) = Early-uncons _ c cs e in
    let (still, since, same, blocked) = step-Early b c v o now in
    let rest = cooldown_blocks cs (step b c).0 (step-Inv b c v) still (rw (since, same) later) in
    (rw blocked rest.0, rest.1, rest.2 ∙ since)

-- How many probes may still be let through before an outcome is reported.
abbrev quota : State → ℤ → ℤ → ℕ
quota opened probes max = pos_part max
quota half_open probes max = pos_part max - pos_part probes
quota _ probes max = 0

abbrev quota_of : Breaker → ℕ
quota_of b = quota b.state b.half_open_probes b.config.half_open_max_probes

abbrev Probing : Breaker → Type 0
Probing b = (b.state ≡ opened) ⊎ (b.state ≡ half_open)

step_quota :
    (b : Breaker) (now : Time)
    → Inv b
    → Probing b
    → Probing (step b (ask now)).0
      × (quota_of (step b (ask now)).0 + (if (step b (ask now)).1 then 1 else 0) ≤ quota_of b)
unfolding step validate
step_quota b now v p = ground (arith, v.valid)

add_through :
    (t : Bool) (n a b : ℕ) → n ≤ a → a + (if t then 1 else 0) ≤ b → (if t then n + 1 else n) ≤ b
add_through true n a b p q = omega arith
add_through false n a b p q = omega arith

run_quota : (ts : List Time) (b : Breaker) → Inv b → Probing b → (run b (map ask ts)).1 ≤ quota_of b
unfolding run
run_quota [] b v p = omega arith
run_quota (now ∷ ts) b v p =
    let (p', le) = step_quota b now v p in
    let b' : Breaker = (step b (ask now)).0 in
    add_through (step b (ask now)).1 (run b' (map ask ts)).1 (quota_of b') (quota_of b)
      (run_quota ts b' (step-Inv b (ask now) v) p') le

quota_le : (b : Breaker) → quota_of b ≤ pos_part b.config.half_open_max_probes
quota_le b = ground arith

-- From an open or half-open breaker that satisfies the invariant, however many callers ask and
-- whenever they do, at most HalfOpenMaxProbes requests are let through before an outcome is
-- reported.
pub probes_bounded :
    (ts : List Time) (b : Breaker)
    → Inv b
    → Probing b
    → (run b (map ask ts)).1 ≤ pos_part b.config.half_open_max_probes
probes_bounded ts b v p = omega (arith, run_quota ts b v p, quota_le b)

step-fail :
    (b : Breaker) (now : Time) (m : ℕ)
    → Inv b
    → b.state ≡ closed
    → b.consecutive_fails ≡ pos m
    → let b' = (step b (fail now)).0 in
      (b'.config ≡ b.config)
      × (b'.consecutive_fails ≡ pos (m + 1))
      × (m + 1 < pos_part b.config.failure_threshold → b'.state ≡ closed)
      × (m + 1 ≡ pos_part b.config.failure_threshold → b'.state ≡ opened)
unfolding step validate
step-fail b now m v c f = (ground arith, ground arith, λ h. ground arith, λ h. ground arith)

-- A closed breaker that satisfies the invariant, with m consecutive failures, is still closed
-- after failures that bring the count below FailureThreshold, and open after failures that bring
-- it to the threshold.
pub opens_at_threshold :
    (ts : List Time) (b : Breaker) (m : ℕ)
    → Inv b
    → b.state ≡ closed
    → b.consecutive_fails ≡ pos m
    → (m + length ts < pos_part b.config.failure_threshold → (run b (map fail ts)).0.state ≡ closed)
      × (m + length ts ≡ pos_part b.config.failure_threshold
          → (run b (map fail ts)).0.state ≡ opened)
unfolding run
opens_at_threshold [] b m v c f =
    (λ h. c, λ h. absurd (omega (arith, (v.closed_below c).1, ap pos_part f)))
opens_at_threshold (now ∷ []) b m v c f =
    let (same, more, below, at) = step-fail b now m v c f in
    (λ h. below (omega arith), λ h. at (omega arith))
opens_at_threshold (now ∷ t ∷ ts) b m v c f =
    let (same, more, below, at) = step-fail b now m v c f in
    let b' : Breaker = (step b (fail now)).0 in
    let still = λ (h : m + 1 < pos_part b.config.failure_threshold).
      opens_at_threshold (t ∷ ts) b' (m + 1) (step-Inv b (fail now) v) (below h) more in
    (
      λ h. (still (omega arith)).0 (rw same (omega arith)),
      λ h. (still (omega arith)).1 (rw same (omega arith)),
    )
