-- ===== src/Breaker.antt =====
-- internal/providers/circuit/breaker.go. Each method runs under the breaker's lock, so a
-- concurrent history is a sequence of method calls; `b.now()` enters as the argument `now`.
mod Invariant
mod Traces
mod Examples
use wizpay_mcp.Base.{
  ℕ, ◌+◌, Bool, true, false, not, ltb, if◌then◌else◌, Time, Result, ok, err, Error, plain, ◌>>=◌,
  ◌>>◌, refuse_if, ℤ, pos, negsuc, pos_part, ltb_ℤ, geb_ℤ, int_incr, List, [], ◌∷◌,
}

-- `type State string`: its constants, and the other strings, numbered.
pub data State : Type 0 where
  closed opened half_open : State
  unknown : ℕ → State

pub record Config : Type 0 where
  pub failure_threshold : ℤ
  pub open_duration : ℤ  -- nanoseconds
  pub half_open_max_probes : ℤ

-- `Config.Validate`
unfoldable pub validate : Config → Result (Unit {0})
validate c = do
  refuse_if (ltb_ℤ c.failure_threshold (pos 1)) plain
  refuse_if (ltb_ℤ c.open_duration (pos 1)) plain
  refuse_if (ltb_ℤ c.half_open_max_probes (pos 1)) plain

-- `DefaultConfig`
pub default_config : Config
default_config = record {
  failure_threshold = pos 5;
  open_duration = pos 30_000_000_000;
  half_open_max_probes = pos 1;
}

-- The breaker without its lock and its clock; the zero time is 0.
pub record Breaker : Type 0 where
  pub config : Config
  pub state : State
  pub consecutive_fails : ℤ
  pub opened_at : Time
  pub last_failure_at : Time
  pub last_success_at : Time
  pub half_open_probes : ℤ

-- `New`
unfoldable pub new : Config → Result Breaker
unfolding validate
new config = do
  validate config
  ok (record {
    config = config;
    state = closed;
    consecutive_fails = pos 0;
    opened_at = 0;
    last_failure_at = 0;
    last_success_at = 0;
    half_open_probes = pos 0;
  })

-- `now.Before(openedAt.Add(d))`
abbrev before_add : Time → Time → ℤ → Bool
before_add now t (pos d) = ltb now (t + d)
before_add now t (negsuc d) = ltb (now + d + 1) t

-- The switch of `Allow`: the breaker, and whether the call may proceed (`ErrOpen` if not).
allow_in : State → Breaker → Time → Breaker × Bool
allow_in closed b now = (b, true)
allow_in opened b now =
    if before_add now b.opened_at b.config.open_duration
    then (b, false)
    else (record b { state = half_open; half_open_probes = pos 1 }, true)
allow_in half_open b now =
    if geb_ℤ b.half_open_probes b.config.half_open_max_probes
    then (b, false)
    else (record b { half_open_probes = int_incr b.half_open_probes }, true)
allow_in (unknown _) b now = (b, false)

-- `Allow`
unfoldable pub allow : Breaker → Time → Breaker × Bool
unfolding allow_in
allow b now = allow_in b.state b now

-- `RecordSuccess`
unfoldable pub record_success : Breaker → Time → Breaker
record_success b now = record b {
  consecutive_fails = pos 0;
  half_open_probes = pos 0;
  state = closed;
  opened_at = 0;
  last_success_at = now;
}

-- `openLocked`
unfoldable pub open_locked : Breaker → Time → Breaker
open_locked b now = record b { state = opened; opened_at = now; half_open_probes = pos 0 }

-- The switch of `RecordFailure`.
fail_in : State → Breaker → Time → Breaker
unfolding open_locked
fail_in half_open b now = open_locked b now
fail_in closed b now =
    if geb_ℤ b.consecutive_fails b.config.failure_threshold then open_locked b now else b
fail_in opened b now = b
fail_in (unknown _) b now = b

-- `RecordFailure`
unfoldable pub record_failure : Breaker → Time → Breaker
unfolding fail_in
record_failure b now =
    let b' : Breaker = record b {
      last_failure_at = now;
      consecutive_fails = int_incr b.consecutive_fails;
    } in
    fail_in b'.state b' now

pub record Snapshot : Type 0 where
  pub state : State
  pub consecutive_fails : ℤ
  pub opened_at : Time
  pub last_failure_at : Time
  pub last_success_at : Time

-- `Snapshot`
unfoldable pub snapshot : Breaker → Snapshot
snapshot b = record {
  state = b.state;
  consecutive_fails = b.consecutive_fails;
  opened_at = b.opened_at;
  last_failure_at = b.last_failure_at;
  last_success_at = b.last_success_at;
}

-- A call of a method.
pub data Call : Type 0 where
  ask succeed fail : Time → Call

-- The breaker after a call, and whether the call let an outbound request through.
unfoldable pub step : Breaker → Call → Breaker × Bool
unfolding allow record_success record_failure
step b (ask now) = allow b now
step b (succeed now) = (record_success b now, false)
step b (fail now) = (record_failure b now, false)

-- A history of calls, and how many requests it let through.
unfoldable pub run : Breaker → List Call → Breaker × ℕ
run b [] = (b, 0)
run b (c ∷ cs) =
    let (b', through) = step b c in
    let (last, n) = run b' cs in (last, if through then n + 1 else n)
