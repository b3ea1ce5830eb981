-- ===== src/Breaker/Invariant.antt =====
-- What holds of a breaker between two calls of its methods.
use wizpay_mcp.Base.{
  ◌+◌, ◌≤◌, ◌<◌, ◌≡◌, ◌⊎◌, arith, ok, ℤ, pos, negsuc, pos_part, neg_part, int_max,
}
use wizpay_mcp.Breaker.{
  closed, opened, half_open, validate, Breaker, Call, ask, succeed, fail, step,
}

abbrev pub ◌≤ℤ◌ : ℤ → ℤ → Type 0
◌≤ℤ◌ a b = pos_part a + neg_part b ≤ pos_part b + neg_part a

-- An `int` of 64 bits.
abbrev IsInt : ℤ → Type 0
IsInt (pos n) = n ≤ int_max
IsInt (negsuc n) = n ≤ int_max

pub record Inv (b : Breaker) : Type 0 where
  pub valid : validate b.config ≡ ok tt
  pub threshold_fits : pos_part b.config.failure_threshold ≤ int_max
  pub probes_fit : pos_part b.config.half_open_max_probes ≤ int_max
  pub known : (b.state ≡ closed) ⊎ (b.state ≡ opened) ⊎ (b.state ≡ half_open)
  pub closed_below :
      b.state ≡ closed
      → ◌≤ℤ◌ (pos 0) b.consecutive_fails
        × (pos_part b.consecutive_fails < pos_part b.config.failure_threshold)
  pub probing :
      b.state ≡ half_open
      → ◌≤ℤ◌ (pos 1) b.half_open_probes × ◌≤ℤ◌ b.half_open_probes b.config.half_open_max_probes
  pub idle : (b.state ≡ closed) ⊎ (b.state ≡ opened) → b.half_open_probes ≡ pos 0

-- Every call of a method, in any state and at any time, keeps the invariant.
pub step-Inv : (b : Breaker) (c : Call) → Inv b → Inv (step b c).0
unfolding step validate
step-Inv b (ask now) h = ground arith
step-Inv b (succeed now) h = ground arith
step-Inv b (fail now) h = ground arith
