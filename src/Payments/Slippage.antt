-- ===== src/Payments/Slippage.antt =====
-- What the checks of a swap guarantee.
use wizpay_mcp.Base.{
  ℕ, ◌+◌, ◌-◌, ◌*◌, ◌/◌, ◌<◌, ◌≤◌, ◌≡◌, ◌≢◌, refl, true, Option, none, some, pos, ok, required,
  Libraries, arith,
}
use wizpay_mcp.Payments.Amount.{base_int, is_positive}
use wizpay_mcp.Payments.CrossPayroll.{Timeline, contract_window}
use wizpay_mcp.Payments.Values.{units, positive-base_int}
use wizpay_mcp.Payments.Swap.{
  Swap, Quote, minimum_output_ceiling, validate_amounts, validate_deadline, validate_quoted,
  require_quote, validate_swap_phase12, validate_quote,
}

-- `minimumOutputCeiling` is the least number that is at least the share (10000 - bps) / 10000.
pub ceiling_is_least :
    (expected bps : ℕ)
    → (m : ℕ) × (minimum_output_ceiling (pos expected) bps ≡ pos m)
      × (expected * (10000 - bps) ≤ m * 10000)
      × ((k : ℕ) → expected * (10000 - bps) ≤ k * 10000 → m ≤ k)
unfolding minimum_output_ceiling
ceiling_is_least expected bps =
    ((expected * (10000 - bps) + 9999) / 10000, refl, omega arith, λ k h. omega arith)

-- The minimum output is positive, at most the expected output, and at least its share that the
-- slippage leaves.
abbrev pub IsFloored : Swap → Type 0
IsFloored s =
    (0 < units s.minimum_output)
    × (units s.minimum_output ≤ units s.expected_output)
    × (units s.expected_output * (10000 - s.max_slippage_bps) ≤ units s.minimum_output * 10000)

amounts_compared :
    (s : Swap) (e m c : ℕ)
    → validate_amounts s ≡ ok tt
    → base_int s.expected_output ≡ ok (pos e)
    → base_int s.minimum_output ≡ ok (pos m)
    → minimum_output_ceiling (pos e) s.max_slippage_bps ≡ pos c
    → (m ≤ e) × (c ≤ m)
unfolding validate_amounts
amounts_compared s e m c h a b d = ground arith

amounts_positive :
    (s : Swap)
    → validate_amounts s ≡ ok tt
    → (is_positive s.expected_output ≡ true) × (is_positive s.minimum_output ≡ true)
unfolding validate_amounts
amounts_positive s h = ground arith

validate_amounts-IsFloored : (s : Swap) → validate_amounts s ≡ ok tt → IsFloored s
validate_amounts-IsFloored s h =
    let (for_expected, for_minimum) = amounts_positive s h in
    let (minimum, some_minimum) = positive-base_int s.minimum_output for_minimum in
    let (expected, some_expected) = positive-base_int s.expected_output for_expected in
    let (c, ceiling, enough, least) =
      ceiling_is_least (units s.expected_output) s.max_slippage_bps in
    let (most, floor) =
      amounts_compared s (units s.expected_output) (units s.minimum_output) c h expected minimum
        ceiling in
    (some_minimum, most, omega arith)

-- The deadline respects the quote and every clock given.
abbrev pub IsTimely : Swap → Timeline → Type 0
IsTimely s t =
    (q : Quote) × (s.quote ≡ some q)
    × (s.deadline ≤ q.expires_at)
    × (t.created_at ≢ 0
        → (t.created_at < q.expires_at)
          × (t.created_at < s.deadline)
          × (s.deadline ≤ t.created_at + contract_window))
    × (t.constraint_deadline ≢ 0 → s.deadline ≤ t.constraint_deadline)
    × (t.expires_at ≢ 0 → s.deadline ≤ t.expires_at)

module _ ⦃libraries : Libraries⦄ where
  quoted-IsTimely :
      (s : Swap) (t : Timeline) (q : Quote)
      → validate_quoted s t q ≡ ok tt
      → s.quote ≡ some q
      → IsTimely s t
  unfolding validate_quoted validate_quote validate_deadline
  quoted-IsTimely s t q h e =
      (q, e, ground arith, λ c. ground arith, λ c. ground arith, λ c. ground arith)

  required_quote :
      (s : Swap) (t : Timeline) (o : Option Quote)
      → require_quote s t o ≡ ok tt
      → (q : Quote) × (o ≡ some q) × (validate_quoted s t q ≡ ok tt)
  required_quote s t none h = cc
  required_quote s t (some q) h = (q, refl, h)

  phase12_parts :
      (s : Swap) (t : Timeline)
      → validate_swap_phase12 s t ≡ ok tt
      → (validate_amounts s ≡ ok tt) × (require_quote s t s.quote ≡ ok tt)
  unfolding validate_swap_phase12
  phase12_parts s t h = ground arith

  -- A swap that validatePhase12 accepts has a positive minimum output, at most the expected output
  -- and at least the share of it that the slippage leaves; its deadline is not after the expiry of
  -- its quote, is within 20 minutes after a creation instant that is not zero, before which
  -- neither it nor the quote lies, and not after a constraint deadline or an expiry that is not
  -- zero.
  pub swap_is_bounded :
      (s : Swap) (t : Timeline) → validate_swap_phase12 s t ≡ ok tt → IsFloored s × IsTimely s t
  swap_is_bounded s t h =
      let (amounts, required) = phase12_parts s t h in
      let (q, e, quoted) = required_quote s t s.quote required in
      (validate_amounts-IsFloored s amounts, quoted-IsTimely s t q quoted e)
