-- ===== src/Breaker/Examples.antt =====
-- A breaker, and the theorems applied to it.
use wizpay_mcp.Base.{◌+◌, ◌≤◌, ◌<◌, ◌≡◌, refl, inl, List, [], ◌∷◌, map, arith, pos}
use wizpay_mcp.Breaker.{closed, opened, Breaker, validate, new, Call, ask, succeed, fail, step, run}
use wizpay_mcp.Breaker.Invariant.{Inv, step-Inv}
use wizpay_mcp.Breaker.Traces.{history-Inv, cooldown_blocks, probes_bounded, opens_at_threshold}

abbrev fresh : Breaker
fresh = record {
  config = record {
    failure_threshold = pos 2;
    open_duration = pos 30;
    half_open_max_probes = pos 1;
  };
  state = closed;
  consecutive_fails = pos 0;
  opened_at = 0;
  last_failure_at = 0;
  last_success_at = 0;
  half_open_probes = pos 0;
}

abbrev broken : Breaker
broken = record fresh { state = opened; consecutive_fails = pos 2; opened_at = 100 }

fresh-Inv : Inv fresh
unfolding validate
fresh-Inv = ground arith

broken-Inv : Inv broken
unfolding validate
broken-Inv = ground arith

abbrev calls : List Call
calls = ask 1 ∷ fail 2 ∷ fail 3 ∷ ask 4 ∷ ask 40 ∷ succeed 41 ∷ []

step-Inv_example : Inv (step broken (ask 200)).0
step-Inv_example = step-Inv broken (ask 200) broken-Inv

history-Inv_example : Inv (run fresh calls).0
unfolding new
history-Inv_example = history-Inv fresh.config calls {b = fresh} (omega arith) (omega arith) refl

cooldown_blocks_example :
    ((run broken (ask 110 ∷ fail 120 ∷ ask 129 ∷ [])).1 ≡ 0)
    × ((run broken (ask 110 ∷ fail 120 ∷ ask 129 ∷ [])).0.state ≡ opened)
    × ((run broken (ask 110 ∷ fail 120 ∷ ask 129 ∷ [])).0.opened_at ≡ 100)
cooldown_blocks_example =
    cooldown_blocks (ask 110 ∷ fail 120 ∷ ask 129 ∷ []) broken broken-Inv refl (omega arith)

probes_bounded_example : (run broken (map ask (200 ∷ 201 ∷ 202 ∷ []))).1 ≤ 1
probes_bounded_example = probes_bounded (200 ∷ 201 ∷ 202 ∷ []) broken broken-Inv (inl refl)

opens_at_threshold_example :
    (0 + 2 < 2 → (run fresh (map fail (5 ∷ 6 ∷ []))).0.state ≡ closed)
    × (0 + 2 ≡ 2 → (run fresh (map fail (5 ∷ 6 ∷ []))).0.state ≡ opened)
opens_at_threshold_example = opens_at_threshold (5 ∷ 6 ∷ []) fresh 0 fresh-Inv refl refl
