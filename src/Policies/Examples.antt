-- ===== src/Policies/Examples.antt =====
-- The sample policy over time and over the sample intent, and the theorems applied to it.
use wizpay_mcp.Base.{◌≡◌, true, ok, [], ◌∷◌}
use wizpay_mcp.Intents.Samples.{demo_platform}
use wizpay_mcp.Payments.Normal.{intent_material}
use wizpay_mcp.Payments.Samples.{demo_libraries}
use wizpay_mcp.Policies.Types.{Evaluation, before_execution, allow}
use wizpay_mcp.Policies.Rules.{normalize_rule}
use wizpay_mcp.Policies.Policy.{validate, active, disabled, is_terminal}
use wizpay_mcp.Policies.Evaluation.{evaluate, evaluate_rule, initial}
use wizpay_mcp.Policies.Membership.{rule_meaning, evaluate_rule-normalize_rule}
use wizpay_mcp.Policies.Decision.{IsSettled, evaluate-IsSettled}
use wizpay_mcp.Policies.Authorized.{IsAuthorized, evaluate-IsAuthorized}
use wizpay_mcp.Policies.Lifecycle.{play, SameTerms, play-SameTerms}
use wizpay_mcp.Policies.Allowed.{demo_valid, demo_view, demo-IsAuthorized}
use wizpay_mcp.Policies.Samples.{
  demo_encoding, demo_intent, demo_identity, demo_binding, demo_policy, chains_rule,
}

evaluate-IsAuthorized_example :
    ((e : Evaluation)
      → evaluate demo_policy demo_intent demo_identity demo_binding 50 before_execution ≡ ok e
      → e.decision ≡ allow
      → (e ≡ initial demo_policy demo_intent 50 before_execution)
        × IsAuthorized demo_policy demo_intent demo_identity demo_binding 50 before_execution)
    × (IsAuthorized demo_policy demo_intent demo_identity demo_binding 50 before_execution
        → evaluate demo_policy demo_intent demo_identity demo_binding 50 before_execution
          ≡ ok (initial demo_policy demo_intent 50 before_execution))
evaluate-IsAuthorized_example =
    evaluate-IsAuthorized demo_policy demo_intent demo_identity demo_binding 50 before_execution

evaluate-IsSettled_example :
    IsSettled
      (initial demo_policy demo_intent 50 before_execution)
      (initial demo_policy demo_intent 50 before_execution)
evaluate-IsSettled_example =
    evaluate-IsSettled demo_policy demo_intent demo_identity demo_binding 50 before_execution
      (evaluate-IsAuthorized_example.1 demo-IsAuthorized)

play-SameTerms_example :
    let p = play ((disabled, 50) ∷ (active, 60) ∷ []) demo_policy in
    (validate p ≡ ok tt)
    × SameTerms demo_policy p
    × (is_terminal demo_policy.status ≡ true → p ≡ demo_policy)
play-SameTerms_example = play-SameTerms ((disabled, 50) ∷ (active, 60) ∷ []) demo_policy demo_valid

evaluate_rule-normalize_rule_example :
    evaluate_rule (normalize_rule chains_rule) demo_view 50 ≡ rule_meaning chains_rule demo_view 50
evaluate_rule-normalize_rule_example = evaluate_rule-normalize_rule chains_rule demo_view 50
