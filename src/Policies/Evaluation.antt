-- ===== src/Policies/Evaluation.antt =====
-- internal/policies/evaluator.go: the evaluation of a policy.
use wizpay_mcp.Base.{
  ℕ, ◌*◌, ◌==◌, Bool, true, false, not, ◌&&◌, ◌||◌, ltb, leb, if◌then◌else◌, Option, none, some,
  List, [], ◌∷◌, ◌++◌, map, is_empty, text_eq, Time, is_zero, ℤ, pos, negsuc, ltb_ℤ, int_max,
  Result, ok, err, Error, new_error, plain, required, refuse_if, wrap_error, ◌>>=◌, ◌>>◌,
  set_string, difference, is_listed, are_listed, Platform, Libraries, approval_required,
  intent_expired, wallet_mismatch, policy_expired, policy_disabled, policy_denied, review_required,
}
use wizpay_mcp.Intents.Material.{Ownership}
use wizpay_mcp.Intents.Intent
use wizpay_mcp.Intents.Intent.{Intent}
use wizpay_mcp.Owners.Identity
use wizpay_mcp.Owners.Identity.{Identity}
use wizpay_mcp.Owners.Binding
use wizpay_mcp.Owners.Binding.{Binding}
use wizpay_mcp.Payments.Params.{effective_wallet_provider}
use wizpay_mcp.Payments.Normal.{Encoding, intent_material}
use wizpay_mcp.Policies.Types.{
  Decision, allow, deny, require_review, EvaluationStage, before_approval, before_execution, Reason,
  RuleType, no_type, Finding, Evaluation, TokenReference, token_key, includes, normalize_scope,
  policy_draft, policy_not_effective, scope_mismatch, policy_reference_mismatch,
  operation_not_allowed, spending_limit_exceeded, chain_not_allowed, token_not_allowed,
  recipient_not_allowed, expiration_constraint_violated,
}
use wizpay_mcp.Policies.Types
use wizpay_mcp.Policies.Rules.{SpendingLimit, Expiration, Rule, by_type, rule_type, clone_rules}
use wizpay_mcp.Policies.Policy
use wizpay_mcp.Policies.Policy.{Policy, invalid, reference}
use wizpay_mcp.Policies.View.{View, new_intent_view}

-- `a.Sub(b)`: a duration, saturated.
unfoldable pub elapsed : ℤ → ℤ
elapsed (pos n) = if ltb int_max n then pos int_max else pos n
elapsed (negsuc n) = if ltb int_max n then negsuc int_max else negsuc n

abbrev pub time_sub : Time → Time → ℤ
time_sub a b = elapsed (difference a b)

-- `time.Duration(n) * time.Second`, which a valid rule keeps in range.
abbrev pub seconds : ℕ → ℤ
seconds n = pos (n * 1000000000)

abbrev pub violated_if : Bool → Reason → Result (Option Reason)
violated_if true reason = ok (some reason)
violated_if false reason = ok none

-- The case of an expiration in `evaluateRule`.
unfoldable pub evaluate_expiration : View → Time → Expiration → Result (Option Reason)
evaluate_expiration v at e =
    violated_if
      (ltb 0 e.max_lifetime_seconds
          && ltb_ℤ (seconds e.max_lifetime_seconds) (time_sub v.effective_deadline v.created_at)
        || ltb 0 e.minimum_remaining_seconds
          && ltb_ℤ (time_sub v.effective_deadline at) (seconds e.minimum_remaining_seconds))
      expiration_constraint_violated

-- `combineDecision`
unfoldable pub combine_decision : Decision → Decision → Decision
combine_decision deny _ = deny
combine_decision _ deny = deny
combine_decision require_review _ = require_review
combine_decision _ require_review = require_review
combine_decision _ _ = allow

-- `lifecycleDecision` and `denyDecision`
unfoldable pub lifecycle_decision : Evaluation → Reason → Evaluation
lifecycle_decision e reason = record e {
  decision = deny;
  findings = record { rule_id = []; rule_type = no_type; decision = deny; reason = reason } ∷ [];
}

-- The first finding, where `Error` reads it.
abbrev first_reason : List Finding → Option Reason
first_reason [] = none
first_reason (f ∷ fs) = some f.reason

abbrev decision_error : Decision → Error
decision_error require_review = new_error review_required false true false
decision_error _ = new_error policy_denied false true true

abbrev reason_error : Option Reason → Decision → Error
reason_error (some Types.policy_expired) d = new_error policy_expired false true true
reason_error (some Types.policy_disabled) d = new_error policy_disabled false true true
reason_error (some policy_draft) d = new_error policy_disabled false true true
reason_error (some policy_not_effective) d = new_error policy_disabled false true true
reason_error _ d = decision_error d

abbrev error_of : Decision → Option Reason → Option Error
error_of allow reason = none
error_of d reason = some (reason_error reason d)

-- `Result.Error`
unfoldable pub evaluation_error : Evaluation → Option Error
evaluation_error e = error_of e.decision (first_reason e.findings)

module _ ⦃libraries : Libraries⦄ where
  -- `allTokensAllowed`
  unfoldable pub are_tokens_allowed : List TokenReference → List TokenReference → Bool
  are_tokens_allowed values allowed = are_listed (map token_key values) (map token_key allowed)

  -- The case of a spending limit in `evaluateRule`.
  unfoldable pub evaluate_limit : View → SpendingLimit → Result (Option Reason)
  evaluate_limit v l =
      if not (is_listed l.intent_types v.kind)
      then ok none
      else if not (text_eq (token_key l.token) (token_key v.spend_token))
      then ok (some token_not_allowed)
      else do
        maximum ← required (set_string l.maximum.base_units)
        amount ← required (set_string v.spend_amount.base_units)
        violated_if (ltb_ℤ maximum amount) spending_limit_exceeded

  -- `evaluateRule`: the reason, where the rule is violated.
  unfoldable pub evaluate_rule : Rule → View → Time → Result (Option Reason)
  unfolding by_type
  evaluate_rule r v at =
      by_type r (evaluate_limit v)
        (λ allowed. violated_if (not (is_listed allowed v.kind)) operation_not_allowed)
        (λ allowed. violated_if (not (are_listed v.chains allowed)) chain_not_allowed)
        (λ allowed. violated_if (not (are_tokens_allowed v.tokens allowed)) token_not_allowed)
        (λ allowed. violated_if (not (are_listed v.recipients allowed)) recipient_not_allowed)
        (evaluate_expiration v at) (err plain)

  -- One round of the loop of `evaluate`, with the outcome of its rule.
  unfoldable pub note_finding : Rule → Option Reason → Evaluation → Evaluation
  note_finding r none e = e
  note_finding r (some reason) e = record e {
    decision = combine_decision e.decision r.on_violation;
    findings =
        e.findings
        ++ record {
          rule_id = r.rule_id;
          rule_type = rule_type r;
          decision = r.on_violation;
          reason = reason;
        }
          ∷ [];
  }

  -- The loop of `evaluate`.
  unfoldable pub evaluate_rules : List Rule → View → Time → Evaluation → Result Evaluation
  evaluate_rules [] v at e = ok e
  evaluate_rules (r ∷ rs) v at e = do
    outcome ← wrap_error (evaluate_rule r v at) invalid
    evaluate_rules rs v at (note_finding r outcome e)

  -- The checks of the policy's lifecycle in `evaluate`.
  unfoldable pub lifecycle_reason : Policy → Time → Option Reason
  lifecycle_reason p at =
      if Policy.status_eq p.status Policy.disabled
      then some Types.policy_disabled
      else if Policy.status_eq p.status Policy.expired || leb p.expires_at at
      then some Types.policy_expired
      else if not (Policy.status_eq p.status Policy.active)
      then some policy_draft
      else if ltb at p.valid_from
      then some policy_not_effective
      else none

  -- The context does not match the owner of the intent.
  unfoldable pub owner_differs : Identity → Binding → Ownership → Bool
  owner_differs identity b o =
      not (text_eq identity.user_id o.user_id)
      || not (text_eq identity.provider o.identity_provider)
      || not (text_eq b.binding_id o.wallet_binding_id)
      || not (b.version == o.wallet_binding_version)
      || not (text_eq b.provider (effective_wallet_provider o))
      || not (text_eq b.provider_user_reference o.provider_user_reference)
      || not (text_eq b.wallet_id o.wallet_id)
      || not (text_eq b.address o.wallet_address)
      || not (text_eq b.chain_id o.chain_id)
      || not (text_eq b.network o.network)

  module _ ⦃platform : Platform⦄ ⦃encoding : Encoding⦄ where
    -- The checks of the policy's reference and scope in `evaluate`.
    unfoldable pub scope_reason : Policy → Intent → Option Reason
    scope_reason p i =
        let scope = normalize_scope p.scope in
        let owner = i.params.ownership in
        if not (text_eq i.params.constraints.policy_reference (reference p))
        then some policy_reference_mismatch
        else if not (text_eq scope.user_id owner.user_id)
            || not (is_empty scope.wallet_binding_id)
              && not (text_eq scope.wallet_binding_id owner.wallet_binding_id)
            || not (includes scope i.params.kind)
        then some scope_mismatch
        else none

    abbrev pub expected_status : EvaluationStage → Intent.Status
    expected_status before_approval = Intent.created
    expected_status _ = Intent.approved

    abbrev status_error : EvaluationStage → Error
    status_error before_execution = new_error approval_required false true false
    status_error _ = invalid

    -- The checks of `evaluate` that return an error.
    unfoldable pub check_context :
        Policy → Intent → Identity → Binding → Time → EvaluationStage → Result (Unit {0})
    check_context p i identity b at stage = do
      Policy.validate p
      Intent.validate i
      refuse_if (is_zero at) invalid
      refuse_if (not (Intent.status_eq i.status (expected_status stage))) (status_error stage)
      refuse_if (leb i.params.expires_at at || leb i.params.constraints.deadline at)
          (new_error intent_expired false true true)
      Identity.ensure_authorizable identity
      Binding.ensure_authorizable b identity.user_id
      refuse_if (owner_differs identity b i.params.ownership)
          (new_error wallet_mismatch false true true)

    -- The result before any finding.
    abbrev pub initial : Policy → Intent → Time → EvaluationStage → Evaluation
    initial p i at stage = record {
      policy_id = p.policy_id;
      policy_version = p.version;
      intent_id = i.params.intent_id;
      intent_version = i.params.version;
      intent_digest = i.digest;
      stage = stage;
      decision = allow;
      evaluated_at = at;
      findings = [];
    }

    -- `evaluate` behind the checks that return an error.
    unfoldable pub decide :
        Policy → Intent → Time → Evaluation → Option Reason → Option Reason → Result Evaluation
    decide p i at e (some reason) _ = ok (lifecycle_decision e reason)
    decide p i at e none (some reason) = ok (lifecycle_decision e reason)
    decide p i at e none none = do
      view ← wrap_error (new_intent_view i) invalid
      evaluate_rules (clone_rules p.rules) view at e

    -- `evaluate`
    unfoldable pub evaluate :
        Policy → Intent → Identity → Binding → Time → EvaluationStage → Result Evaluation
    evaluate p i identity b at stage = do
      check_context p i identity b at stage
      decide p i at (initial p i at stage) (lifecycle_reason p at) (scope_reason p i)
