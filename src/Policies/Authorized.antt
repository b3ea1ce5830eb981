-- ===== src/Policies/Authorized.antt =====
-- When an evaluation ends in ALLOW.
use wizpay_mcp.Base.{
  ◌<◌, ◌≤◌, ◌≡◌, ◌≢◌, refl, sym, ap, ◌∙◌, true, false, Option, none, some, List, [], ◌∷◌, Text,
  text_eq→≡, text_eq_refl, trim_space, Time, ok, wrap_error, Platform, Libraries, arith,
  passed_first, ok-injective,
}
use wizpay_mcp.Intents.Intent
use wizpay_mcp.Intents.Intent.{Intent}
use wizpay_mcp.Owners.Identity
use wizpay_mcp.Owners.Identity.{Identity}
use wizpay_mcp.Owners.Binding
use wizpay_mcp.Owners.Binding.{Binding}
use wizpay_mcp.Payments.Normal.{Encoding, intent_material}
use wizpay_mcp.Policies.Types.{
  Decision, allow, EvaluationStage, before_approval, before_execution, unknown_stage, Reason,
  Evaluation, is_violation,
}
use wizpay_mcp.Policies.Rules
use wizpay_mcp.Policies.Rules.{Rule, clone_rules, normalize_rule}
use wizpay_mcp.Policies.Policy
use wizpay_mcp.Policies.Policy.{Policy, invalid}
use wizpay_mcp.Policies.View.{View, new_intent_view}
use wizpay_mcp.Policies.Evaluation.{
  combine_decision, lifecycle_decision, evaluate_rule, note_finding, evaluate_rules, evaluate,
  decide, lifecycle_reason, scope_reason, check_context, initial, expected_status, owner_differs,
}
use wizpay_mcp.Policies.Membership.{rule_meaning, evaluate_rule-normalize_rule}
use wizpay_mcp.Policies.Decision.{strictest, combine_strictest, evaluate-IsSettled}

module _ ⦃libraries : Libraries⦄ where
  -- No rule of the list is violated.
  abbrev pub NoneViolated : List Rule → View → Time → Type 0
  NoneViolated [] v at = Unit {0}
  NoneViolated (r ∷ rs) v at = (rule_meaning r v at ≡ ok none) × NoneViolated rs v at

  -- Every rule of the list denies or asks for a review.
  abbrev AreViolations : List Rule → Type 0
  AreViolations [] = Unit {0}
  AreViolations (r ∷ rs) = (is_violation r.on_violation ≡ true) × AreViolations rs

  validate-is_violation : (r : Rule) → Rules.validate r ≡ ok tt → is_violation r.on_violation ≡ true
  unfolding Rules.validate
  validate-is_violation r h = ground arith

  validate_rules-AreViolations :
      (seen : List Text) (previous : Text) (rs : List Rule)
      → Policy.validate_rules seen previous rs ≡ ok tt
      → AreViolations rs
  unfolding Policy.validate_rules
  validate_rules-AreViolations seen previous [] h = tt
  validate_rules-AreViolations seen previous (r ∷ rs) h =
      ground (
        arith,
        validate-is_violation r,
        validate_rules-AreViolations (r.rule_id ∷ seen) r.rule_id rs,
      )

  valid-AreViolations : (p : Policy) → Policy.validate p ≡ ok tt → AreViolations p.rules
  unfolding Policy.validate Policy.validate_fields
  valid-AreViolations p h = ground (arith, validate_rules-AreViolations [] [] p.rules)

  -- The policy is in effect.
  abbrev pub IsInEffect : Policy → Time → Type 0
  IsInEffect p at = (p.status ≡ Policy.active) × (p.valid_from ≤ at) × (at < p.expires_at)

  lifecycle_reason-IsInEffect :
      (p : Policy) (at : Time) → lifecycle_reason p at ≡ none → IsInEffect p at
  unfolding lifecycle_reason
  lifecycle_reason-IsInEffect p at h = ground arith

  IsInEffect-lifecycle_reason :
      (p : Policy) (at : Time) → IsInEffect p at → lifecycle_reason p at ≡ none
  unfolding lifecycle_reason
  IsInEffect-lifecycle_reason p at h = ground arith

  abbrev pub IsActiveOwner : Identity → Binding → Type 0
  IsActiveOwner identity b =
      (Identity.validate identity ≡ ok tt)
      × (identity.status ≡ Identity.active)
      × (Binding.validate b ≡ ok tt)
      × (b.user_id ≡ trim_space identity.user_id)
      × (b.status ≡ Binding.active)

  combine_is_strict : (d e : Decision) → is_violation e ≡ true → combine_decision d e ≢ allow
  unfolding combine_decision is_violation
  combine_is_strict d e h = ground arith

  note_finding-allow :
      (r : Rule) (outcome : Option Reason) (e : Evaluation)
      → is_violation r.on_violation ≡ true
      → strictest (note_finding r outcome e).findings ≡ allow
      → (outcome ≡ none) × (note_finding r outcome e ≡ e)
  unfolding note_finding
  note_finding-allow r none e v h = (refl, refl)
  note_finding-allow r (some reason) e v h = absurd (
      combine_is_strict (strictest e.findings) r.on_violation v
        (combine_strictest e.findings _ ∙ h))

  evaluated_none :
      (r : Rule) (v : View) (at : Time) {outcome : Option Reason}
      → wrap_error (evaluate_rule (normalize_rule r) v at) invalid ≡ ok outcome
      → rule_meaning r v at ≡ ok outcome
  evaluated_none r v at h = ground (arith, sym (evaluate_rule-normalize_rule r v at))

  normalized_violation : (r : Rule) → (normalize_rule r).on_violation ≡ r.on_violation
  unfolding normalize_rule
  normalized_violation r = refl

  evaluate_rules-NoneViolated :
      (rs : List Rule) (v : View) (at : Time) (e : Evaluation) {e' : Evaluation}
      → AreViolations rs
      → evaluate_rules (clone_rules rs) v at e ≡ ok e'
      → strictest e'.findings ≡ allow
      → NoneViolated rs v at × (e' ≡ e)
  unfolding evaluate_rules clone_rules
  evaluate_rules-NoneViolated [] v at e a h d = (tt, sym (ok-injective h))
  evaluate_rules-NoneViolated (r ∷ rs) v at e {e'} (a, rest) h d =
      let (outcome, found, after) =
        passed_first (wrap_error (evaluate_rule (normalize_rule r) v at) invalid) _ h in
      let (none_after, same) = evaluate_rules-NoneViolated rs v at _ rest after d in
      let (is_none, unchanged) =
        note_finding-allow (normalize_rule r) outcome e
          (ap is_violation (normalized_violation r) ∙ a)
          (ap (λ (x : Evaluation). strictest x.findings) (sym same) ∙ d) in
      ((evaluated_none r v at found ∙ ap ok is_none, none_after), same ∙ unchanged)

  NoneViolated-evaluate_rules :
      (rs : List Rule) (v : View) (at : Time) (e : Evaluation)
      → NoneViolated rs v at
      → evaluate_rules (clone_rules rs) v at e ≡ ok e
  unfolding evaluate_rules clone_rules note_finding
  NoneViolated-evaluate_rules [] v at e n = refl
  NoneViolated-evaluate_rules (r ∷ rs) v at e (n, rest) =
      rw (evaluate_rule-normalize_rule r v at, n) (NoneViolated-evaluate_rules rs v at e rest)

  module _ ⦃platform : Platform⦄ ⦃encoding : Encoding⦄ where
    abbrev pub IsInContext : Policy → Intent → Identity → Binding → Time → EvaluationStage → Type 0
    IsInContext p i identity b at stage =
        (Policy.validate p ≡ ok tt)
        × (Intent.validate i ≡ ok tt)
        × (at ≢ 0)
        × (i.status ≡ expected_status stage)
        × (at < i.params.expires_at)
        × (at < i.params.constraints.deadline)
        × IsActiveOwner identity b
        × (owner_differs identity b i.params.ownership ≡ false)

    check_context-IsInContext :
        (p : Policy) (i : Intent) (identity : Identity) (b : Binding) (at : Time)
        (stage : EvaluationStage)
        → check_context p i identity b at stage ≡ ok tt
        → IsInContext p i identity b at stage
    unfolding check_context Identity.ensure_authorizable Binding.ensure_authorizable
        Identity.authorizable_status Binding.authorizable_status
    check_context-IsInContext p i identity b at before_approval h =
        ground (arith, text_eq→≡ b.user_id (trim_space identity.user_id))
    check_context-IsInContext p i identity b at before_execution h =
        ground (arith, text_eq→≡ b.user_id (trim_space identity.user_id))
    check_context-IsInContext p i identity b at (unknown_stage t) h =
        ground (arith, text_eq→≡ b.user_id (trim_space identity.user_id))

    IsInContext-check_context :
        (p : Policy) (i : Intent) (identity : Identity) (b : Binding) (at : Time)
        (stage : EvaluationStage)
        → IsInContext p i identity b at stage
        → check_context p i identity b at stage ≡ ok tt
    unfolding check_context Identity.ensure_authorizable Binding.ensure_authorizable
        Identity.authorizable_status Binding.authorizable_status
    IsInContext-check_context p i identity b at before_approval h =
        ground (arith, text_eq_refl (trim_space identity.user_id))
    IsInContext-check_context p i identity b at before_execution h =
        ground (arith, text_eq_refl (trim_space identity.user_id))
    IsInContext-check_context p i identity b at (unknown_stage t) h =
        ground (arith, text_eq_refl (trim_space identity.user_id))

    -- What an ALLOW stands for.
    abbrev pub IsAuthorized : Policy → Intent → Identity → Binding → Time → EvaluationStage → Type 0
    IsAuthorized p i identity b at stage =
        IsInContext p i identity b at stage
        × IsInEffect p at
        × (scope_reason p i ≡ none)
        × (v : View) × (new_intent_view i ≡ ok v)
        × NoneViolated p.rules v at

    decided_allow :
        (p : Policy) (i : Intent) (at : Time) (start : Evaluation) (lifecycle scope : Option Reason)
        {e : Evaluation}
        → Policy.validate p ≡ ok tt
        → decide p i at start lifecycle scope ≡ ok e
        → e.decision ≡ allow
        → strictest e.findings ≡ allow
        → (lifecycle ≡ none)
          × (scope ≡ none)
          × (e ≡ start)
          × (v : View) × (new_intent_view i ≡ ok v)
          × NoneViolated p.rules v at
    unfolding decide lifecycle_decision
    decided_allow p i at start (some reason) scope valid h d s =
        absurd (let same = ap (λ (x : Evaluation). x.decision) (ok-injective h) in cc)
    decided_allow p i at start none (some reason) valid h d s =
        absurd (let same = ap (λ (x : Evaluation). x.decision) (ok-injective h) in cc)
    decided_allow p i at start none none valid h d s =
        let (view, made, rest) = passed_first (wrap_error (new_intent_view i) invalid) _ h in
        let (none_of, same) =
          evaluate_rules-NoneViolated p.rules view at start (valid-AreViolations p valid) rest s in
        (refl, refl, same, view, ground arith, none_of)

    -- Evaluate returns ALLOW exactly if policy and intent are valid, the intent has the status of
    -- the stage and neither it nor its constraints have expired, the identity and the binding are
    -- valid, active, of one user and the ones that own the intent, the policy is in effect, is the
    -- one that the intent names and covers it, and no rule, its lists read as sets, is violated;
    -- and then without any finding.
    pub evaluate-IsAuthorized :
        (p : Policy) (i : Intent) (identity : Identity) (b : Binding) (at : Time)
        (stage : EvaluationStage)
        → ((e : Evaluation)
            → evaluate p i identity b at stage ≡ ok e
            → e.decision ≡ allow
            → (e ≡ initial p i at stage) × IsAuthorized p i identity b at stage)
          × (IsAuthorized p i identity b at stage
              → evaluate p i identity b at stage ≡ ok (initial p i at stage))
    unfolding evaluate decide
    evaluate-IsAuthorized p i identity b at stage = (
      λ e h d.
          let (checked, passed, rest) = passed_first (check_context p i identity b at stage) _ h in
          let context = check_context-IsInContext p i identity b at stage passed in
          let settled = evaluate-IsSettled p i identity b at stage h in
          let (lifecycle, scope, same, view, made, none_of) =
            decided_allow p i at (initial p i at stage) (lifecycle_reason p at) (scope_reason p i)
              context.0 rest d (sym settled.0 ∙ d) in
          (same, (context, lifecycle_reason-IsInEffect p at lifecycle, scope, view, made, none_of)),
      λ a.
          let (context, effect, scope, view, made, none_of) = a in
          rw
            (
              IsInContext-check_context p i identity b at stage context,
              IsInEffect-lifecycle_reason p at effect,
              scope,
              made,
            )
            (NoneViolated-evaluate_rules p.rules view at _ none_of),
    )
