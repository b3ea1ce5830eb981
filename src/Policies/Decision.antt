-- ===== src/Policies/Decision.antt =====
-- What an evaluation decides.
use wizpay_mcp.Base.{
  ◌≡◌, refl, sym, ap, ◌∙◌, Bool, true, false, ◌||◌, if◌then◌else◌, Option, none, some, List, [],
  ◌∷◌, ◌++◌, Time, ok, wrap_error, Platform, Libraries, arith, passed_first, ok-injective,
}
use wizpay_mcp.Intents.Intent.{Intent}
use wizpay_mcp.Owners.Identity.{Identity}
use wizpay_mcp.Owners.Binding.{Binding}
use wizpay_mcp.Payments.Normal.{Encoding, intent_material}
use wizpay_mcp.Policies.Types.{
  Decision, allow, deny, require_review, EvaluationStage, Reason, Finding, Evaluation,
}
use wizpay_mcp.Policies.Rules.{Rule, clone_rules}
use wizpay_mcp.Policies.Policy.{Policy, invalid}
use wizpay_mcp.Policies.View.{View, new_intent_view}
use wizpay_mcp.Policies.Evaluation.{
  combine_decision, lifecycle_decision, evaluate_rule, note_finding, evaluate_rules, evaluate,
  decide, lifecycle_reason, scope_reason, check_context, initial,
}

abbrev is_deny : Decision → Bool
is_deny deny = true
is_deny _ = false

abbrev is_review : Decision → Bool
is_review require_review = true
is_review _ = false

abbrev any : (Decision → Bool) → List Finding → Bool
any test [] = false
any test (f ∷ fs) = test f.decision || any test fs

-- The strictest decision of the findings.
abbrev pub strictest : List Finding → Decision
strictest fs = if any is_deny fs then deny else if any is_review fs then require_review else allow

any-snoc :
    (test : Decision → Bool) (fs : List Finding) (f : Finding)
    → any test (fs ++ f ∷ []) ≡ (test f.decision || any test fs)
any-snoc test [] f = refl
any-snoc test (g ∷ fs) f = ground (arith, any-snoc test fs f)

combine_among :
    (denied reviewed : Bool) (d : Decision)
    → combine_decision (if denied then deny else if reviewed then require_review else allow) d ≡ (
        if is_deny d || denied
        then deny
        else if is_review d || reviewed
        then require_review
        else allow)
unfolding combine_decision
combine_among denied reviewed d = ground arith

pub combine_strictest :
    (fs : List Finding) (f : Finding)
    → combine_decision (strictest fs) f.decision ≡ strictest (fs ++ f ∷ [])
combine_strictest fs f =
    rw (any-snoc is_deny fs f, any-snoc is_review fs f)
      (combine_among (any is_deny fs) (any is_review fs) f.decision)

-- The result of an evaluation of this policy, intent and stage at this instant.
abbrev pub IsFor : Evaluation → Evaluation → Type 0
IsFor e' e =
    (e.policy_id ≡ e'.policy_id)
    × (e.policy_version ≡ e'.policy_version)
    × (e.intent_id ≡ e'.intent_id)
    × (e.intent_version ≡ e'.intent_version)
    × (e.intent_digest ≡ e'.intent_digest)
    × (e.stage ≡ e'.stage)
    × (e.evaluated_at ≡ e'.evaluated_at)

-- Such a result, whose decision is the strictest of the findings.
abbrev pub IsSettled : Evaluation → Evaluation → Type 0
IsSettled e' e = (e.decision ≡ strictest e.findings) × IsFor e' e

module _ ⦃libraries : Libraries⦄ (start : Evaluation) where
  note_finding-IsSettled :
      (r : Rule) (outcome : Option Reason) (e : Evaluation)
      → IsSettled start e
      → IsSettled start (note_finding r outcome e)
  unfolding note_finding
  note_finding-IsSettled r none e h = h
  note_finding-IsSettled r (some reason) e (h, same) =
      (ap (λ d. combine_decision d r.on_violation) h ∙ combine_strictest e.findings _, same)

  evaluate_rules-IsSettled :
      (rs : List Rule) (v : View) (at : Time) (e : Evaluation) {e' : Evaluation}
      → evaluate_rules rs v at e ≡ ok e'
      → IsSettled start e
      → IsSettled start e'
  unfolding evaluate_rules
  evaluate_rules-IsSettled [] v at e h p = rw (sym (ok-injective h)) p
  evaluate_rules-IsSettled (r ∷ rs) v at e h p =
      let (outcome, found, rest) = passed_first (wrap_error (evaluate_rule r v at) invalid) _ h in
      evaluate_rules-IsSettled rs v at _ rest (note_finding-IsSettled r outcome e p)

  module _ ⦃platform : Platform⦄ ⦃encoding : Encoding⦄ where
    decide-IsSettled :
        (p : Policy) (i : Intent) (at : Time) (lifecycle scope : Option Reason) {e : Evaluation}
        → decide p i at start lifecycle scope ≡ ok e
        → IsSettled start start
        → IsSettled start e
    unfolding decide lifecycle_decision
    decide-IsSettled p i at (some reason) scope h s = rw (sym (ok-injective h)) (refl, s.1)
    decide-IsSettled p i at none (some reason) h s = rw (sym (ok-injective h)) (refl, s.1)
    decide-IsSettled p i at none none h s =
        let (view, made, rest) = passed_first (wrap_error (new_intent_view i) invalid) _ h in
        evaluate_rules-IsSettled (clone_rules p.rules) view at start rest s

module _ ⦃libraries : Libraries⦄ ⦃platform : Platform⦄ ⦃encoding : Encoding⦄ where
  -- Whatever Evaluate returns without an error names the policy, the intent, the stage and the
  -- instant, and its decision is the strictest of its findings: DENY if one denies, else
  -- REQUIRE_REVIEW if one asks for a review, else ALLOW.
  pub evaluate-IsSettled :
      (p : Policy) (i : Intent) (identity : Identity) (b : Binding) (at : Time)
      (stage : EvaluationStage) {e : Evaluation}
      → evaluate p i identity b at stage ≡ ok e
      → IsSettled (initial p i at stage) e
  unfolding evaluate
  evaluate-IsSettled p i identity b at stage h =
      let (checked, passed, rest) = passed_first (check_context p i identity b at stage) _ h in
      decide-IsSettled (initial p i at stage) p i at (lifecycle_reason p at) (scope_reason p i) rest
        (refl, (refl, refl, refl, refl, refl, refl, refl))
