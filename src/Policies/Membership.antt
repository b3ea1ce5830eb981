-- ===== src/Policies/Membership.antt =====
-- The rules of a policy as a reader understands them: lists as sets, searched in any order.
use wizpay_mcp.Base.{
  ◌≡◌, refl, ap, ◌∙◌, Bool, true, not, ◌&&◌, if◌then◌else◌, Option, none, some, List, [], ◌∷◌, map,
  Text, text_eq, Time, Result, ok, err, plain, required, ◌>>=◌, set_string, ltb_ℤ, text_geb,
  contains, insert, sort_by, sort_texts, are_listed, Libraries, Bool-cases, inl, inr,
}
use mathlib.Core.Option
use wizpay_mcp.Base.Search.{is_listed-sort_texts}
use wizpay_mcp.Policies.Types.{
  Reason, TokenReference, token_key, operation_not_allowed, spending_limit_exceeded,
  chain_not_allowed, token_not_allowed, recipient_not_allowed,
}
use wizpay_mcp.Policies.Rules.{
  SpendingLimit, Rule, by_type, case_some, normalize_limit, normalize_rule,
}
use wizpay_mcp.Policies.View.{View}
use wizpay_mcp.Policies.Evaluation.{
  violated_if, evaluate_expiration, evaluate_limit, evaluate_rule, are_tokens_allowed,
}

-- Every text is an element of the list.
unfoldable pub all_in : List Text → List Text → Bool
all_in [] allowed = true
all_in (v ∷ vs) allowed = contains v allowed && all_in vs allowed

are_listed-sort_texts :
    (vs allowed : List Text) → are_listed vs (sort_texts allowed) ≡ all_in vs allowed
unfolding are_listed all_in
are_listed-sort_texts [] allowed = refl
are_listed-sort_texts (v ∷ vs) allowed =
    rw (is_listed-sort_texts allowed v, are_listed-sort_texts vs allowed) refl

module _ {A : Type 0} (key : A → Text) where
  map-insert :
      (x : A) (xs : List A) → map key (insert key x xs) ≡ insert (λ t. t) (key x) (map key xs)
  unfolding insert
  map-insert x [] = refl
  map-insert x (y ∷ ys) = elim (Bool-cases (text_geb (key y) (key x))) [
    | inl first ↦ rw first refl
    | inr later ↦ rw later (ap (λ l. key y ∷ l) (map-insert x ys))
  ]

  map-sort_by : (xs : List A) → map key (sort_by key xs) ≡ sort_texts (map key xs)
  unfolding sort_by
  map-sort_by [] = refl
  map-sort_by (x ∷ xs) =
      map-insert x (sort_by key xs) ∙ ap (insert (λ t. t) (key x)) (map-sort_by xs)

case_some-map :
    {A B : Type 0} (f : A → A) (o : Option A) (g g' : A → B) {n n' : B}
    → ((a : A) → g (f a) ≡ g' a)
    → n ≡ n'
    → case_some (Option.map f o) g n ≡ case_some o g' n'
case_some-map f none g g' p q = q
case_some-map f (some a) g g' p q = p a

module _ ⦃libraries : Libraries⦄ where
  -- A spending limit, with its list as a set.
  unfoldable pub limit_meaning : View → SpendingLimit → Result (Option Reason)
  limit_meaning v l =
      if not (contains v.kind l.intent_types)
      then ok none
      else if not (text_eq (token_key l.token) (token_key v.spend_token))
      then ok (some token_not_allowed)
      else do
        maximum ← required (set_string l.maximum.base_units)
        amount ← required (set_string v.spend_amount.base_units)
        violated_if (ltb_ℤ maximum amount) spending_limit_exceeded

  -- A rule, with its lists as sets.
  unfoldable pub rule_meaning : Rule → View → Time → Result (Option Reason)
  unfolding by_type
  rule_meaning r v at =
      by_type r (limit_meaning v)
        (λ allowed. violated_if (not (contains v.kind allowed)) operation_not_allowed)
        (λ allowed. violated_if (not (all_in v.chains allowed)) chain_not_allowed)
        (λ allowed.
          violated_if (not (all_in (map token_key v.tokens) (map token_key allowed)))
            token_not_allowed)
        (λ allowed. violated_if (not (all_in v.recipients allowed)) recipient_not_allowed)
        (evaluate_expiration v at) (err plain)

  evaluate_limit-normalize_limit :
      (v : View) (l : SpendingLimit) → evaluate_limit v (normalize_limit l) ≡ limit_meaning v l
  unfolding evaluate_limit limit_meaning
  evaluate_limit-normalize_limit v l = rw (is_listed-sort_texts l.intent_types v.kind) refl

  tokens_allowed-sort_by :
      (values allowed : List TokenReference)
      → are_tokens_allowed values (sort_by token_key allowed)
        ≡ all_in (map token_key values) (map token_key allowed)
  unfolding are_tokens_allowed
  tokens_allowed-sort_by values allowed =
      rw (map-sort_by token_key allowed) (are_listed-sort_texts (map token_key values) _)

  -- On a rule whose lists are sorted by normalizeRule, evaluateRule, which looks into them by
  -- binary search, gives what the rule says of its lists as sets.
  pub evaluate_rule-normalize_rule :
      (r : Rule) (v : View) (at : Time)
      → evaluate_rule (normalize_rule r) v at ≡ rule_meaning r v at
  unfolding evaluate_rule rule_meaning normalize_rule by_type
  evaluate_rule-normalize_rule r v at =
      case_some-map normalize_limit r.limit _ _ (evaluate_limit-normalize_limit v) (
        case_some-map sort_texts r.operations _ _ (λ a. rw (is_listed-sort_texts a v.kind) refl)
          (case_some-map sort_texts r.chains _ _ (λ a. rw (are_listed-sort_texts v.chains a) refl)
            (case_some-map (sort_by token_key) r.tokens _ _
              (λ a. rw (tokens_allowed-sort_by v.tokens a) refl)
              (case_some-map sort_texts r.recipients _ _
                (λ a. rw (are_listed-sort_texts v.recipients a) refl) refl))))
