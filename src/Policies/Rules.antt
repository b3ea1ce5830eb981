-- ===== src/Policies/Rules.antt =====
-- internal/policies/rules.go: the rules of a policy.
use wizpay_mcp.Base.{
  ℕ, ◌+◌, ◌==◌, Bool, true, false, not, ◌&&◌, ◌||◌, ltb, Option, none, some, List, [], length, map,
  Text, text, text_eq, trim_space, Result, err, plain, refuse_if, ◌>>◌, validate_text,
  validate_chain_id, sort_by, sort_texts, Libraries,
}
use mathlib.Core.Option
use wizpay_mcp.Payments.Amount
use wizpay_mcp.Payments.Amount.{Amount}
use wizpay_mcp.Payments.Payroll.{is_some}
use wizpay_mcp.Payments.Financial.{Kind}
use wizpay_mcp.Policies.Types.{
  Decision, is_violation, RuleType, no_type, spending_limit, operation_allowlist, chain_allowlist,
  token_allowlist, recipient_rule, expiration_rule, TokenReference, token_key, validate_distinct,
  validate_kind, validate_token,
}

-- `SpendingLimitRule`
pub record SpendingLimit : Type 0 where
  pub intent_types : List Kind
  pub token : TokenReference
  pub maximum : Amount

-- `ExpirationRule`
pub record Expiration : Type 0 where
  pub max_lifetime_seconds : ℕ  -- uint64
  pub minimum_remaining_seconds : ℕ  -- uint64

-- `Rule`; an allowlist stands for the record of its one field.
pub record Rule : Type 0 where
  pub rule_id : Text
  pub on_violation : Decision
  pub limit : Option SpendingLimit
  pub operations : Option (List Kind)
  pub chains : Option (List Text)
  pub tokens : Option (List TokenReference)
  pub recipients : Option (List Text)
  pub expiration : Option Expiration

abbrev pub case_some {ℓ} : {A : Type 0} {B : Type ℓ} → Option A → (A → B) → B → B
case_some (some a) found otherwise = found a
case_some none found otherwise = otherwise

-- A switch over `Type()`: the first body that is present.
unfoldable pub by_type {ℓ} :
    {A : Type ℓ} (r : Rule)
    → (SpendingLimit → A)
    → (List Kind → A)
    → (List Text → A)
    → (List TokenReference → A)
    → (List Text → A)
    → (Expiration → A)
    → A
    → A
by_type r limit operations chains tokens recipients expiration otherwise = case_some r.limit limit (
    case_some r.operations operations (
      case_some r.chains chains (
        case_some r.tokens tokens
          (case_some r.recipients recipients (case_some r.expiration expiration otherwise)))))

-- `Rule.Type`
unfoldable pub rule_type : Rule → RuleType
unfolding by_type
rule_type r =
    by_type r (λ _. spending_limit) (λ _. operation_allowlist) (λ _. chain_allowlist)
      (λ _. token_allowlist) (λ _. recipient_rule) (λ _. expiration_rule) no_type

abbrev count_if : Bool → ℕ
count_if true = 1
count_if false = 0

unfoldable pub body_count : Rule → ℕ
body_count r =
    count_if (is_some r.limit)
    + count_if (is_some r.operations)
    + count_if (is_some r.chains)
    + count_if (is_some r.tokens)
    + count_if (is_some r.recipients)
    + count_if (is_some r.expiration)

-- `validateIntentTypes`, for a list that must not be empty.
unfoldable pub validate_kinds : List Kind → Result (Unit {0})
validate_kinds ks = do
  refuse_if (length ks == 0) plain
  validate_distinct validate_kind (λ k. k) [] ks

-- `validateChains`
unfoldable pub validate_chains : List Text → Result (Unit {0})
validate_chains cs = do
  refuse_if (length cs == 0) plain
  validate_distinct validate_chain_id (λ c. c) [] cs

-- `validateStrings`
unfoldable pub validate_strings : List Text → Result (Unit {0})
validate_strings ts = do
  refuse_if (length ts == 0) plain
  validate_distinct validate_text (λ t. t) [] ts

-- `SpendingLimitRule.validate`
unfoldable pub validate_limit : SpendingLimit → Result (Unit {0})
validate_limit l = do
  validate_kinds l.intent_types
  validate_token l.token
  Amount.validate l.maximum
  refuse_if (text_eq l.maximum.base_units (text "0")) plain
  refuse_if (not (l.maximum.decimals == l.token.decimals)) plain

-- The seconds in the longest duration.
abbrev pub max_duration_seconds : ℕ
max_duration_seconds = 9223372036

-- The case of an expiration in `Rule.validate`.
unfoldable pub validate_expiration : Expiration → Result (Unit {0})
validate_expiration e = do
  refuse_if (e.max_lifetime_seconds == 0 && e.minimum_remaining_seconds == 0) plain
  refuse_if
      (ltb max_duration_seconds e.max_lifetime_seconds
        || ltb max_duration_seconds e.minimum_remaining_seconds)
      plain

abbrev pub normalize_limit : SpendingLimit → SpendingLimit
normalize_limit l = record l { intent_types = sort_texts l.intent_types }

module _ ⦃libraries : Libraries⦄ where
  -- `validateTokens`
  unfoldable pub validate_tokens : List TokenReference → Result (Unit {0})
  validate_tokens ts = do
    refuse_if (length ts == 0) plain
    validate_distinct validate_token token_key [] ts

  -- `Rule.validate`
  unfoldable pub validate : Rule → Result (Unit {0})
  unfolding by_type body_count
  validate r = do
    validate_text r.rule_id
    refuse_if (not (is_violation r.on_violation)) plain
    refuse_if (not (body_count r == 1)) plain
    by_type r validate_limit validate_kinds validate_chains validate_tokens validate_strings
        validate_expiration (err plain)

  -- `normalizeRule`
  unfoldable pub normalize_rule : Rule → Rule
  normalize_rule r = record r {
    rule_id = trim_space r.rule_id;
    limit = Option.map normalize_limit r.limit;
    operations = Option.map sort_texts r.operations;
    chains = Option.map sort_texts r.chains;
    tokens = Option.map (sort_by token_key) r.tokens;
    recipients = Option.map sort_texts r.recipients;
  }

  -- `cloneRules`
  unfoldable pub clone_rules : List Rule → List Rule
  clone_rules rs = map normalize_rule rs
