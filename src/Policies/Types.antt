-- ===== src/Policies/Types.antt =====
-- internal/policies/types.go: scopes, references to tokens, and results.
use wizpay_mcp.Base.{
  ℕ, ◌==◌, Bool, true, false, not, ◌||◌, ltb, List, [], ◌∷◌, ◌++◌, length, Text, is_empty, decimal,
  trim_space, Time, Result, ok, plain, refuse_if, when, ◌>>◌, validate_text, validate_chain_id,
  contains, sort_texts, is_listed, Libraries,
}
use wizpay_mcp.Payments.Address.{normalize_address}
use wizpay_mcp.Payments.Token.{Token}
use wizpay_mcp.Payments.Financial.{Kind, is_valid_kind}

-- `Decision`: its constants, and the other strings.
pub data Decision : Type 0 where
  allow deny require_review : Decision
  unknown_decision : Text → Decision

-- `violationDecision`
unfoldable pub is_violation : Decision → Bool
is_violation deny = true
is_violation require_review = true
is_violation _ = false

-- `EvaluationStage`, likewise.
pub data EvaluationStage : Type 0 where
  before_approval before_execution : EvaluationStage
  unknown_stage : Text → EvaluationStage

-- `RuleType`: "" and its constants.
pub data RuleType : Type 0 where
  no_type spending_limit operation_allowlist chain_allowlist token_allowlist : RuleType
  recipient_rule expiration_rule : RuleType

pub data Reason : Type 0 where
  policy_draft policy_not_effective policy_disabled policy_expired : Reason
  policy_reference_mismatch scope_mismatch operation_not_allowed : Reason
  spending_limit_exceeded chain_not_allowed token_not_allowed recipient_not_allowed : Reason
  expiration_constraint_violated : Reason

pub record Finding : Type 0 where
  pub rule_id : Text
  pub rule_type : RuleType
  pub decision : Decision
  pub reason : Reason

-- `Result` of the package.
pub record Evaluation : Type 0 where
  pub policy_id : Text
  pub policy_version : ℕ
  pub intent_id : Text
  pub intent_version : ℕ
  pub intent_digest : Text
  pub stage : EvaluationStage
  pub decision : Decision
  pub evaluated_at : Time
  pub findings : List Finding

-- The loops that validate the elements of a list and refuse duplicates, behind those seen.
module _ {ℓ} {A : Type ℓ} (check : A → Result (Unit {0})) (key : A → Text) where
  unfoldable pub validate_distinct : List Text → List A → Result (Unit {0})
  validate_distinct seen [] = ok tt
  validate_distinct seen (v ∷ vs) = do
    check v
    refuse_if (contains (key v) seen) plain
    validate_distinct (key v ∷ seen) vs

abbrev pub validate_kind : Kind → Result (Unit {0})
validate_kind k = refuse_if (not (is_valid_kind k)) plain

pub record Scope : Type 0 where
  pub user_id : Text
  pub wallet_binding_id : Text
  pub intent_types : List Kind

-- `Scope.validate`
unfoldable pub validate_scope : Scope → Result (Unit {0})
validate_scope s = do
  validate_text s.user_id
  when (not (is_empty s.wallet_binding_id)) (validate_text s.wallet_binding_id)
  validate_distinct validate_kind (λ k. k) [] s.intent_types

-- `normalizeScope`
unfoldable pub normalize_scope : Scope → Scope
normalize_scope s = record {
  user_id = trim_space s.user_id;
  wallet_binding_id = trim_space s.wallet_binding_id;
  intent_types = sort_texts s.intent_types;
}

-- `Scope.includes`
unfoldable pub includes : Scope → Kind → Bool
includes s k = length s.intent_types == 0 || is_listed s.intent_types k

pub record TokenReference : Type 0 where
  pub chain_id : Text
  pub standard : Text
  pub address : Text
  pub decimals : ℕ  -- uint8

-- `TokenReference.validate`
unfoldable pub validate_token : TokenReference → Result (Unit {0})
validate_token t = do
  validate_chain_id t.chain_id
  validate_text t.standard
  validate_text t.address
  refuse_if (ltb 36 t.decimals) plain

-- `tokenReference`
abbrev pub token_reference : Token → TokenReference
token_reference t = record {
  chain_id = t.chain_id;
  standard = t.standard;
  address = t.address;
  decimals = t.decimals;
}

-- `TokenReference.key`
unfoldable pub token_key : ⦃libraries : Libraries⦄ → TokenReference → Text
token_key t =
    t.chain_id ++ 0 ∷ (t.standard ++ 0 ∷ (normalize_address t.address ++ 0 ∷ decimal t.decimals))
