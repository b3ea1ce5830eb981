-- ===== src/Policies/Allowed.antt =====
-- The sample policy is valid and allows the sample intent.
use wizpay_mcp.Base.{
  ◌≡◌, refl, ok, [], ◌∷◌, text, text_eq, text_geb, len, digits_from, set_string, digits_value,
  all_digits, trim_space, drop_spaces, has_control, contains, validate_text, validate_field,
  validate_chain_id, decimal, insert, sort_by, arith,
}
use wizpay_mcp.Intents.Intent
use wizpay_mcp.Intents.Samples.{demo_platform}
use wizpay_mcp.Owners.Identity
use wizpay_mcp.Owners.Binding
use wizpay_mcp.Payments.Address
use wizpay_mcp.Payments.Amount
use wizpay_mcp.Payments.Token
use wizpay_mcp.Payments.Direct
use wizpay_mcp.Payments.Financial
use wizpay_mcp.Payments.Params
use wizpay_mcp.Payments.Normal.{intent_material}
use wizpay_mcp.Payments.Samples.{demo_libraries, amount, usdc}
use wizpay_mcp.Policies.Types
use wizpay_mcp.Policies.Types.{Evaluation, before_execution, allow}
use wizpay_mcp.Policies.Rules
use wizpay_mcp.Policies.Rules.{normalize_rule}
use wizpay_mcp.Policies.Policy
use wizpay_mcp.Policies.Policy.{
  validate, transition, active, disabled, expired, is_terminal, valid_transition,
}
use wizpay_mcp.Policies.View
use wizpay_mcp.Policies.View.{View, new_intent_view}
use wizpay_mcp.Policies.Evaluation
use wizpay_mcp.Policies.Evaluation.{evaluate, evaluate_rule, initial}
use wizpay_mcp.Policies.Membership.{rule_meaning, all_in}
use wizpay_mcp.Policies.Authorized.{IsAuthorized}
use wizpay_mcp.Policies.Samples.{
  demo_encoding, demo_intent, demo_identity, demo_binding, demo_policy,
}

pub demo_valid : validate demo_policy ≡ ok tt
unfolding validate Policy.validate_fields Policy.is_valid Policy.window_is_invalid
    Types.validate_scope Types.validate_distinct Policy.validate_rules Rules.validate Rules.by_type
    Rules.body_count Types.is_violation Rules.validate_chains Rules.validate_kinds
    Financial.is_valid_kind Financial.by_kind text_eq trim_space drop_spaces len has_control
    validate_text validate_chain_id contains text_geb all_digits
demo_valid = refl

pub intent_valid : Intent.validate demo_intent ≡ ok tt
unfolding Intent.validate Intent.is_valid Intent.check_digest Intent.digest_bytes
    Params.validate_params Params.validate_ownership Params.validate_route Params.is_valid_route
    Params.validate_constraints Params.validate_for_kind Params.validate_for_bridge
    Financial.validate_financial Financial.payload_count Financial.is_valid_kind Financial.by_kind
    Direct.validate_bridge Token.validate decimal digits_from Amount.validate
    Amount.decimal_to_base_units Amount.units_of_parts Amount.split_at_byte Amount.check_whole
    Amount.check_fraction Amount.zeros set_string digits_value text_eq trim_space drop_spaces len
    has_control validate_text validate_chain_id contains text_geb all_digits
intent_valid = refl

abbrev pub demo_view : View
demo_view = record {
  kind = text "BRIDGE";
  spend_token = Types.token_reference usdc;
  spend_amount = amount (text "1.25") (text "1250000");
  chains = text "5042" ∷ text "7" ∷ [];
  tokens = Types.token_reference usdc ∷ [];
  recipients = text "0x2" ∷ [];
  created_at = 10;
  effective_deadline = 90;
}

-- The sample policy allows the sample intent.
pub demo-IsAuthorized :
    IsAuthorized demo_policy demo_intent demo_identity demo_binding 50 before_execution
unfolding Identity.validate Identity.is_valid validate_field Binding.validate
    Binding.validate_fields Binding.validate_status_fields Binding.is_valid Evaluation.owner_differs
    Params.effective_wallet_provider Evaluation.scope_reason Types.normalize_scope Types.includes
    Policy.reference sort_by decimal digits_from new_intent_view View.view_kind View.view_bridge
    View.unique View.unique_after insert Financial.by_kind Types.token_key Address.normalize_address
    Address.valid_address Address.to_lower text_eq trim_space drop_spaces len has_control
    validate_text validate_chain_id contains text_geb all_digits rule_meaning all_in Rules.by_type
demo-IsAuthorized = (
  (
    demo_valid,
    intent_valid,
    (λ e. omega arith),
    refl,
    omega arith,
    omega arith,
    (refl, refl, refl, refl, refl),
    refl,
  ),
  (refl, omega arith, omega arith),
  refl,
  demo_view,
  refl,
  (refl, (refl, tt)),
)
