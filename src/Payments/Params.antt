-- ===== src/Payments/Params.antt =====
-- internal/intents/intent.go: `Params` and its validation.
use wizpay_mcp.Base.{
  ℕ, ◌==◌, Bool, true, false, not, ◌&&◌, ◌||◌, ltb, leb, if◌then◌else◌, Text, text, is_empty,
  text_eq, Time, is_zero, Result, ok, plain, refuse_if, when, ◌>>◌, validate_text,
  validate_chain_id, Libraries,
}
use wizpay_mcp.Intents.Material.{Ownership}
use wizpay_mcp.Payments.Address.{addresses_equal}
use wizpay_mcp.Payments.Token.{chain_id_arc, network_arc}
use wizpay_mcp.Payments.Direct.{Send, Bridge, Ans}
use wizpay_mcp.Payments.Payroll
use wizpay_mcp.Payments.Payroll.{Payroll, source_token, is_some}
use wizpay_mcp.Payments.CrossPayroll.{
  Timeline, same_token_executable, cross_token_executable, validate_cross_timeline,
}
use wizpay_mcp.Payments.Swap
use wizpay_mcp.Payments.Swap.{Swap, validate_with_timeline}
use wizpay_mcp.Payments.Financial.{
  Kind, Financial, by_kind, is_valid_kind, validate_financial, validate_present,
}

-- `RouteType`: its constants, and the other strings, numbered.
pub data RouteType : Type 0 where
  direct_wallet allowlisted_contract approved_provider : RouteType
  unknown_route : ℕ → RouteType

-- `RouteType.Valid`
unfoldable pub is_valid_route : RouteType → Bool
is_valid_route (unknown_route _) = false
is_valid_route _ = true

abbrev is_direct : RouteType → Bool
is_direct direct_wallet = true
is_direct _ = false

abbrev is_allowlisted : RouteType → Bool
is_allowlisted allowlisted_contract = true
is_allowlisted _ = false

pub record Route : Type 0 where
  pub kind : RouteType
  pub reference : Text
  pub version : ℕ  -- uint64

pub record Constraints : Type 0 where
  pub deadline : Time
  pub policy_reference : Text

pub record Params : Type 0 where
  pub intent_id : Text
  pub version : ℕ  -- uint64
  pub client_request_id : Text
  pub nonce : Text
  pub kind : Kind
  pub ownership : Ownership
  pub financial : Financial
  pub route : Route
  pub constraints : Constraints
  pub created_at : Time
  pub expires_at : Time

-- `EffectiveWalletProvider`
unfoldable pub effective_wallet_provider : Ownership → Text
effective_wallet_provider o =
    if is_empty o.wallet_provider then o.identity_provider else o.wallet_provider

-- `Ownership.validate`
unfoldable pub validate_ownership : Ownership → Result (Unit {0})
validate_ownership o = do
  when (not (is_empty o.wallet_provider)) (validate_text o.wallet_provider)
  validate_text o.user_id
  validate_text o.identity_provider
  validate_text o.provider_user_reference
  validate_text o.wallet_binding_id
  validate_text o.wallet_id
  validate_text o.wallet_address
  validate_text o.network
  refuse_if (o.wallet_binding_version == 0) plain
  validate_chain_id o.chain_id

-- `Route.validate`
unfoldable pub validate_route : Route → Result (Unit {0})
validate_route r = do
  refuse_if (not (is_valid_route r.kind)) plain
  validate_text r.reference
  refuse_if (r.version == 0) plain

-- `Constraints.validate`
unfoldable pub validate_constraints : Constraints → Time → Time → Result (Unit {0})
validate_constraints c created_at expires_at = do
  refuse_if (is_zero c.deadline || ltb c.deadline created_at || ltb expires_at c.deadline) plain
  validate_text c.policy_reference

-- `validateSendRoute`
unfoldable pub validate_send_route : Route → Result (Unit {0})
validate_send_route r =
    refuse_if
      (not (is_direct r.kind)
        || not (text_eq r.reference (text "ARC_MAINNET_ERC20_TRANSFER"))
        || not (r.version == 1))
      plain

-- `validatePayrollRoute`, and `validateSwapRoute` for another contract.
unfoldable pub validate_contract_route : Text → Route → Result (Unit {0})
validate_contract_route contract r = do
  refuse_if (not (is_allowlisted r.kind)) plain
  refuse_if (not (text_eq r.reference contract)) plain
  refuse_if (not (r.version == 1)) plain

-- The clock of an intent.
abbrev timeline : Params → Timeline
timeline p = record {
  created_at = p.created_at;
  constraint_deadline = p.constraints.deadline;
  expires_at = p.expires_at;
}

module _ ⦃libraries : Libraries⦄ where
  -- The cases of the switch of `validateParams`.
  unfoldable pub validate_for_send : Params → Send → Result (Unit {0})
  validate_for_send p s = do
    refuse_if (not (text_eq s.token.chain_id p.ownership.chain_id)) plain
    refuse_if
        (not (text_eq p.ownership.chain_id chain_id_arc)
          || not (text_eq p.ownership.network network_arc))
        plain
    refuse_if (addresses_equal p.ownership.wallet_address s.recipient) plain
    validate_send_route p.route

  unfoldable pub validate_for_payroll : Params → Payroll → Result (Unit {0})
  validate_for_payroll p pay = do
    refuse_if (not (text_eq (source_token pay).chain_id p.ownership.chain_id)) plain
    when (Payroll.is_phase12 pay) (do
      refuse_if
          ((same_token_executable pay || cross_token_executable pay)
            && not (text_eq p.ownership.network network_arc))
          plain
      when (is_some pay.cross_token)
          (validate_cross_timeline pay (timeline p) p.ownership.wallet_address)
      validate_contract_route (text "WIZPAY_PAYROLL") p.route)

  unfoldable pub validate_for_swap : Params → Swap → Result (Unit {0})
  validate_for_swap p s = do
    refuse_if (not (text_eq s.input_token.chain_id p.ownership.chain_id)) plain
    when (Swap.is_phase12 s) (do
      refuse_if (not (text_eq p.ownership.network network_arc)) plain
      refuse_if (not (addresses_equal s.recipient p.ownership.wallet_address)) plain
      validate_with_timeline s (timeline p)
      validate_contract_route (text "WIZPAY_SWAP_EXECUTOR") p.route)

  unfoldable pub validate_for_bridge : Params → Bridge → Result (Unit {0})
  validate_for_bridge p b = refuse_if (not (text_eq b.source_chain_id p.ownership.chain_id)) plain

  unfoldable pub validate_for_ans : Params → Ans → Result (Unit {0})
  validate_for_ans p a = refuse_if (not (text_eq a.cost_token.chain_id p.ownership.chain_id)) plain

  -- The switch. The financial parameters are valid, so the payload of the type is present.
  unfoldable pub validate_for_kind : Params → Financial → Result (Unit {0})
  unfolding by_kind
  validate_for_kind p f =
      by_kind p.kind (validate_present f.send (validate_for_send p))
        (validate_present f.payroll (validate_for_payroll p))
        (validate_present f.swap (validate_for_swap p))
        (validate_present f.bridge (validate_for_bridge p))
        (validate_present f.ans (validate_for_ans p)) (ok tt)

  -- `validateParams`
  unfoldable pub validate_params : Params → Result (Unit {0})
  validate_params p = do
    validate_text p.intent_id
    validate_text p.client_request_id
    validate_text p.nonce
    refuse_if (p.version == 0) plain
    refuse_if (not (is_valid_kind p.kind)) plain
    validate_ownership p.ownership
    validate_financial p.financial p.kind
    validate_for_kind p p.financial
    validate_route p.route
    refuse_if (is_zero p.created_at) plain
    refuse_if (is_zero p.expires_at || leb p.expires_at p.created_at) plain
    validate_constraints p.constraints p.created_at p.expires_at
