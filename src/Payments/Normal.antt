-- ===== src/Payments/Normal.antt =====
-- internal/intents/intent.go and address.go: the normal forms of `Params`, and the interface of
-- Intents/Material.antt over it.
use wizpay_mcp.Base.{◌-◌, ◌%◌, if◌then◌else◌, map, Text, trim_space, Time, Result, Libraries}
use mathlib.Core.Option
use wizpay_mcp.Intents.Material.{Material}
use wizpay_mcp.Payments.Address.{valid_address, normalize_address}
use wizpay_mcp.Payments.Token
use wizpay_mcp.Payments.Token.{Token}
use wizpay_mcp.Payments.Direct.{Send}
use wizpay_mcp.Payments.Payroll.{Payroll, Recipient, CrossToken}
use wizpay_mcp.Payments.Swap.{Swap, Quote}
use wizpay_mcp.Payments.Params.{Params, validate_params}

-- `normalizeParams`. Every instant is in UTC, and no value is shared.
unfoldable pub normalize_params : Params → Params
normalize_params p =
    let o = p.ownership in
    let r = p.route in
    let c = p.constraints in
    record p {
      intent_id = trim_space p.intent_id;
      client_request_id = trim_space p.client_request_id;
      nonce = trim_space p.nonce;
      ownership = record o {
        user_id = trim_space o.user_id;
        identity_provider = trim_space o.identity_provider;
        wallet_provider = trim_space o.wallet_provider;
        provider_user_reference = trim_space o.provider_user_reference;
        wallet_binding_id = trim_space o.wallet_binding_id;
        wallet_id = trim_space o.wallet_id;
        wallet_address = trim_space o.wallet_address;
        chain_id = trim_space o.chain_id;
        network = trim_space o.network;
      };
      route = record r { reference = trim_space r.reference };
      constraints = record c { policy_reference = trim_space c.policy_reference };
    }

-- `truncatePostgresTimestamp`: to microseconds.
unfoldable pub truncate : Time → Time
truncate t = t - t % 1000

abbrev truncate_cross : CrossToken → CrossToken
truncate_cross c = record c { deadline = truncate c.deadline }

abbrev truncate_payroll : Payroll → Payroll
truncate_payroll p = record p { cross_token = Option.map truncate_cross p.cross_token }

abbrev truncate_quote : Quote → Quote
truncate_quote q = record q { expires_at = truncate q.expires_at }

abbrev truncate_swap : Swap → Swap
truncate_swap s = record s {
  quote = Option.map truncate_quote s.quote;
  deadline = truncate s.deadline;
}

-- `normalizeCreationTimestamps`
unfoldable pub normalize_timestamps : Params → Params
normalize_timestamps p =
    let c = p.constraints in
    let f = p.financial in
    record p {
      created_at = truncate p.created_at;
      expires_at = truncate p.expires_at;
      constraints = record c { deadline = truncate c.deadline };
      financial = record f {
        payroll = Option.map truncate_payroll f.payroll;
        swap = Option.map truncate_swap f.swap;
      };
    }

module _ ⦃libraries : Libraries⦄ where
  -- `if ValidAddress(value) { value = normalizeEVMAddress(value) }`
  abbrev normal_address : Text → Text
  normal_address value = if valid_address value then normalize_address value else value

  abbrev normal_token : Token → Token
  normal_token t = record t { address = normal_address t.address }

  -- The same under `if !t.IsZero()`.
  abbrev normal_set_token : Token → Token
  normal_set_token t = if Token.is_unset t then t else normal_token t

  abbrev normal_recipient : Recipient → Recipient
  normal_recipient r = record r {
    address = normal_address r.address;
    token_out = normal_set_token r.token_out;
  }

  -- `normalizePayrollAddresses`
  unfoldable pub normal_payroll : Payroll → Payroll
  normal_payroll p = record p {
    token_in = normal_set_token p.token_in;
    token = normal_set_token p.token;
    recipients = map normal_recipient p.recipients;
  }

  abbrev normal_send : Send → Send
  normal_send s = record s { token = normal_token s.token; recipient = normal_address s.recipient }

  abbrev normal_quote : Quote → Quote
  normal_quote q = record q { router = normal_address q.router }

  -- `normalizeSwapAddresses`: an empty address is not valid.
  unfoldable pub normal_swap : Swap → Swap
  normal_swap s = record s {
    input_token = normal_token s.input_token;
    output_token = normal_token s.output_token;
    router = normal_address s.router;
    recipient = normal_address s.recipient;
    quote = Option.map normal_quote s.quote;
  }

  -- `normalizeCreationAddresses`
  unfoldable pub normalize_addresses : Params → Params
  normalize_addresses p =
      let o = p.ownership in
      let f = p.financial in
      record p {
        ownership = record o { wallet_address = normal_address o.wallet_address };
        financial = record f {
          payroll = Option.map normal_payroll f.payroll;
          send = Option.map normal_send f.send;
          swap = Option.map normal_swap f.swap;
        };
      }

-- `canonicalMaterial`: the canonical JSON of the parameters, which no statement interprets.
pub record Encoding : Type 0 where
  pub canonical_material : Params → Result Text

-- The parameters of an intent, as the lifecycle of Intents/Intent.antt reads them.
instance abbrev pub intent_material : ⦃libraries : Libraries⦄ ⦃encoding : Encoding⦄ → Material
intent_material ⦃libraries⦄ ⦃encoding⦄ = record {
  Params = Params;
  intent_id = λ p. p.intent_id;
  version = λ p. p.version;
  ownership = λ p. p.ownership;
  created_at = λ p. p.created_at;
  expires_at = λ p. p.expires_at;
  normalize_new = λ p. normalize_addresses (normalize_timestamps (normalize_params p));
  normalize = normalize_params;
  validate_params = validate_params;
  canonical_material = encoding.canonical_material;
}
