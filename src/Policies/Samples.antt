-- ===== src/Policies/Samples.antt =====
-- A policy, an intent under it and its owner, for the examples.
use wizpay_mcp.Base.{none, some, [], ◌∷◌, text, ok}
use wizpay_mcp.Intents.Material.{Ownership}
use wizpay_mcp.Intents.Intent
use wizpay_mcp.Intents.Intent.{Intent, digest_bytes}
use wizpay_mcp.Intents.Samples.{demo_platform}
use wizpay_mcp.Owners.Identity
use wizpay_mcp.Owners.Identity.{Identity}
use wizpay_mcp.Owners.Binding
use wizpay_mcp.Owners.Binding.{Binding}
use wizpay_mcp.Payments.Direct.{Bridge}
use wizpay_mcp.Payments.Financial.{type_bridge, type_swap}
use wizpay_mcp.Payments.Params.{Params, approved_provider}
use wizpay_mcp.Payments.Normal.{Encoding, intent_material}
use wizpay_mcp.Payments.Samples.{demo_libraries, amount, usdc}
use wizpay_mcp.Policies.Types.{require_review, deny}
use wizpay_mcp.Policies.Rules.{Rule}
use wizpay_mcp.Policies.Policy
use wizpay_mcp.Policies.Policy.{Policy}

instance abbrev pub demo_encoding : Encoding
demo_encoding = record { canonical_material = λ p. ok p.intent_id }

abbrev pub demo_owner : Ownership
demo_owner = record {
  user_id = text "u";
  identity_provider = text "idp";
  wallet_provider = [];
  provider_user_reference = text "ref";
  wallet_binding_id = text "b";
  wallet_binding_version = 2;
  wallet_id = text "w";
  wallet_address = text "0x1";
  chain_id = text "5042";
  network = text "MAINNET";
}

-- A transfer of 1.25 USDC to another chain.
abbrev pub demo_bridge : Bridge
demo_bridge = record {
  source_chain_id = text "5042";
  destination_chain_id = text "7";
  source_token = usdc;
  source_amount = amount (text "1.25") (text "1250000");
  destination_amount = amount (text "1") (text "1000000");
  destination_address = text "0x2";
  plan_reference = text "plan";
}

abbrev pub demo_params : Params
demo_params = record {
  intent_id = text "i1";
  version = 1;
  client_request_id = text "c1";
  nonce = text "n1";
  kind = type_bridge;
  ownership = demo_owner;
  financial = record {
    send = none;
    payroll = none;
    swap = none;
    bridge = some demo_bridge;
    ans = none;
  };
  route = record { kind = approved_provider; reference = text "r"; version = 1 };
  constraints = record { deadline = 90; policy_reference = text "p1:3" };
  created_at = 10;
  expires_at = 100;
}

abbrev pub demo_intent : Intent
demo_intent = record {
  params = demo_params;
  status = Intent.approved;
  digest = digest_bytes (text "i1");
  lifecycle_revision = 4;
}

abbrev pub demo_identity : Identity
demo_identity = record {
  user_id = text "u";
  provider = text "idp";
  provider_subject = text "s";
  status = Identity.active;
}

abbrev pub demo_binding : Binding
demo_binding = record {
  binding_id = text "b";
  version = 2;
  user_id = text "u";
  provider = text "idp";
  provider_user_reference = text "ref";
  wallet_id = text "w";
  address = text "0x1";
  chain_id = text "5042";
  network = text "MAINNET";
  status = Binding.active;
  verification_reference = text "v";
  created_at = 1;
  verified_at = 2;
  revoked_at = 0;
}

abbrev no_rule : Rule
no_rule = record {
  rule_id = [];
  on_violation = deny;
  limit = none;
  operations = none;
  chains = none;
  tokens = none;
  recipients = none;
  expiration = none;
}

abbrev pub chains_rule : Rule
chains_rule = record no_rule {
  rule_id = text "chains";
  chains = some (text "5042" ∷ text "7" ∷ []);
}

abbrev pub operations_rule : Rule
operations_rule = record no_rule {
  rule_id = text "ops";
  on_violation = require_review;
  operations = some (type_swap ∷ type_bridge ∷ []);
}

abbrev pub demo_policy : Policy
demo_policy = record {
  policy_id = text "p1";
  version = 3;
  name = text "daily";
  scope = record { user_id = text "u"; wallet_binding_id = []; intent_types = [] };
  rules = chains_rule ∷ operations_rule ∷ [];
  status = Policy.active;
  created_at = 5;
  valid_from = 6;
  expires_at = 200;
  lifecycle_revision = 2;
}
