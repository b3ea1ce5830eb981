-- ===== src/Intents/Samples.antt =====
-- A platform, a small material and an intent over it, for the examples.
use wizpay_mcp.Base.{[], Text, text, ok, len, decimal, Platform}
use wizpay_mcp.Intents.Material.{Material, Ownership}
use wizpay_mcp.Intents.Intent.{Status, Intent, digest_bytes}

instance abbrev pub demo_platform : Platform
demo_platform = record { sha256_hex = λ t. decimal (len t); rfc3339_nano = λ t. decimal t }

abbrev pub owner : Ownership
owner = record {
  user_id = text "user-1";
  identity_provider = text "idp";
  wallet_provider = [];
  provider_user_reference = text "ref";
  wallet_binding_id = text "binding-1";
  wallet_binding_version = 1;
  wallet_id = text "wallet-1";
  wallet_address = text "0x1";
  chain_id = text "5042";
  network = text "MAINNET";
}

-- The material is a text: the identity of the intent.
instance abbrev pub demo_material : Material
demo_material = record {
  Params = Text;
  intent_id = λ p. p;
  version = λ p. 1;
  ownership = λ p. owner;
  created_at = λ p. 10;
  expires_at = λ p. 100;
  normalize_new = λ p. p;
  normalize = λ p. p;
  validate_params = λ p. ok tt;
  canonical_material = λ p. ok p;
}

abbrev pub at_status : Status → Intent
at_status s = record {
  params = text "intent-1";
  status = s;
  digest = digest_bytes (text "intent-1");
  lifecycle_revision = 2;
}
