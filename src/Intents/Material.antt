-- ===== src/Intents/Material.antt =====
-- What an intent is about: `Params` of internal/intents/intent.go. The lifecycle reads it only
-- through the names below, so it is an interface here. Approvals read the owner.
use wizpay_mcp.Base.{ℕ, Text, Time, Result}

-- `Ownership`
pub record Ownership : Type 0 where
  pub user_id : Text
  pub identity_provider : Text
  pub wallet_provider : Text
  pub provider_user_reference : Text
  pub wallet_binding_id : Text
  pub wallet_binding_version : ℕ
  pub wallet_id : Text
  pub wallet_address : Text
  pub chain_id : Text
  pub network : Text

pub record Material : Type 1 where
  pub Params : Type 0
  pub intent_id : Params → Text
  pub version : Params → ℕ
  pub ownership : Params → Ownership
  pub created_at : Params → Time
  pub expires_at : Params → Time
  -- `normalizeParams`, `normalizeCreationTimestamps` and `normalizeCreationAddresses` together
  pub normalize_new : Params → Params
  -- `normalizeParams`
  pub normalize : Params → Params
  -- `validateParams`
  pub validate_params : Params → Result (Unit {0})
  -- `canonicalMaterial`
  pub canonical_material : Params → Result Text
