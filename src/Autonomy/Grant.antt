-- ===== src/Autonomy/Grant.antt =====
-- internal/autonomy/model.go: `Grant` and its validation.
use wizpay_mcp.Base.{
  ℕ, suc, Bool, true, false, not, ◌&&◌, ◌||◌, ltb, ◌==◌, if◌then◌else◌, Time, is_zero, Text,
  is_empty, len, Option, none, some, List, [], ◌∷◌, length, ℤ, pos, ltb_ℤ, digits_value, text_geb,
  Result, ok, plain, refuse_if, ◌>>◌,
}

-- `IntentType`: its constants, and the other strings, numbered.
pub data IntentType : Type 0 where
  payroll swap : IntentType
  unknown_intent : ℕ → IntentType

-- `IntentType.Valid`
unfoldable pub intent_is_valid : IntentType → Bool
intent_is_valid (unknown_intent _) = false
intent_is_valid _ = true

pub record Grant : Type 0 where
  pub id : Text
  pub version : ℕ  -- uint64
  pub principal_user_id : Text
  pub wallet_binding_id : Text
  pub intent : IntentType
  pub schedule_id : Text
  pub expires_at : Time
  pub paused : Bool
  pub revoked : Bool
  pub per_action_base_units : Text
  pub aggregate_cap_base_units : Text
  pub rolling_window_cap_base_units : Text
  pub rolling_window : ℤ  -- a duration, in nanoseconds
  pub step_up_above_base_units : Text
  pub allowed_recipients : List Text
  pub allowed_tokens : List Text
  pub allowed_chains : List Text

-- Refuses zero.
unfoldable pub positive : Option ℕ → Option ℕ
positive (some (suc n)) = some (suc n)
positive _ = none

-- `z, ok := new(big.Int).SetString(value, 10)` with `ok && z.Sign() > 0`: digits, with a sign or
-- without, of a positive number.
unfoldable pub positive_units : Text → Option ℕ
unfolding digits_value positive
positive_units [] = none
positive_units (c ∷ []) = positive (digits_value 0 (c ∷ []))
positive_units (c ∷ d ∷ ds) =
    if c == b'+' then positive (digits_value 0 (d ∷ ds)) else positive (digits_value 0 (c ∷ d ∷ ds))

-- One round of the loop over the limits.
unfoldable pub validate_limit : Text → Result (Unit {0})
validate_limit value = elim (positive_units value) [
  | some _ ↦ ok tt
  | none ↦ refuse_if (not (is_empty value)) plain
]

-- `strings.IndexFunc(value, r < ' ') >= 0`
unfoldable pub has_low : Text → Bool
has_low [] = false
has_low (c ∷ cs) = ltb c b' ' || has_low cs

unfoldable pub validate_value : Text → Result (Unit {0})
unfolding has_low
validate_value value = refuse_if (is_empty value || ltb 256 (len value) || has_low value) plain

-- The values behind one of the list.
unfoldable pub validate_after : Text → List Text → Result (Unit {0})
unfolding validate_value text_geb
validate_after previous [] = ok tt
validate_after previous (value ∷ values) = do
  validate_value value
  refuse_if (text_geb previous value) plain
  validate_after value values

-- One round of the loop over the lists.
unfoldable pub validate_allowlist : List Text → Result (Unit {0})
unfolding validate_after validate_value
validate_allowlist [] = ok tt
validate_allowlist (value ∷ values) = do
  refuse_if (ltb 500 (length (value ∷ values))) plain
  validate_value value
  validate_after value values

-- `Grant.Validate`: Go ranges over its maps in any order, and each error is of the same kind.
unfoldable pub validate : Grant → Result (Unit {0})
unfolding intent_is_valid validate_limit validate_allowlist
validate g = do
  refuse_if
      (is_empty g.id
        || g.version == 0
        || is_empty g.principal_user_id
        || is_empty g.wallet_binding_id
        || not (intent_is_valid g.intent)
        || is_zero g.expires_at)
      plain
  validate_limit g.per_action_base_units
  validate_limit g.aggregate_cap_base_units
  validate_limit g.rolling_window_cap_base_units
  refuse_if (not (is_empty g.rolling_window_cap_base_units) && not (ltb_ℤ (pos 0) g.rolling_window))
      plain
  validate_allowlist g.allowed_recipients
  validate_allowlist g.allowed_tokens
  validate_allowlist g.allowed_chains
