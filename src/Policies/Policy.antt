-- ===== src/Policies/Policy.antt =====
-- internal/policies/policy.go, lifecycle.go and restore.go: policies and their lifecycle.
use wizpay_mcp.Base.{
  ℕ, ◌+◌, ◌==◌, Bool, true, false, not, ◌&&◌, ◌||◌, ltb, leb, if◌then◌else◌, u64_incr, List, [],
  ◌∷◌, ◌++◌, length, Text, is_empty, decimal, trim_space, Time, is_zero, Result, ok, Error,
  new_error, plain, refuse_if, wrap_error, ◌>>=◌, ◌>>◌, validate_text, text_geb, contains, sort_by,
  Libraries, policy_invalid, policy_expired,
}
use wizpay_mcp.Policies.Types.{Scope, validate_scope, normalize_scope}
use wizpay_mcp.Policies.Rules
use wizpay_mcp.Policies.Rules.{Rule, clone_rules}

-- `Status`: its constants, and the other strings, numbered.
pub data Status : Type 0 where
  draft active disabled expired : Status
  unknown : ℕ → Status

abbrev pub ordinal : Status → ℕ
ordinal draft = 0
ordinal active = 1
ordinal disabled = 2
ordinal expired = 3
ordinal (unknown n) = 4 + n

-- `a == b` on statuses.
abbrev pub status_eq : Status → Status → Bool
status_eq a b = ordinal a == ordinal b

-- `Status.Valid`
unfoldable pub is_valid : Status → Bool
is_valid (unknown _) = false
is_valid _ = true

-- `Status.Terminal`
unfoldable pub is_terminal : Status → Bool
is_terminal s = status_eq s disabled || status_eq s expired

-- `Policy`
pub record Policy : Type 0 where
  pub policy_id : Text
  pub version : ℕ  -- uint64
  pub name : Text
  pub scope : Scope
  pub rules : List Rule
  pub status : Status
  pub created_at : Time
  pub valid_from : Time
  pub expires_at : Time
  pub lifecycle_revision : ℕ  -- uint64

-- `invalidPolicy`
abbrev pub invalid : Error
invalid = new_error policy_invalid false true true

-- `Policy.Reference`
unfoldable pub reference : Policy → Text
reference p = p.policy_id ++ b':' ∷ decimal p.version

-- The edges of `Transition`.
unfoldable pub valid_transition : Status → Status → Bool
valid_transition draft next =
    status_eq next active || status_eq next disabled || status_eq next expired
valid_transition active next = status_eq next disabled || status_eq next expired
valid_transition _ next = false

-- The check of the validity window in `Validate`.
unfoldable pub window_is_invalid : Policy → Bool
window_is_invalid p =
    is_zero p.created_at
    || is_zero p.valid_from
    || is_zero p.expires_at
    || ltb p.valid_from p.created_at
    || leb p.expires_at p.valid_from

-- The clock checks of `Transition` behind the edge check.
unfoldable pub check_clock : Policy → Status → Time → Result (Unit {0})
check_clock p next at = do
  if status_eq next expired
      then refuse_if (ltb at p.expires_at) invalid
      else refuse_if (leb p.expires_at at) (new_error policy_expired false true true)
  refuse_if (status_eq next active && ltb at p.valid_from) invalid

module _ ⦃libraries : Libraries⦄ where
  -- The loop of `Validate` over the rules, behind those seen.
  unfoldable pub validate_rules : List Text → Text → List Rule → Result (Unit {0})
  validate_rules seen previous [] = ok tt
  validate_rules seen previous (r ∷ rs) = do
    Rules.validate r
    refuse_if (contains r.rule_id seen) plain
    refuse_if (not (is_empty previous) && not (text_geb r.rule_id previous)) plain
    validate_rules (r.rule_id ∷ seen) r.rule_id rs

  -- `Policy.Validate`, before `invalidPolicy` wraps its errors.
  unfoldable pub validate_fields : Policy → Result (Unit {0})
  validate_fields p = do
    validate_text p.policy_id
    validate_text p.name
    refuse_if (p.version == 0) plain
    refuse_if (p.lifecycle_revision == 0) plain
    validate_scope p.scope
    refuse_if (length p.rules == 0 || ltb 100 (length p.rules)) plain
    validate_rules [] [] p.rules
    refuse_if (not (is_valid p.status)) plain
    refuse_if (window_is_invalid p) plain

  -- `Policy.Validate`
  unfoldable pub validate : Policy → Result (Unit {0})
  validate p = wrap_error (validate_fields p) invalid

  -- The policy that `NewDraft` validates.
  abbrev normalized : Policy → Policy
  normalized p = record p {
    policy_id = trim_space p.policy_id;
    name = trim_space p.name;
    scope = normalize_scope p.scope;
    rules = sort_by (λ (r : Rule). r.rule_id) (clone_rules p.rules);
    status = draft;
    lifecycle_revision = 1;
  }

  -- `NewDraft`: the parameters are those of a policy, without its status and revision.
  unfoldable pub new_draft : Policy → Result Policy
  new_draft p = do validate (normalized p); ok (normalized p)

  -- `Restore`
  unfoldable pub restore : Policy → Result Policy
  restore stored = do
    value ← new_draft stored
    let restored = record value {
      status = stored.status;
      lifecycle_revision = stored.lifecycle_revision;
    }
    validate restored
    ok restored

  -- `Transition`. Where the result does not validate, the code returns it beside the error.
  unfoldable pub transition : Policy → Status → Time → Result Policy
  unfolding valid_transition check_clock
  transition p next at = do
    validate p
    if status_eq next p.status then ok p else do
      refuse_if (not (is_valid next)) invalid
      refuse_if (is_zero at || ltb at p.created_at) invalid
      refuse_if (not (valid_transition p.status next)) invalid
      check_clock p next at
      let next_policy = record p {
        status = next;
        lifecycle_revision = u64_incr p.lifecycle_revision;
      }
      validate next_policy
      ok next_policy
