-- ===== src/Base/Outcome.antt =====
-- internal/errors/errors.go, and Go's pair of a value and an error.
use mathlib.Core.Path.{◌≡◌, refl, ap}
use mathlib.Core.Bool.{Bool, true, false}
use mathlib.Core.Option.{Option, none, some}

-- The stable public categories.
pub data Code : Type 0 where
  validation_error authentication_required authorization_required approval_required : Code
  identity_not_found identity_suspended identity_revoked wallet_not_bound wallet_mismatch : Code
  wallet_revoked intent_not_found intent_expired intent_mutated approval_not_found : Code
  approval_expired approval_rejected approval_already_consumed policy_not_found : Code
  policy_invalid policy_denied policy_expired policy_disabled review_required : Code
  capability_not_found capability_unavailable capability_conflict provider_not_found : Code
  provider_unavailable provider_conflict contract_not_found contract_unavailable : Code
  contract_conflict execution_not_found execution_invalid execution_not_authorized : Code
  execution_conflict execution_failed execution_recoverable internal_error : Code

-- `Error` of the package, without its message and its internal cause.
pub record AppError : Type 0 where
  pub code : Code
  pub retryable : Bool
  pub user_action_required : Bool
  pub terminal : Bool

-- A Go `error` that is not nil: one of the package, or one of `fmt.Errorf`.
pub data Error : Type 0 where
  app : AppError → Error
  plain : Error

-- `New` and `Wrap`.
abbrev pub new_error : Code → Bool → Bool → Bool → Error
new_error code retryable user_action terminal = app (record {
  code = code;
  retryable = retryable;
  user_action_required = user_action;
  terminal = terminal;
})

-- A value and a nil error, or an error.
pub data Result {ℓ} (A : Type ℓ) : Type ℓ where
  ok : A → Result A
  err : Error → Result A

-- `value, ok := option; if !ok { return err }`, with an error of `fmt.Errorf`.
abbrev pub required {ℓ} : {A : Type ℓ} → Option A → Result A
required (some a) = ok a
required none = err plain

-- `if test { return err }`
abbrev pub refuse_if : Bool → Error → Result (Unit {0})
refuse_if true e = err e
refuse_if false e = ok tt

-- `if test { if err := r; err != nil { return err } }`
abbrev pub when : Bool → Result (Unit {0}) → Result (Unit {0})
when true r = r
when false r = ok tt

module _ {ℓ} {A : Type ℓ} where
  -- `if err := r; err != nil { return wrapped }`
  abbrev pub wrap_error : Result A → Error → Result A
  wrap_error (ok a) e = ok a
  wrap_error (err _) e = err e

  -- `x, err := r; if err != nil { return err }`, and what follows it.
  infixl 5 ◌>>=◌
  abbrev pub ◌>>=◌ {κ} : {B : Type κ} → Result A → (A → Result B) → Result B
  ok x >>= rest = rest x
  err problem >>= rest = err problem

  pub ok-injective : {a b : A} → ok a ≡ ok b → a ≡ b
  ok-injective {a} h = ap (λ r. elim r [ ok x ↦ x | err _ ↦ a ]) h

  -- What follows a check that passed was reached with its value.
  pub passed_first {κ} :
      {B : Type κ} (r : Result A) (rest : A → Result B) {b : B}
      → r >>= rest ≡ ok b
      → (x : A) × (r ≡ ok x) × (rest x ≡ ok b)
  passed_first (err problem) rest h = cc
  passed_first (ok x) rest h = (x, refl, h)

infixl 5 ◌>>◌
abbrev pub ◌>>◌ {ℓ} : {B : Type ℓ} → Result (Unit {0}) → Result B → Result B
check >> rest = check >>= λ _. rest
