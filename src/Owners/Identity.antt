-- ===== src/Owners/Identity.antt =====
-- internal/auth/identity.go: application identities and their lifecycle.
use wizpay_mcp.Base.{
  ℕ, ◌+◌, ◌==◌, Bool, true, false, not, ◌||◌, if◌then◌else◌, Text, text, trim_space, ◌++◌, Result,
  ok, plain, new_error, refuse_if, wrap_error, ◌>>◌, validate_field, validation_error,
  identity_not_found, identity_suspended, identity_revoked, internal_error,
}

-- `IdentityStatus`: its constants, and the other strings, numbered.
pub data IdentityStatus : Type 0 where
  unverified active suspended revoked : IdentityStatus
  unknown : ℕ → IdentityStatus

abbrev pub ordinal : IdentityStatus → ℕ
ordinal unverified = 0
ordinal active = 1
ordinal suspended = 2
ordinal revoked = 3
ordinal (unknown n) = 4 + n

-- `a == b` on statuses.
abbrev pub status_eq : IdentityStatus → IdentityStatus → Bool
status_eq a b = ordinal a == ordinal b

-- `IdentityStatus.Valid`
unfoldable pub is_valid : IdentityStatus → Bool
is_valid (unknown _) = false
is_valid _ = true

pub record Identity : Type 0 where
  pub user_id : Text
  pub provider : Text
  pub provider_subject : Text
  pub status : IdentityStatus

-- `Identity.Validate`
unfoldable pub validate : Identity → Result (Unit {0})
unfolding is_valid
validate i = do
  validate_field i.user_id
  validate_field i.provider
  validate_field i.provider_subject
  refuse_if (not (is_valid i.status)) plain

-- The identity that `NewIdentityWithSubject` validates.
abbrev trimmed : Text → Text → Text → IdentityStatus → Identity
trimmed user_id provider subject status = record {
  user_id = trim_space user_id;
  provider = trim_space provider;
  provider_subject = trim_space subject;
  status = status;
}

-- `NewIdentityWithSubject`
unfoldable pub new_identity_with_subject : Text → Text → Text → IdentityStatus → Result Identity
new_identity_with_subject user_id provider subject status = do
  validate (trimmed user_id provider subject status)
  ok (trimmed user_id provider subject status)

-- `NewIdentity`
unfoldable pub new_identity : Text → Text → IdentityStatus → Result Identity
new_identity user_id provider status =
    new_identity_with_subject user_id provider (text "legacy-unmapped:" ++ trim_space user_id)
      status

-- The edges of `Transition`.
unfoldable pub valid_transition : IdentityStatus → IdentityStatus → Bool
valid_transition unverified next =
    status_eq next active || status_eq next suspended || status_eq next revoked
valid_transition active next = status_eq next suspended || status_eq next revoked
valid_transition suspended next = status_eq next active || status_eq next revoked
valid_transition _ next = false

-- `Identity.Transition`
unfoldable pub transition : Identity → IdentityStatus → Result Identity
unfolding valid_transition
transition i next = do
  validate i
  refuse_if (not (is_valid next)) plain
  if status_eq next i.status then ok i else do
    refuse_if (not (valid_transition i.status next)) plain
    ok (record i { status = next })

-- What `EnsureAuthorizable` returns for a status.
unfoldable pub authorizable_status : IdentityStatus → Result (Unit {0})
authorizable_status active = ok tt
authorizable_status unverified = refuse_if true (new_error identity_not_found false true false)
authorizable_status suspended = refuse_if true (new_error identity_suspended false true false)
authorizable_status revoked = refuse_if true (new_error identity_revoked false true true)
authorizable_status (unknown _) = refuse_if true (new_error internal_error false false false)

-- `Identity.EnsureAuthorizable`
unfoldable pub ensure_authorizable : Identity → Result (Unit {0})
unfolding authorizable_status
ensure_authorizable i = do
  wrap_error (validate i) (new_error validation_error false true true)
  authorizable_status i.status
