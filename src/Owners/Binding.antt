-- ===== src/Owners/Binding.antt =====
-- internal/wallet/binding.go and state.go: wallet bindings.
use wizpay_mcp.Base.{
  ℕ, ◌+◌, ◌==◌, Bool, true, false, not, ◌&&◌, ◌||◌, ltb, if◌then◌else◌, u64_max, u64_incr, Time,
  is_zero, Text, is_empty, len, text_eq, trim_space, ◌++◌, ◌∷◌, Result, ok, Error, plain, new_error,
  refuse_if, wrap_error, ◌>>◌, validate_field, validate_chain_id, validation_error, wallet_mismatch,
  wallet_not_bound, wallet_revoked, internal_error,
}

-- `BindingStatus`: its constants, and the other strings, numbered.
pub data BindingStatus : Type 0 where
  pending active revoked : BindingStatus
  unknown : ℕ → BindingStatus

abbrev pub ordinal : BindingStatus → ℕ
ordinal pending = 0
ordinal active = 1
ordinal revoked = 2
ordinal (unknown n) = 3 + n

-- `a == b` on statuses.
abbrev pub status_eq : BindingStatus → BindingStatus → Bool
status_eq a b = ordinal a == ordinal b

-- `BindingStatus.Valid`
unfoldable pub is_valid : BindingStatus → Bool
is_valid (unknown _) = false
is_valid _ = true

-- The edges of `validateTransition`.
unfoldable pub is_allowed : BindingStatus → BindingStatus → Bool
is_allowed pending next = status_eq next active || status_eq next revoked
is_allowed active next = status_eq next revoked
is_allowed _ next = false

-- `validateTransition`
unfoldable pub validate_transition : BindingStatus → BindingStatus → Result (Unit {0})
unfolding is_valid is_allowed
validate_transition current next = do
  refuse_if (not (is_valid current) || not (is_valid next)) plain
  if status_eq current next then ok tt else refuse_if (not (is_allowed current next)) plain

-- `Binding`, and `BindingParams`
pub record Binding : Type 0 where
  pub binding_id : Text
  pub version : ℕ  -- uint64
  pub user_id : Text
  pub provider : Text
  pub provider_user_reference : Text
  pub wallet_id : Text
  pub address : Text
  pub chain_id : Text
  pub network : Text
  pub status : BindingStatus
  pub verification_reference : Text
  pub created_at : Time
  pub verified_at : Time
  pub revoked_at : Time

-- The loop of `Validate` over the fields.
unfoldable pub validate_fields : Binding → Result (Unit {0})
validate_fields b = do
  validate_field b.binding_id
  validate_field b.user_id
  validate_field b.provider
  validate_field b.provider_user_reference
  validate_field b.wallet_id
  validate_field b.address
  validate_field b.network

-- The switch of `Validate`.
unfoldable pub validate_status_fields : Binding → BindingStatus → Result (Unit {0})
validate_status_fields b pending =
    refuse_if
      (not (is_zero b.verified_at)
        || not (is_zero b.revoked_at)
        || not (is_empty b.verification_reference))
      plain
validate_status_fields b active = do
  refuse_if (is_zero b.verified_at || is_empty b.verification_reference) plain
  refuse_if (not (is_zero b.revoked_at)) plain
validate_status_fields b revoked = refuse_if (is_zero b.revoked_at) plain
validate_status_fields b (unknown _) = ok tt

-- `Binding.Validate`
unfoldable pub validate : Binding → Result (Unit {0})
unfolding is_valid validate_fields validate_status_fields
validate b = do
  validate_fields b
  refuse_if (b.version == 0) plain
  validate_chain_id b.chain_id
  refuse_if (not (is_valid b.status)) plain
  refuse_if (is_zero b.created_at) plain
  validate_status_fields b b.status
  refuse_if (not (is_zero b.verified_at) && ltb b.verified_at b.created_at) plain
  refuse_if (not (is_zero b.revoked_at) && ltb b.revoked_at b.created_at) plain
  refuse_if
      (not (is_zero b.revoked_at)
        && (not (is_zero b.verified_at) && ltb b.revoked_at b.verified_at))
      plain
  refuse_if (ltb 256 (len b.verification_reference)) plain

-- `NewBinding`
unfoldable pub new_binding : Binding → Result Binding
new_binding p = do
  let binding = record p {
    binding_id = trim_space p.binding_id;
    user_id = trim_space p.user_id;
    provider = trim_space p.provider;
    provider_user_reference = trim_space p.provider_user_reference;
    wallet_id = trim_space p.wallet_id;
    address = trim_space p.address;
    chain_id = trim_space p.chain_id;
    network = trim_space p.network;
    verification_reference = trim_space p.verification_reference;
  }
  validate binding
  ok binding

-- The switch of `Transition`.
unfoldable pub stamp : Binding → BindingStatus → Time → Text → Binding
stamp b active at reference = record b {
  verification_reference = trim_space reference;
  verified_at = at;
}
stamp b revoked at reference = record b { revoked_at = at }
stamp b _ at reference = b

-- `Binding.Transition`
unfoldable pub transition : Binding → BindingStatus → Time → Text → Result Binding
unfolding validate_transition stamp
transition b next at reference = do
  validate b
  validate_transition b.status next
  if status_eq next b.status then ok b else do
    refuse_if (is_zero at || ltb at b.created_at) plain
    refuse_if (b.version == u64_max) plain
    let next_binding =
        stamp (record b { version = u64_incr b.version; status = next }) next at reference
    validate next_binding
    ok next_binding

-- `Reference`
pub record Reference : Type 0 where
  pub user_id : Text
  pub wallet_id : Text
  pub address : Text
  pub chain_id : Text

abbrev invalid : Error
invalid = new_error validation_error false true true

abbrev mismatch : Error
mismatch = new_error wallet_mismatch false true true

-- `EnsureMatches`
unfoldable pub ensure_matches : Binding → Reference → Result (Unit {0})
ensure_matches b r = do
  wrap_error (validate b) invalid
  refuse_if
      (not (text_eq b.user_id (trim_space r.user_id))
        || not (text_eq b.wallet_id (trim_space r.wallet_id))
        || not (text_eq b.address (trim_space r.address))
        || not (text_eq b.chain_id (trim_space r.chain_id)))
      mismatch

-- What `EnsureAuthorizable` returns for a status.
unfoldable pub authorizable_status : BindingStatus → Result (Unit {0})
authorizable_status active = ok tt
authorizable_status pending = refuse_if true (new_error wallet_not_bound false true false)
authorizable_status revoked = refuse_if true (new_error wallet_revoked false true true)
authorizable_status (unknown _) = refuse_if true (new_error internal_error false false false)

-- `EnsureAuthorizable`
unfoldable pub ensure_authorizable : Binding → Text → Result (Unit {0})
unfolding authorizable_status
ensure_authorizable b user_id = do
  wrap_error (validate b) invalid
  refuse_if (not (text_eq b.user_id (trim_space user_id))) mismatch
  authorizable_status b.status

-- `DuplicateKey`
unfoldable pub duplicate_key : Binding → Result Text
duplicate_key b = do validate b; ok (b.chain_id ++ 0 ∷ (b.network ++ 0 ∷ b.address))
