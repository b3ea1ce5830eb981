-- ===== src/Intents/Operation.antt =====
-- internal/intents/idempotency.go: the identity of the logical operation of a frozen intent.
use wizpay_mcp.Base.{
  ℕ, ◌++◌, ◌∷◌, ◌==◌, ◌≡◌, refl, ◌||◌, not, Bool, true, false, Text, text, is_empty, text_eq,
  text_eq→≡, text_eq_refl, decimal, Result, ok, Error, new_error, passed_first, ap, sym, ◌∙◌,
  validation_error, intent_mutated, ◌>>=◌, ◌>>◌, refuse_if, Platform, arith,
}
use wizpay_mcp.Intents.Material.{Material}
use wizpay_mcp.Intents.Intent.{Intent, draft, status_eq, validate}

pub record OperationIdentity : Type 0 where
  pub intent_id : Text
  pub intent_version : ℕ
  pub intent_digest : Text
  pub operation_key : Text
  pub version : ℕ

abbrev pub operation_identity_version : ℕ
operation_identity_version = 1

-- The comparison of `EnsureMatches`.
unfoldable pub identity_differs : OperationIdentity → OperationIdentity → Bool
identity_differs o other =
    not (text_eq o.intent_id other.intent_id)
    || not (o.intent_version == other.intent_version)
    || not (text_eq o.intent_digest other.intent_digest)
    || not (text_eq o.operation_key other.operation_key)
    || not (o.version == other.version)

module _ ⦃platform : Platform⦄ ⦃material : Material⦄ where
  open platform use {sha256_hex}

  -- The identity that `NewOperationIdentity` computes.
  unfoldable pub identity_of : Intent → OperationIdentity
  identity_of i =
      let id = material.intent_id i.params in
      let version = material.version i.params in
      record {
        intent_id = id;
        intent_version = version;
        intent_digest = i.digest;
        operation_key = sha256_hex (
            text "WIZPAY_MCP_OPERATION_V1\n"
            ++ (id ++ b'\n' ∷ (decimal version ++ b'\n' ∷ i.digest)));
        version = operation_identity_version;
      }

  -- `NewOperationIdentity`
  unfoldable pub new_operation_identity : Intent → Result OperationIdentity
  unfolding identity_of
  new_operation_identity i = do
    validate i
    refuse_if (status_eq i.status draft || is_empty i.digest)
        (new_error validation_error false true true)
    ok (identity_of i)

  -- `OperationIdentity.EnsureMatches`
  unfoldable pub ensure_matches : OperationIdentity → Intent → Result (Unit {0})
  unfolding identity_differs new_operation_identity
  ensure_matches o i = do
    other ← new_operation_identity i
    refuse_if (identity_differs o other) (new_error intent_mutated false true true)

  differs_not : (o p : OperationIdentity) → identity_differs o p ≡ false → o ≡ p
  unfolding identity_differs
  differs_not o p h = ground (
    arith,
    text_eq→≡ o.intent_id p.intent_id,
    text_eq→≡ o.intent_digest p.intent_digest,
    text_eq→≡ o.operation_key p.operation_key,
  )

  differs_refl : (o : OperationIdentity) → identity_differs o o ≡ false
  unfolding identity_differs
  differs_refl o =
      ground (
        arith,
        text_eq_refl o.intent_id,
        text_eq_refl o.intent_digest,
        text_eq_refl o.operation_key,
      )

  not_refused : (b : Bool) (e : Error) → refuse_if b e ≡ ok tt → b ≡ false
  not_refused true e h = cc
  not_refused false e h = refl

  matched :
      (o : OperationIdentity) (i : Intent)
      → ensure_matches o i ≡ ok tt
      → new_operation_identity i ≡ ok o
  unfolding ensure_matches
  matched o i h =
      let (other, made, same) = passed_first (new_operation_identity i) _ h in
      made ∙ ap ok (sym (differs_not o other (not_refused _ _ same)))

  -- An operation identity matches an intent exactly when it is the one that NewOperationIdentity
  -- gives for that intent.
  pub ensure_matches_iff :
      (o : OperationIdentity) (i : Intent)
      → (ensure_matches o i ≡ ok tt → new_operation_identity i ≡ ok o)
        × (new_operation_identity i ≡ ok o → ensure_matches o i ≡ ok tt)
  unfolding ensure_matches
  ensure_matches_iff o i = (λ h. matched o i h, λ h. rw (h, differs_refl o))
