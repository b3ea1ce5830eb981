-- ===== src/Intents/Intent.antt =====
-- internal/intents/intent.go, lifecycle.go and restore.go, over the interface of Material.antt.
use wizpay_mcp.Base.{
  ℕ, ◌+◌, ◌++◌, ◌==◌, Bool, true, false, not, ◌&&◌, ◌||◌, ltb, if◌then◌else◌, u64_incr, Time,
  is_zero, Text, text, [], is_empty, text_eq, Option, none, some, Result, ok, err, Error, plain,
  new_error, validation_error, approval_required, intent_expired, intent_mutated, ◌>>=◌, ◌>>◌,
  refuse_if, when, wrap_error, Platform,
}
use wizpay_mcp.Intents.Material.{Material}

-- `type Status string`: its constants, and the other strings, numbered.
pub data Status : Type 0 where
  draft created approval_needed approved ready_for_execution expired cancelled : Status
  unknown : ℕ → Status

abbrev pub ordinal : Status → ℕ
ordinal draft = 0
ordinal created = 1
ordinal approval_needed = 2
ordinal approved = 3
ordinal ready_for_execution = 4
ordinal expired = 5
ordinal cancelled = 6
ordinal (unknown n) = 7 + n

-- `a == b` on statuses.
abbrev pub status_eq : Status → Status → Bool
status_eq a b = ordinal a == ordinal b

-- `Status.Valid`
unfoldable pub is_valid : Status → Bool
is_valid (unknown _) = false
is_valid _ = true

-- `Status.Terminal`
unfoldable pub is_terminal : Status → Bool
is_terminal s = status_eq s expired || status_eq s cancelled

-- `validTransition`
unfoldable pub valid_transition : Status → Status → Bool
valid_transition draft next = status_eq next created
valid_transition created next =
    status_eq next approval_needed || status_eq next cancelled || status_eq next expired
valid_transition approval_needed next = status_eq next cancelled || status_eq next expired
valid_transition approved next =
    status_eq next ready_for_execution || status_eq next cancelled || status_eq next expired
valid_transition ready_for_execution next = status_eq next cancelled || status_eq next expired
valid_transition _ next = false

abbrev pub invalid : Error
invalid = new_error validation_error false true true

abbrev mutated : Error
mutated = new_error intent_mutated false true true

module _ ⦃platform : Platform⦄ ⦃material : Material⦄ where
  open platform use {sha256_hex}
  open material use {
    Params, created_at, expires_at, normalize_new, normalize, validate_params, canonical_material,
  }

  -- `Intent`
  pub record Intent : Type 0 where
    pub params : Params
    pub status : Status
    pub digest : Text
    pub lifecycle_revision : ℕ  -- uint64

  -- `digestBytes`
  unfoldable pub digest_bytes : Text → Text
  digest_bytes canonical = text "sha256:" ++ sha256_hex (text "WIZPAY_MCP_INTENT_V1\n" ++ canonical)

  -- The end of `Validate`, for an intent that is no draft.
  unfoldable pub check_digest : Intent → Result (Unit {0})
  unfolding digest_bytes
  check_digest i = do
    canonical ← wrap_error (canonical_material i.params) invalid
    refuse_if (is_empty i.digest || not (text_eq (digest_bytes canonical) i.digest)) mutated

  -- `Intent.Validate`
  unfoldable pub validate : Intent → Result (Unit {0})
  unfolding is_valid
  validate i = do
    wrap_error (validate_params i.params) invalid
    refuse_if (not (is_valid i.status)) invalid
    refuse_if (i.lifecycle_revision == 0) invalid
    if status_eq i.status draft then refuse_if (not (is_empty i.digest)) invalid else check_digest i

  -- `NewDraft`
  unfoldable pub new_draft : Params → Result Intent
  new_draft p = do
    let p' = normalize_new p
    wrap_error (validate_params p') invalid
    ok (record { params = p'; status = draft; digest = []; lifecycle_revision = 1 })

  -- `ReviseDraft`
  unfoldable pub revise_draft : Intent → Params → Result Intent
  revise_draft i p = do
    validate i
    let p' = normalize_new p
    wrap_error (validate_params p') invalid
    refuse_if
        (not (text_eq (material.intent_id i.params) (material.intent_id p'))
          || not (material.version i.params == material.version p'))
        mutated
    if status_eq i.status draft
        then ok (record {
          params = p';
          status = draft;
          digest = [];
          lifecycle_revision = u64_incr i.lifecycle_revision;
        })
        else do
          canonical ← wrap_error (canonical_material p') invalid
          if text_eq (digest_bytes canonical) i.digest then ok i else err mutated

  -- The clock checks of `Transition` behind the edge check.
  check_expiry : Intent → Status → Time → Result (Unit {0})
  check_expiry i next at =
      if status_eq next expired
      then refuse_if (ltb at (expires_at i.params)) (new_error validation_error false true false)
      else refuse_if (not (ltb at (expires_at i.params))) (new_error intent_expired false true true)

  -- CREATED freezes the material under its digest.
  freeze : Intent → Status → Result Intent
  freeze i next =
      if status_eq next created
      then (do
        canonical ← canonical_material i.params
        ok (record i { digest = digest_bytes canonical }))
      else ok i

  -- `Transition`
  unfoldable pub transition : Intent → Status → Time → Result Intent
  unfolding check_expiry freeze valid_transition
  transition i next at = do
    validate i
    if status_eq next i.status then ok i else do
      refuse_if (status_eq next approved) (new_error approval_required false true false)
      refuse_if (is_zero at || ltb at (created_at i.params)) invalid
      refuse_if (not (valid_transition i.status next)) invalid
      check_expiry i next at
      frozen ← freeze i next
      let next_intent = record frozen {
        status = next;
        lifecycle_revision = u64_incr frozen.lifecycle_revision;
      }
      validate next_intent
      ok next_intent

  -- `ApprovalArtifact`, or nil.
  abbrev pub Artifact : Type 0
  Artifact = Option (Intent → Time → Result (Unit {0}))

  ensure_authorizes : Artifact → Intent → Time → Result (Unit {0})
  ensure_authorizes none i at = err (new_error approval_required false true false)
  ensure_authorizes (some artifact) i at = artifact i at

  abbrev is_nil : Artifact → Bool
  is_nil none = true
  is_nil (some _) = false

  -- `Approve`. Where the result does not validate, the code returns it beside the error.
  unfoldable pub approve : Intent → Artifact → Time → Result Intent
  unfolding ensure_authorizes
  approve i artifact at = do
    validate i
    refuse_if (not (status_eq i.status approval_needed) && not (status_eq i.status approved))
        invalid
    refuse_if (is_nil artifact) (new_error approval_required false true false)
    refuse_if (is_zero at || ltb at (created_at i.params)) invalid
    refuse_if (not (ltb at (expires_at i.params))) (new_error intent_expired false true true)
    ensure_authorizes artifact i at
    if status_eq i.status approved then ok i else do
      let next = record i { status = approved; lifecycle_revision = u64_incr i.lifecycle_revision }
      validate next
      ok next

  -- `Restore`
  unfoldable pub restore : Intent → Result Intent
  restore stored = do
    let value = record stored { params = normalize stored.params }
    wrap_error (validate_params value.params) invalid
    validate value
    when (not (status_eq value.status draft)) (do
      canonical ← canonical_material value.params
      refuse_if (not (text_eq value.digest (digest_bytes canonical))) mutated)
    refuse_if (not (is_valid value.status)) plain
    ok value
