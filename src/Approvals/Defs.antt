-- ===== src/Approvals/Defs.antt =====
-- internal/approvals/approval.go, lifecycle.go and restore.go. Where the code returns a next value
-- beside the error of its `Validate`, the model has the error alone.
use wizpay_mcp.Base.{
  ℕ, ◌+◌, ◌==◌, Bool, true, false, not, ◌&&◌, ◌||◌, ltb, if◌then◌else◌, u64_incr, Time, is_zero,
  Text, List, [], ◌∷◌, is_empty, text_eq, len, trim_space, has_control, Result, ok, err, Error,
  plain, new_error, validation_error, approval_required, approval_expired, approval_rejected,
  approval_already_consumed, ◌>>◌, refuse_if, wrap_error, Platform,
}
use wizpay_mcp.Intents.Material.{Material}
use wizpay_mcp.Intents.Intent
use wizpay_mcp.Intents.Intent.{Intent}
use wizpay_mcp.Intents.Operation.{OperationIdentity}

-- `type Status string`: its constants, and the other strings, numbered.
pub data Status : Type 0 where
  pending approved ready_for_execution_confirmation rejected expired consumed : Status
  unknown : ℕ → Status

abbrev pub ordinal : Status → ℕ
ordinal pending = 0
ordinal approved = 1
ordinal ready_for_execution_confirmation = 2
ordinal rejected = 3
ordinal expired = 4
ordinal consumed = 5
ordinal (unknown n) = 6 + n

-- `a == b` on statuses.
abbrev pub status_eq : Status → Status → Bool
status_eq a b = ordinal a == ordinal b

-- `Status.Valid`
unfoldable pub is_valid : Status → Bool
is_valid (unknown _) = false
is_valid _ = true

-- `Status.Terminal`
unfoldable pub is_terminal : Status → Bool
is_terminal s = status_eq s rejected || status_eq s expired || status_eq s consumed

-- `type Decision string`, likewise.
pub data Decision : Type 0 where
  undecided granted denied : Decision
  unknown_decision : ℕ → Decision

abbrev pub decision_ordinal : Decision → ℕ
decision_ordinal undecided = 0
decision_ordinal granted = 1
decision_ordinal denied = 2
decision_ordinal (unknown_decision n) = 3 + n

abbrev pub decision_eq : Decision → Decision → Bool
decision_eq a b = decision_ordinal a == decision_ordinal b

-- `Decision.Valid`
unfoldable pub decision_is_valid : Decision → Bool
decision_is_valid d = decision_eq d undecided || decision_eq d granted || decision_eq d denied

pub record Approval : Type 0 where
  pub approval_id : Text
  pub version : ℕ
  pub approval_request_id : Text
  pub intent_id : Text
  pub intent_version : ℕ
  pub intent_digest : Text
  pub user_id : Text
  pub wallet_binding_id : Text
  pub wallet_binding_version : ℕ
  pub wallet_id : Text
  pub wallet_address : Text
  pub chain_id : Text
  pub status : Status
  pub decision : Decision
  pub created_at : Time
  pub expires_at : Time
  pub decided_at : Time
  pub consumed_at : Time
  pub operation_key : Text
  pub operation_version : ℕ
  pub lifecycle_revision : ℕ  -- uint64

abbrev pub invalid : Error
invalid = new_error validation_error false true true

abbrev pub expired_error : Error
expired_error = new_error approval_expired false true true

-- `validateText`
unfoldable pub validate_text : Text → Result (Unit {0})
validate_text value = do
  refuse_if (is_empty value || not (text_eq (trim_space value) value)) plain
  refuse_if (ltb 256 (len value)) plain
  refuse_if (has_control value) plain

unfoldable pub validate_texts : List Text → Result (Unit {0})
unfolding validate_text
validate_texts [] = ok tt
validate_texts (value ∷ values) = do wrap_error (validate_text value) invalid; validate_texts values

-- No consumption is recorded.
abbrev unconsumed : Approval → Bool
unconsumed a = is_zero a.consumed_at && is_empty a.operation_key && a.operation_version == 0

-- The switch of `Validate`.
unfoldable pub validate_lifecycle : Status → Approval → Result (Unit {0})
validate_lifecycle pending a =
    refuse_if
      (not (decision_eq a.decision undecided) || not (is_zero a.decided_at) || not (unconsumed a))
      invalid
validate_lifecycle approved a =
    refuse_if (not (decision_eq a.decision granted) || is_zero a.decided_at || not (unconsumed a))
      invalid
validate_lifecycle ready_for_execution_confirmation a =
    refuse_if (not (decision_eq a.decision granted) || is_zero a.decided_at || not (unconsumed a))
      invalid
validate_lifecycle rejected a =
    refuse_if (not (decision_eq a.decision denied) || is_zero a.decided_at || not (unconsumed a))
      invalid
validate_lifecycle expired a = refuse_if (not (unconsumed a)) invalid
validate_lifecycle consumed a =
    refuse_if
      (not (decision_eq a.decision granted)
        || is_zero a.decided_at
        || is_zero a.consumed_at
        || is_empty a.operation_key
        || a.operation_version == 0)
      invalid
validate_lifecycle (unknown _) a = ok tt

-- `Approval.Validate`
unfoldable pub validate : Approval → Result (Unit {0})
unfolding is_valid decision_is_valid validate_lifecycle
validate a = do
  validate_texts (
      a.approval_id ∷ a.approval_request_id ∷ a.intent_id ∷ a.intent_digest ∷ a.user_id
      ∷ a.wallet_binding_id ∷ a.wallet_id ∷ a.wallet_address ∷ a.chain_id ∷ [])
  refuse_if
      (a.version == 0
        || a.intent_version == 0
        || a.wallet_binding_version == 0
        || a.lifecycle_revision == 0)
      invalid
  refuse_if (not (is_valid a.status) || not (decision_is_valid a.decision)) invalid
  refuse_if (is_zero a.created_at || is_zero a.expires_at || not (ltb a.created_at a.expires_at))
      invalid
  validate_lifecycle a.status a

-- `return next, next.Validate()`
unfoldable pub validated : Approval → Result Approval
validated next = do validate next; ok next

-- `validateDecisionTime`
unfoldable pub validate_decision_time : Approval → Time → Result (Unit {0})
validate_decision_time a at = do
  refuse_if (is_zero at || ltb at a.created_at) invalid
  refuse_if (not (ltb at a.expires_at)) expired_error

-- `Approve`
unfoldable pub approve : Approval → Time → Result Approval
unfolding validate_decision_time
approve a at = do
  validate a
  if status_eq a.status approved then ok a else do
    refuse_if (not (status_eq a.status pending)) invalid
    validate_decision_time a at
    validated (record a {
      status = approved;
      decision = granted;
      decided_at = at;
      lifecycle_revision = u64_incr a.lifecycle_revision;
    })

-- `ReadyForExecutionConfirmation`
unfoldable pub make_ready : Approval → Time → Result Approval
make_ready a at = do
  validate a
  if status_eq a.status ready_for_execution_confirmation then ok a else do
    refuse_if (not (status_eq a.status approved)) invalid
    refuse_if (is_zero at || not (ltb at a.expires_at)) expired_error
    validated (record a {
      status = ready_for_execution_confirmation;
      lifecycle_revision = u64_incr a.lifecycle_revision;
    })

-- `Reject`
unfoldable pub reject : Approval → Time → Result Approval
unfolding validate_decision_time
reject a at = do
  validate a
  if status_eq a.status rejected then ok a else do
    refuse_if (not (status_eq a.status pending)) invalid
    validate_decision_time a at
    validated (record a {
      status = rejected;
      decision = denied;
      decided_at = at;
      lifecycle_revision = u64_incr a.lifecycle_revision;
    })

-- `Expire`
unfoldable pub expire : Approval → Time → Result Approval
expire a at = do
  validate a
  if status_eq a.status expired then ok a else do
    refuse_if
        (not (status_eq a.status pending)
          && not (status_eq a.status approved)
          && not (status_eq a.status ready_for_execution_confirmation))
        invalid
    refuse_if (is_zero at || ltb at a.expires_at) (new_error validation_error false true false)
    validated (record a { status = expired; lifecycle_revision = u64_incr a.lifecycle_revision })

-- `Consume`
unfoldable pub consume : Approval → Time → OperationIdentity → Result Approval
consume a at operation = do
  validate a
  if status_eq a.status consumed
      then (if text_eq a.operation_key operation.operation_key
            && a.operation_version == operation.version
          then ok a
          else err (new_error approval_already_consumed false true true))
      else do
        refuse_if
            (not (status_eq a.status approved)
              && not (status_eq a.status ready_for_execution_confirmation))
            invalid
        refuse_if (is_zero at || ltb at a.created_at) invalid
        refuse_if (not (ltb at a.expires_at)) expired_error
        refuse_if
            (not (text_eq a.intent_id operation.intent_id)
              || not (a.intent_version == operation.intent_version)
              || not (text_eq a.intent_digest operation.intent_digest)
              || is_empty operation.operation_key)
            (new_error approval_required false true true)
        validated (record a {
          status = consumed;
          consumed_at = at;
          operation_key = operation.operation_key;
          operation_version = operation.version;
          lifecycle_revision = u64_incr a.lifecycle_revision;
        })

-- `Restore`: the parameters have the fields of an approval.
unfoldable pub restore : Approval → Result Approval
restore a = validated a

-- `Params`
pub record Params : Type 0 where
  pub approval_id : Text
  pub version : ℕ
  pub approval_request_id : Text
  pub created_at : Time
  pub expires_at : Time

-- The last switch of `EnsureAuthorizes`.
unfoldable pub effective : Status → Result (Unit {0})
effective approved = ok tt
effective ready_for_execution_confirmation = ok tt
effective rejected = err (new_error approval_rejected false true true)
effective consumed = err (new_error approval_already_consumed false true true)
effective _ = err (new_error approval_required false true false)

module _ ⦃platform : Platform⦄ ⦃material : Material⦄ where
  -- The approval that `New` builds.
  unfoldable pub pending_for : Params → Intent → Approval
  pending_for p i =
      let owner = material.ownership i.params in
      record {
        approval_id = trim_space p.approval_id;
        version = p.version;
        approval_request_id = trim_space p.approval_request_id;
        intent_id = material.intent_id i.params;
        intent_version = material.version i.params;
        intent_digest = i.digest;
        user_id = owner.user_id;
        wallet_binding_id = owner.wallet_binding_id;
        wallet_binding_version = owner.wallet_binding_version;
        wallet_id = owner.wallet_id;
        wallet_address = owner.wallet_address;
        chain_id = owner.chain_id;
        status = pending;
        decision = undecided;
        created_at = p.created_at;
        expires_at = p.expires_at;
        decided_at = 0;
        consumed_at = 0;
        operation_key = [];
        operation_version = 0;
        lifecycle_revision = 1;
      }

  -- `New`
  unfoldable pub new : Params → Intent → Result Approval
  unfolding pending_for
  new p i = do
    Intent.validate i
    refuse_if (not (Intent.status_eq i.status Intent.approval_needed)) invalid
    let a = pending_for p i
    validate a
    refuse_if
        (ltb a.created_at (material.created_at i.params)
          || ltb (material.expires_at i.params) a.expires_at)
        invalid
    ok a

  -- The comparison of `EnsureAuthorizes`.
  unfoldable pub is_bound_to : Approval → Intent → Bool
  is_bound_to a i =
      let owner = material.ownership i.params in
      text_eq a.intent_id (material.intent_id i.params)
      && a.intent_version == material.version i.params
      && text_eq a.intent_digest i.digest
      && text_eq a.user_id owner.user_id
      && text_eq a.wallet_binding_id owner.wallet_binding_id
      && a.wallet_binding_version == owner.wallet_binding_version
      && text_eq a.wallet_id owner.wallet_id
      && text_eq a.wallet_address owner.wallet_address
      && text_eq a.chain_id owner.chain_id

  -- `EnsureAuthorizes`
  unfoldable pub ensure_authorizes : Approval → Intent → Time → Result (Unit {0})
  unfolding effective
  ensure_authorizes a i at = do
    validate a
    Intent.validate i
    refuse_if (not (is_bound_to a i)) (new_error approval_required false true true)
    refuse_if (is_zero at || not (ltb at a.expires_at)) expired_error
    effective a.status
