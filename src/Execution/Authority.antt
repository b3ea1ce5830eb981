-- ===== src/Execution/Authority.antt =====
-- What stands behind a new request: an intent, its consumed approval and a policy that allowed it.
use wizpay_mcp.Base.{
  ◌++◌, ◌∷◌, ◌<◌, ◌≤◌, ◌≡◌, ◌⊎◌, refl, sym, ap, ◌∙◌, true, false, Time, text_eq→≡, decimal, Result,
  ok, err, Platform, Libraries, arith,
}
use mathlib.Core.Path.{subst}
use wizpay_mcp.Intents.Intent
use wizpay_mcp.Intents.Intent.{Intent}
use wizpay_mcp.Intents.Operation.{OperationIdentity, identity_of, new_operation_identity}
use wizpay_mcp.Owners.Identity.{Identity}
use wizpay_mcp.Owners.Binding.{Binding}
use wizpay_mcp.Approvals.Defs
use wizpay_mcp.Approvals.Defs.{Approval, is_bound_to}
use wizpay_mcp.Approvals.Binding.{BoundTo, BoundTo-is_bound_to}
use wizpay_mcp.Payments.Normal.{Encoding, intent_material}
use wizpay_mcp.Policies.Types.{EvaluationStage, before_execution, allow, Evaluation}
use wizpay_mcp.Policies.Policy.{Policy}
use wizpay_mcp.Policies.Evaluation.{evaluate}
use wizpay_mcp.Policies.Authorized.{IsAuthorized, evaluate-IsAuthorized}
use wizpay_mcp.Policies.Decision.{evaluate-IsSettled}
use wizpay_mcp.Execution.Request
use wizpay_mcp.Execution.Request.{Request}
use wizpay_mcp.Execution.NewRequest.{
  new_request, request_of, approval_differs, result_differs, check_intent,
}

module _ ⦃libraries : Libraries⦄ ⦃platform : Platform⦄ ⦃encoding : Encoding⦄ where
  -- The approval was granted to this intent, and consumed for its operation by that instant.
  abbrev pub IsConsumedFor : Approval → Intent → Time → Type 0
  IsConsumedFor a i at =
      (Defs.validate a ≡ ok tt)
      × (a.status ≡ Defs.consumed)
      × (a.decision ≡ Defs.granted)
      × BoundTo a i
      × (a.operation_key ≡ (identity_of i).operation_key)
      × (a.operation_version ≡ (identity_of i).version)
      × (a.consumed_at ≤ at)

  -- The result allows the execution of this intent, under the policy that it names, by that
  -- instant.
  abbrev pub IsAllowed : Evaluation → Intent → Time → Type 0
  IsAllowed e i at =
      (e.decision ≡ allow)
      × (e.stage ≡ before_execution)
      × (e.intent_id ≡ i.params.intent_id)
      × (e.intent_version ≡ i.params.version)
      × (e.intent_digest ≡ i.digest)
      × (i.params.constraints.policy_reference ≡ e.policy_id ++ b':' ∷ decimal e.policy_version)
      × (e.evaluated_at ≤ at)

  -- The intent is valid, approved and not expired.
  abbrev pub IsDue : Intent → Time → Type 0
  IsDue i at =
      (Intent.validate i ≡ ok tt)
      × ((i.status ≡ Intent.approved) ⊎ (i.status ≡ Intent.ready_for_execution))
      × (at < i.params.expires_at)
      × (at < i.params.constraints.deadline)

  identity_made :
      (i : Intent) {o : OperationIdentity} → new_operation_identity i ≡ ok o → o ≡ identity_of i
  unfolding new_operation_identity
  identity_made i h = ground arith

  not_differs :
      (i : Intent) (o : OperationIdentity) (a : Approval)
      → approval_differs i o a ≡ false
      → (a.status ≡ Defs.consumed)
        × (a.decision ≡ Defs.granted)
        × (is_bound_to a i ≡ true)
        × (a.operation_key ≡ o.operation_key)
        × (a.operation_version ≡ o.version)
  unfolding approval_differs
  not_differs i o a h = ground (arith, text_eq→≡ a.operation_key o.operation_key)

  allows :
      (i : Intent) (a : Approval) (e : Evaluation)
      → result_differs i a e ≡ false
      → IsAllowed e i a.consumed_at
  unfolding result_differs
  allows i a e h = ground (
    arith,
    text_eq→≡ e.intent_id i.params.intent_id,
    text_eq→≡ e.intent_digest i.digest,
    text_eq→≡ i.params.constraints.policy_reference
        (e.policy_id ++ b':' ∷ decimal e.policy_version),
  )

  request_identity :
      (i : Intent) (a : Approval) (e : Evaluation) (at : Time) (made : Result OperationIdentity)
      {q : Request}
      → new_operation_identity i ≡ made
      → new_request i a e at ≡ ok q
      → made ≡ ok (identity_of i)
  unfolding new_request
  request_identity i a e at (ok o) m h = ap ok (identity_made i m)
  request_identity i a e at (err x) m h = absurd (ground arith)

  request_checks :
      (i : Intent) (o : OperationIdentity) (a : Approval) (e : Evaluation) (at : Time) {q : Request}
      → new_operation_identity i ≡ ok o
      → new_request i a e at ≡ ok q
      → (Defs.validate a ≡ ok tt)
        × IsDue i at
        × (approval_differs i o a ≡ false)
        × (a.consumed_at ≤ at)
        × (result_differs i a e ≡ false)
        × (Request.validate q ≡ ok tt)
        × (q ≡ request_of i o a e)
  unfolding new_request check_intent
  request_checks i o a e at m h = ground arith

  -- A request that NewRequest makes is valid and is the one of the operation of its intent, which
  -- is due; its approval was consumed for that operation; and its result allows that intent.
  pub new_request_lem :
      (i : Intent) (a : Approval) (e : Evaluation) (at : Time) {q : Request}
      → new_request i a e at ≡ ok q
      → (Request.validate q ≡ ok tt)
        × (q ≡ request_of i (identity_of i) a e)
        × IsDue i at
        × IsConsumedFor a i at
        × IsAllowed e i a.consumed_at
  new_request_lem i a e at h =
      let made = request_identity i a e at (new_operation_identity i) refl h in
      let (valid, due, same, consumed, allowed, checked, is_request) =
        request_checks i (identity_of i) a e at made h in
      let (status, decision, bound, key, version) = not_differs i (identity_of i) a same in
      (
        checked,
        is_request,
        due,
        (valid, status, decision, BoundTo-is_bound_to a i bound, key, version, consumed),
        allows i a e allowed,
      )

  -- If NewRequest makes a request of what Evaluate returned for an intent, then the policy
  -- authorized, before the execution and by the time that the approval was consumed, an intent of
  -- the same identity, version and digest as the intent of the request; that one is due; the
  -- approval was granted to it and consumed for its operation; and the request is valid and is the
  -- one of that operation, approval and result.
  pub new_request-evaluate :
      (i j : Intent) (a : Approval) (p : Policy) (identity : Identity) (b : Binding)
      (evaluated at : Time) (stage : EvaluationStage) {e : Evaluation} {q : Request}
      → evaluate p j identity b evaluated stage ≡ ok e
      → new_request i a e at ≡ ok q
      → IsAuthorized p j identity b evaluated before_execution
        × (i.params.intent_id ≡ j.params.intent_id)
        × (i.params.version ≡ j.params.version)
        × (i.digest ≡ j.digest)
        × (evaluated ≤ a.consumed_at)
        × IsDue i at
        × IsConsumedFor a i at
        × (Request.validate q ≡ ok tt)
        × (q ≡ request_of i (identity_of i) a e)
  new_request-evaluate i j a p identity b evaluated at stage {e} h k =
      let (valid, is_request, due, consumed, allowed) = new_request_lem i a e at k in
      let (strict, same) = evaluate-IsSettled p j identity b evaluated stage h in
      let (is_initial, authorized) =
        (evaluate-IsAuthorized p j identity b evaluated stage).0 e h allowed.0 in
      let staged : stage ≡ before_execution = sym same.5 ∙ allowed.1 in
      (
        subst (λ s. IsAuthorized p j identity b evaluated s) staged authorized,
        sym allowed.2 ∙ same.2,
        sym allowed.3 ∙ same.3,
        sym allowed.4 ∙ same.4,
        ground (arith, same, allowed),
        due,
        consumed,
        valid,
        is_request,
      )
