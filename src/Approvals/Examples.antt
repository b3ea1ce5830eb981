-- ===== src/Approvals/Examples.antt =====
-- Approvals of one intent, and the theorems applied to them.
use wizpay_mcp.Base.{
  ◌≡◌, ◌<◌, ◌≤◌, refl, List, [], ◌∷◌, Time, text, ok, some, arith, text_eq, trim_space, has_control,
  len, decimal,
}
use wizpay_mcp.Intents.Intent
use wizpay_mcp.Intents.Intent.{Intent, digest_bytes, check_digest}
use wizpay_mcp.Intents.Operation.{OperationIdentity}
use wizpay_mcp.Intents.Samples.{demo_platform, demo_material, at_status}
use wizpay_mcp.Approvals.Defs.{
  approved, consumed, granted, Approval, Params, new, approve, consume, validate, validated,
  validate_texts, pending_for, is_bound_to, ensure_authorizes, is_terminal,
}
use wizpay_mcp.Approvals.Binding.{
  Authorizes, ensure_authorizes_iff, approve-ensure_authorizes, new-approve-authorizes,
}
use wizpay_mcp.Approvals.History.{
  Operation, grant, deny, lapse, spend, perform, play, Edge, perform-Edge, terminal_is_final,
  decision_is_final, single_use,
}

abbrev params : Params
params = record {
  approval_id = text "approval-1";
  version = 1;
  approval_request_id = text "request-1";
  created_at = 10;
  expires_at = 50;
}

abbrev waiting : Intent
waiting = at_status Intent.approval_needed

request : Approval
request = pending_for params waiting

abbrev decided : Approval
decided = record request {
  status = approved;
  decision = granted;
  decided_at = 20;
  lifecycle_revision = 2;
}

abbrev operation : OperationIdentity
operation = record {
  intent_id = text "intent-1";
  intent_version = 1;
  intent_digest = waiting.digest;
  operation_key = text "key-1";
  version = 1;
}

abbrev used : Approval
used = record decided {
  status = consumed;
  consumed_at = 30;
  operation_key = text "key-1";
  operation_version = 1;
  lifecycle_revision = 3;
}

made_test : new params waiting ≡ ok request
unfolding new request pending_for Intent.validate check_digest digest_bytes validate validate_texts
    text_eq trim_space has_control len decimal
made_test = refl

granted_test : approve request 20 ≡ ok decided
unfolding approve request pending_for validated digest_bytes validate validate_texts text_eq
    trim_space has_control len decimal
granted_test = refl

used_test : consume decided 30 operation ≡ ok used
unfolding consume request pending_for validated digest_bytes validate validate_texts text_eq
    trim_space has_control len decimal
used_test = refl

used_again_test : consume used 40 operation ≡ ok used
unfolding consume request pending_for validated digest_bytes validate validate_texts text_eq
    trim_space has_control len decimal
used_again_test = refl

intent_test :
    Intent.approve waiting (some (ensure_authorizes decided)) 30
    ≡ ok (record waiting { status = Intent.approved; lifecycle_revision = 3 })
unfolding Intent.approve ensure_authorizes is_bound_to Intent.validate check_digest request
    pending_for digest_bytes validate validate_texts text_eq trim_space has_control len decimal
intent_test = refl

new-approve-authorizes_example :
    (ensure_authorizes decided waiting 30 ≡ ok tt) × (decided.expires_at ≤ 100)
new-approve-authorizes_example =
    new-approve-authorizes params waiting 20 30 {a = request} {a' = decided} made_test granted_test
      (omega arith) (omega arith)

ensure_authorizes_iff_example :
    (ensure_authorizes decided waiting 30 ≡ ok tt → Authorizes decided waiting 30)
    × (Authorizes decided waiting 30 → ensure_authorizes decided waiting 30 ≡ ok tt)
ensure_authorizes_iff_example = ensure_authorizes_iff decided waiting 30

approve-ensure_authorizes_example :
    let i = record waiting { status = Intent.approved; lifecycle_revision = 3 } in
    Authorizes decided waiting 30
    × (i.status ≡ Intent.approved)
    × (i.params ≡ waiting.params)
    × (i.digest ≡ waiting.digest)
    × (30 < 100)
approve-ensure_authorizes_example = approve-ensure_authorizes decided waiting 30 intent_test

perform-Edge_example : Edge 20 request decided
unfolding perform
perform-Edge_example = perform-Edge grant request 20 granted_test

abbrev ops : List (Operation × Time)
ops =
    (deny, 31) ∷ (lapse, 90) ∷ (spend (record operation { operation_key = text "key-2" }), 32) ∷ []

final_test : play ops used ≡ used
unfolding is_terminal
final_test = terminal_is_final ops used refl

decided_valid : validate decided ≡ ok tt
unfolding request pending_for digest_bytes validate validate_texts text_eq trim_space has_control
    len decimal
decided_valid = refl

decision_is_final_example :
    ((play ops decided).decision ≡ granted) × ((play ops decided).decided_at ≡ 20)
decision_is_final_example = decision_is_final ops decided decided_valid (λ e. cc)

single_use_example : (used ≡ used) × (text "key-1" ≡ text "key-1") × (operation.version ≡ 1)
unfolding is_terminal
single_use_example =
    single_use decided 30 40 operation operation [] {b = used} {c = used} used_test
      (unfold play in used_again_test)
