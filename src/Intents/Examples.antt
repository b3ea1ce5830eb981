-- ===== src/Intents/Examples.antt =====
-- Histories of an intent, and the theorems applied to it.
use wizpay_mcp.Base.{
  ◌≡◌, ◌≢◌, ◌⊎◌, refl, ap, List, [], ◌∷◌, Time, text, none, some, ok, len, decimal, text_eq, arith,
}
use wizpay_mcp.Intents.Intent.{
  Status, draft, created, approval_needed, approved, ready_for_execution, expired, cancelled,
  validate, transition, approve, Artifact, revise_draft, check_digest, digest_bytes,
}
use wizpay_mcp.Intents.Samples.{demo_platform, demo_material, at_status}
use wizpay_mcp.Intents.Operation.{
  identity_of, new_operation_identity, ensure_matches, ensure_matches_iff,
}
use wizpay_mcp.Intents.History.{
  Operation, move, approve_by, revise, play, is_granted, WasAuthorized, material_frozen,
  approval_is_needed, expired_is_stuck,
}

abbrev script : List (Operation × Time)
script =
    (revise (text "other"), 19)
    ∷ (move approved, 20)
    ∷ (move approval_needed, 21)
    ∷ (approve_by none, 22)
    ∷ (approve_by (some (λ i at. ok tt)), 23)
    ∷ (move ready_for_execution, 24)
    ∷ []

script_test : (play script (at_status created)).status ≡ ready_for_execution
unfolding play transition approve validate revise_draft check_digest digest_bytes text_eq decimal
    len
script_test = refl

material_frozen_example :
    let i = play script (at_status created) in
    (i.status ≢ draft) × (i.params ≡ text "intent-1") × (i.digest ≡ (at_status created).digest)
material_frozen_example = material_frozen script (at_status created) (λ e. cc)

approval_is_needed_example : WasAuthorized script (at_status created)
approval_is_needed_example =
    approval_is_needed script (at_status created) refl (ap is_granted script_test)

expired_is_stuck_example :
    ((s : Status)
      → transition (at_status created) s 100 ≡ ok (at_status cancelled)
      → (at_status cancelled ≡ at_status created) ⊎ (cancelled ≡ expired))
    × ((artifact : Artifact) → approve (at_status created) artifact 100 ≢ ok (at_status cancelled))
expired_is_stuck_example =
    expired_is_stuck (at_status created) 100 {i' = at_status cancelled} (omega arith)

ensure_matches_iff_example :
    (ensure_matches (identity_of (at_status created)) (at_status created) ≡ ok tt
      → new_operation_identity (at_status created) ≡ ok (identity_of (at_status created)))
    × (new_operation_identity (at_status created) ≡ ok (identity_of (at_status created))
        → ensure_matches (identity_of (at_status created)) (at_status created) ≡ ok tt)
ensure_matches_iff_example =
    ensure_matches_iff (identity_of (at_status created)) (at_status created)
