-- ===== src/Providers/Answers.antt =====
-- What the answers to the runtime say of the outcome of a provider.
use wizpay_mcp.Base.{◌≡◌, ◌≢◌, ◌⊎◌, true, false, [], Text, Libraries, Result, ok, err, Error}
use wizpay_mcp.Execution.Types
use wizpay_mcp.Execution.Evidence
use wizpay_mcp.Execution.Evidence.{Observation, new_result}
use wizpay_mcp.Runtime.Ports
use wizpay_mcp.Runtime.Ports.{
  AdapterReply, observed, refused, broken, transient, permanent, VerifierReply, judged, unavailable,
  broken_verifier,
}
use wizpay_mcp.Providers.Classification.{
  Classification, user_authorization_required, transient_provider_error, ambiguous_submission,
  submitted_pending, confirmed_onchain_failed, verified_success, reconciliation_only, is_terminal,
  Outcome, validate, params_of, encoded_reference,
}

abbrev pub Fails : {A : Type 0} → Result A → Type 0
Fails r = (e : Error) × (r ≡ err e)

-- The status that is reported for the class.
abbrev pub IsStatusOf : Classification → Types.Status → Type 0
IsStatusOf c s =
    ((c ≡ confirmed_onchain_failed) × (s ≡ Types.failed))
    ⊎ (((c ≡ user_authorization_required) ⊎ (c ≡ ambiguous_submission))
        × (s ≡ Types.recovery_required))
    ⊎ ((c ≡ submitted_pending) × (s ≡ Types.submitted))
    ⊎ ((c ≡ verified_success) × (s ≡ Types.confirming))

module _ ⦃libraries : Libraries⦄ where
  -- The parameters of an observation are refused.
  abbrev pub IsRefused : Outcome → Text → Type 0
  IsRefused o id =
      (s : Types.Status) × (reference : Text) × (code : Text) × (encoded_reference o ≡ ok reference)
      × IsStatusOf o.class s
      × Fails (new_result (params_of o id s reference code))

  -- What the answer of an adapter says of the outcome.
  unfoldable pub AdapterAnswer : Outcome → Text → AdapterReply → Type 0
  AdapterAnswer o id (observed r) =
      (Evidence.validate r ≡ ok tt)
      × (r.observed_at ≡ o.observed_at)
      × (reconciliation_only o.class ≡ true)
      × IsStatusOf o.class r.status
  AdapterAnswer o id (refused e) =
      (e.reason_code ≡ o.reason_code)
      × ((e.kind ≡ permanent) × (reconciliation_only o.class ≡ false) × (is_terminal o.class ≡ true)
          ⊎ (e.kind ≡ transient) × (o.class ≡ transient_provider_error))
  AdapterAnswer o id broken = Fails (validate o) ⊎ Fails (encoded_reference o) ⊎ IsRefused o id

  -- What the answer of a verifier says of the outcome.
  unfoldable pub VerifierAnswer : Outcome → VerifierReply → Type 0
  VerifierAnswer o (judged v) =
      (Ports.validate v ≡ ok tt)
      × (v.observed_at ≡ o.observed_at)
      × (((v.outcome ≡ Ports.verified) × (o.class ≡ verified_success))
          ⊎ ((v.outcome ≡ Ports.failed) × (o.class ≡ confirmed_onchain_failed))
          ⊎ ((v.outcome ≡ Ports.pending)
              × (o.class ≢ verified_success)
              × (o.class ≢ confirmed_onchain_failed)))
  VerifierAnswer o unavailable =
      (o.class ≡ transient_provider_error) ⊎ (encoded_reference o ≡ ok [])
  VerifierAnswer o broken_verifier = Fails (validate o) ⊎ Fails (encoded_reference o)
