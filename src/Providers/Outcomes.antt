-- ===== src/Providers/Outcomes.antt =====
-- What the runtime may conclude of the outcome of a provider.
use wizpay_mcp.Base.{
  ◌≡◌, ◌≢◌, if◌then◌else◌, Bool, is_zero, inl, inr, refl, ap, sym, ◌∙◌, true, false, [], Text,
  is_empty, Libraries, Result, ok, err, arith,
}
use mathlib.Core.Path.{subst}
use wizpay_mcp.Execution.Types
use wizpay_mcp.Execution.Evidence
use wizpay_mcp.Execution.Evidence.{Observation, new_result}
use wizpay_mcp.Runtime.Ports
use wizpay_mcp.Runtime.Ports.{
  AdapterReply, observed, refused, broken, transient, permanent, VerifierReply, judged, unavailable,
  broken_verifier,
}
use wizpay_mcp.Providers.Reference.{encode, line_of, join}
use wizpay_mcp.Providers.Answers.{IsStatusOf, AdapterAnswer, VerifierAnswer}
use wizpay_mcp.Providers.Classification.{
  valid_reason_code, Classification, pre_submission_validation_failure, user_authorization_required,
  transient_provider_error, permanent_provider_rejection, ambiguous_submission, submitted_pending,
  confirmed_onchain_failed, verified_success, other_class, reconciliation_only, is_terminal,
  is_valid, Outcome, validate, validate_class, params_of, reply_of, adapter_switch,
  verification_switch, adapter_case, verification_case, encoded_reference, adapter_result,
  verification_result,
}

new_result_lem :
    (p : Observation) {r : Observation}
    → new_result p ≡ ok r
    → (Evidence.validate r ≡ ok tt) × (r.status ≡ p.status) × (r.observed_at ≡ p.observed_at)
unfolding new_result
new_result_lem p h = ground arith

module _ ⦃libraries : Libraries⦄ where
  encoded_filled :
      (o : Outcome) {reference : Text}
      → o.has_reference ≡ true
      → encoded_reference o ≡ ok reference
      → is_empty reference ≡ false
  unfolding encoded_reference encode line_of join
  encoded_filled o h e = ground arith

  observed_lem :
      (o : Outcome) (id reference code : Text) (s : Types.Status) (made : Result Observation)
      → encoded_reference o ≡ ok reference
      → reconciliation_only o.class ≡ true
      → IsStatusOf o.class s
      → new_result (params_of o id s reference code) ≡ made
      → AdapterAnswer o id (reply_of made)
  unfolding AdapterAnswer
  observed_lem o id reference code s (ok r) e c of made =
      let (valid, status, at) = new_result_lem _ made in
      (valid, at, c, subst (IsStatusOf o.class) (sym status) of)
  observed_lem o id reference code s (err x) e c of made =
      inr (inr (s, reference, code, e, of, (x, made)))

  adapter_switch_lem :
      (o : Outcome) (id reference : Text) (c : Classification)
      → o.class ≡ c
      → is_valid c ≡ true
      → encoded_reference o ≡ ok reference
      → AdapterAnswer o id (adapter_switch c o id reference)
  unfolding adapter_switch AdapterAnswer reconciliation_only is_terminal is_valid
  adapter_switch_lem o id reference pre_submission_validation_failure k v e =
      (refl, inl (refl, ap reconciliation_only k, ap is_terminal k))
  adapter_switch_lem o id reference permanent_provider_rejection k v e =
      (refl, inl (refl, ap reconciliation_only k, ap is_terminal k))
  adapter_switch_lem o id reference transient_provider_error k v e = (refl, inr (refl, k))
  adapter_switch_lem o id reference user_authorization_required k v e =
      observed_lem o id reference o.reason_code Types.recovery_required _ e
        (ap reconciliation_only k) (inr (inl (inl k, refl))) refl
  adapter_switch_lem o id reference ambiguous_submission k v e =
      observed_lem o id reference o.reason_code Types.recovery_required _ e
        (ap reconciliation_only k) (inr (inl (inr k, refl))) refl
  adapter_switch_lem o id reference submitted_pending k v e =
      observed_lem o id reference [] Types.submitted _ e (ap reconciliation_only k)
        (inr (inr (inl (k, refl)))) refl
  adapter_switch_lem o id reference confirmed_onchain_failed k v e =
      observed_lem o id reference o.reason_code Types.failed _ e (ap reconciliation_only k)
        (inl (k, refl)) refl
  adapter_switch_lem o id reference verified_success k v e =
      observed_lem o id reference [] Types.confirming _ e (ap reconciliation_only k)
        (inr (inr (inr (k, refl)))) refl
  adapter_switch_lem o id reference (other_class t) k v e = absurd (cc)

  class_is_valid : (o : Outcome) → validate o ≡ ok tt → is_valid o.class ≡ true
  unfolding validate
  class_is_valid o v = ground arith

  verified_facts :
      (o : Outcome)
      → o.class ≡ verified_success
      → validate o ≡ ok tt
      → (o.has_reference ≡ true) × (is_zero o.observed_at ≡ false)
  unfolding validate validate_class
  verified_facts o k v = ground arith

  verified_valid :
      (o : Outcome) (reference : Text)
      → is_empty reference ≡ false
      → is_zero o.observed_at ≡ false
      → Ports.validate (record {
        outcome = Ports.verified;
        reference = reference;
        reason_code = [];
        observed_at = o.observed_at;
      })
        ≡ ok tt
  unfolding Ports.validate Ports.validate_outcome
  verified_valid o reference f z = ground arith

  failed_valid :
      (o : Outcome)
      → o.class ≡ confirmed_onchain_failed
      → validate o ≡ ok tt
      → Ports.validate (record {
        outcome = Ports.failed;
        reference = [];
        reason_code = o.reason_code;
        observed_at = o.observed_at;
      })
        ≡ ok tt
  unfolding validate validate_class valid_reason_code Ports.validate Ports.validate_outcome
  failed_valid o k v = ground arith

  dated : (o : Outcome) → validate o ≡ ok tt → is_zero o.observed_at ≡ false
  unfolding validate
  dated o v = ground arith

  pending_valid :
      (o : Outcome) (reference : Text)
      → is_empty reference ≡ false
      → is_zero o.observed_at ≡ false
      → Ports.validate (record {
        outcome = Ports.pending;
        reference = reference;
        reason_code = [];
        observed_at = o.observed_at;
      })
        ≡ ok tt
  unfolding Ports.validate Ports.validate_outcome
  pending_valid o reference f z = ground arith

  emptied : (t : Text) → is_empty t ≡ true → t ≡ []
  emptied t h = ground arith

  pending_answer :
      (o : Outcome) (reference : Text) (is_none : Bool)
      → is_empty reference ≡ is_none
      → o.class ≢ verified_success
      → o.class ≢ confirmed_onchain_failed
      → validate o ≡ ok tt
      → encoded_reference o ≡ ok reference
      → VerifierAnswer o (
          if is_none
          then unavailable
          else judged (record {
            outcome = Ports.pending;
            reference = reference;
            reason_code = [];
            observed_at = o.observed_at;
          }))
  unfolding VerifierAnswer
  pending_answer o reference true h n m v e = inr (e ∙ ap ok (emptied reference h))
  pending_answer o reference false h n m v e =
      (pending_valid o reference h (dated o v), refl, inr (inr (refl, n, m)))

  is_verified :
      (o : Outcome) (reference : Text)
      → o.class ≡ verified_success
      → validate o ≡ ok tt
      → encoded_reference o ≡ ok reference
      → VerifierAnswer o (verification_switch verified_success o reference)
  unfolding VerifierAnswer verification_switch
  is_verified o reference k v e =
      let (referred, dated) = verified_facts o k v in
      (verified_valid o reference (encoded_filled o referred e) dated, refl, inl (refl, k))

  verification_switch_lem :
      (o : Outcome) (reference : Text) (c : Classification)
      → o.class ≡ c
      → validate o ≡ ok tt
      → encoded_reference o ≡ ok reference
      → VerifierAnswer o (verification_switch c o reference)
  unfolding VerifierAnswer verification_switch
  verification_switch_lem o reference verified_success k v e = is_verified o reference k v e
  verification_switch_lem o reference confirmed_onchain_failed k v e =
      (failed_valid o k v, refl, inr (inl (refl, k)))
  verification_switch_lem o reference transient_provider_error k v e = inl k
  verification_switch_lem o reference pre_submission_validation_failure k v e =
      pending_answer o reference (is_empty reference) refl (λ h. cc) (λ h. cc) v e
  verification_switch_lem o reference permanent_provider_rejection k v e =
      pending_answer o reference (is_empty reference) refl (λ h. cc) (λ h. cc) v e
  verification_switch_lem o reference user_authorization_required k v e =
      pending_answer o reference (is_empty reference) refl (λ h. cc) (λ h. cc) v e
  verification_switch_lem o reference ambiguous_submission k v e =
      pending_answer o reference (is_empty reference) refl (λ h. cc) (λ h. cc) v e
  verification_switch_lem o reference submitted_pending k v e =
      pending_answer o reference (is_empty reference) refl (λ h. cc) (λ h. cc) v e
  verification_switch_lem o reference (other_class t) k v e =
      pending_answer o reference (is_empty reference) refl (λ h. cc) (λ h. cc) v e

  adapter_answer :
      (o : Outcome) (id : Text) (v : Result (Unit {0})) (e : Result Text)
      → validate o ≡ v
      → encoded_reference o ≡ e
      → AdapterAnswer o id (adapter_case o id v e)
  unfolding AdapterAnswer
  adapter_answer o id (err x) e v p = inl (x, v)
  adapter_answer o id (ok _) (err x) v p = inr (inl (x, p))
  adapter_answer o id (ok _) (ok reference) v p =
      unfold AdapterAnswer in adapter_switch_lem o id reference o.class refl (class_is_valid o v) p

  verifier_answer :
      (o : Outcome) (v : Result (Unit {0})) (e : Result Text)
      → validate o ≡ v
      → encoded_reference o ≡ e
      → VerifierAnswer o (verification_case o v e)
  unfolding VerifierAnswer
  verifier_answer o (err x) e v p = inl (x, v)
  verifier_answer o (ok _) (err x) v p = inr (x, p)
  verifier_answer o (ok _) (ok reference) v p = verification_switch_lem o reference o.class refl v p

  -- Whatever the outcome of a provider is, AdapterResult returns a valid observation only where
  -- the class is for reconciliation only, with FAILED exactly for CONFIRMED_ONCHAIN_FAILED and
  -- never more than CONFIRMING; a permanent failure only where the class is terminal and not for
  -- reconciliation only; and an error of another kind only where Validate, the encoding or
  -- NewResult refuses. VerificationResult returns only valid results, with VERIFIED exactly for
  -- VERIFIED_SUCCESS and FAILED exactly for CONFIRMED_ONCHAIN_FAILED; it is unavailable only for a
  -- transient error or without a reference; and an error of another kind only where Validate or
  -- the encoding refuses.
  pub outcome_is_answered :
      (o : Outcome) (id : Text)
      → AdapterAnswer o id (adapter_result o id) × VerifierAnswer o (verification_result o)
  unfolding adapter_result verification_result
  outcome_is_answered o id = (
    adapter_answer o id (validate o) (encoded_reference o) refl refl,
    verifier_answer o (validate o) (encoded_reference o) refl refl,
  )
