-- ===== src/Runtime/Verifying.antt =====
-- internal/execution/runtime/service.go: `verify` keeps what its calls keep.
use wizpay_mcp.Base.{
  ◌≡◌, ◌⊎◌, inl, inr, refl, ap, ◌∙◌, Bool, true, false, if◌then◌else◌, Time, Text, Option, none,
  some, [], Error, Platform,
}
use wizpay_mcp.Execution.Types.{
  Status, confirming, confirmed, verified, failed, recovery_required, status_eq,
}
use wizpay_mcp.Execution.Lifecycle
use wizpay_mcp.Execution.Lifecycle.{Execution}
use wizpay_mcp.Runtime.Ports
use wizpay_mcp.Runtime.Ports.{
  Scope, ExecutionClaim, VerificationResult, VerifierReply, judged, unavailable, broken_verifier,
  AuditRecord, Reply, Ports,
}
use wizpay_mcp.Runtime.Service.{report, proceed, persist, reference_observation}
use wizpay_mcp.Runtime.Process.{
  still_pending, verification_failed, record_verified, verification_verified, settle_verification,
  after_verify, verify,
}
use wizpay_mcp.Runtime.Advance.{
  Advance, transition-Advance, fail-Advance, new_result-Describes, new_result_lem,
}
use wizpay_mcp.Runtime.Writes.{Preserves, attempt_keeps, if_keeps, Advance-Accepted, persist_keeps}
use wizpay_mcp.Runtime.Submitting.{persist_failure_keeps, interrupt_keeps}

watched :
    (e : Execution) (s : Status)
    → (e.status ≡ confirming) ⊎ (e.status ≡ confirmed)
    → status_eq confirming s ≡ false
    → status_eq confirmed s ≡ false
    → status_eq e.status s ≡ false
watched e s (inl was) a b = rw was a
watched e s (inr was) a b = rw was b

watched_next :
    (e : Execution)
    → (e.status ≡ confirming) ⊎ (e.status ≡ confirmed)
    → status_eq e.status confirming ≡ true
    → status_eq confirmed e.status ≡ false
watched_next e (inl was) h = rw was refl
watched_next e (inr was) h = absurd (cc (rw was at h))

watched_verified :
    (e : Execution)
    → (e.status ≡ confirming) ⊎ (e.status ≡ confirmed)
    → status_eq verified e.status ≡ false
watched_verified e (inl was) = rw was refl
watched_verified e (inr was) = rw was refl

module _ {W : Type 0} (P : W → Type 0) where
  branch_keeps :
      (b : Bool) (x y : Reply W)
      → (b ≡ true → P x.world)
      → (b ≡ false → P y.world)
      → P (if b then x else y).world
  branch_keeps true x y p q = p refl
  branch_keeps false x y p q = q refl

  report_keeps : (e : Execution) (r : Option Error × W) → P r.1 → P (report e r).world
  unfolding report
  report_keeps e (some problem, w) p = p
  report_keeps e (none, w) p = p

  proceed_keeps :
      (problem : Option Error) (reply : Reply W) (e : Execution) (rest : Execution → W → Reply W)
      → reply.problem ≡ problem
      → P reply.world
      → (reply.problem ≡ none → P (rest reply.value reply.world).world)
      → P (proceed problem reply e rest).world
  unfolding proceed
  proceed_keeps (some problem) reply e rest h p k = p
  proceed_keeps none reply e rest h p k = k h

module _ ⦃platform : Platform⦄ {W : Type 0} (ports : Ports W) {P : W → Type 0}
    (keeps : Preserves ports P) where
  still_pending_keeps :
      (claim : ExecutionClaim) (e : Execution) (reference : Text) (r : VerificationResult) (w : W)
      → P w
      → P (still_pending ports claim e reference r w).world
  unfolding still_pending
  still_pending_keeps claim e reference r w p =
      if_keeps P _ _ _
        (attempt_keeps P _ e w _ p λ o _.
          report_keeps P e (ports.append_verification_evidence claim.scope o w)
            (keeps.append claim.scope o w p))
        p

  verification_failed_keeps :
      (claim : ExecutionClaim) (e : Execution) (r : VerificationResult) (at : Time) (w : W)
      → claim.execution ≡ e
      → status_eq e.status failed ≡ false
      → P w
      → P (verification_failed ports claim e r at w).world
  unfolding verification_failed
  verification_failed_keeps claim e r at w same new p =
      attempt_keeps P (Lifecycle.fail e _ at) e w _ p λ next h. attempt_keeps P _ e w _ p λ o _.
        persist_failure_keeps ports keeps claim e next o at _ w same ((fail-Advance e _ at new h).0)
          p

  record_verified_keeps :
      (claim : ExecutionClaim) (r : VerificationResult) (e asked : Execution) (reference : Text)
      (at : Time) (w before after : W)
      → claim.execution ≡ e
      → status_eq verified e.status ≡ false
      → e.request ≡ asked.request
      → ports.verify asked reference before ≡ (judged r, after)
      → r.outcome ≡ Ports.verified
      → P w
      → P (record_verified ports claim r at e w).world
  unfolding record_verified reference_observation
  record_verified_keeps claim r e asked reference at w before after same new request answer good p =
      attempt_keeps P (Lifecycle.transition e verified at) e w _ p λ next h.
        attempt_keeps P _ e w _ p λ o made.
          let (a, st) = transition-Advance e verified at new h in
          let (_, _, _, status, kept) = new_result_lem _ made in
          keeps.evidence claim o next e.revision _ at w
            (Advance-Accepted ports keeps claim e next at [] same a)
            (new_result-Describes _ next a.valid refl refl made) st status
            (record {
              asked = asked;
              reference = reference;
              before = before;
              after = after;
              result = r;
              answer = answer;
              is_verified = good;
              same_request = ap (λ (x : Execution). x.request) same ∙ request;
              same_reference = kept;
            })
            p

  persist_returns :
      (claim : ExecutionClaim) (e next : Execution) (at : Time) (w : W)
      → (persist ports claim e next at [] w).problem ≡ none
      → (persist ports claim e next at [] w).value ≡ next
  unfolding persist
  persist_returns claim e next at w stored =
      keeps.update_returns claim next e.revision _ at w stored

  after_confirmed_keeps :
      (claim : ExecutionClaim) (r : VerificationResult) (e next : Execution) (reference : Text)
      (at : Time) (w before : W)
      → claim.execution ≡ e
      → Advance at e next
      → next.status ≡ confirmed
      → ports.verify e reference before ≡ (judged r, w)
      → r.outcome ≡ Ports.verified
      → P w
      → (persist ports claim e next at [] w).problem ≡ none
      → P
          (record_verified ports
            (record claim { execution = (persist ports claim e next at [] w).value })
            r
            at
            (persist ports claim e next at [] w).value
            (persist ports claim e next at [] w).world).world
  after_confirmed_keeps claim r e next reference at w before same a st answer good p stored =
      let returned = persist_returns claim e next at w stored in
      record_verified_keeps
        (record claim { execution = (persist ports claim e next at [] w).value }) r _ e reference at
        _ before w refl (rw (returned, st) refl)
        (ap (λ (x : Execution). x.request) returned ∙ a.same_request) answer good
        (persist_keeps ports keeps claim e next at [] w same a p)

  verification_verified_keeps :
      (claim : ExecutionClaim) (r : VerificationResult) (e : Execution) (reference : Text)
      (at : Time) (w before : W)
      → claim.execution ≡ e
      → (e.status ≡ confirming) ⊎ (e.status ≡ confirmed)
      → ports.verify e reference before ≡ (judged r, w)
      → r.outcome ≡ Ports.verified
      → P w
      → P (verification_verified ports claim e r at w).world
  unfolding verification_verified
  verification_verified_keeps claim r e reference at w before same was answer good p =
      branch_keeps P _ _ _
        (λ first. attempt_keeps P (Lifecycle.transition e confirmed at) e w _ p λ next h.
          let (a, st) = transition-Advance e confirmed at (watched_next e was first) h in
          proceed_keeps P _ _ e _ refl (persist_keeps ports keeps claim e next at [] w same a p)
            (after_confirmed_keeps claim r e next reference at w before same a st answer good p))
        (λ _.
          record_verified_keeps claim r e e reference at w before w same (watched_verified e was)
            refl answer good p)

  settle_verification_keeps :
      (o : Ports.VerificationOutcome) (claim : ExecutionClaim) (r : VerificationResult)
      (e : Execution) (reference : Text) (at : Time) (w before : W)
      → r.outcome ≡ o
      → claim.execution ≡ e
      → (e.status ≡ confirming) ⊎ (e.status ≡ confirmed)
      → ports.verify e reference before ≡ (judged r, w)
      → P w
      → P (settle_verification ports o claim e reference r at w).world
  unfolding settle_verification
  settle_verification_keeps Ports.pending claim r e reference at w before good same was answer p =
      still_pending_keeps claim e reference r w p
  settle_verification_keeps Ports.failed claim r e reference at w before good same was answer p =
      verification_failed_keeps claim e r at w same (watched e failed was refl refl) p
  settle_verification_keeps Ports.verified claim r e reference at w before good same was answer p =
      verification_verified_keeps claim r e reference at w before same was answer good p
  settle_verification_keeps (Ports.unknown_outcome n) claim r e reference at w before good same was
        answer p =
      p

  after_verify_keeps :
      (claim : ExecutionClaim) (e : Execution) (reference : Text) (at : Time) (before : W)
      (answer : VerifierReply × W)
      → ports.verify e reference before ≡ answer
      → claim.execution ≡ e
      → (e.status ≡ confirming) ⊎ (e.status ≡ confirmed)
      → P before
      → P (after_verify ports claim e reference at answer).world
  unfolding after_verify
  after_verify_keeps claim e reference at before (judged r, w) h same was p =
      let p' : P w = rw (ap (λ x. x.1) h) at (keeps.verify e reference before p) in
      attempt_keeps P _ e w _ p' λ _ _.
        settle_verification_keeps r.outcome claim r e reference at w before refl same was h p'
  after_verify_keeps claim e reference at before (unavailable, w) h same was p =
      rw (ap (λ x. x.1) h) at (keeps.verify e reference before p)
  after_verify_keeps claim e reference at before (broken_verifier, w) h same was p =
      interrupt_keeps ports keeps claim e _ at w same (watched e recovery_required was refl refl)
        (rw (ap (λ x. x.1) h) at (keeps.verify e reference before p))

  pub verify_keeps :
      (claim : ExecutionClaim) (e : Execution) (at : Time) (w : W)
      → claim.execution ≡ e
      → (e.status ≡ confirming) ⊎ (e.status ≡ confirmed)
      → P w
      → P (verify ports claim e at w).world
  unfolding verify
  verify_keeps claim e at w same was p =
      let p' = keeps.find claim.scope e.request.execution_id w p in
      attempt_keeps P _ e _ _ p'
        λ reference _. after_verify_keeps claim e reference at _ _ refl same was p'
