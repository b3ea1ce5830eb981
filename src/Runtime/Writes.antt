-- ===== src/Runtime/Writes.antt =====
-- What the calls of the service have in common: a property of the world that every accepted write
-- and every answer keeps is kept by the whole service.
use wizpay_mcp.Base.{
  ℕ, ◌≡◌, refl, sym, Bool, true, false, if◌then◌else◌, Time, Text, trim_space, none, Result, ok,
  err, Platform, [],
}
use wizpay_mcp.Execution.Types.{Status, verified, status_eq}
use wizpay_mcp.Execution.Evidence.{Observation}
use wizpay_mcp.Execution.Lifecycle
use wizpay_mcp.Execution.Lifecycle.{Execution}
use wizpay_mcp.Runtime.Ports
use wizpay_mcp.Runtime.Ports.{
  Scope, ExecutionClaim, VerificationResult, AdapterError, AdapterReply, observed, refused, broken,
  VerifierReply, judged, unavailable, broken_verifier, AuditRecord, Reply, Ports,
}
use wizpay_mcp.Runtime.Service.{audit_record, attempt, persist, transition}
use wizpay_mcp.Runtime.Advance.{
  Advance, Describes, validate_runtime_audit, Advance-validate_runtime_audit, transition-Advance,
}

module _ ⦃platform : Platform⦄ where
  -- A write that the storage's checks accept: it advances the execution that the claim holds, is
  -- guarded by its revision, and its audit record tells of that advance.
  pub record Accepted (claim : ExecutionClaim) (next : Execution) (expected : ℕ)
      (audit : AuditRecord) (at : Time) : Type 0 where
    pub advance : Advance at claim.execution next
    pub guarded : expected ≡ claim.execution.revision
    pub audited : validate_runtime_audit claim next audit ≡ ok tt

  -- The verifier answered VERIFIED for the claimed request, with the reference of the evidence.
  pub record Attested {W : Type 0} (ports : Ports W) (claim : ExecutionClaim)
      (evidence : Observation) : Type 0 where
    pub asked : Execution
    pub reference : Text
    pub before : W
    pub after : W
    pub result : VerificationResult
    pub answer : ports.verify asked reference before ≡ (judged result, after)
    pub is_verified : result.outcome ≡ Ports.verified
    pub same_request : claim.execution.request ≡ asked.request
    pub same_reference : evidence.adapter_reference ≡ trim_space result.reference

  -- Every call keeps `P`, given what the service guarantees of its arguments. A successful update
  -- returns what it was given, and a mark keeps the claimed execution.
  pub record Preserves {W : Type 0} (ports : Ports W) (P : W → Type 0) : Type 0 where
    pub update :
        (c : ExecutionClaim) (next : Execution) (n : ℕ) (a : AuditRecord) (at : Time) (w : W)
        → Accepted c next n a at
        → P w
        → P (ports.update_claimed_execution c next n a at w).world
    pub update_returns :
        (c : ExecutionClaim) (next : Execution) (n : ℕ) (a : AuditRecord) (at : Time) (w : W)
        → (ports.update_claimed_execution c next n a at w).problem ≡ none
        → (ports.update_claimed_execution c next n a at w).value ≡ next
    pub observation :
        (c : ExecutionClaim) (o : Observation) (next : Execution) (n : ℕ) (a : AuditRecord)
        (at : Time) (w : W)
        → Accepted c next n a at
        → Describes o next
        → P w
        → P (ports.persist_claimed_observation c o next n a at w).world
    pub evidence :
        (c : ExecutionClaim) (o : Observation) (next : Execution) (n : ℕ) (a : AuditRecord)
        (at : Time) (w : W)
        → Accepted c next n a at
        → Describes o next
        → next.status ≡ verified
        → o.status ≡ verified
        → Attested ports c o
        → P w
        → P (ports.persist_claimed_evidence c o next n a at w).world
    pub append :
        (s : Scope) (o : Observation) (w : W) → P w → P (ports.append_verification_evidence s o w).1
    pub find : (s : Scope) (id : Text) (w : W) → P w → P (ports.find_verification_evidence s id w).1
    pub find_execution :
        (s : Scope) (id : Text) (w : W) → P w → P (ports.find_execution_by_id s id w).world
    pub claim_work :
        (s : Scope) (id worker : Text) (at : Time) (d : ℕ) (w : W)
        → P w
        → P (ports.claim_execution_work s id worker at d w).1
    pub release_work :
        (c : ExecutionClaim) (at : Time) (w : W) → P w → P (ports.release_execution_work c at w).1
    pub mark :
        (c : ExecutionClaim) (at : Time) (w : W) → P w → P (ports.mark_submission_started c at w).1
    pub mark_keeps :
        (c marked : ExecutionClaim) (b : Bool) (at : Time) (w w' : W)
        → ports.mark_submission_started c at w ≡ (ok (marked, b), w')
        → marked.execution ≡ c.execution
    pub status : (id : Text) (w : W) → P w → P (ports.get_status id w).1
    pub verify : (e : Execution) (r : Text) (w : W) → P w → P (ports.verify e r w).1
    -- A request leaves only right after a mark that reports it started.
    pub execute :
        (c marked : ExecutionClaim) (at : Time) (w w' : W)
        → ports.mark_submission_started c at w ≡ (ok (marked, true), w')
        → P w
        → P (ports.execute c.execution.request w').1

module _ {W : Type 0} (P : W → Type 0) where
  pub attempt_keeps {ℓ} :
      {A : Type ℓ} (r : Result A) (e : Execution) (w : W) (rest : A → Reply W)
      → P w
      → ((x : A) → r ≡ ok x → P (rest x).world)
      → P (attempt r e w rest).world
  unfolding attempt
  attempt_keeps (ok x) e w rest p k = k x refl
  attempt_keeps (err problem) e w rest p k = p

  pub if_keeps : (b : Bool) (x y : Reply W) → P x.world → P y.world → P (if b then x else y).world
  if_keeps true x y p q = p
  if_keeps false x y p q = q

module _ ⦃platform : Platform⦄ {W : Type 0} (ports : Ports W) {P : W → Type 0}
    (keeps : Preserves ports P) where
  pub Advance-Accepted :
      (claim : ExecutionClaim) (e next : Execution) (at : Time) (reason : Text)
      → claim.execution ≡ e
      → Advance at e next
      → Accepted claim next e.revision (audit_record e next at reason) at
  Advance-Accepted claim e next at reason same a = rw (sym same) (record {
    advance = rw same a;
    guarded = refl;
    audited = Advance-validate_runtime_audit claim next at reason (rw same a);
  })

  pub persist_keeps :
      (claim : ExecutionClaim) (e next : Execution) (at : Time) (reason : Text) (w : W)
      → claim.execution ≡ e
      → Advance at e next
      → P w
      → P (persist ports claim e next at reason w).world
  unfolding persist
  persist_keeps claim e next at reason w same a p =
      keeps.update claim next e.revision _ at w (Advance-Accepted claim e next at reason same a) p

  pub transition_keeps :
      (claim : ExecutionClaim) (e : Execution) (s : Status) (at : Time) (w : W)
      → claim.execution ≡ e
      → status_eq s e.status ≡ false
      → P w
      → P (transition ports claim e s at w).world
  unfolding transition
  transition_keeps claim e s at w same new p =
      attempt_keeps P (Lifecycle.transition e s at) e w _ p
        λ next h. persist_keeps claim e next at [] w same ((transition-Advance e s at new h).0) p
