-- ===== src/Runtime/Submission.antt =====
-- internal/execution/runtime: a request for one execution is sent at most once.
use wizpay_mcp.Base.{
  ℕ, ◌+◌, ◌≤◌, ◌≡◌, refl, sym, ap, ◌∙◌, Bool, true, false, Bool-cases, Time, Text, text_eq, none,
  List, [], ◌∷◌, ok, Platform, arith, inl, inr,
}
use wizpay_mcp.Execution.Request.{Request}
use wizpay_mcp.Execution.Evidence.{Observation}
use wizpay_mcp.Execution.Lifecycle.{Execution}
use wizpay_mcp.Runtime.Ports.{Scope, ExecutionClaim, AuditRecord, Ports}
use wizpay_mcp.Runtime.Service.{Config}
use wizpay_mcp.Runtime.Process.{process_claim, process}
use wizpay_mcp.Runtime.Writes.{Preserves}
use wizpay_mcp.Runtime.Preserved.{process_claim_keeps, process_keeps}

-- What a worker may do with the service: `Process` an execution by its identifier, or
-- `ProcessClaim` any claim it holds, be it fresh or stale.
pub data Call : Type 0 where
  by_id : Config → Scope → Text → Time → Call
  by_claim : ExecutionClaim → Time → Call

module _ ⦃platform : Platform⦄ {W : Type 0} (ports : Ports W) where
  unfoldable pub run_calls : List Call → W → W
  run_calls [] w = w
  run_calls (by_id config scope id at ∷ calls) w =
      run_calls calls (process ports config scope id at w).world
  run_calls (by_claim claim at ∷ calls) w = run_calls calls (process_claim ports claim at w).world

  module _ (id : Text) (started : W → Bool) (sent : W → ℕ) where
    abbrev pub Quiet : W → W → Type 0
    Quiet w w' = (started w' ≡ started w) × (sent w' ≡ sent w)

    -- What the database and the provider do for one execution, `id`: its flag, of the row of
    -- execution_runtime_work, is set by a mark that finds it clear, and by nothing else; one call
    -- of `Execute` for it sends at most one request, and nothing else sends any.
    pub record Ledger : Type 0 where
      pub update :
          (c : ExecutionClaim) (next : Execution) (n : ℕ) (a : AuditRecord) (at : Time) (w : W)
          → Quiet w (ports.update_claimed_execution c next n a at w).world
      pub update_returns :
          (c : ExecutionClaim) (next : Execution) (n : ℕ) (a : AuditRecord) (at : Time) (w : W)
          → (ports.update_claimed_execution c next n a at w).problem ≡ none
          → (ports.update_claimed_execution c next n a at w).value ≡ next
      pub observation :
          (c : ExecutionClaim) (o : Observation) (next : Execution) (n : ℕ) (a : AuditRecord)
          (at : Time) (w : W)
          → Quiet w (ports.persist_claimed_observation c o next n a at w).world
      pub evidence :
          (c : ExecutionClaim) (o : Observation) (next : Execution) (n : ℕ) (a : AuditRecord)
          (at : Time) (w : W)
          → Quiet w (ports.persist_claimed_evidence c o next n a at w).world
      pub append :
          (s : Scope) (o : Observation) (w : W)
          → Quiet w (ports.append_verification_evidence s o w).1
      pub find :
          (s : Scope) (key : Text) (w : W) → Quiet w (ports.find_verification_evidence s key w).1
      pub find_execution :
          (s : Scope) (key : Text) (w : W) → Quiet w (ports.find_execution_by_id s key w).world
      pub claim_work :
          (s : Scope) (key worker : Text) (at : Time) (d : ℕ) (w : W)
          → Quiet w (ports.claim_execution_work s key worker at d w).1
      pub release_work :
          (c : ExecutionClaim) (at : Time) (w : W) → Quiet w (ports.release_execution_work c at w).1
      pub status : (key : Text) (w : W) → Quiet w (ports.get_status key w).1
      pub verify : (e : Execution) (r : Text) (w : W) → Quiet w (ports.verify e r w).1
      pub mark :
          (c : ExecutionClaim) (at : Time) (w : W)
          → (sent (ports.mark_submission_started c at w).1 ≡ sent w)
            × (started w ≡ true → started (ports.mark_submission_started c at w).1 ≡ true)
      pub mark_keeps :
          (c marked : ExecutionClaim) (b : Bool) (at : Time) (w w' : W)
          → ports.mark_submission_started c at w ≡ (ok (marked, b), w')
          → marked.execution ≡ c.execution
      pub mark_first :
          (c marked : ExecutionClaim) (at : Time) (w w' : W)
          → text_eq c.execution.request.execution_id id ≡ true
          → ports.mark_submission_started c at w ≡ (ok (marked, true), w')
          → (started w ≡ false) × (started w' ≡ true)
      pub execute_here :
          (r : Request) (w : W)
          → text_eq r.execution_id id ≡ true
          → (started (ports.execute r w).1 ≡ started w) × (sent (ports.execute r w).1 ≤ sent w + 1)
      pub execute_elsewhere :
          (r : Request) (w : W) → text_eq r.execution_id id ≡ false → Quiet w (ports.execute r w).1

    -- At most one request was sent, and none while the flag is clear.
    abbrev Once : W → Type 0
    Once w = (sent w ≤ 1) × (started w ≡ false → sent w ≡ 0)

    Quiet-Once : {w w' : W} → Quiet w w' → Once w → Once w'
    Quiet-Once q p = (rw (q.1) (p.0), λ clear. q.1 ∙ p.1 (sym (q.0) ∙ clear))

    unset_before :
        (before after : Bool) → (before ≡ true → after ≡ true) → after ≡ false → before ≡ false
    unset_before true after k h = absurd (cc (k refl, h))
    unset_before false after k h = refl

    module _ (ledger : Ledger) where
      marked_Once :
          (c : ExecutionClaim) (at : Time) (w : W)
          → Once w
          → Once (ports.mark_submission_started c at w).1
      marked_Once c at w p =
          let (same, kept) = ledger.mark c at w in
          (rw same (p.0), λ clear. same ∙ p.1 (unset_before (started w) _ kept clear))

      executed_Once :
          (c marked : ExecutionClaim) (at : Time) (w w' : W)
          → ports.mark_submission_started c at w ≡ (ok (marked, true), w')
          → Once w
          → Once (ports.execute c.execution.request w').1
      executed_Once c marked at w w' h p =
          elim (Bool-cases (text_eq c.execution.request.execution_id id)) [
            | inl here ↦
                let (clear, set) = ledger.mark_first c marked at w w' here h in
                let (same, more) = ledger.execute_here c.execution.request w' here in
                let kept : sent w' ≡ sent w = rw (ap (λ x. x.1) h) at ((ledger.mark c at w).0) in
                let none_yet : sent w' ≡ 0 = kept ∙ p.1 clear in
                (omega arith, λ f. absurd (cc (same, set, f)))
            | inr away ↦
                Quiet-Once (ledger.execute_elsewhere c.execution.request w' away)
                  (rw (ap (λ x. x.1) h) at (marked_Once c at w p))
          ]

      Once-Preserves : Preserves ports Once
      Once-Preserves = record {
        update = λ c next n a at w _ p. Quiet-Once (ledger.update c next n a at w) p;
        update_returns = ledger.update_returns;
        observation =
            λ c o next n a at w _ _ p. Quiet-Once (ledger.observation c o next n a at w) p;
        evidence =
            λ c o next n a at w _ _ _ _ _ p. Quiet-Once (ledger.evidence c o next n a at w) p;
        append = λ s o w p. Quiet-Once (ledger.append s o w) p;
        find = λ s key w p. Quiet-Once (ledger.find s key w) p;
        find_execution = λ s key w p. Quiet-Once (ledger.find_execution s key w) p;
        claim_work = λ s key worker at d w p. Quiet-Once (ledger.claim_work s key worker at d w) p;
        release_work = λ c at w p. Quiet-Once (ledger.release_work c at w) p;
        mark = marked_Once;
        mark_keeps = ledger.mark_keeps;
        status = λ key w p. Quiet-Once (ledger.status key w) p;
        verify = λ e r w p. Quiet-Once (ledger.verify e r w) p;
        execute = executed_Once;
      }

      run_calls-Once : (calls : List Call) (w : W) → Once w → Once (run_calls calls w)
      unfolding run_calls
      run_calls-Once [] w p = p
      run_calls-Once (by_id config scope key at ∷ calls) w p =
          run_calls-Once calls _ (process_keeps ports Once-Preserves config scope key at w p)
      run_calls-Once (by_claim claim at ∷ calls) w p =
          run_calls-Once calls _ (process_claim_keeps ports Once-Preserves claim at w p)

      -- Over a database that sets the flag of one execution at a mark that finds it clear and
      -- nowhere else, and a provider that sends at most one request per call of Execute for it,
      -- any sequence of Process and ProcessClaim calls, on any claims, at any instants and with
      -- any answers, sends at most one request for the execution, if none was sent before.
      pub at_most_once : (calls : List Call) (w : W) → sent w ≡ 0 → sent (run_calls calls w) ≤ 1
      at_most_once calls w start = (run_calls-Once calls w (omega (arith, start), λ _. start)).0
