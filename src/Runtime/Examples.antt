-- ===== src/Runtime/Examples.antt =====
-- A small database and a provider that loses every answer, and the theorems applied to them.
use wizpay_mcp.Base.{
  ◌+◌, ◌≤◌, ◌≡◌, refl, Bool, true, false, List, [], ◌∷◌, text, text_eq, none, ℕ, ok, Result,
  if◌then◌else◌, arith,
}
use wizpay_mcp.Execution.Types.{executing}
use wizpay_mcp.Execution.Request.{Request}
use wizpay_mcp.Execution.Lifecycle.{Execution, validate}
use wizpay_mcp.Execution.Samples.{demo_platform, request, at_status, request_validates}
use wizpay_mcp.Runtime.Ports.{
  Scope, ExecutionClaim, AdapterReply, broken, unavailable, Reply, Ports,
}
use wizpay_mcp.Runtime.Service.{Config}
use wizpay_mcp.Runtime.Process.{process, process_claim}
use wizpay_mcp.Runtime.Writes.{Preserves}
use wizpay_mcp.Runtime.Preserved.{process_keeps}
use wizpay_mcp.Runtime.Submission.{Call, by_id, by_claim, run_calls, Ledger, at_most_once}
use wizpay_mcp.Runtime.Reconcile.{started_sends_nothing}

-- One row of executions and of execution_runtime_work, and the requests that left.
record World : Type 0 where
  started : Bool
  sent : ℕ
  stored : Execution

abbrev scope : Scope
scope = record { tenant_id = text "t"; actor_id = text "a"; request_id = text "r"; trace_id = [] }

abbrev config : Config
config = record { worker_id = text "worker-1"; lease_duration = 1000; retry_interval = 10 }

abbrev claim_of : World → ExecutionClaim
claim_of w = record {
  scope = scope;
  execution = w.stored;
  lease_owner = text "worker-1";
  fencing_token = 1;
  lease_expires_at = 1000;
  submission_started = w.started;
}

abbrev keep : Execution → World → Reply World
keep e w = record { value = e; problem = none; world = record w { stored = e } }

abbrev try_mark : ExecutionClaim → World → Result (ExecutionClaim × Bool) × World
try_mark c w =
    if w.started
    then (ok (c, false), w)
    else (ok (record c { submission_started = true }, true), record w { started = true })

abbrev send : Request → World → AdapterReply × World
send r w =
    if text_eq r.execution_id request.execution_id
    then (broken, record w { sent = w.sent + 1 })
    else (broken, w)

abbrev demo_ports : Ports World
demo_ports = record {
  create_execution = λ s e w. (ok e, w);
  claim_execution_work = λ s id worker at d w. (ok (claim_of w, true), w);
  find_execution_by_id = λ s id w. keep w.stored w;
  mark_submission_started = λ c at w. try_mark c w;
  update_claimed_execution = λ c next n a at w. keep next w;
  persist_claimed_observation = λ c o next n a at w. keep next w;
  persist_claimed_evidence = λ c o next n a at w. keep next w;
  release_execution_work = λ c at w. (none, w);
  append_verification_evidence = λ s o w. (none, w);
  find_verification_evidence = λ s id w. (ok [], w);
  execute = send;
  get_status = λ id w. (broken, w);
  verify = λ e r w. (unavailable, w);
}

abbrev start : World
start = record { started = false; sent = 0; stored = at_status executing }

send_here :
    (r : Request) (w : World)
    → text_eq r.execution_id request.execution_id ≡ true
    → ((send r w).1.started ≡ w.started) × ((send r w).1.sent ≤ w.sent + 1)
send_here r w h = ground (arith, h)

send_elsewhere :
    (r : Request) (w : World)
    → text_eq r.execution_id request.execution_id ≡ false
    → ((send r w).1.started ≡ w.started) × ((send r w).1.sent ≡ w.sent)
send_elsewhere r w h = ground (arith, h)

mark_kept :
    (c : ExecutionClaim) (w : World)
    → ((try_mark c w).1.sent ≡ w.sent)
      × ((try_mark c w).1.stored ≡ w.stored)
      × (w.started ≡ true → (try_mark c w).1.started ≡ true)
mark_kept c w = ground arith

mark_reply :
    (c marked : ExecutionClaim) (b : Bool) (w w' : World)
    → try_mark c w ≡ (ok (marked, b), w')
    → (marked.execution ≡ c.execution) × (w'.stored ≡ w.stored)
mark_reply c marked b w w' h = ground arith

mark_won :
    (c marked : ExecutionClaim) (w w' : World)
    → try_mark c w ≡ (ok (marked, true), w')
    → (w.started ≡ false) × (w'.started ≡ true)
mark_won c marked w w' h = ground arith

send_stored : (r : Request) (w : World) → (send r w).1.stored ≡ w.stored
send_stored r w = ground arith

demo_Ledger : Ledger demo_ports request.execution_id (λ w. w.started) (λ w. w.sent)
demo_Ledger = record {
  update = λ c next n a at w. (refl, refl);
  update_returns = λ c next n a at w _. refl;
  observation = λ c o next n a at w. (refl, refl);
  evidence = λ c o next n a at w. (refl, refl);
  append = λ s o w. (refl, refl);
  find = λ s id w. (refl, refl);
  find_execution = λ s id w. (refl, refl);
  claim_work = λ s id worker at d w. (refl, refl);
  release_work = λ c at w. (refl, refl);
  status = λ id w. (refl, refl);
  verify = λ e r w. (refl, refl);
  mark = λ c at w. let (same, _, kept) = mark_kept c w in (same, kept);
  mark_keeps = λ c marked b at w w' h. (mark_reply c marked b w w' h).0;
  mark_first = λ c marked at w w' here h. mark_won c marked w w' h;
  execute_here = send_here;
  execute_elsewhere = send_elsewhere;
}

abbrev calls : List Call
calls =
    by_id config scope (text "any") 30
    ∷ by_claim (claim_of start) 31
    ∷ by_id config scope (text "any") 32
    ∷ []

at_most_once_example : (run_calls demo_ports calls start).sent ≤ 1
at_most_once_example =
    at_most_once demo_ports request.execution_id (λ w. w.started) (λ w. w.sent) demo_Ledger calls
      start refl

abbrev begun : ExecutionClaim
begun = record (claim_of start) { submission_started = true }

started_sends_nothing_example :
    process_claim demo_ports begun 30 start
    ≡ process_claim (record demo_ports { execute = λ r w. (broken, w) }) begun 30 start
started_sends_nothing_example =
    started_sends_nothing demo_ports (λ r w. (broken, w)) begun 30 start refl

abbrev IsSound : World → Type 0
IsSound w = validate w.stored ≡ ok tt

IsSound-Preserves : Preserves demo_ports IsSound
IsSound-Preserves = record {
  update = λ c next n a at w ok_write p. ok_write.advance.valid;
  update_returns = λ c next n a at w _. refl;
  observation = λ c o next n a at w ok_write _ p. ok_write.advance.valid;
  evidence = λ c o next n a at w ok_write _ _ _ _ p. ok_write.advance.valid;
  append = λ s o w p. p;
  find = λ s id w p. p;
  find_execution = λ s id w p. p;
  claim_work = λ s id worker at d w p. p;
  release_work = λ c at w p. p;
  mark = λ c at w p. rw (mark_kept c w).1 p;
  mark_keeps = demo_Ledger.mark_keeps;
  status = λ id w p. p;
  verify = λ e r w p. p;
  execute = λ c marked at w w' h p.
      rw (send_stored c.execution.request w', (mark_reply c marked true w w' h).1) p;
}

start-IsSound : IsSound start
unfolding validate
start-IsSound = rw request_validates

process_keeps_example : IsSound (process demo_ports config scope (text "any") 30 start).world
process_keeps_example =
    process_keeps demo_ports IsSound-Preserves config scope (text "any") 30 start start-IsSound
