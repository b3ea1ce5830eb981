-- ===== src/Lib.antt =====
-- wizpay-mcp: intents, approvals and executions of payments behind an MCP server.
--
-- An intent is what a user wants paid (internal/intents). It is drafted, frozen under a digest, and
-- waits for an approval (internal/approvals), which is bound to that intent, its digest and its
-- wallet, and which is consumed by one operation. Its owner is an identity (internal/auth) with a
-- wallet binding (internal/wallet). A policy (internal/policies) is evaluated over the intent, before
-- the approval and again before the execution. An execution (internal/execution) is made for the
-- operation; a worker (internal/execution/runtime) claims it, submits it to a provider once, and
-- follows it until a verifier confirms it. Calls of a provider pass a circuit breaker
-- (internal/providers/circuit). Unattended payments are made under grants, whose caps a ledger
-- keeps (internal/autonomy). Here each of these packages is a group of modules:
--
--   Base        what the code takes from Go: strings as lists of code points (Base/Texts), errors
--               and pairs of a value and an error as `Result` (Base/Outcome, internal/errors), the
--               field checks that packages repeat (Base/Fields), `math/big` (Base/BigInt), sorted
--               strings and the binary search (Base/Order, with its laws in Base/Search),
--               digests and time formats as the functions of a record `Platform`, go-ethereum's
--               test of addresses and Go's table of lower-case letters as those of `Libraries`
--               (Base/Host), and the printing of numbers (Base/Decimal).
--   Intents     intent.go, lifecycle.go, restore.go and idempotency.go of internal/intents.
--               `Material` (Intents/Material) is the interface to the parameters of an intent: what
--               the lifecycle reads of them, `validateParams` and `canonicalMaterial`.
--               Intents/Intent has `transition`, `approve`, `new_draft`, `revise_draft`, `restore`;
--               Intents/Operation the identities of operations; Intents/History what any sequence
--               of operations can do.
--   Owners      internal/auth/identity.go (Owners/Identity) and internal/wallet/binding.go and
--               state.go (Owners/Binding); Owners/Lifecycle is about histories of bindings.
--   Payments    the parameters of intents: types.go, address.go, send_params.go, deferred_params.go,
--               payroll_params.go and swap_params.go of internal/intents, and the addresses of
--               internal/contracts. Payments/Amount has amounts and their units, Payments/Token
--               tokens, Payments/Direct transfers, bridges and names, Payments/Payroll and
--               Payments/CrossPayroll payrolls, Payments/Swap swaps, Payments/Financial their union,
--               Payments/Params `validateParams`, and Payments/Normal the normal forms, with the
--               implementation of `Material`. Payments/Digits, Payments/Units and Payments/Signs are
--               about printed amounts, Payments/Values and Payments/Totals about the sums of
--               payrolls, and Payments/Slippage about swaps.
--   Policies    internal/policies: scopes and results (Policies/Types), rules (Policies/Rules), the
--               policy and its lifecycle (Policies/Policy), what rules see of an intent (Policies/
--               View) and `evaluate` (Policies/Evaluation). Policies/Membership reads the lists of
--               rules as sets, Policies/Decision and Policies/Authorized are about the decision, and
--               Policies/Lifecycle about histories.
--   Approvals   approval.go, lifecycle.go and restore.go of internal/approvals. Approvals/Defs has
--               the operations; Approvals/Binding relates an approval to its intent, and uses the
--               implementation of intents for the artifact that `Approve` takes; Approvals/History
--               is about sequences of operations.
--   Execution   types.go, request.go, result.go, lifecycle.go and restore.go of internal/execution.
--               Execution/Steps has the diagram of the lifecycle as an indexed type, Execution/
--               Progress and Execution/Liveness what histories do and can do. Execution/
--               NewRequest makes the request of an intent, its consumed approval and a policy
--               result, and Execution/Authority says what stands behind it.
--   Breaker     internal/providers/circuit/breaker.go, its methods under the lock as functions of
--               the state and the clock.
--   Providers   reorg.go, reference.go and classification.go of internal/providers. Providers/
--               Observation has the observations of receipts and the tracker, Providers/Tracking
--               histories of its calls. Providers/Reference has the references and their encoding,
--               Providers/Classification the outcomes of providers, and Providers/Answers and
--               Providers/Outcomes say what the runtime is told of them.
--   Runtime     internal/execution/runtime/service.go and boundaries.go. Runtime/Ports has the
--               interfaces that the service calls, as functions of a world that is a parameter;
--               Runtime/Service and Runtime/Process have the handlers. Runtime/Advance, Runtime/
--               Writes, Runtime/Submitting, Runtime/Verifying and Runtime/Preserved follow a write
--               from a handler to the checks that
--               internal/storage/postgres/runtime_repository.go makes of it; Runtime/Submission and
--               Runtime/Reconcile are about submissions; Runtime/Rows has the rows of evidence and
--               the loop that reads them, Runtime/Written what PersistClaimedEvidence and
--               AppendVerificationEvidence check and insert (internal/storage/postgres), and
--               Runtime/ReadBack how it is read back.
--   Autonomy    `Grant` of internal/autonomy/model.go, and the ledger of accounting.go behind its
--               lock; the map of reservations is a list.
--
-- Operations are named as in Go, in snake case, and return the new record or an error. Methods that
-- mutate take and return the state. Times are nanoseconds, 0 for the zero time; a uint64 is a
-- natural number and wraps where the code adds to it. The texts of errors are left out, their codes
-- and flags kept. An unknown string of an enumeration has a constructor with a number or with
-- the string.
--
-- Loops are recursions on lists. Two recursions are on fuel. The printing of a number is given one
-- unit more than the number, and a number has no more digits than that. The binary search is given
-- as much as the list is long, with which it returns the point that splits the list (Base/Search). Histories are lists of
-- operations of any length.
--
-- A set that code keeps in a map is a list of texts. Go's sort leaves the order of elements with
-- equal keys open; the model sorts by insertion.
--
-- Not modelled: the canonical JSON of an intent, which is a function of the record `Encoding`
-- (Payments/Normal); what stands behind the ports of the runtime, which is SQL and remote services,
-- and of which a theorem states what it needs; audit records beyond what names the change;
-- the runtime's `Start`; and the packages for capabilities, the rest of autonomy, the rest of
-- the providers' logic, contract calls, transport, sessions and storage.
pub mod Base
pub mod Intents
pub mod Owners
pub mod Payments
pub mod Policies
pub mod Providers
pub mod Approvals
pub mod Execution
pub mod Breaker
pub mod Runtime
pub mod Autonomy
