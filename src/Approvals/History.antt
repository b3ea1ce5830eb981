-- ===== src/Approvals/History.antt =====
-- What histories of operations on an approval can do.
use wizpay_mcp.Base.{
  ◌∙◌, ◌<◌, ◌≤◌, ◌≡◌, ◌≢◌, ◌⊎◌, refl, sym, true, Time, text_eq→≡, List, [], ◌∷◌, Result, ok, err,
  arith,
}
use wizpay_mcp.Intents.Operation.{OperationIdentity}
use wizpay_mcp.Approvals.Defs.{
  pending, approved, ready_for_execution_confirmation, rejected, expired, consumed, undecided,
  granted, denied, is_terminal, Approval, validate, approve, make_ready, reject, expire, consume,
  validated,
}

pub data Operation : Type 0 where
  grant ready deny lapse : Operation
  spend : OperationIdentity → Operation

unfoldable pub perform : Operation → Approval → Time → Result Approval
perform grant a at = approve a at
perform ready a at = make_ready a at
perform deny a at = reject a at
perform lapse a at = expire a at
perform (spend o) a at = consume a at o

-- A caller keeps its approval where an operation returns an error.
abbrev pub kept : Result Approval → Approval → Approval
kept (ok a') a = a'
kept (err _) a = a

unfoldable pub play : List (Operation × Time) → Approval → Approval
play [] a = a
play ((op, at) ∷ ops) a = play ops (kept (perform op a at) a)

-- The fields that say what is approved, by whom, and for how long.
pub record SameGrant (a b : Approval) : Type 0 where
  pub approval_id : b.approval_id ≡ a.approval_id
  pub version : b.version ≡ a.version
  pub approval_request_id : b.approval_request_id ≡ a.approval_request_id
  pub intent_id : b.intent_id ≡ a.intent_id
  pub intent_version : b.intent_version ≡ a.intent_version
  pub intent_digest : b.intent_digest ≡ a.intent_digest
  pub user_id : b.user_id ≡ a.user_id
  pub wallet_binding_id : b.wallet_binding_id ≡ a.wallet_binding_id
  pub wallet_binding_version : b.wallet_binding_version ≡ a.wallet_binding_version
  pub wallet_id : b.wallet_id ≡ a.wallet_id
  pub wallet_address : b.wallet_address ≡ a.wallet_address
  pub chain_id : b.chain_id ≡ a.chain_id
  pub created_at : b.created_at ≡ a.created_at
  pub expires_at : b.expires_at ≡ a.expires_at

-- One successful operation: nothing, or one of five edges at an instant that the edge admits.
pub record Edge (at : Time) (a b : Approval) : Type 0 where
  pub grants : SameGrant a b
  pub valid : validate b ≡ ok tt
  pub edge :
      (b ≡ a)
      ⊎ (a.status ≡ pending)
        × (b.status ≡ approved)
        × (b.decision ≡ granted)
        × (a.created_at ≤ at)
        × (at < a.expires_at)
      ⊎ (a.status ≡ pending)
        × (b.status ≡ rejected)
        × (b.decision ≡ denied)
        × (a.created_at ≤ at)
        × (at < a.expires_at)
      ⊎ (a.status ≡ approved)
        × (b.status ≡ ready_for_execution_confirmation)
        × (b.decision ≡ a.decision)
        × (b.decided_at ≡ a.decided_at)
        × (at < a.expires_at)
      ⊎ ((a.status ≡ pending)
          ⊎ (a.status ≡ approved)
          ⊎ (a.status ≡ ready_for_execution_confirmation))
        × (b.status ≡ expired)
        × (b.decision ≡ a.decision)
        × (b.decided_at ≡ a.decided_at)
        × (a.expires_at ≤ at)
      ⊎ ((a.status ≡ approved) ⊎ (a.status ≡ ready_for_execution_confirmation))
        × (b.status ≡ consumed)
        × (b.decision ≡ a.decision)
        × (b.decided_at ≡ a.decided_at)
        × (a.created_at ≤ at)
        × (at < a.expires_at)

-- Every successful operation returns a valid approval that grants the same as before, unchanged or
-- one of the five edges of the lifecycle away, at an instant that the edge admits.
pub perform-Edge :
    (op : Operation) (a : Approval) (at : Time) {b : Approval}
    → perform op a at ≡ ok b
    → Edge at a b
unfolding perform approve make_ready reject expire consume validated
perform-Edge grant a at h = ground arith
perform-Edge ready a at h = ground arith
perform-Edge deny a at h = ground arith
perform-Edge lapse a at h = ground arith
perform-Edge (spend o) a at h = ground arith

module _ {P : Approval → Approval → Type 0} (reflexive : (a : Approval) → P a a)
    (transitive : (a b c : Approval) → P a b → P b c → P a c)
    (one : (at : Time) (a b : Approval) → Edge at a b → P a b) where
  kept_induction :
      (op : Operation) (a : Approval) (at : Time) (r : Result Approval)
      → perform op a at ≡ r
      → P a (kept r a)
  kept_induction op a at (ok b) h = one at a b (perform-Edge op a at h)
  kept_induction op a at (err e) h = reflexive a

  play_induction : (ops : List (Operation × Time)) (a : Approval) → P a (play ops a)
  unfolding play
  play_induction [] a = reflexive a
  play_induction ((op, at) ∷ ops) a =
      transitive a (kept (perform op a at) a) _ (kept_induction op a at (perform op a at) refl)
        (play_induction ops (kept (perform op a at) a))

Edge-terminal : {at : Time} {a b : Approval} → Edge at a b → is_terminal a.status ≡ true → b ≡ a
unfolding is_terminal
Edge-terminal {a = a} {b = b} s t = ground (arith, s.edge)

-- No history of operations changes a rejected, expired or consumed approval.
pub terminal_is_final :
    (ops : List (Operation × Time)) (a : Approval) → is_terminal a.status ≡ true → play ops a ≡ a
terminal_is_final =
    play_induction {P = λ a b. is_terminal a.status ≡ true → b ≡ a} (λ a t. refl)
      (λ a b c p q t. q (rw (p t) t) ∙ p t) (λ at a b s t. Edge-terminal s t)

-- What a valid approval has decided.
abbrev Decided : Approval → Type 0
Decided a = (validate a ≡ ok tt) × (a.decision ≢ undecided)

pending_undecided :
    (a : Approval) → validate a ≡ ok tt → a.status ≡ pending → a.decision ≡ undecided
unfolding validate
pending_undecided a v p = ground arith

Edge-kept_decision :
    {at : Time} {a b : Approval}
    → Edge at a b
    → a.status ≢ pending
    → (b.decision ≡ a.decision) × (b.decided_at ≡ a.decided_at)
Edge-kept_decision {a = a} {b = b} s n = ground (arith, s.edge)

Edge-Decided :
    {at : Time} {a b : Approval}
    → Edge at a b
    → Decided a
    → Decided b × (b.decision ≡ a.decision) × (b.decided_at ≡ a.decided_at)
Edge-Decided {a = a} {b = b} s d =
    let (same, when_decided) = Edge-kept_decision s (λ p. d.1 (pending_undecided a d.0 p)) in
    ((s.valid, λ u. d.1 (sym same ∙ u)), same, when_decided)

-- Once a valid approval has a decision, no history of operations changes the decision or its
-- instant.
pub decision_is_final :
    (ops : List (Operation × Time)) (a : Approval)
    → validate a ≡ ok tt
    → a.decision ≢ undecided
    → ((play ops a).decision ≡ a.decision) × ((play ops a).decided_at ≡ a.decided_at)
decision_is_final ops a v d =
    let kept_all =
      play_induction
        {P = λ a b.
          Decided a → Decided b × (b.decision ≡ a.decision) × (b.decided_at ≡ a.decided_at)}
        (λ a d. (d, refl, refl))
        (λ a b c p q d. let (d', e, t) = p d in let (d'', e', t') = q d' in (d'', e' ∙ e, t' ∙ t))
        (λ at a b s d. Edge-Decided s d) ops a (v, d) in
    (kept_all.1, kept_all.2)

consumed_lem :
    (a : Approval) (at : Time) (o : OperationIdentity) {b : Approval}
    → consume a at o ≡ ok b
    → (is_terminal b.status ≡ true)
      × (b.status ≡ consumed)
      × (b.operation_key ≡ o.operation_key)
      × (b.operation_version ≡ o.version)
unfolding consume validated is_terminal
consumed_lem a at o h = ground (arith, text_eq→≡ a.operation_key o.operation_key)

consumed_again :
    (a : Approval) (at : Time) (o : OperationIdentity) {b : Approval}
    → a.status ≡ consumed
    → consume a at o ≡ ok b
    → b ≡ a
unfolding consume validated
consumed_again a at o s h = ground arith

-- If an approval was consumed for an operation, and is consumed again after any history, then it
-- was for an operation of the same key and version, and without any change.
pub single_use :
    (a : Approval) (at at' : Time) (o o' : OperationIdentity) (ops : List (Operation × Time))
    {b c : Approval}
    → consume a at o ≡ ok b
    → consume (play ops b) at' o' ≡ ok c
    → (c ≡ b) × (o'.operation_key ≡ o.operation_key) × (o'.version ≡ o.version)
single_use a at at' o o' ops {b} {c} first second =
    let (final, st, key, version) = consumed_lem a at o first in
    let again = rw (terminal_is_final ops b final) at second in
    let same = consumed_again b at' o' st again in
    let (final', st', key', version') = consumed_lem b at' o' again in (same, cc, cc)
