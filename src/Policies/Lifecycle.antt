-- ===== src/Policies/Lifecycle.antt =====
-- What histories of transitions can do to a policy.
use wizpay_mcp.Base.{
  ◌≤◌, ◌<◌, ◌≡◌, ◌⊎◌, refl, ap, ◌∙◌, true, false, List, [], ◌∷◌, Time, Result, ok, err, Libraries,
  arith,
}
use wizpay_mcp.Policies.Policy.{
  Status, active, disabled, expired, is_terminal, is_valid, Policy, validate, valid_transition,
  check_clock, transition,
}

module _ ⦃libraries : Libraries⦄ where
  -- A caller keeps its policy where `Transition` returns an error.
  abbrev kept : Result Policy → Policy → Policy
  kept (ok p') p = p'
  kept (err _) p = p

  unfoldable pub play : List (Status × Time) → Policy → Policy
  play [] p = p
  play ((next, at) ∷ ms) p = play ms (kept (transition p next at) p)

  -- The same policy but for its status and revision.
  abbrev pub SameTerms : Policy → Policy → Type 0
  SameTerms p q =
      (q.policy_id ≡ p.policy_id)
      × (q.version ≡ p.version)
      × (q.name ≡ p.name)
      × (q.scope ≡ p.scope)
      × (q.rules ≡ p.rules)
      × (q.created_at ≡ p.created_at)
      × (q.valid_from ≡ p.valid_from)
      × (q.expires_at ≡ p.expires_at)

  -- A successful transition changes nothing, or goes one edge on, at an instant that the edge
  -- admits: activation within the validity window, expiry at or after its end.
  pub transition_outcome :
      (p : Policy) (next : Status) (at : Time) {q : Policy}
      → transition p next at ≡ ok q
      → (validate q ≡ ok tt)
        × SameTerms p q
        × ((q ≡ p)
            ⊎ (is_terminal p.status ≡ false)
              × (valid_transition p.status q.status ≡ true)
              × (q.status ≡ active → (p.valid_from ≤ at) × (at < p.expires_at))
              × (q.status ≡ disabled → at < p.expires_at)
              × (q.status ≡ expired → p.expires_at ≤ at))
  unfolding transition check_clock valid_transition is_terminal is_valid
  transition_outcome p next at h = ground arith

  kept_outcome :
      (p : Policy) (next : Status) (at : Time) (r : Result Policy)
      → transition p next at ≡ r
      → validate p ≡ ok tt
      → (validate (kept r p) ≡ ok tt)
        × SameTerms p (kept r p)
        × (is_terminal p.status ≡ true → kept r p ≡ p)
  kept_outcome p next at (ok q) h v =
      let (valid, terms, moved) = transition_outcome p next at h in
      (valid, terms, λ t. ground (arith, moved))
  kept_outcome p next at (err e) h v =
      (v, (refl, refl, refl, refl, refl, refl, refl, refl), λ t. refl)

  same_trans : (p q r : Policy) → SameTerms p q → SameTerms q r → SameTerms p r
  same_trans p q r h k =
      (k.0 ∙ h.0, k.1 ∙ h.1, k.2 ∙ h.2, k.3 ∙ h.3, k.4 ∙ h.4, k.5 ∙ h.5, k.6 ∙ h.6, k.7 ∙ h.7)

  -- No history of transitions makes a valid policy invalid or changes its terms (all but status
  -- and revision), and none changes a policy that is disabled or expired.
  pub play-SameTerms :
      (ms : List (Status × Time)) (p : Policy)
      → validate p ≡ ok tt
      → (validate (play ms p) ≡ ok tt)
        × SameTerms p (play ms p)
        × (is_terminal p.status ≡ true → play ms p ≡ p)
  unfolding play
  play-SameTerms [] p v = (v, (refl, refl, refl, refl, refl, refl, refl, refl), λ t. refl)
  play-SameTerms ((next, at) ∷ ms) p v =
      let (valid, terms, final) = kept_outcome p next at (transition p next at) refl v in
      let (valid', terms', final') = play-SameTerms ms (kept (transition p next at) p) valid in
      let q = kept (transition p next at) p in
      (
        valid',
        same_trans p q (play ms q) terms terms',
        λ t. final' (ap (λ (q : Policy). is_terminal q.status) (final t) ∙ t) ∙ final t,
      )
