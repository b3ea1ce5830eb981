-- ===== src/Intents/History.antt =====
-- What histories of operations on an intent can do.
use wizpay_mcp.Base.{
  ◌∙◌, ◌<◌, ◌≤◌, ◌≡◌, ◌≢◌, ◌⊎◌, inl, inr, refl, sym, Bool, true, false, List, [], ◌∷◌, Time, none,
  some, Result, ok, err, Platform, arith,
}
use wizpay_mcp.Intents.Material.{Material}
use wizpay_mcp.Intents.Intent.{
  Status, draft, created, approval_needed, approved, ready_for_execution, expired, valid_transition,
  Intent, transition, Artifact, approve, revise_draft,
}

module _ ⦃platform : Platform⦄ ⦃material : Material⦄ where
  open material use {Params, created_at, expires_at, canonical_material}

  pub data Operation : Type 0 where
    move : Status → Operation
    approve_by : Artifact → Operation
    revise : Params → Operation

  abbrev pub perform : Operation → Intent → Time → Result Intent
  perform (move s) i at = transition i s at
  perform (approve_by artifact) i at = approve i artifact at
  perform (revise p) i at = revise_draft i p

  -- A caller keeps its intent where an operation returns an error.
  abbrev pub kept : Result Intent → Intent → Intent
  kept (ok i') i = i'
  kept (err _) i = i

  unfoldable pub play : List (Operation × Time) → Intent → Intent
  play [] i = i
  play ((op, at) ∷ ops) i = play ops (kept (perform op i at) i)

  abbrev Grants : Artifact → Intent → Time → Type 0
  Grants none i at = ⊥
  Grants (some artifact) i at = artifact i at ≡ ok tt

  -- What a successful transition to another status does.
  transition_outcome :
      (i : Intent) (s : Status) (at : Time) {i' : Intent}
      → transition i s at ≡ ok i'
      → (i' ≡ i)
        ⊎ ((valid_transition i.status s ≡ true)
            × (s ≢ approved)
            × (i'.status ≡ s)
            × (i'.params ≡ i.params)
            × (s ≢ created → i'.digest ≡ i.digest)
            × (created_at i.params ≤ at)
            × (s ≢ expired → at < expires_at i.params))
  unfolding transition
  transition_outcome i s at h = ground arith

  approve_outcome :
      (i : Intent) (artifact : Artifact) (at : Time) {i' : Intent}
      → approve i artifact at ≡ ok i'
      → (i' ≡ i)
        ⊎ (i.status ≡ approval_needed)
          × Grants artifact i at
          × (i'.status ≡ approved)
          × (i'.params ≡ i.params)
          × (i'.digest ≡ i.digest)
  unfolding approve
  approve_outcome i none at h = ground arith
  approve_outcome i (some a) at h = ground arith

  revise_outcome :
      (i : Intent) (p : Params) {i' : Intent}
      → revise_draft i p ≡ ok i'
      → (i' ≡ i) ⊎ (i.status ≡ draft) × (i'.status ≡ draft)
  unfolding revise_draft
  revise_outcome i p h = ground arith

  -- No edge leads back to CREATED but from a draft.
  created_from_draft :
      (s t : Status) → valid_transition s t ≡ true → s ≢ draft → t ≢ created × (t ≢ draft)
  unfolding valid_transition
  created_from_draft s t v n = (λ e. ground arith, λ e. ground arith)

  -- The intent is frozen, with this material under this digest.
  abbrev Frozen : Intent → Intent → Type 0
  Frozen i j = (j.status ≢ draft) × (j.params ≡ i.params) × (j.digest ≡ i.digest)

  perform-Frozen :
      (op : Operation) (i : Intent) (at : Time) {i' : Intent}
      → perform op i at ≡ ok i'
      → i.status ≢ draft
      → Frozen i i'
  perform-Frozen (move s) i at h n = elim (transition_outcome i s at h) [
    | inl same ↦ rw same (n, refl, refl)
    | inr (edge, na, st, ps, keeps, from, to) ↦
        let (nc, nd) = created_from_draft i.status s edge n in (λ e. nd (sym st ∙ e), ps, keeps nc)
  ]
  perform-Frozen (approve_by artifact) i at h n = elim (approve_outcome i artifact at h) [
    | inl same ↦ rw same (n, refl, refl)
    | inr (need, grants, st, ps, dg) ↦ (λ e. cc, ps, dg)
  ]
  perform-Frozen (revise p) i at h n = elim (revise_outcome i p h) [
    | inl same ↦ rw same (n, refl, refl)
    | inr (is_draft, st) ↦ absurd (n is_draft)
  ]

  kept-Frozen :
      (op : Operation) (i : Intent) (at : Time) (r : Result Intent)
      → perform op i at ≡ r
      → i.status ≢ draft
      → Frozen i (kept r i)
  kept-Frozen op i at (ok i') h n = perform-Frozen op i at h n
  kept-Frozen op i at (err e) h n = (n, refl, refl)

  -- Once an intent is no draft, no history of transitions, approvals and revisions changes its
  -- parameters or its digest, and it never becomes a draft again.
  pub material_frozen :
      (ops : List (Operation × Time)) (i : Intent)
      → i.status ≢ draft
      → ((play ops i).status ≢ draft)
        × ((play ops i).params ≡ i.params)
        × ((play ops i).digest ≡ i.digest)
  unfolding play
  material_frozen [] i n = (n, refl, refl)
  material_frozen ((op, at) ∷ ops) i n =
      let (n', ps, dg) = kept-Frozen op i at (perform op i at) refl n in
      let (n'', ps', dg') = material_frozen ops (kept (perform op i at) i) n' in
      (n'', ps' ∙ ps, dg' ∙ dg)

  -- The statuses that only an approval leads to.
  abbrev pub is_granted : Status → Bool
  is_granted approved = true
  is_granted ready_for_execution = true
  is_granted _ = false

  abbrev GrantsNow : Operation → Intent → Time → Type 0
  GrantsNow (approve_by artifact) i at = (i.status ≡ approval_needed) × Grants artifact i at
  GrantsNow _ i at = ⊥

  -- Somewhere in the history an artifact was presented for the intent while it awaited approval,
  -- and authorized it at that instant.
  abbrev pub WasAuthorized : List (Operation × Time) → Intent → Type 0
  WasAuthorized [] i = ⊥
  WasAuthorized ((op, at) ∷ ops) i =
      GrantsNow op i at ⊎ WasAuthorized ops (kept (perform op i at) i)

  ungranted_edge :
      (s t : Status)
      → valid_transition s t ≡ true
      → t ≢ approved
      → is_granted s ≡ false
      → is_granted t ≡ false
  unfolding valid_transition
  ungranted_edge s t v n g = ground arith

  perform_granted :
      (op : Operation) (i : Intent) (at : Time) {i' : Intent}
      → perform op i at ≡ ok i'
      → is_granted i.status ≡ false
      → GrantsNow op i at ⊎ (is_granted i'.status ≡ false)
  perform_granted (move s) i at h g = elim (transition_outcome i s at h) [
    | inl same ↦ inr (rw same g)
    | inr (edge, na, st, ps, keeps, from, to) ↦ inr (rw st (ungranted_edge i.status s edge na g))
  ]
  perform_granted (approve_by artifact) i at h g = elim (approve_outcome i artifact at h) [
    | inl same ↦ inr (rw same g)
    | inr (need, grants, st, ps, dg) ↦ inl (need, grants)
  ]
  perform_granted (revise p) i at h g = elim (revise_outcome i p h) [
    | inl same ↦ inr (rw same g)
    | inr (was, st) ↦ inr (rw st refl)
  ]

  kept_granted :
      (op : Operation) (i : Intent) (at : Time) (r : Result Intent)
      → perform op i at ≡ r
      → is_granted i.status ≡ false
      → GrantsNow op i at ⊎ (is_granted (kept r i).status ≡ false)
  kept_granted op i at (ok i') h g = perform_granted op i at h g
  kept_granted op i at (err e) h g = inr g

  -- An intent that is neither APPROVED nor READY_FOR_EXECUTION gets there, by any history of
  -- transitions, approvals and revisions, only if an artifact that authorized it was presented
  -- while it awaited approval.
  pub approval_is_needed :
      (ops : List (Operation × Time)) (i : Intent)
      → is_granted i.status ≡ false
      → is_granted (play ops i).status ≡ true
      → WasAuthorized ops i
  unfolding play
  approval_is_needed [] i g t = cc
  approval_is_needed ((op, at) ∷ ops) i g t = elim (kept_granted op i at (perform op i at) refl g) [
    | inl now ↦ inl now
    | inr still ↦ inr (approval_is_needed ops (kept (perform op i at) i) still t)
  ]

  expired_or_early :
      (s : Status) (at limit : Time) → limit ≤ at → (s ≢ expired → at < limit) → s ≡ expired
  expired_or_early expired at limit past h = refl
  expired_or_early _ at limit past h = absurd (omega (arith, h (λ e. cc)))

  approve_in_time :
      (i : Intent) (artifact : Artifact) (at : Time) {i' : Intent}
      → approve i artifact at ≡ ok i'
      → at < expires_at i.params
  unfolding approve
  approve_in_time i artifact at h = ground arith

  -- At or after its expiry an intent takes no transition but to EXPIRED, and no approval.
  pub expired_is_stuck :
      (i : Intent) (at : Time) {i' : Intent}
      → expires_at i.params ≤ at
      → ((s : Status) → transition i s at ≡ ok i' → (i' ≡ i) ⊎ (i'.status ≡ expired))
        × ((artifact : Artifact) → approve i artifact at ≢ ok i')
  expired_is_stuck i at {i'} past = (
    λ s h. elim (transition_outcome i s at h) [
      | inl same ↦ inl same
      | inr (edge, na, st, ps, keeps, from, to) ↦
          inr (st ∙ expired_or_early s at (expires_at i.params) past to)
    ],
    λ artifact h. omega (arith, approve_in_time i artifact at h),
  )
