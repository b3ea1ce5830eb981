-- ===== src/Approvals/Binding.antt =====
-- What an approval authorizes: the one frozen intent that it is bound to, in its time.
use wizpay_mcp.Base.{
  ◌<◌, ◌≤◌, ◌≡◌, ◌⊎◌, inl, refl, ap, true, Time, text_eq→≡, text_eq_refl, ==_refl, some, Result, ok,
  Platform, arith,
}
use wizpay_mcp.Intents.Material.{Material}
use wizpay_mcp.Intents.Intent
use wizpay_mcp.Intents.Intent.{Intent}
use wizpay_mcp.Approvals.Defs.{
  approved, ready_for_execution_confirmation, Approval, Params, validate, approve, new, pending_for,
  is_bound_to, ensure_authorizes, validated,
}

module _ ⦃platform : Platform⦄ ⦃material : Material⦄ where
  -- The approval carries the intent's identity and digest, and its owner's wallet.
  pub record BoundTo (a : Approval) (i : Intent) : Type 0 where
    pub same_intent : a.intent_id ≡ material.intent_id i.params
    pub same_version : a.intent_version ≡ material.version i.params
    pub same_digest : a.intent_digest ≡ i.digest
    pub same_user : a.user_id ≡ (material.ownership i.params).user_id
    pub same_binding : a.wallet_binding_id ≡ (material.ownership i.params).wallet_binding_id
    pub same_binding_version :
        a.wallet_binding_version ≡ (material.ownership i.params).wallet_binding_version
    pub same_wallet : a.wallet_id ≡ (material.ownership i.params).wallet_id
    pub same_address : a.wallet_address ≡ (material.ownership i.params).wallet_address
    pub same_chain : a.chain_id ≡ (material.ownership i.params).chain_id

  pub BoundTo-is_bound_to : (a : Approval) (i : Intent) → is_bound_to a i ≡ true → BoundTo a i
  unfolding is_bound_to
  BoundTo-is_bound_to a i h =
      let o = material.ownership i.params in
      ground (
        arith,
        text_eq→≡ a.intent_id (material.intent_id i.params),
        text_eq→≡ a.intent_digest i.digest,
        text_eq→≡ a.user_id o.user_id,
        text_eq→≡ a.wallet_binding_id o.wallet_binding_id,
        text_eq→≡ a.wallet_id o.wallet_id,
        text_eq→≡ a.wallet_address o.wallet_address,
        text_eq→≡ a.chain_id o.chain_id,
      )

  pub is_bound_to-BoundTo : (a : Approval) (i : Intent) → BoundTo a i → is_bound_to a i ≡ true
  unfolding is_bound_to
  is_bound_to-BoundTo a i b =
      let o = material.ownership i.params in
      rw (
        b.same_intent,
        b.same_version,
        b.same_digest,
        b.same_user,
        b.same_binding,
        b.same_binding_version,
        b.same_wallet,
        b.same_address,
        b.same_chain,
        text_eq_refl (material.intent_id i.params),
        ==_refl (material.version i.params),
        text_eq_refl i.digest,
        text_eq_refl o.user_id,
        text_eq_refl o.wallet_binding_id,
        ==_refl o.wallet_binding_version,
        text_eq_refl o.wallet_id,
        text_eq_refl o.wallet_address,
        text_eq_refl o.chain_id,
      )

  -- All that the check asks for.
  pub record Authorizes (a : Approval) (i : Intent) (at : Time) : Type 0 where
    pub valid_approval : validate a ≡ ok tt
    pub valid_intent : Intent.validate i ≡ ok tt
    pub bound : BoundTo a i
    pub started : 0 < at
    pub in_time : at < a.expires_at
    pub in_effect : (a.status ≡ approved) ⊎ (a.status ≡ ready_for_execution_confirmation)

  authorized :
      (a : Approval) (i : Intent) (at : Time)
      → ensure_authorizes a i at ≡ ok tt
      → (validate a ≡ ok tt)
        × (Intent.validate i ≡ ok tt)
        × (is_bound_to a i ≡ true)
        × (0 < at)
        × (at < a.expires_at)
        × ((a.status ≡ approved) ⊎ (a.status ≡ ready_for_execution_confirmation))
  unfolding ensure_authorizes
  authorized a i at h = ground arith

  authorizes :
      (a : Approval) (i : Intent) (at : Time) → Authorizes a i at → ensure_authorizes a i at ≡ ok tt
  unfolding ensure_authorizes
  authorizes a i at h = ground (
    arith,
    h.valid_approval,
    h.valid_intent,
    h.started,
    h.in_time,
    h.in_effect,
    is_bound_to-BoundTo a i h.bound,
  )

  -- EnsureAuthorizes succeeds exactly when approval and intent validate, every bound field agrees,
  -- the instant is not zero and before the approval expires, and the approval stands approved or
  -- ready for confirmation.
  pub ensure_authorizes_iff :
      (a : Approval) (i : Intent) (at : Time)
      → (ensure_authorizes a i at ≡ ok tt → Authorizes a i at)
        × (Authorizes a i at → ensure_authorizes a i at ≡ ok tt)
  ensure_authorizes_iff a i at = (
    λ h.
        let (va, vi, b, pos, early, eff) = authorized a i at h in
        record {
          valid_approval = va;
          valid_intent = vi;
          bound = BoundTo-is_bound_to a i b;
          started = pos;
          in_time = early;
          in_effect = eff;
        },
    authorizes a i at,
  )

  approve_checks :
      (i : Intent) (check : Intent → Time → Result (Unit {0})) (at : Time) {i' : Intent}
      → Intent.approve i (some check) at ≡ ok i'
      → (check i at ≡ ok tt)
        × (i'.status ≡ Intent.approved)
        × (i'.params ≡ i.params)
        × (i'.digest ≡ i.digest)
        × (at < material.expires_at i.params)
  unfolding Intent.approve
  approve_checks i check at h = ground arith

  -- An intent that an approval moves to APPROVED is the one that the approval is bound to, both
  -- unexpired, the approval in effect, and the intent keeps its material and digest.
  pub approve-ensure_authorizes :
      (a : Approval) (i : Intent) (at : Time) {i' : Intent}
      → Intent.approve i (some (ensure_authorizes a)) at ≡ ok i'
      → Authorizes a i at
        × (i'.status ≡ Intent.approved)
        × (i'.params ≡ i.params)
        × (i'.digest ≡ i.digest)
        × (at < material.expires_at i.params)
  approve-ensure_authorizes a i at h =
      let (passed, st, ps, dg, early) = approve_checks i (ensure_authorizes a) at h in
      ((ensure_authorizes_iff a i at).0 passed, st, ps, dg, early)

  new_lem :
      (p : Params) (i : Intent) {a : Approval}
      → new p i ≡ ok a
      → (a ≡ pending_for p i)
        × (Intent.validate i ≡ ok tt)
        × (material.created_at i.params ≤ p.created_at)
        × (p.expires_at ≤ material.expires_at i.params)
  unfolding new
  new_lem p i h = ground arith

  pending_for-is_bound : (p : Params) (i : Intent) → BoundTo (pending_for p i) i
  unfolding pending_for
  pending_for-is_bound p i = record {
    same_intent = refl;
    same_version = refl;
    same_digest = refl;
    same_user = refl;
    same_binding = refl;
    same_binding_version = refl;
    same_wallet = refl;
    same_address = refl;
    same_chain = refl;
  }

  -- Approving keeps the bound fields and the expiry.
  approve_keeps :
      (a : Approval) (i : Intent) (t : Time) {a' : Approval}
      → approve a t ≡ ok a'
      → BoundTo a i
      → (validate a' ≡ ok tt)
        × (a'.status ≡ approved)
        × (a'.expires_at ≡ a.expires_at)
        × BoundTo a' i
  unfolding approve validated
  approve_keeps a i t h b = ground arith

  -- An approval that New makes for an intent and that is then approved authorizes that intent at
  -- every instant, not zero, before the approval expires, and it expires no later than the intent.
  pub new-approve-authorizes :
      (p : Params) (i : Intent) (t at : Time) {a a' : Approval}
      → new p i ≡ ok a
      → approve a t ≡ ok a'
      → 0 < at
      → at < p.expires_at
      → (ensure_authorizes a' i at ≡ ok tt) × (a'.expires_at ≤ material.expires_at i.params)
  unfolding pending_for
  new-approve-authorizes p i t at {a} {a'} made granted pos early =
      let (built, good, after, within) = new_lem p i made in
      let (valid, st, limit, bound) =
        approve_keeps a i t granted (rw built (pending_for-is_bound p i)) in
      let expiry : a.expires_at ≡ p.expires_at = ap (λ (x : Approval). x.expires_at) built in
      (
        (ensure_authorizes_iff a' i at).1 (record {
          valid_approval = valid;
          valid_intent = good;
          bound = bound;
          started = pos;
          in_time = omega arith;
          in_effect = inl st;
        }),
        omega arith,
      )
