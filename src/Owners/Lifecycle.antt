-- ===== src/Owners/Lifecycle.antt =====
-- What histories of transitions can do to a binding and to an identity.
use wizpay_mcp.Base.{
  ◌+◌, ◌≤◌, ◌≡◌, ◌≢◌, refl, ap, ◌∙◌, List, [], ◌∷◌, Time, Text, Result, ok, err, u64_max, arith,
}
use wizpay_mcp.Owners.Binding.{
  BindingStatus, active, revoked, ordinal, is_allowed, is_valid, validate_transition, Binding,
  validate, transition, stamp, authorizable_status, ensure_authorizable,
}

-- A call of `Transition`: its arguments.
pub record Move : Type 0 where
  pub next : BindingStatus
  pub at : Time
  pub reference : Text

-- A caller keeps its binding where `Transition` returns an error.
abbrev kept : Result Binding → Binding → Binding
kept (ok b') b = b'
kept (err _) b = b

unfoldable pub play : List Move → Binding → Binding
play [] b = b
play (m ∷ ms) b = play ms (kept (transition b m.next m.at m.reference) b)

-- The same wallet of the same user.
abbrev pub SameWallet : Binding → Binding → Type 0
SameWallet b c =
    (c.binding_id ≡ b.binding_id)
    × (c.user_id ≡ b.user_id)
    × (c.provider ≡ b.provider)
    × (c.provider_user_reference ≡ b.provider_user_reference)
    × (c.wallet_id ≡ b.wallet_id)
    × (c.address ≡ b.address)
    × (c.chain_id ≡ b.chain_id)
    × (c.network ≡ b.network)
    × (c.created_at ≡ b.created_at)

-- A later version of a binding: at most as many versions on as stages.
abbrev pub IsLater : Binding → Binding → Type 0
IsLater b c =
    SameWallet b c
    × (b.version ≤ c.version)
    × (ordinal b.status ≤ ordinal c.status)
    × (c.version + ordinal b.status ≤ b.version + ordinal c.status)

module _ (b : Binding) (at : Time) (r : Text) where
  moved-IsLater :
      (s : BindingStatus) {b' : Binding}
      → transition b s at r ≡ ok b'
      → b.version ≤ u64_max
      → IsLater b b' × (b'.version ≤ u64_max)
  unfolding transition validate_transition is_allowed is_valid stamp
  moved-IsLater s h v = ground arith

  moved_valid :
      (s : BindingStatus) {b' : Binding} → transition b s at r ≡ ok b' → validate b' ≡ ok tt
  unfolding transition validate_transition
  moved_valid s h = ground arith

  moved_revoked :
      (s : BindingStatus) {b' : Binding} → transition b s at r ≡ ok b' → b.status ≡ revoked → b' ≡ b
  unfolding transition validate_transition is_allowed is_valid
  moved_revoked s h v = ground arith

module _ (P : Binding → Type 0)
    (step : (b : Binding) (m : Move) (b' : Binding)
      → transition b m.next m.at m.reference ≡ ok b'
      → P b
      → P b') where
  kept_keeps :
      (b : Binding) (m : Move) (r : Result Binding)
      → transition b m.next m.at m.reference ≡ r
      → P b
      → P (kept r b)
  kept_keeps b m (ok b') h p = step b m b' h p
  kept_keeps b m (err e) h p = p

  play_keeps : (ms : List Move) (b : Binding) → P b → P (play ms b)
  unfolding play
  play_keeps [] b p = p
  play_keeps (m ∷ ms) b p =
      play_keeps ms _ (kept_keeps b m (transition b m.next m.at m.reference) refl p)

IsLater-trans :
    (b c d : Binding)
    → IsLater b c × (c.version ≤ u64_max)
    → IsLater c d × (d.version ≤ u64_max)
    → IsLater b d × (d.version ≤ u64_max)
IsLater-trans b c d p q = ground arith

-- No history of transitions makes a valid binding invalid, gives it to another user or wallet, or
-- moves it back; a binding whose version is a uint64 gets at most as many new versions as the
-- stages (pending, active, revoked) that it moves on.
pub play-IsLater :
    (ms : List Move) (b : Binding)
    → validate b ≡ ok tt
    → b.version ≤ u64_max
    → (validate (play ms b) ≡ ok tt) × IsLater b (play ms b)
play-IsLater ms b v small =
    let later =
      play_keeps (λ c. IsLater b c × (c.version ≤ u64_max))
        (λ c m c' h p. IsLater-trans b c c' p (moved-IsLater c m.at m.reference m.next h p.1)) ms b
        (ground arith, small) in
    (
      play_keeps (λ c. validate c ≡ ok tt) (λ c m c' h p. moved_valid c m.at m.reference m.next h)
          ms b v,
      later.0,
    )

authorizes_only_active :
    (b : Binding) (user : Text) → ensure_authorizable b user ≡ ok tt → b.status ≡ active
unfolding ensure_authorizable authorizable_status
authorizes_only_active b user h = ground arith

-- Whatever transitions are tried on a revoked binding, it does not change, and EnsureAuthorizable
-- accepts it for no user.
pub revoked_never_authorizes :
    (ms : List Move) (b : Binding) (user : Text)
    → b.status ≡ revoked
    → (play ms b ≡ b) × (ensure_authorizable (play ms b) user ≢ ok tt)
revoked_never_authorizes ms b user v =
    let same =
      play_keeps (λ c. c ≡ b)
        (λ c m c' h p. moved_revoked c m.at m.reference m.next h (ap (λ x. x.status) p ∙ v) ∙ p) ms
        b refl in
    (
      same,
      λ h.
          let is_active = authorizes_only_active (play ms b) user h in
          let is_revoked = ap (λ (x : Binding). x.status) same in cc,
    )
