-- ===== src/Autonomy/Caps.antt =====
-- What the ledger promises of its caps, over any history of calls.
use wizpay_mcp.Base.{
  ℕ, ◌+◌, ◌≤◌, ◌≡◌, ◌⊎◌, inl, inr, refl, Bool, false, ◌&&◌, ◌==◌, ==→≡, text_eq→≡, Time, Text,
  text_eq, Option, none, some, List, [], ◌∷◌, Result, ok, err, arith,
}
use wizpay_mcp.Autonomy.Grant.{Grant, validate, positive_units}
use wizpay_mcp.Autonomy.Ledger.{
  reserved, LedgerReservation, Ledger, get, units, is_of, total, exceeds, reserve_new,
  reserve_units, reserve_amount, reserve_validated, reserve, set_committed, commit_found, commit,
  if_reserved, release,
}

pub data Call : Type 0 where
  reserving : Grant → Text → Text → Time → Call
  committing releasing : Text → Call

unfoldable pub step : Call → Ledger → Ledger
step (reserving g occurrence amount at) l = (reserve l g occurrence amount at).1
step (committing occurrence) l = (commit l occurrence).1
step (releasing occurrence) l = release l occurrence

unfoldable pub run : List Call → Ledger → Ledger
unfolding step
run [] l = l
run (c ∷ cs) l = run cs (step c l)

-- What `Reserve` adds.
abbrev entry : Grant → Text → Text → Time → LedgerReservation
entry g occurrence amount at = record {
  grant_id = g.id;
  occurrence_id = occurrence;
  amount = amount;
  grant_version = g.version;
  at = at;
  state = reserved;
}

module _ (id : Text) (version : ℕ) where
  set_committed-total :
      (l : Ledger) (occurrence : Text)
      → total id version (set_committed l occurrence) ≡ total id version l
  unfolding total set_committed units is_of
  set_committed-total [] occurrence = refl
  set_committed-total (r ∷ rs) occurrence = ground (arith, set_committed-total rs occurrence)

  commit-total :
      (l : Ledger) (occurrence : Text)
      → total id version (commit l occurrence).1 ≡ total id version l
  unfolding commit commit_found
  commit-total l occurrence = ground (arith, set_committed-total l occurrence)

  release-total :
      (l : Ledger) (occurrence : Text)
      → total id version (release l occurrence) ≤ total id version l
  unfolding total release if_reserved
  release-total [] occurrence = omega arith
  release-total (r ∷ rs) occurrence = ground (arith, release-total rs occurrence)

  -- Every grant of this identifier and version that the history reserves for has this cap.
  abbrev pub HasCap : Text → List Call → Type 0
  HasCap cap [] = Unit {0}
  HasCap cap (reserving g occurrence amount at ∷ calls) =
      (g.id ≡ id → g.version ≡ version → g.aggregate_cap_base_units ≡ cap) × HasCap cap calls
  HasCap cap (_ ∷ calls) = HasCap cap calls

  reserve_new_outcome :
      (l : Ledger) (g : Grant) (occurrence amount : Text) (z : ℕ) (at : Time)
      → ((reserve_new l g occurrence amount z at).1 ≡ l)
        ⊎ (exceeds g.aggregate_cap_base_units (total g.id g.version l + z) ≡ false)
          × ((reserve_new l g occurrence amount z at).1 ≡ entry g occurrence amount at ∷ l)
  unfolding reserve_new
  reserve_new_outcome l g occurrence amount z at = ground arith

  exceeds_not :
      (cap : Text) (limit n : ℕ)
      → positive_units cap ≡ some limit
      → exceeds cap n ≡ false
      → n ≤ limit
  unfolding exceeds
  exceeds_not cap limit n parsed h = ground (arith, parsed)

  entry-total :
      (l : Ledger) (g : Grant) (occurrence amount : Text) (z : ℕ) (at : Time)
      → positive_units amount ≡ some z
      → ((g.id ≡ id)
          × (g.version ≡ version)
          × (total id version (entry g occurrence amount at ∷ l) ≡ z + total id version l))
        ⊎ (total id version (entry g occurrence amount at ∷ l) ≡ total id version l)
  unfolding total is_of units
  entry-total l g occurrence amount z at amounts =
      ground (arith, amounts, text_eq→≡ g.id id, ==→≡ g.version version)

  reserve_new-total :
      (l : Ledger) (g : Grant) (occurrence amount cap : Text) (limit z : ℕ) (at : Time)
      → (g.id ≡ id → g.version ≡ version → g.aggregate_cap_base_units ≡ cap)
      → positive_units cap ≡ some limit
      → positive_units amount ≡ some z
      → total id version l ≤ limit
      → total id version (reserve_new l g occurrence amount z at).1 ≤ limit
  reserve_new-total l g occurrence amount cap limit z at same parsed amounts within =
      elim (reserve_new_outcome l g occurrence amount z at) [
        | inl kept ↦ rw kept within
        | inr (fits, made) ↦ elim (entry-total l g occurrence amount z at amounts) [
          | inl (i, v, grown) ↦
              let below =
                exceeds_not cap limit (total id version l + z) parsed
                  (rw (same i v, i, v) at fits) in
              rw (made, grown) (omega (arith, below))
          | inr kept ↦ rw (made, kept) within
        ]
      ]

  reserve_units-total :
      (old : Option LedgerReservation) (l : Ledger) (g : Grant) (occurrence amount cap : Text)
      (limit z : ℕ) (at : Time)
      → (g.id ≡ id → g.version ≡ version → g.aggregate_cap_base_units ≡ cap)
      → positive_units cap ≡ some limit
      → positive_units amount ≡ some z
      → total id version l ≤ limit
      → total id version (reserve_units old l g occurrence amount z at).1 ≤ limit
  unfolding reserve_units
  reserve_units-total (some old) l g occurrence amount cap limit z at same parsed amounts within =
      within
  reserve_units-total none l g occurrence amount cap limit z at same parsed amounts within =
      reserve_new-total l g occurrence amount cap limit z at same parsed amounts within

  reserve_amount-total :
      (found : Option ℕ) (l : Ledger) (g : Grant) (occurrence amount cap : Text) (limit : ℕ)
      (at : Time)
      → positive_units amount ≡ found
      → (g.id ≡ id → g.version ≡ version → g.aggregate_cap_base_units ≡ cap)
      → positive_units cap ≡ some limit
      → total id version l ≤ limit
      → total id version (reserve_amount found l g occurrence amount at).1 ≤ limit
  unfolding reserve_amount
  reserve_amount-total none l g occurrence amount cap limit at amounts same parsed within = within
  reserve_amount-total (some z) l g occurrence amount cap limit at amounts same parsed within =
      reserve_units-total (get l occurrence) l g occurrence amount cap limit z at same parsed
        amounts within

  reserve_validated-total :
      (r : Result (Unit {0})) (l : Ledger) (g : Grant) (occurrence amount cap : Text) (limit : ℕ)
      (at : Time)
      → (g.id ≡ id → g.version ≡ version → g.aggregate_cap_base_units ≡ cap)
      → positive_units cap ≡ some limit
      → total id version l ≤ limit
      → total id version (reserve_validated r l g occurrence amount at).1 ≤ limit
  unfolding reserve_validated
  reserve_validated-total (err e) l g occurrence amount cap limit at same parsed within = within
  reserve_validated-total (ok _) l g occurrence amount cap limit at same parsed within =
      reserve_amount-total (positive_units amount) l g occurrence amount cap limit at refl same
        parsed within

  reserve-total :
      (l : Ledger) (g : Grant) (occurrence amount cap : Text) (limit : ℕ) (at : Time)
      → (g.id ≡ id → g.version ≡ version → g.aggregate_cap_base_units ≡ cap)
      → positive_units cap ≡ some limit
      → total id version l ≤ limit
      → total id version (reserve l g occurrence amount at).1 ≤ limit
  unfolding reserve
  reserve-total l g occurrence amount cap limit at same parsed within =
      reserve_validated-total (validate g) l g occurrence amount cap limit at same parsed within

  -- Over any history of Reserve, Commit and Release calls from a ledger within the cap, in which
  -- every grant of one identifier and version has one aggregate cap, the sum of the reserved and
  -- committed amounts of that grant stays within the cap.
  pub total_stays_capped :
      (calls : List Call) (l : Ledger) (cap : Text) (limit : ℕ)
      → HasCap cap calls
      → positive_units cap ≡ some limit
      → total id version l ≤ limit
      → total id version (run calls l) ≤ limit
  unfolding run step
  total_stays_capped [] l cap limit same parsed within = within
  total_stays_capped (reserving g occurrence amount at ∷ calls) l cap limit (same, more) parsed
        within =
      total_stays_capped calls _ cap limit more parsed
        (reserve-total l g occurrence amount cap limit at same parsed within)
  total_stays_capped (committing occurrence ∷ calls) l cap limit more parsed within =
      total_stays_capped calls _ cap limit more parsed (rw (commit-total l occurrence) within)
  total_stays_capped (releasing occurrence ∷ calls) l cap limit more parsed within =
      total_stays_capped calls _ cap limit more parsed (omega (arith, release-total l occurrence))

-- The grant and the version agree.
abbrev pub is_same_grant : Grant → Grant → Bool
is_same_grant g g' = text_eq g.id g'.id && g.version == g'.version
