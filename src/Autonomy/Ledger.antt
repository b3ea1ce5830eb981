-- ===== src/Autonomy/Ledger.antt =====
-- internal/autonomy/accounting.go: the ledger behind its lock. Its map is a list of reservations,
-- each under its occurrence.
use wizpay_mcp.Base.{
  ℕ, ◌+◌, ◌-◌, Bool, true, false, ◌&&◌, ltb, ◌==◌, if◌then◌else◌, Time, Text, text_eq, Option, none,
  some, List, [], ◌∷◌, ltb_ℤ, pos, pos_part, int_max, Result, ok, err, plain,
}
use wizpay_mcp.Autonomy.Grant.{Grant, validate, positive_units}

-- The two states that are ever stored.
pub data ReservationState : Type 0 where
  reserved committed : ReservationState

pub record LedgerReservation : Type 0 where
  pub grant_id : Text
  pub occurrence_id : Text
  pub amount : Text
  pub grant_version : ℕ
  pub at : Time
  pub state : ReservationState

abbrev pub Ledger : Type 0
Ledger = List LedgerReservation

-- `NewLedger`
abbrev pub new_ledger : Ledger
new_ledger = []

-- `Get`
unfoldable pub get : Ledger → Text → Option LedgerReservation
get [] occurrence = none
get (r ∷ rs) occurrence =
    let rest = get rs occurrence in if text_eq r.occurrence_id occurrence then some r else rest

-- The number of a stored amount, which parsed when it was reserved.
unfoldable pub units : LedgerReservation → ℕ
units r = elim (positive_units r.amount) [ some n ↦ n | none ↦ 0 ]

-- A reservation of the grant; both states count.
unfoldable pub is_of : Text → ℕ → LedgerReservation → Bool
is_of id version r = text_eq r.grant_id id && r.grant_version == version

-- `total` of `Reserve`, for the grant's identifier and version.
unfoldable pub total : Text → ℕ → Ledger → ℕ
total id version [] = 0
total id version (r ∷ rs) =
    let rest = total id version rs in if is_of id version r then units r + rest else rest

-- `g.RollingWindow > 0 && at.Sub(r.At) < g.RollingWindow`: a difference saturates, and a negative
-- one is below any window.
unfoldable pub in_window : Grant → Time → LedgerReservation → Bool
in_window g at r =
    let elapsed = at - r.at in
    ltb_ℤ (pos 0) g.rolling_window
    && ltb (if ltb int_max elapsed then int_max else elapsed) (pos_part g.rolling_window)

-- `window` of `Reserve`.
unfoldable pub window : Grant → Time → Ledger → ℕ
unfolding in_window
window g at [] = 0
window g at (r ∷ rs) =
    let rest = window g at rs in
    if is_of g.id g.version r && in_window g at r then units r + rest else rest

-- `cap != ""` and the candidate is above it.
unfoldable pub exceeds : Text → ℕ → Bool
exceeds cap candidate = elim (positive_units cap) [
  | some limit ↦ ltb limit candidate
  | none ↦ false
]

-- `Reserve` for an occurrence that has no reservation.
unfoldable pub reserve_new : Ledger → Grant → Text → Text → ℕ → Time → Result Bool × Ledger
reserve_new l g occurrence amount z at =
    if exceeds g.aggregate_cap_base_units (total g.id g.version l + z)
    then (ok false, l)
    else if exceeds g.rolling_window_cap_base_units (window g at l + z)
    then (ok false, l)
    else (
      ok true,
      record {
        grant_id = g.id;
        occurrence_id = occurrence;
        amount = amount;
        grant_version = g.version;
        at = at;
        state = reserved;
      }
          ∷ l,
    )

-- `Reserve` with a parsed amount, from the lookup on.
unfoldable pub reserve_units :
    Option LedgerReservation → Ledger → Grant → Text → Text → ℕ → Time → Result Bool × Ledger
reserve_units (some old) l g occurrence amount z at = (ok (is_of g.id g.version old), l)
reserve_units none l g occurrence amount z at = reserve_new l g occurrence amount z at

-- `Reserve` with a valid grant.
unfoldable pub reserve_amount :
    Option ℕ → Ledger → Grant → Text → Text → Time → Result Bool × Ledger
reserve_amount none l g occurrence amount at = (err plain, l)
reserve_amount (some z) l g occurrence amount at =
    reserve_units (get l occurrence) l g occurrence amount z at

-- `Reserve`, from the validation of the grant on.
unfoldable pub reserve_validated :
    Result (Unit {0}) → Ledger → Grant → Text → Text → Time → Result Bool × Ledger
reserve_validated (err e) l g occurrence amount at = (err e, l)
reserve_validated (ok _) l g occurrence amount at =
    reserve_amount (positive_units amount) l g occurrence amount at

-- `Reserve`
unfoldable pub reserve : Ledger → Grant → Text → Text → Time → Result Bool × Ledger
reserve l g occurrence amount at = reserve_validated (validate g) l g occurrence amount at

-- The map with a reservation committed.
unfoldable pub set_committed : Ledger → Text → Ledger
set_committed [] occurrence = []
set_committed (r ∷ rs) occurrence =
    let rest = set_committed rs occurrence in
    if text_eq r.occurrence_id occurrence then record r { state = committed } ∷ rs else r ∷ rest

unfoldable pub commit_found : Option LedgerReservation → Ledger → Text → Result (Unit {0}) × Ledger
commit_found (some _) l occurrence = (ok tt, set_committed l occurrence)
commit_found none l occurrence = (err plain, l)

-- `Commit`
unfoldable pub commit : Ledger → Text → Result (Unit {0}) × Ledger
commit l occurrence = commit_found (get l occurrence) l occurrence

unfoldable pub if_reserved : ReservationState → Ledger → Ledger → Ledger
if_reserved reserved deleted l = deleted
if_reserved committed deleted l = l

-- `Release`: the reservation is deleted where it is not committed.
unfoldable pub release : Ledger → Text → Ledger
release [] occurrence = []
release (r ∷ rs) occurrence =
    let rest = release rs occurrence in
    if text_eq r.occurrence_id occurrence then if_reserved r.state rs (r ∷ rs) else r ∷ rest
