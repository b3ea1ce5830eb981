-- ===== src/Payments/Totals.antt =====
-- What a payroll pays in all, and to whom.
use wizpay_mcp.Base.{
  ℕ, ◌+◌, ◌≡◌, Bool, true, false, List, [], ◌∷◌, Text, decimal, contains, Libraries,
}
use wizpay_mcp.Payments.Address.{normalize_address}
use wizpay_mcp.Payments.Amount
use wizpay_mcp.Payments.Amount.{Amount, base_int}
use wizpay_mcp.Payments.Token.{Token}
use wizpay_mcp.Payments.Payroll.{Recipient, Payroll, is_some, is_phase12}
use wizpay_mcp.Payments.Values.{units}

-- The base units of one amount of each recipient together.
unfoldable pub total_of : (Recipient → Amount) → List Recipient → ℕ
total_of f [] = 0
total_of f (r ∷ rs) = units (f r) + total_of f rs

module _ ⦃libraries : Libraries⦄ where
  -- The payees have different addresses, up to case, and none of those before.
  abbrev pub AreDistinct : List Text → List Recipient → Type 0
  AreDistinct seen [] = Unit {0}
  AreDistinct seen (r ∷ rs) =
      (contains (normalize_address r.address) seen ≡ false)
      × AreDistinct (normalize_address r.address ∷ seen) rs

  -- The total is the decimal number of the sum, and the payees are distinct.
  abbrev IsExact : (Recipient → Amount) → Payroll → Type 0
  IsExact f p =
      (p.total.base_units ≡ decimal (total_of f p.recipients)) × AreDistinct [] p.recipients

  -- What a payroll owes to a recipient, by its shape.
  abbrev pub obligation_of : Bool → Bool → Recipient → Amount
  obligation_of true true r = r.min_amount_out
  obligation_of true false r = r.amount_in
  obligation_of false cross r = r.amount

  abbrev pub obligation : Payroll → Recipient → Amount
  obligation p = obligation_of (is_phase12 p) (is_some p.cross_token)
