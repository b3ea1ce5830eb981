-- ===== src/Payments/Financial.antt =====
-- internal/intents/types.go: `Type` and `FinancialParameters`.
use wizpay_mcp.Base.{
  ℕ, ◌+◌, ◌==◌, Bool, true, false, not, if◌then◌else◌, Option, none, some, Text, text, text_eq,
  Result, err, plain, refuse_if, ◌>>◌, Libraries,
}
use wizpay_mcp.Payments.Direct.{Send, Bridge, Ans, validate_send, validate_bridge, validate_ans}
use wizpay_mcp.Payments.Payroll.{Payroll, is_some}
use wizpay_mcp.Payments.CrossPayroll.{validate_payroll}
use wizpay_mcp.Payments.Swap.{Swap, validate_swap}

-- `type Type string`
abbrev pub Kind : Type 0
Kind = Text

abbrev pub type_send : Kind
type_send = text "SEND"

abbrev pub type_payroll : Kind
type_payroll = text "PAYROLL"

abbrev pub type_swap : Kind
type_swap = text "SWAP"

abbrev pub type_bridge : Kind
type_bridge = text "BRIDGE"

abbrev pub type_ans_registration : Kind
type_ans_registration = text "ANS_REGISTRATION"

-- A switch over the types, with a default.
unfoldable pub by_kind {ℓ} : {A : Type ℓ} → Kind → A → A → A → A → A → A → A
by_kind k send payroll swap bridge ans other =
    if text_eq k type_send
    then send
    else if text_eq k type_payroll
    then payroll
    else if text_eq k type_swap
    then swap
    else if text_eq k type_bridge
    then bridge
    else if text_eq k type_ans_registration
    then ans
    else other

-- `Type.Valid`
unfoldable pub is_valid_kind : Kind → Bool
unfolding by_kind
is_valid_kind k = by_kind k true true true true true false

-- `FinancialParameters`
pub record Financial : Type 0 where
  pub send : Option Send
  pub payroll : Option Payroll
  pub swap : Option Swap
  pub bridge : Option Bridge
  pub ans : Option Ans

abbrev count_if : Bool → ℕ
count_if true = 1
count_if false = 0

unfoldable pub payload_count : Financial → ℕ
payload_count f =
    count_if (is_some f.send)
    + count_if (is_some f.payroll)
    + count_if (is_some f.swap)
    + count_if (is_some f.bridge)
    + count_if (is_some f.ans)

-- `if p.X == nil { return err }; return p.X.validate()`
abbrev pub validate_present : {A : Type 0} → Option A → (A → Result (Unit {0})) → Result (Unit {0})
validate_present none check = err plain
validate_present (some a) check = check a

module _ ⦃libraries : Libraries⦄ where
  -- `FinancialParameters.validate`
  unfoldable pub validate_financial : Financial → Kind → Result (Unit {0})
  unfolding payload_count by_kind
  validate_financial f k = do
    refuse_if (not (payload_count f == 1)) plain
    by_kind k (validate_present f.send validate_send) (validate_present f.payroll validate_payroll)
        (validate_present f.swap validate_swap) (validate_present f.bridge validate_bridge)
        (validate_present f.ans validate_ans) (err plain)
