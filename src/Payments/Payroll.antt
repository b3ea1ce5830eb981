-- ===== src/Payments/Payroll.antt =====
-- internal/intents/payroll_params.go, and its types in types.go.
use wizpay_mcp.Base.{
  ℕ, ◌==◌, Bool, true, false, not, ◌&&◌, ◌||◌, ltb, leb, if◌then◌else◌, Option, none, some, List,
  [], ◌∷◌, length, Text, is_empty, text_eq, len, Time, ℤ, pos, Result, ok, plain, required,
  refuse_if, when, ◌>>=◌, ◌>>◌, validate_text, Libraries, contains, big_add, big_text, set_string,
}
use wizpay_mcp.Payments.Address.{addresses_equal, normalize_address, validate_nonzero_address}
use wizpay_mcp.Payments.Amount
use wizpay_mcp.Payments.Amount.{
  Amount, amount_eq, base_int, is_positive, is_positive_value, succeeds,
}
use wizpay_mcp.Payments.Token
use wizpay_mcp.Payments.Token.{Token, address_payroll, is_canonical, is_same, validate_phase12}

-- `PayrollVariant`: "", its constants, and the other strings, numbered.
pub data Variant : Type 0 where
  no_variant single batch_single_token_out batch_multi_token_out : Variant
  unknown_variant : ℕ → Variant

pub record Recipient : Type 0 where
  pub address : Text
  pub amount : Amount
  pub token_out : Token
  pub amount_in : Amount
  pub min_amount_out : Amount

-- `CrossTokenPayrollParameters`
pub record CrossToken : Type 0 where
  pub gross_input : Amount
  pub min_total_out : Amount
  pub min_hop_price_x36 : Text
  pub deadline : Time

-- `PayrollParameters`
pub record Payroll : Type 0 where
  pub schema_version : ℕ  -- uint8
  pub variant : Variant
  pub token_in : Token
  pub token : Token
  pub recipients : List Recipient
  pub total : Amount
  pub reference_id : Text
  pub cross_token : Option CrossToken

abbrev pub is_some {ℓ} : {A : Type ℓ} → Option A → Bool
is_some (some _) = true
is_some none = false

-- `Variant != ""`
abbrev pub has_variant : Variant → Bool
has_variant no_variant = false
has_variant _ = true

-- `PayrollVariant.Valid`
unfoldable pub is_valid_variant : Variant → Bool
is_valid_variant no_variant = false
is_valid_variant (unknown_variant _) = false
is_valid_variant _ = true

abbrev pub is_single : Variant → Bool
is_single single = true
is_single _ = false

abbrev pub is_batch_single : Variant → Bool
is_batch_single batch_single_token_out = true
is_batch_single _ = false

-- The loop of `IsPhase12`.
unfoldable pub has_phase12_line : List Recipient → Bool
has_phase12_line [] = false
has_phase12_line (r ∷ rs) =
    not (Token.is_unset r.token_out)
    || not (Amount.is_unset r.amount_in)
    || not (Amount.is_unset r.min_amount_out)
    || has_phase12_line rs

-- `IsPhase12`
unfoldable pub is_phase12 : Payroll → Bool
is_phase12 p =
    leb 1 p.schema_version
    || has_variant p.variant
    || not (Token.is_unset p.token_in)
    || is_some p.cross_token
    || has_phase12_line p.recipients

-- `validatePayrollReferenceID`
unfoldable pub validate_reference_id : Text → Result (Unit {0})
validate_reference_id value = do validate_text value; refuse_if (ltb 64 (len value)) plain

-- `SourceToken`
unfoldable pub source_token : Payroll → Token
source_token p = if is_phase12 p && not (Token.is_unset p.token_in) then p.token_in else p.token

-- The loop of `validateLegacy`, from a running total.
unfoldable pub legacy_total : ℕ → ℤ → List Recipient → Result ℤ
legacy_total decimals total [] = ok total
legacy_total decimals total (r ∷ rs) = do
  validate_text r.address
  Amount.validate r.amount
  refuse_if (not (r.amount.decimals == decimals)) plain
  value ← required (set_string r.amount.base_units)
  legacy_total decimals (big_add total value) rs

-- `validateLegacy`
unfoldable pub validate_legacy : Payroll → Result (Unit {0})
validate_legacy p = do
  Token.validate p.token
  refuse_if (length p.recipients == 0 || ltb 500 (length p.recipients)) plain
  total ← legacy_total p.token.decimals (pos 0) p.recipients
  Amount.validate p.total
  refuse_if
      (not (p.total.decimals == p.token.decimals)
        || not (text_eq (big_text total) p.total.base_units))
      plain

-- The switch of `validatePhase12` over the reference.
unfoldable pub check_reference : Variant → Text → Result (Unit {0})
check_reference single reference = when (not (is_empty reference)) (validate_reference_id reference)
check_reference batch_single_token_out reference = validate_reference_id reference
check_reference batch_multi_token_out reference = validate_reference_id reference
check_reference _ reference = ok tt

-- What the loop over the recipients keeps; `singleTokenOut` is read for one variant only.
pub record Lines : Type 0 where
  pub total : ℤ
  pub seen : List Text
  pub single_token_out : Option Text

abbrev pub no_lines : Lines
no_lines = record { total = pos 0; seen = []; single_token_out = none }

-- The last check of a line.
abbrev check_single : Variant → Option Text → Text → Result (Unit {0})
check_single v none out = ok tt
check_single v (some first) out = refuse_if (is_batch_single v && not (text_eq out first)) plain

abbrev first_token : Option Text → Text → Option Text
first_token none out = some out
first_token (some first) out = some first

module _ ⦃libraries : Libraries⦄ where
  -- One round of the loop of `validatePhase12`.
  unfoldable pub next_line : Payroll → Recipient → Lines → Result Lines
  next_line p r l = do
    validate_nonzero_address r.address
    refuse_if (contains (normalize_address r.address) l.seen) plain
    validate_phase12 r.token_out
    refuse_if (not (text_eq r.token_out.chain_id p.token_in.chain_id)) plain
    refuse_if (not (is_positive r.amount_in)) plain
    refuse_if (not (r.amount_in.decimals == p.token_in.decimals)) plain
    refuse_if (not (is_positive r.min_amount_out)) plain
    refuse_if (not (r.min_amount_out.decimals == r.token_out.decimals)) plain
    refuse_if (not (Amount.is_unset r.amount)) plain
    value ← base_int r.amount_in
    check_single p.variant l.single_token_out (normalize_address r.token_out.address)
    ok (record {
      total = big_add l.total value;
      seen = normalize_address r.address ∷ l.seen;
      single_token_out = first_token l.single_token_out (normalize_address r.token_out.address);
    })

  unfoldable pub all_lines : Payroll → List Recipient → Lines → Result Lines
  all_lines p [] l = ok l
  all_lines p (r ∷ rs) l = do l' ← next_line p r l; all_lines p rs l'

  -- The end of `validatePhase12`: a legacy token must be the source token.
  unfoldable pub check_legacy_token : Payroll → Result (Unit {0})
  check_legacy_token p = when (not (Token.is_unset p.token)) (do
    Token.validate p.token
    refuse_if
        (not (addresses_equal p.token.address p.token_in.address)
          || not (text_eq p.token.chain_id p.token_in.chain_id)
          || not (p.token.decimals == p.token_in.decimals)
          || not (text_eq p.token.standard p.token_in.standard))
        plain)

  -- `validatePhase12`
  unfoldable pub validate_payroll_phase12 : Payroll → Result (Unit {0})
  validate_payroll_phase12 p = do
    refuse_if (not (p.schema_version == 1)) plain
    refuse_if (not (is_valid_variant p.variant)) plain
    validate_phase12 p.token_in
    refuse_if (length p.recipients == 0) plain
    refuse_if (ltb 50 (length p.recipients)) plain
    refuse_if (is_single p.variant && not (length p.recipients == 1)) plain
    check_reference p.variant p.reference_id
    lines ← all_lines p p.recipients no_lines
    Amount.validate p.total
    refuse_if (not (p.total.decimals == p.token_in.decimals)) plain
    refuse_if (not (is_positive p.total)) plain
    refuse_if (not (text_eq (big_text lines.total) p.total.base_units)) plain
    check_legacy_token p
