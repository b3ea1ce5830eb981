-- ===== src/Policies/View.antt =====
-- internal/policies/evaluator.go: what the rules see of an intent.
use wizpay_mcp.Base.{
  ℕ, not, ◌&&◌, ltb, if◌then◌else◌, Option, none, some, List, [], ◌∷◌, map, Text, text_eq, Time, ℤ,
  Result, ok, err, plain, ◌>>=◌, big_add, big_mul, big_quo, big_text, sort_by, sort_texts, Platform,
  Libraries,
}
use wizpay_mcp.Intents.Intent.{Intent}
use wizpay_mcp.Payments.Amount.{Amount, base_int, canonical_amount_decimal}
use wizpay_mcp.Payments.Direct.{Send, Bridge, Ans}
use wizpay_mcp.Payments.Payroll.{Payroll, CrossToken, Recipient, source_token}
use wizpay_mcp.Payments.CrossPayroll.{same_token_executable, cross_token_executable}
use wizpay_mcp.Payments.Swap.{Swap}
use wizpay_mcp.Payments.Financial.{Kind, Financial, by_kind}
use wizpay_mcp.Payments.Normal.{Encoding, intent_material}
use wizpay_mcp.Policies.Types.{TokenReference, token_reference, token_key}

-- `intentView`
pub record View : Type 0 where
  pub kind : Kind
  pub spend_token : TokenReference
  pub spend_amount : Amount
  pub chains : List Text
  pub tokens : List TokenReference
  pub recipients : List Text
  pub created_at : Time
  pub effective_deadline : Time

-- `payrollMaximumEmployerExposure`, of obligations of that many base units.
abbrev exposure : ℤ → ℕ → Amount
exposure base decimals =
    let total = big_add base (big_quo (big_mul base 100) 10000) in
    record {
      decimal_text = canonical_amount_decimal total decimals;
      base_units = big_text total;
      decimals = decimals;
    }

abbrev exposure_of : Result ℤ → Amount → Amount
exposure_of (ok base) a = exposure base a.decimals
exposure_of (err _) a = a

-- `payrollMaximumEmployerExposure`
unfoldable pub payroll_maximum_employer_exposure : Amount → Amount
payroll_maximum_employer_exposure a = exposure_of (base_int a) a

-- The elements without those equal to the one kept before them, by key.
module _ {ℓ} {A : Type ℓ} (key : A → Text) where
  unfoldable pub unique_after : A → List A → List A
  unique_after last [] = []
  unique_after last (v ∷ vs) =
      let dropped = unique_after last vs in
      let kept = unique_after v vs in if text_eq (key last) (key v) then dropped else v ∷ kept

  unfoldable pub unique : List A → List A
  unfolding unique_after
  unique [] = []
  unique (v ∷ vs) = v ∷ unique_after v vs

-- `uniqueSorted`
abbrev pub unique_sorted : List Text → List Text
unique_sorted ts = unique (λ t. t) (sort_texts ts)

abbrev earlier : Time → Time → Time
earlier a b = if ltb a b then a else b

-- The deadline that a payroll of another token sets.
abbrev cross_deadline : Option CrossToken → Time → Time
cross_deadline none t = t
cross_deadline (some c) t = earlier c.deadline t

abbrev cross_amount : Option CrossToken → Amount → Amount
cross_amount none total = total
cross_amount (some c) total = c.gross_input

module _ ⦃libraries : Libraries⦄ where
  -- The cases of the switch of `newIntentView`, from a view without them.
  unfoldable pub view_send : View → Send → View
  view_send v s = record v {
    spend_token = token_reference s.token;
    spend_amount = s.amount;
    chains = s.token.chain_id ∷ [];
    tokens = token_reference s.token ∷ [];
    recipients = s.recipient ∷ [];
  }

  unfoldable pub view_payroll : View → Payroll → View
  view_payroll v p =
      let source = token_reference (source_token p) in
      let same = same_token_executable p in
      let cross = cross_token_executable p in
      record v {
        spend_token = source;
        spend_amount =
            if same
            then payroll_maximum_employer_exposure p.total
            else if cross
            then cross_amount p.cross_token p.total
            else p.total;
        effective_deadline =
            if not same && cross
            then cross_deadline p.cross_token v.effective_deadline
            else v.effective_deadline;
        chains = source.chain_id ∷ [];
        tokens = source ∷ [];
        recipients = map (λ (r : Recipient). r.address) p.recipients;
      }

  unfoldable pub view_swap : View → Swap → View
  view_swap v s = record v {
    spend_token = token_reference s.input_token;
    spend_amount = s.input_amount;
    chains = s.input_token.chain_id ∷ s.output_token.chain_id ∷ [];
    tokens = token_reference s.input_token ∷ token_reference s.output_token ∷ [];
  }

  unfoldable pub view_bridge : View → Bridge → View
  view_bridge v b = record v {
    spend_token = token_reference b.source_token;
    spend_amount = b.source_amount;
    chains = b.source_chain_id ∷ b.destination_chain_id ∷ [];
    tokens = token_reference b.source_token ∷ [];
    recipients = b.destination_address ∷ [];
  }

  unfoldable pub view_ans : View → Ans → View
  view_ans v a = record v {
    spend_token = token_reference a.cost_token;
    spend_amount = a.cost;
    chains = a.cost_token.chain_id ∷ [];
    tokens = token_reference a.cost_token ∷ [];
    recipients = a.controller ∷ [];
  }

  abbrev view_present : {A : Type 0} → Option A → (A → View) → Result View
  view_present none f = err plain
  view_present (some a) f = ok (f a)

  unfoldable pub view_kind : Kind → Financial → View → Result View
  unfolding by_kind
  view_kind k f v =
      by_kind k (view_present f.send (view_send v)) (view_present f.payroll (view_payroll v))
        (view_present f.swap (view_swap v)) (view_present f.bridge (view_bridge v))
        (view_present f.ans (view_ans v)) (err plain)

  abbrev no_token : TokenReference
  no_token = record { chain_id = []; standard = []; address = []; decimals = 0 }

  abbrev no_amount : Amount
  no_amount = record { decimal_text = []; base_units = []; decimals = 0 }

  module _ ⦃platform : Platform⦄ ⦃encoding : Encoding⦄ where
    -- `newIntentView`. The parameters are valid, so the payload of the type is present.
    unfoldable pub new_intent_view : Intent → Result View
    new_intent_view i = do
      let p = i.params
      v ← view_kind p.kind p.financial (record {
        kind = p.kind;
        spend_token = no_token;
        spend_amount = no_amount;
        chains = [];
        tokens = [];
        recipients = [];
        created_at = p.created_at;
        effective_deadline = earlier p.constraints.deadline p.expires_at;
      })
      ok (record v {
        chains = unique_sorted v.chains;
        recipients = unique_sorted v.recipients;
        tokens = unique token_key (sort_by token_key v.tokens);
      })
