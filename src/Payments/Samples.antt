-- ===== src/Payments/Samples.antt =====
-- Libraries, amounts, tokens and payments, for the examples.
use wizpay_mcp.Base.{◌==◌, none, some, [], ◌∷◌, Text, text, len, Libraries}
use wizpay_mcp.Payments.Amount.{Amount}
use wizpay_mcp.Payments.Token.{Token, chain_id_arc, address_usdc, address_eurc, address_router}
use wizpay_mcp.Payments.Payroll.{Payroll, Recipient, batch_single_token_out}
use wizpay_mcp.Payments.CrossPayroll.{Timeline}
use wizpay_mcp.Payments.Swap.{Swap, Quote}

instance abbrev pub demo_libraries : Libraries
demo_libraries = record { is_hex_address = λ t. len t == 42; lower_rune = λ c. c }

abbrev pub amount : Text → Text → Amount
amount d units = record { decimal_text = d; base_units = units; decimals = 6 }

abbrev pub no_amount : Amount
no_amount = record { decimal_text = []; base_units = []; decimals = 0 }

abbrev pub no_token : Token
no_token = record { chain_id = []; standard = []; address = []; symbol = []; decimals = 0 }

abbrev pub token : Text → Text → Token
token symbol address = record {
  chain_id = chain_id_arc;
  standard = text "ERC20";
  address = address;
  symbol = symbol;
  decimals = 6;
}

abbrev pub usdc : Token
usdc = token (text "USDC") address_usdc

abbrev pub eurc : Token
eurc = token (text "EURC") address_eurc

abbrev pub payee : Text → Amount → Recipient
payee address a = record {
  address = address;
  amount = no_amount;
  token_out = usdc;
  amount_in = a;
  min_amount_out = a;
}

-- Two recipients, paid 1.25 and 2 USDC.
abbrev pub demo_payroll : Payroll
demo_payroll = record {
  schema_version = 1;
  variant = batch_single_token_out;
  token_in = usdc;
  token = no_token;
  recipients =
      payee (text "0x1111111111111111111111111111111111111111")
        (amount (text "1.25") (text "1250000"))
      ∷ payee (text "0x2222222222222222222222222222222222222222")
          (amount (text "2") (text "2000000"))
      ∷ [];
  total = amount (text "3.25") (text "3250000");
  reference_id = text "may";
  cross_token = none;
}

abbrev pub demo_quote : Quote
demo_quote = record {
  quote_id = text "q1";
  source = text "quoter";
  expected_amount_out = amount (text "2") (text "2000000");
  min_amount_out = amount (text "1.99") (text "1990000");
  router = address_router;
  expires_at = 500;
  evidence_reference = text "e1";
}

-- 2.1 USDC for at least 1.99 EURC.
abbrev pub demo_swap : Swap
demo_swap = record {
  schema_version = 1;
  input_token = usdc;
  output_token = eurc;
  input_amount = amount (text "2.1") (text "2100000");
  expected_output = amount (text "2") (text "2000000");
  minimum_output = amount (text "1.99") (text "1990000");
  quote_reference = [];
  max_slippage_bps = 50;
  min_hop_price_x36 = text "1";
  router = address_router;
  recipient = text "0x3333333333333333333333333333333333333333";
  quote = some demo_quote;
  deadline = 400;
}

abbrev pub demo_timeline : Timeline
demo_timeline = record { created_at = 100; constraint_deadline = 450; expires_at = 600 }
