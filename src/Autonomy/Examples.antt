-- ===== src/Autonomy/Examples.antt =====
-- A grant with a cap of 100, and the theorems applied to it.
use wizpay_mcp.Base.{◌≤◌, refl, false, List, [], ◌∷◌, text, pos, arith}
use wizpay_mcp.Autonomy.Grant.{payroll, Grant, positive_units}
use wizpay_mcp.Autonomy.Ledger.{new_ledger, total}
use wizpay_mcp.Autonomy.Caps.{Call, reserving, committing, releasing, run, total_stays_capped}

abbrev grant : Grant
grant = record {
  id = text "g";
  version = 1;
  principal_user_id = text "u";
  wallet_binding_id = text "b";
  intent = payroll;
  schedule_id = [];
  expires_at = 1000;
  paused = false;
  revoked = false;
  per_action_base_units = [];
  aggregate_cap_base_units = text "100";
  rolling_window_cap_base_units = [];
  rolling_window = pos 0;
  step_up_above_base_units = [];
  allowed_recipients = [];
  allowed_tokens = [];
  allowed_chains = [];
}

abbrev calls : List Call
calls =
    reserving grant (text "a") (text "60") 10
    ∷ committing (text "a")
    ∷ reserving grant (text "b") (text "60") 20
    ∷ releasing (text "a")
    ∷ []

total_stays_capped_example : total (text "g") 1 (run calls new_ledger) ≤ 100
unfolding positive_units total
total_stays_capped_example =
    total_stays_capped (text "g") 1 calls new_ledger (text "100") 100
      (λ _ _. refl, (λ _ _. refl, tt)) refl (omega arith)
