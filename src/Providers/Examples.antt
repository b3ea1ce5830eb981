-- ===== src/Providers/Examples.antt =====
-- A receipt that goes and comes back, and the theorem applied to it.
use wizpay_mcp.Base.{
  ◌≡◌, ◌≢◌, inl, inr, refl, true, false, [], ◌∷◌, Text, text, text_eq, text_eq→≡, text_eq_refl,
  trim_space, drop_spaces, some, List, arith,
}
use mathlib.Core.Path.{subst}
use wizpay_mcp.Payments.Address
use wizpay_mcp.Payments.Samples.{demo_libraries}
use wizpay_mcp.Providers.Observation
use wizpay_mcp.Providers.Observation.{
  ReceiptObservation, receipt_success, receipt_unknown, receipt_missing, reorg_none,
  block_hash_changed, Folding, Tracker, get, evaluate,
}
use wizpay_mcp.Providers.Tracking.{Call, NamesBlock, SameBlock, Quiet, play, play-SameBlock}

instance abbrev demo_folding : Folding
demo_folding = record { equal_fold = text_eq }

fold_trans : (a b c : Text) → text_eq a b ≡ true → text_eq b c ≡ true → text_eq a c ≡ true
fold_trans a b c p q =
    subst (λ x. text_eq x c ≡ true)
      (text_eq→≡ b a (subst (λ x. text_eq x a ≡ true) (text_eq→≡ a b p) (text_eq_refl a))) q

abbrev receipt : ReceiptObservation
receipt = record {
  chain_id = text "1";
  transaction_hash = text "0xa";
  status = receipt_success;
  block_number = 7;
  block_hash = text "0xb";
  confirmations = 2;
  present = true;
  known = true;
  log_fingerprint = [];
}

abbrev gone : ReceiptObservation
gone = record receipt {
  status = receipt_unknown;
  block_number = 0;
  block_hash = [];
  confirmations = 0;
  present = false;
  known = false;
}

abbrev elsewhere : ReceiptObservation
elsewhere = record receipt { transaction_hash = text "0xc"; block_number = 9 }

abbrev calls : List Call
calls =
    (record { durable = gone; observed = gone })
    ∷ (record { durable = gone; observed = elsewhere })
    ∷ (record { durable = gone; observed = receipt })
    ∷ []

abbrev first : Tracker
first = (text "1|0xa", receipt) ∷ []

-- Another block is noticed while the receipt is gone.
moved_test :
    (evaluate
      (play ((record { durable = gone; observed = gone }) ∷ []) first)
      gone
      (record receipt { block_hash = text "0xd" })).0
    ≡ block_hash_changed
unfolding play evaluate Observation.filled Observation.prior_of Observation.observation_key
    Observation.normal Observation.get Observation.remember Observation.merge_observation
    Observation.compare_receipt_observations Observation.has_inclusion Observation.hash_differs
    Address.to_lower trim_space drop_spaces text_eq
moved_test = refl

receipt-NamesBlock : NamesBlock receipt
unfolding Observation.normal Address.to_lower trim_space drop_spaces
receipt-NamesBlock = (λ e. cc, refl, λ e. omega arith)

differs : text "1|0xc" ≢ text "1|0xa"
differs e = ground arith

calls-Quiet : Quiet (text "1|0xa") calls first
unfolding Quiet evaluate Observation.filled Observation.prior_of Observation.observation_key
    Observation.normal Observation.get Observation.remember Observation.merge_observation
    Observation.compare_receipt_observations Observation.has_inclusion Observation.hash_differs
    Address.to_lower trim_space drop_spaces text_eq
calls-Quiet = (
  refl,
  (λ k. ((λ p. absurd (cc)), inr refl)),
  (refl, (λ k. absurd (differs k)), (refl, (λ k. ((λ p. receipt-NamesBlock), inl refl)), tt)),
)

play-SameBlock_example :
    (c : ReceiptObservation) × (get (text "1|0xa") (play calls first) ≡ some c)
    × NamesBlock c
    × SameBlock receipt c
unfolding get text_eq
play-SameBlock_example =
    play-SameBlock text_eq_refl fold_trans calls first (text "1|0xa") receipt refl
      receipt-NamesBlock calls-Quiet
