-- ===== src/Providers/Observation.antt =====
-- internal/providers/reorg.go: observations of receipts, their comparison, and the tracker that keeps
-- the last one of each transaction. The map behind its lock is a list of keys and observations, of
-- which the first of a key counts.
use wizpay_mcp.Base.{
  ℕ, ◌++◌, ◌==◌, Bool, true, false, not, ◌&&◌, ◌||◌, ltb, if◌then◌else◌, List, [], ◌∷◌, Text, text,
  is_empty, text_eq, trim_space, Option, none, some, Libraries,
}
use wizpay_mcp.Payments.Address.{to_lower}

-- A status that is none of the three has its string.
pub data ReceiptStatus : Type 0 where
  receipt_success receipt_reverted receipt_unknown : ReceiptStatus
  other_status : Text → ReceiptStatus

pub record ReceiptObservation : Type 0 where
  pub chain_id : Text
  pub transaction_hash : Text
  pub status : ReceiptStatus
  pub block_number : ℕ
  pub block_hash : Text
  pub confirmations : ℕ
  pub present : Bool
  pub known : Bool
  pub log_fingerprint : Text

-- `HasInclusion`
unfoldable pub has_inclusion : ReceiptObservation → Bool
has_inclusion o = o.known || o.present || not (is_empty o.block_hash) || not (o.block_number == 0)

pub data ReorgSignal : Type 0 where
  reorg_none receipt_missing block_hash_changed block_number_changed : ReorgSignal
  confirmations_decreased logs_changed : ReorgSignal

-- `Inconsistent`
unfoldable pub inconsistent : ReorgSignal → Bool
inconsistent reorg_none = false
inconsistent _ = true

-- `ReasonCodeForReorg`
unfoldable pub reason_code_for_reorg : ReorgSignal → Text
reason_code_for_reorg receipt_missing = text "ONCHAIN_REORG_RECEIPT_MISSING"
reason_code_for_reorg block_hash_changed = text "ONCHAIN_REORG_BLOCK_HASH_CHANGED"
reason_code_for_reorg block_number_changed = text "ONCHAIN_REORG_BLOCK_NUMBER_CHANGED"
reason_code_for_reorg confirmations_decreased = text "ONCHAIN_REORG_CONFIRMATIONS_DECREASED"
reason_code_for_reorg logs_changed = text "ONCHAIN_REORG_LOGS_CHANGED"
reason_code_for_reorg reorg_none = text "ONCHAIN_REORG_INCONSISTENT"

-- What the code takes from Go's `strings`.
pub record Folding : Type 0 where
  -- `strings.EqualFold`
  pub equal_fold : Text → Text → Bool

module _ ⦃folding : Folding⦄ where
  open folding use {equal_fold}

  -- The block of the current receipt is not that of the prior one, where both name theirs.
  unfoldable pub hash_differs : ReceiptObservation → ReceiptObservation → Bool
  hash_differs prior current =
      not (is_empty prior.block_hash)
      && not (is_empty current.block_hash)
      && not (equal_fold prior.block_hash current.block_hash)

  -- `CompareReceiptObservations`
  unfoldable pub compare_receipt_observations :
      ReceiptObservation → ReceiptObservation → ReorgSignal
  compare_receipt_observations prior current =
      if not (has_inclusion prior)
      then reorg_none
      else if not current.present
      then (if prior.present then receipt_missing else reorg_none)
      else if hash_differs prior current
      then block_hash_changed
      else if not (prior.block_number == 0)
          && not (current.block_number == 0)
          && not (prior.block_number == current.block_number)
      then block_number_changed
      else if prior.present
          && ltb 0 prior.confirmations
          && ltb current.confirmations prior.confirmations
      then confirmations_decreased
      else if prior.present
          && not (is_empty prior.log_fingerprint)
          && (is_empty current.log_fingerprint
              || not (text_eq prior.log_fingerprint current.log_fingerprint))
      then logs_changed
      else reorg_none

module _ ⦃libraries : Libraries⦄ where
  -- `strings.ToLower(strings.TrimSpace(value))`
  unfoldable pub normal : Text → Text
  normal value = to_lower (trim_space value)

  -- `MergeObservation`
  unfoldable pub merge_observation : ReceiptObservation → ReceiptObservation → ReceiptObservation
  merge_observation prior current =
      let out = record current { transaction_hash = normal current.transaction_hash } in
      if current.present
      then record out {
        known = true;
        present = true;
        block_hash = normal current.block_hash;
        log_fingerprint = normal current.log_fingerprint;
      }
      else if has_inclusion prior
      then record out {
        known = true;
        present = false;
        block_hash = prior.block_hash;
        block_number = prior.block_number;
        confirmations = 0;
        status = receipt_unknown;
        log_fingerprint = prior.log_fingerprint;
      }
      else record out { known = false; present = false }

  -- `observationKey`
  unfoldable pub observation_key : Text → Text → Text
  observation_key chain transaction = chain ++ b'|' ∷ normal transaction

abbrev pub Tracker : Type 0
Tracker = List (Text × ReceiptObservation)

-- `NewObservationTracker`
abbrev pub new_observation_tracker : Tracker
new_observation_tracker = []

-- `t.byTX[key]`
unfoldable pub get : Text → Tracker → Option ReceiptObservation
get key [] = none
get key ((k, o) ∷ t) = let rest = get key t in if text_eq k key then some o else rest

-- The values of `found` or of the one passed in.
abbrev pub or_else : Option ReceiptObservation → ReceiptObservation → ReceiptObservation
or_else (some found) passed = found
or_else none passed = passed

module _ ⦃libraries : Libraries⦄ where
  -- `Prior`
  unfoldable pub prior_of : Tracker → Text → Text → Option ReceiptObservation
  prior_of t chain transaction = get (observation_key chain transaction) t

  -- `Remember`
  unfoldable pub remember : Tracker → ReceiptObservation → Tracker
  remember t o =
      let hash = normal o.transaction_hash in
      if is_empty o.chain_id || is_empty o.transaction_hash
      then t
      else (observation_key o.chain_id hash, record o { transaction_hash = hash }) ∷ t

  -- What `Evaluate` fills in of the current observation.
  unfoldable pub filled : ReceiptObservation → ReceiptObservation → ReceiptObservation
  filled durable current = record current {
    chain_id = if is_empty current.chain_id then durable.chain_id else current.chain_id;
    transaction_hash =
        if is_empty current.transaction_hash
        then durable.transaction_hash
        else current.transaction_hash;
  }

  module _ ⦃folding : Folding⦄ where
    -- `Evaluate`: the signal, the merged observation, and the tracker after the call. The chain and
    -- the hash of the merged one are filled in where they are empty.
    unfoldable pub evaluate :
        Tracker
        → ReceiptObservation
        → ReceiptObservation
        → ReorgSignal × ReceiptObservation × Tracker
    evaluate t durable observed =
        let current = filled durable observed in
        let prior = or_else (prior_of t current.chain_id current.transaction_hash) durable in
        let merged = merge_observation prior current in
        let out = record merged {
          chain_id = if is_empty merged.chain_id then current.chain_id else merged.chain_id;
          transaction_hash =
              if is_empty merged.transaction_hash
              then normal current.transaction_hash
              else merged.transaction_hash;
        } in
        (compare_receipt_observations prior current, out, remember t out)

-- `ValidateObservationKey`: whether it accepts.
unfoldable pub validate_observation_key : Text → Text → Bool
validate_observation_key chain transaction = not (is_empty chain || is_empty transaction)
