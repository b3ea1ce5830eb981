-- ===== src/Providers/Tracking.antt =====
-- What the tracker keeps of the block of a transaction, over histories of observations.
use wizpay_mcp.Base.{
  ◌≡◌, ◌≢◌, ◌⊎◌, inl, inr, refl, sym, ap, ◌∙◌, Bool, true, false, List, [], ◌∷◌, Text, text_eq→≡,
  some, Libraries, arith,
}
use mathlib.Core.Path.{subst}
use wizpay_mcp.Providers.Observation.{
  ReceiptObservation, has_inclusion, ReorgSignal, reorg_none, receipt_missing, Folding,
  hash_differs, compare_receipt_observations, normal, merge_observation, observation_key, Tracker,
  get, or_else, prior_of, remember, filled, evaluate,
}

-- A call of `Evaluate`: its arguments.
pub record Call : Type 0 where
  pub durable : ReceiptObservation
  pub observed : ReceiptObservation

module _ ⦃libraries : Libraries⦄ ⦃folding : Folding⦄ where
  open folding use {equal_fold}

  -- The observation that a call is about, and its key.
  abbrev pub current_of : Call → ReceiptObservation
  current_of m = filled m.durable m.observed

  abbrev pub key_of : Call → Text
  key_of m = observation_key (current_of m).chain_id (current_of m).transaction_hash

  unfoldable pub play : List Call → Tracker → Tracker
  play [] t = t
  play (m ∷ ms) t = play ms (evaluate t m.durable m.observed).2

  -- The observation names a block, with a trimmed hash in lower case.
  abbrev pub NamesBlock : ReceiptObservation → Type 0
  NamesBlock o = (o.block_hash ≢ []) × (normal o.block_hash ≡ o.block_hash) × (o.block_number ≢ 0)

  -- The second observation names the block of the first.
  abbrev pub SameBlock : ReceiptObservation → ReceiptObservation → Type 0
  SameBlock o c = (o.block_number ≡ c.block_number) × (equal_fold o.block_hash c.block_hash ≡ true)

  -- The signal is none, or says no more than that the receipt is gone.
  abbrev pub IsQuiet : ReorgSignal → Type 0
  IsQuiet s = (s ≡ reorg_none) ⊎ (s ≡ receipt_missing)

  -- Every call is about a trimmed transaction hash in lower case; and those of one key, where they
  -- observe a receipt, name its block, and get a quiet signal.
  unfoldable pub Quiet : Text → List Call → Tracker → Type 0
  Quiet key [] t = Unit
  Quiet key (m ∷ ms) t =
      (normal (current_of m).transaction_hash ≡ (current_of m).transaction_hash)
      × (key_of m ≡ key
          → ((current_of m).present ≡ true → NamesBlock (current_of m))
            × IsQuiet (evaluate t m.durable m.observed).0)
      × Quiet key ms (evaluate t m.durable m.observed).2

  compared :
      (o c : ReceiptObservation)
      → NamesBlock o
      → NamesBlock c
      → c.present ≡ true
      → IsQuiet (compare_receipt_observations o c)
      → SameBlock o c
  unfolding compare_receipt_observations has_inclusion hash_differs
  compared o c (h, n, b) (h', n', b') p q = ground arith

  merged_present :
      (o c : ReceiptObservation)
      → c.present ≡ true
      → NamesBlock c
      → ((merge_observation o c).block_hash ≡ c.block_hash)
        × ((merge_observation o c).block_number ≡ c.block_number)
  unfolding merge_observation
  merged_present o c p n = ground (arith, n)

  merged_absent :
      (o c : ReceiptObservation)
      → c.present ≡ false
      → NamesBlock o
      → ((merge_observation o c).block_hash ≡ o.block_hash)
        × ((merge_observation o c).block_number ≡ o.block_number)
  unfolding merge_observation has_inclusion
  merged_absent o c p n = ground (arith, n)

  remembered :
      (t : Tracker) (o : ReceiptObservation) (key : Text)
      → normal o.transaction_hash ≡ o.transaction_hash
      → (get key (remember t o) ≡ get key t)
        ⊎ (observation_key o.chain_id o.transaction_hash ≡ key) × (get key (remember t o) ≡ some o)
  unfolding remember get
  remembered t o key n =
      ground (arith, n, text_eq→≡ (observation_key o.chain_id (normal o.transaction_hash)) key)

  -- What a call puts into the tracker.
  abbrev merged_of : Tracker → Call → ReceiptObservation
  merged_of t m = (evaluate t m.durable m.observed).1

  abbrev prior_seen : Tracker → Call → ReceiptObservation
  prior_seen t m =
      or_else (prior_of t (current_of m).chain_id (current_of m).transaction_hash) m.durable

  merged_key :
      (t : Tracker) (m : Call)
      → normal (current_of m).transaction_hash ≡ (current_of m).transaction_hash
      → ((merged_of t m).transaction_hash ≡ (current_of m).transaction_hash)
        × ((merged_of t m).chain_id ≡ (current_of m).chain_id)
  unfolding evaluate merge_observation
  merged_key t m n = ground (arith, n)

  merged_block :
      (t : Tracker) (m : Call)
      → ((merged_of t m).block_hash
          ≡ (merge_observation (prior_seen t m) (current_of m)).block_hash)
        × ((merged_of t m).block_number
            ≡ (merge_observation (prior_seen t m) (current_of m)).block_number)
  unfolding evaluate
  merged_block t m = (refl, refl)

  seen :
      (t : Tracker) (m : Call) (key : Text) (o : ReceiptObservation)
      → key_of m ≡ key
      → get key t ≡ some o
      → prior_seen t m ≡ o
  unfolding prior_of
  seen t m key o k g = ap (λ x. or_else x m.durable) (ap (λ x. get x t) k ∙ g)

  signal_of :
      (t : Tracker) (m : Call)
      → (evaluate t m.durable m.observed).0
        ≡ compare_receipt_observations (prior_seen t m) (current_of m)
  unfolding evaluate
  signal_of t m = refl

  module _ (fold_refl : (a : Text) → equal_fold a a ≡ true)
      (fold_trans : (a b c : Text)
        → equal_fold a b ≡ true
        → equal_fold b c ≡ true
        → equal_fold a c ≡ true) where
    -- The observation names a block, the one of the other.
    abbrev KeepsBlock : ReceiptObservation → ReceiptObservation → Type 0
    KeepsBlock o c = NamesBlock c × SameBlock o c

    moved_block :
        (o c c' : ReceiptObservation)
        → c'.block_hash ≡ c.block_hash
        → c'.block_number ≡ c.block_number
        → KeepsBlock o c
        → KeepsBlock o c'
    moved_block o c c' h n ((hashed, normalised, positive), (number, fold)) = (
      (λ e. hashed (sym h ∙ e), ap normal h ∙ normalised ∙ sym h, λ e. positive (sym n ∙ e)),
      (number ∙ sym n, ap (equal_fold o.block_hash) h ∙ fold),
    )

    merged_keeps :
        (o c : ReceiptObservation) (present : Bool)
        → c.present ≡ present
        → NamesBlock o
        → (c.present ≡ true → NamesBlock c)
        → IsQuiet (compare_receipt_observations o c)
        → KeepsBlock o (merge_observation o c)
    merged_keeps o c true p n named q =
        let (hash, number) = merged_present o c p (named p) in
        moved_block o c (merge_observation o c) hash number (named p, compared o c n (named p) p q)
    merged_keeps o c false p n named q =
        let (hash, number) = merged_absent o c p n in
        moved_block o o (merge_observation o c) hash number (n, (refl, fold_refl o.block_hash))

    evaluated :
        (t : Tracker) (m : Call) (key : Text) (o : ReceiptObservation)
        → normal (current_of m).transaction_hash ≡ (current_of m).transaction_hash
        → (key_of m ≡ key
            → ((current_of m).present ≡ true → NamesBlock (current_of m))
              × IsQuiet (evaluate t m.durable m.observed).0)
        → get key t ≡ some o
        → NamesBlock o
        → (c : ReceiptObservation) × (get key (evaluate t m.durable m.observed).2 ≡ some c)
          × KeepsBlock o c
    unfolding evaluate
    evaluated t m key o n quiet g named =
        let (transaction, chain) = merged_key t m n in
        elim (remembered t (merged_of t m) key (ap normal transaction ∙ n ∙ sym transaction)) [
          | inl same ↦ (o, same ∙ g, (named, (refl, fold_refl o.block_hash)))
          | inr (k, stored) ↦
              let is_key : key_of m ≡ key = cc in
              let current = current_of m in
              let prior = seen t m key o is_key g in
              let (hash, number) = merged_block t m in
              let (receipt, signal) = quiet is_key in
              let compared_with =
                signal_of t m ∙ ap (λ x. compare_receipt_observations x current) prior in
              let keeps =
                merged_keeps o current current.present refl named receipt
                  (subst IsQuiet compared_with signal) in
              (
                merged_of t m,
                stored,
                moved_block o (merge_observation o current) (merged_of t m)
                    (hash ∙ ap (λ x. (merge_observation x current).block_hash) prior)
                    (number ∙ ap (λ x. (merge_observation x current).block_number) prior) keeps,
              )
        ]

    -- If the tracker holds an observation of a transaction that names a block, and in a history of
    -- calls of Evaluate each is about a normal transaction hash, and those for that transaction,
    -- where they observe a receipt, name a block, and get no signal but that the receipt is gone,
    -- then the tracker holds an observation of that transaction after the history, and it names
    -- the same block, also where the receipt had gone and come back.
    pub play-SameBlock :
        (ms : List Call) (t : Tracker) (key : Text) (o : ReceiptObservation)
        → get key t ≡ some o
        → NamesBlock o
        → Quiet key ms t
        → (c : ReceiptObservation) × (get key (play ms t) ≡ some c) × NamesBlock c × SameBlock o c
    unfolding play Quiet
    play-SameBlock [] t key o g named q = (o, g, named, (refl, fold_refl o.block_hash))
    play-SameBlock (m ∷ ms) t key o g named (n, quiet, later) =
        let (c, stored, (named_c, (number, fold))) = evaluated t m key o n quiet g named in
        let (d, last, named_d, (number', fold')) = play-SameBlock ms _ key c stored named_c later in
        (
          d,
          last,
          named_d,
          (number ∙ number', fold_trans o.block_hash c.block_hash d.block_hash fold fold'),
        )
