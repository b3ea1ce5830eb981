-- ===== src/Runtime/ReadBack.antt =====
-- The rows of evidence that were inserted, as they are read back.
use wizpay_mcp.Base.{
  ℕ, ◌+◌, ◌<◌, ◌≤◌, ◌≡◌, refl, pos, true, false, Time, is_zero, Text, is_empty, text_eq→≡,
  trim_space, List, [], ◌∷◌, map, ok, arith,
}
use mathlib.Core.Option
use wizpay_mcp.Base.Plain.{is_plain, trim_space-plain}
use wizpay_mcp.Execution.Types.{
  validate_reason_code, validate_reason_rest, validate_execution_text, validate_adapter_reference,
  validate_bounded_text,
}
use wizpay_mcp.Execution.Evidence
use wizpay_mcp.Execution.Evidence.{Observation, new_result}
use wizpay_mcp.Runtime.Rows.{
  Row, db_version, domain_version, db_time, domain_time, Database, read_row, read_rows, stored,
}
use wizpay_mcp.Runtime.Written.{
  evidence_row, persist_claimed_evidence, append_verification_evidence, EvidenceWrite, persisted,
  appended, evidence_of, written,
}

trimmed_text : (t : Text) (n : ℕ) → validate_bounded_text t n ≡ ok tt → trim_space t ≡ t
unfolding validate_bounded_text
trimmed_text t n h = text_eq→≡ _ _ (ground arith)

rest_is_plain : (t : Text) → validate_reason_rest t ≡ ok tt → is_plain t ≡ true
unfolding validate_reason_rest
rest_is_plain [] h = refl
rest_is_plain (c ∷ cs) h = ground (arith, rest_is_plain cs)

reason_is_plain : (t : Text) → validate_reason_code t ≡ ok tt → is_plain t ≡ true
unfolding validate_reason_code
reason_is_plain [] h = refl
reason_is_plain (c ∷ cs) h = ground (arith, rest_is_plain cs)

-- The parts of the validation of an observation.
checked :
    (o : Observation)
    → Evidence.validate o ≡ ok tt
    → (validate_execution_text o.execution_id ≡ ok tt)
      × (is_empty o.adapter_reference ≡ false
          → validate_adapter_reference o.adapter_reference ≡ ok tt)
      × (is_empty o.error_code ≡ false → validate_reason_code o.error_code ≡ ok tt)
unfolding Evidence.validate
checked o v = ground arith

trimmed_if : (t : Text) → (is_empty t ≡ false → trim_space t ≡ t) → trim_space t ≡ t
unfolding trim_space
trimmed_if [] h = refl
trimmed_if (c ∷ cs) h = h refl

-- A valid observation has no space around its texts.
trimmed :
    (o : Observation)
    → Evidence.validate o ≡ ok tt
    → (trim_space o.execution_id ≡ o.execution_id)
      × (trim_space o.adapter_reference ≡ o.adapter_reference)
      × (trim_space o.error_code ≡ o.error_code)
unfolding validate_execution_text validate_adapter_reference
trimmed o v =
    let (id, reference, code) = checked o v in
    (
      trimmed_text o.execution_id _ id,
      trimmed_if o.adapter_reference (λ f. trimmed_text o.adapter_reference _ (reference f)),
      trimmed_if o.error_code (λ f. trim_space-plain o.error_code (reason_is_plain _ (code f))),
    )

-- What an accepted write inserts: a valid observation, under a version that an int64 holds.
written_lem :
    (w : EvidenceWrite) {r : Row}
    → written w ≡ ok r
    → (Evidence.validate (evidence_of w) ≡ ok tt)
      × (0 < (evidence_of w).execution_version)
      × (r ≡ evidence_row (evidence_of w) (pos (evidence_of w).execution_version))
unfolding written persist_claimed_evidence append_verification_evidence db_version
written_lem (persisted claim o value expected audit_record audited now) h = ground arith
written_lem (appended scope o) h = ground arith

read_version : (n : ℕ) → 0 < n → domain_version (pos n) ≡ ok n
unfolding domain_version
read_version n h = ground arith

module _ ⦃database : Database⦄ where
  open database use {timestamptz}

  -- The observation, at the instant that the column gives back.
  abbrev pub kept : Observation → Observation
  kept o = record o { observed_at = timestamptz o.observed_at }

  kept_valid :
      (o : Observation)
      → Evidence.validate o ≡ ok tt
      → is_zero (timestamptz o.observed_at) ≡ false
      → Evidence.validate (kept o) ≡ ok tt
  unfolding Evidence.validate
  kept_valid o v z = ground arith

  read_instant :
      (at : Time)
      → is_zero at ≡ false
      → domain_time (Option.map timestamptz (db_time at)) ≡ timestamptz at
  unfolding domain_time db_time
  read_instant at z = rw z refl

  read_kept :
      (o : Observation)
      → Evidence.validate o ≡ ok tt
      → 0 < o.execution_version
      → is_zero o.observed_at ≡ false
      → is_zero (timestamptz o.observed_at) ≡ false
      → read_row (stored (evidence_row o (pos o.execution_version))) ≡ ok (kept o)
  unfolding read_row stored evidence_row new_result
  read_kept o v n z k =
      let (id, reference, code) = trimmed o v in
      rw
        (
          read_version o.execution_version n,
          read_instant o.observed_at z,
          id,
          reference,
          code,
          kept_valid o v k,
        )
        refl

  -- The writes were accepted, with these rows, and none observes within a microsecond of the zero
  -- time.
  unfoldable pub AreWritten : List EvidenceWrite → List Row → Type 0
  AreWritten [] [] = Unit {0}
  AreWritten (w ∷ ws) (r ∷ rs) =
      (written w ≡ ok r) × (1000 ≤ (evidence_of w).observed_at) × AreWritten ws rs
  AreWritten _ _ = ⊥

  -- Over a database whose timestamptz keeps an instant to less than a microsecond, the rows that
  -- PersistClaimedEvidence and AppendVerificationEvidence insert, where they accept their evidence
  -- and it is not observed within a microsecond of the zero time, are read by
  -- FindVerificationEvidence, in the order of the rows, as the evidence that was given, each at
  -- the instant that the column gives back.
  pub read_rows-written :
      ((at : Time) → at < timestamptz at + 1000)
      → (ws : List EvidenceWrite) (rows : List Row) → AreWritten ws rows
      → read_rows (map stored rows) ≡ ok (map (λ w. kept (evidence_of w)) ws)
  unfolding read_rows AreWritten
  read_rows-written near [] [] h = refl
  read_rows-written near [] (r ∷ rs) h = elim h [ ]
  read_rows-written near (w ∷ ws) [] h = elim h [ ]
  read_rows-written near (w ∷ ws) (r ∷ rs) (accepted, late, h) =
      let (valid, positive, is_row) = written_lem w accepted in
      let at = (evidence_of w).observed_at in
      let read =
        read_kept (evidence_of w) valid positive (ground arith) (ground (arith, near at)) in
      rw (is_row, read, read_rows-written near ws rs h) refl
