-- ===== src/Runtime/Rows.antt =====
-- internal/storage/postgres/runtime_repository.go and evidence_repository.go: the rows of
-- verification_evidence, as the runtime writes and reads them.
use wizpay_mcp.Base.{
  ℕ, ◌==◌, ◌||◌, ltb, if◌then◌else◌, ◌≡◌, ◌≢◌, refl, ℤ, pos, pos_part, ltb_ℤ, int_max, Time,
  is_zero, Text, trim_space, Option, none, some, List, [], ◌∷◌, ◌++◌, Result, ok, err, plain, ◌>>=◌,
  passed_first, ◌⊎◌, inl, inr, arith,
}
use mathlib.Core.Option
use wizpay_mcp.Execution.Types.{Status, failed, recovery_required}
use wizpay_mcp.Execution.Evidence.{Observation, new_result, validate, validate_status}

-- `dbsqlc.AppendVerificationEvidenceParams`, and the same columns of a row read, without the
-- tenant and the actor, which the queries select by. A version is an int64; an instant is null
-- where `pgtype.Timestamptz` is not valid.
pub record Row : Type 0 where
  pub execution_id : Text
  pub execution_version : ℤ
  pub status : Status
  pub adapter_reference : Text
  pub error_code : Text
  pub observed_at : Option Time

-- `dbVersion`
unfoldable pub db_version : ℕ → Result ℤ
db_version value = if value == 0 || ltb int_max value then err plain else ok (pos value)

-- `domainVersion`
unfoldable pub domain_version : ℤ → Result ℕ
domain_version value = if ltb_ℤ (pos 0) value then ok (pos_part value) else err plain

-- `dbTime`
unfoldable pub db_time : Time → Option Time
db_time value = if is_zero value then none else some value

-- `domainTime`
unfoldable pub domain_time : Option Time → Time
domain_time none = 0
domain_time (some value) = value

-- What the code takes from PostgreSQL and its driver.
pub record Database : Type 0 where
  -- the instant that a column of type timestamptz gives back of one that is written
  pub timestamptz : Time → Time

-- The parameters in `PersistClaimedObservation`, for a version that `dbVersion` accepts. They leave
-- `ErrorCode` at its zero value.
unfoldable pub observation_row : Observation → Row
observation_row o = record {
  execution_id = o.execution_id;
  execution_version = pos o.execution_version;
  status = o.status;
  adapter_reference = o.adapter_reference;
  error_code = [];
  observed_at = db_time o.observed_at;
}

-- The body of the loop of `FindVerificationEvidence`.
unfoldable pub read_row : Row → Result Observation
read_row r = do
  version ← domain_version r.execution_version
  new_result (record {
    execution_id = r.execution_id;
    execution_version = version;
    status = r.status;
    adapter_reference = r.adapter_reference;
    error_code = r.error_code;
    observed_at = domain_time r.observed_at;
  })

-- The loop of `FindVerificationEvidence`, on the rows that its query gives.
unfoldable pub read_rows : List Row → Result (List Observation)
read_rows [] = ok []
read_rows (r ∷ rs) = do value ← read_row r; values ← read_rows rs; ok (value ∷ values)

module _ ⦃database : Database⦄ where
  open database use {timestamptz}

  -- What a query reads of a row that was inserted.
  unfoldable pub stored : Row → Row
  stored r = record r { observed_at = Option.map timestamptz r.observed_at }

trim_empty : trim_space [] ≡ []
unfolding trim_space
trim_empty = refl

module _ ⦃database : Database⦄ where
  failed_result :
      (o : Observation)
      → (o.status ≡ failed) ⊎ (o.status ≡ recovery_required)
      → (value : Observation) → read_row (stored (observation_row o)) ≢ ok value
  unfolding read_row domain_version stored observation_row new_result validate validate_status
  failed_result o s value h = elim s [
    | inl f ↦ ground (arith, trim_empty, f)
    | inr f ↦ ground (arith, trim_empty, f)
  ]

  -- If the rows of an execution contain one that PersistClaimedObservation wrote for an
  -- observation of status FAILED or RECOVERY_REQUIRED, FindVerificationEvidence returns no
  -- evidence at all.
  pub failure_rows_are_unreadable :
      (o : Observation) (before after : List Row) (values : List Observation)
      → (o.status ≡ failed) ⊎ (o.status ≡ recovery_required)
      → read_rows (before ++ stored (observation_row o) ∷ after) ≢ ok values
  unfolding read_rows
  failure_rows_are_unreadable o [] after values s h =
      let (value, read, _) = passed_first (read_row (stored (observation_row o))) _ h in
      failed_result o s value read
  failure_rows_are_unreadable o (r ∷ before) after values s h =
      let (_, _, rest) = passed_first (read_row r) _ h in
      let (values', read, _) =
        passed_first (read_rows (before ++ stored (observation_row o) ∷ after)) _ rest in
      failure_rows_are_unreadable o before after values' s read
