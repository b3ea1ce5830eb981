-- ===== src/Execution/Types.antt =====
-- internal/execution/types.go: statuses, safe failure and recovery records, text validation.
use wizpay_mcp.Base.{
  ℕ, ◌+◌, Bool, true, false, not, ◌&&◌, ◌||◌, [], ◌∷◌, ltb, leb, ◌==◌, if◌then◌else◌, Text,
  is_empty, len, text_eq, trim_space, has_control, Result, ok, err, plain, ◌>>◌, refuse_if,
}

-- `type Status string`: its constants, the empty string, and the other strings, numbered.
pub data Status : Type 0 where
  created authorized queued executing submitted confirming confirmed verified : Status
  completed failed recovery_required cancelled unset : Status
  unknown : ℕ → Status

abbrev pub ordinal : Status → ℕ
ordinal created = 0
ordinal authorized = 1
ordinal queued = 2
ordinal executing = 3
ordinal submitted = 4
ordinal confirming = 5
ordinal confirmed = 6
ordinal verified = 7
ordinal completed = 8
ordinal failed = 9
ordinal recovery_required = 10
ordinal cancelled = 11
ordinal unset = 12
ordinal (unknown n) = 13 + n

-- `a == b` on statuses.
abbrev pub status_eq : Status → Status → Bool
status_eq a b = ordinal a == ordinal b

-- `Status.Valid`
unfoldable pub is_valid : Status → Bool
is_valid unset = false
is_valid (unknown _) = false
is_valid _ = true

-- `type RecoveryEligibility string`, likewise.
pub data RecoveryEligibility : Type 0 where
  terminal recoverable unset_eligibility : RecoveryEligibility
  unknown_eligibility : ℕ → RecoveryEligibility

abbrev pub eligibility_ordinal : RecoveryEligibility → ℕ
eligibility_ordinal terminal = 0
eligibility_ordinal recoverable = 1
eligibility_ordinal unset_eligibility = 2
eligibility_ordinal (unknown_eligibility n) = 3 + n

abbrev pub eligibility_eq : RecoveryEligibility → RecoveryEligibility → Bool
eligibility_eq a b = eligibility_ordinal a == eligibility_ordinal b

-- `RecoveryEligibility.Valid`
unfoldable pub eligibility_is_valid : RecoveryEligibility → Bool
eligibility_is_valid e = eligibility_eq e terminal || eligibility_eq e recoverable

pub record Failure : Type 0 where
  pub code : Text
  pub eligibility : RecoveryEligibility
  pub recovery_target : Status

-- The zero value.
abbrev pub no_failure : Failure
no_failure = record { code = []; eligibility = unset_eligibility; recovery_target = unset }

pub record Recovery : Type 0 where
  pub reason_code : Text
  pub from_status : Status
  pub target : Status

abbrev pub no_recovery : Recovery
no_recovery = record { reason_code = []; from_status = unset; target = unset }

-- `validRecoveryTarget`
unfoldable pub valid_recovery_target : Status → Status → Bool
valid_recovery_target queued target = status_eq target executing
valid_recovery_target executing target = status_eq target executing
valid_recovery_target submitted target = status_eq target confirming
valid_recovery_target confirming target = status_eq target confirming
valid_recovery_target confirmed target = status_eq target confirmed
valid_recovery_target verified target = status_eq target verified
valid_recovery_target _ _ = false

abbrev pub max_execution_text_length : ℕ
max_execution_text_length = 256

abbrev pub max_adapter_reference_length : ℕ
max_adapter_reference_length = 512

-- `validateBoundedText`
unfoldable pub validate_bounded_text : Text → ℕ → Result (Unit {0})
validate_bounded_text value max = do
  refuse_if (is_empty value || not (text_eq (trim_space value) value)) plain
  refuse_if (ltb max (len value)) plain
  refuse_if (has_control value) plain

-- `validateExecutionText`
unfoldable pub validate_execution_text : Text → Result (Unit {0})
validate_execution_text value = validate_bounded_text value max_execution_text_length

-- `validateAdapterReference`
unfoldable pub validate_adapter_reference : Text → Result (Unit {0})
validate_adapter_reference value = validate_bounded_text value max_adapter_reference_length

abbrev is_upper : ℕ → Bool
is_upper c = leb b'A' c && leb c b'Z'

abbrev is_digit : ℕ → Bool
is_digit c = leb b'0' c && leb c b'9'

-- The loop over `value[1:]`.
unfoldable pub validate_reason_rest : Text → Result (Unit {0})
validate_reason_rest [] = ok tt
validate_reason_rest (c ∷ cs) =
    if not (is_upper c) && not (is_digit c) && not (c == b'_')
    then err plain
    else validate_reason_rest cs

-- `validateReasonCode`: a first code point beyond ASCII starts with a byte above 'Z'.
unfoldable pub validate_reason_code : Text → Result (Unit {0})
unfolding validate_reason_rest
validate_reason_code [] = err plain
validate_reason_code (c ∷ cs) = do
  refuse_if (ltb (len (c ∷ cs)) 2 || ltb 64 (len (c ∷ cs)) || not (is_upper c)) plain
  validate_reason_rest cs

-- `Failure.validate`
unfoldable pub validate_failure : Failure → Status → Result (Unit {0})
unfolding eligibility_is_valid
validate_failure f failed_from = do
  validate_reason_code f.code
  refuse_if (not (eligibility_is_valid f.eligibility)) plain
  if eligibility_eq f.eligibility terminal
      then refuse_if (not (status_eq f.recovery_target unset)) plain
      else refuse_if (not (valid_recovery_target failed_from f.recovery_target)) plain

-- `Recovery.validate`
unfoldable pub validate_recovery : Recovery → Result (Unit {0})
validate_recovery r = do
  validate_reason_code r.reason_code
  refuse_if (not (valid_recovery_target r.from_status r.target)) plain

-- `a == b` on failures.
unfoldable pub failure_eq : Failure → Failure → Bool
failure_eq a b =
    text_eq a.code b.code
    && eligibility_eq a.eligibility b.eligibility
    && status_eq a.recovery_target b.recovery_target
