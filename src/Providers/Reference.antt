-- ===== src/Providers/Reference.antt =====
-- internal/providers/reference.go: the reference to a provider's operation, its validation and its
-- encoding as one line. Every error of these is a plain one.
use wizpay_mcp.Base.{
  ℕ, ◌++◌, ◌==◌, Bool, true, false, not, ◌&&◌, ◌||◌, ltb, leb, if◌then◌else◌, List, [], ◌∷◌, Text,
  text, is_empty, len, decimal, Libraries, Result, ok, plain, ◌>>◌, refuse_if,
}
use wizpay_mcp.Payments.Address.{to_lower}
use wizpay_mcp.Providers.Observation.{normal, ReceiptObservation, other_status}

-- An identifier that is not the one constant has its string.
pub data ProviderId : Type 0 where
  circle_user_controlled : ProviderId
  other_provider : Text → ProviderId

unfoldable pub is_valid_provider : ProviderId → Bool
is_valid_provider circle_user_controlled = true
is_valid_provider (other_provider _) = false

abbrev provider_text : ProviderId → Text
provider_text circle_user_controlled = text "CIRCLE_USER_CONTROLLED_WALLET"
provider_text (other_provider t) = t

pub record Reference : Type 0 where
  pub provider : ProviderId
  pub chain_id : Text
  pub wallet_id : Text
  pub challenge_id : Text
  pub provider_transaction_id : Text
  pub transaction_hash : Text
  pub obs_present : Bool
  pub obs_known : Bool
  pub obs_block_hash : Text
  pub obs_block_number : ℕ
  pub obs_confirmations : ℕ
  pub obs_log_fingerprint : Text

abbrev is_digit : ℕ → Bool
is_digit c = leb b'0' c && leb c b'9'

abbrev is_lower : ℕ → ℕ → Bool
is_lower last c = leb b'a' c && leb c last

-- `lowerHex`
unfoldable pub lower_hex : Text → Bool
lower_hex [] = true
lower_hex (c ∷ cs) = (is_digit c || is_lower b'f' c) && lower_hex cs

-- `ValidTransactionHash`
unfoldable pub valid_transaction_hash : Text → Bool
valid_transaction_hash [] = false
valid_transaction_hash (a ∷ []) = false
valid_transaction_hash (a ∷ b ∷ cs) =
    len (a ∷ b ∷ cs) == 66 && a == b'0' && b == b'x' && lower_hex cs

-- The loop of `validProviderIdentifier`.
unfoldable pub identifier_characters : Text → Bool
identifier_characters [] = true
identifier_characters (c ∷ cs) =
    (is_digit c || is_lower b'z' c || (leb b'A' c && leb c b'Z') || c == b'-')
    && identifier_characters cs

-- `validProviderIdentifier`
unfoldable pub valid_provider_identifier : Text → Bool
valid_provider_identifier value =
    not (is_empty value) && leb (len value) 64 && identifier_characters value

unfoldable pub all_digits : Text → Bool
all_digits [] = true
all_digits (c ∷ cs) = is_digit c && all_digits cs

-- `validChainID`
unfoldable pub valid_chain_id : Text → Bool
valid_chain_id [] = false
valid_chain_id (c ∷ cs) = leb (len (c ∷ cs)) 20 && not (c == b'0') && all_digits (c ∷ cs)

-- `validLogFingerprint`
unfoldable pub valid_log_fingerprint : Text → Bool
valid_log_fingerprint value = len value == 64 && lower_hex value

-- `hasObservationMetadata`
unfoldable pub has_observation_metadata : Reference → Bool
has_observation_metadata r =
    r.obs_known
    || r.obs_present
    || not (is_empty r.obs_block_hash)
    || not (r.obs_block_number == 0)
    || not (r.obs_confirmations == 0)
    || not (is_empty r.obs_log_fingerprint)

-- `validateObservationMetadata`
unfoldable pub validate_observation_metadata : Reference → Result (Unit {0})
validate_observation_metadata r = if not (has_observation_metadata r) then ok tt else do
  refuse_if (is_empty r.transaction_hash || not (valid_transaction_hash r.transaction_hash)) plain
  refuse_if (r.obs_present && not r.obs_known) plain
  refuse_if (not r.obs_known) plain

-- The value is given and is not valid.
abbrev is_bad : (Text → Bool) → Text → Bool
is_bad valid value = not (is_empty value) && not (valid value)

-- `Reference.Validate`
unfoldable pub validate : Reference → Result (Unit {0})
validate r = do
  refuse_if (not (is_valid_provider r.provider)) plain
  refuse_if (not (valid_chain_id r.chain_id)) plain
  refuse_if
      (is_empty r.challenge_id && is_empty r.provider_transaction_id && is_empty r.transaction_hash)
      plain
  refuse_if
      (is_bad valid_provider_identifier r.challenge_id
        || is_bad valid_provider_identifier r.provider_transaction_id
        || is_bad valid_provider_identifier r.wallet_id)
      plain
  refuse_if (is_bad valid_transaction_hash r.transaction_hash) plain
  refuse_if (is_bad valid_transaction_hash r.obs_block_hash) plain
  refuse_if (is_bad valid_log_fingerprint r.obs_log_fingerprint) plain
  validate_observation_metadata r

-- A part of the encoding, where there is a value.
unfoldable pub part : Text → Text → List Text
part key value = if is_empty value then [] else (key ++ value) ∷ []

unfoldable pub number_part : Text → ℕ → List Text
number_part key n = if n == 0 then [] else (key ++ decimal n) ∷ []

-- `strings.Join(parts, ";")`
unfoldable pub join : List Text → Text
join [] = []
join (p ∷ []) = p
join (p ∷ q ∷ ps) = p ++ b';' ∷ join (q ∷ ps)

abbrev has_observation : Reference → Bool
has_observation r =
    r.obs_known
    || r.obs_present
    || not (is_empty r.obs_block_hash)
    || not (r.obs_block_number == 0)
    || not (is_empty r.obs_log_fingerprint)

module _ ⦃libraries : Libraries⦄ where
  -- `normalizeObservationMetadata`
  unfoldable pub normalize_observation_metadata : Reference → Reference
  normalize_observation_metadata r =
      let is_block = not (is_empty r.obs_block_hash) || not (r.obs_block_number == 0) in
      let is_logged = not (is_empty r.obs_log_fingerprint) in
      record r {
        obs_known = r.obs_known || r.obs_present || is_block || is_logged;
        obs_block_hash = if is_block then normal r.obs_block_hash else r.obs_block_hash;
        obs_log_fingerprint =
            if is_logged then normal r.obs_log_fingerprint else r.obs_log_fingerprint;
      }

  -- The parts on the receipt.
  unfoldable pub observation_parts : Reference → List Text
  observation_parts r =
      if has_observation r
      then (if r.obs_present then text "rp=1" else text "rp=0")
          ∷ (if r.obs_known || r.obs_present then text "rk=1" ∷ [] else [])
        ++ part (text "bh=") (to_lower r.obs_block_hash)
        ++ number_part (text "bn=") r.obs_block_number
        ++ number_part (text "cf=") r.obs_confirmations
        ++ part (text "lf=") (to_lower r.obs_log_fingerprint)
      else []

  -- The line of a normal reference.
  unfoldable pub line_of : Reference → Text
  line_of r = join (
      text "wzp1"
        ∷ (text "p=" ++ provider_text r.provider)
        ∷ (text "chain=" ++ r.chain_id)
        ∷ part (text "w=") r.wallet_id
      ++ part (text "ch=") r.challenge_id
      ++ part (text "tx=") r.provider_transaction_id
      ++ part (text "hash=") r.transaction_hash
      ++ observation_parts r)

  -- `Reference.Encode`
  unfoldable pub encode : Reference → Result Text
  encode given = do
    let r = normalize_observation_metadata given
    validate r
    refuse_if (ltb 512 (len (line_of r))) plain
    ok (line_of r)

  -- `WithTransaction`
  unfoldable pub with_transaction : Reference → Text → Text → Reference
  with_transaction r transaction hash = record r {
    provider_transaction_id =
        if is_empty transaction then r.provider_transaction_id else transaction;
    transaction_hash = if is_empty hash then r.transaction_hash else to_lower hash;
  }

  -- `ReceiptObservation`
  unfoldable pub receipt_observation : Reference → ReceiptObservation
  receipt_observation r =
      if not (has_observation r)
      then record {
        chain_id = [];
        transaction_hash = [];
        status = other_status [];
        block_number = 0;
        block_hash = [];
        confirmations = 0;
        present = false;
        known = false;
        log_fingerprint = [];
      }
      else record {
        chain_id = r.chain_id;
        transaction_hash = r.transaction_hash;
        status = other_status [];
        block_number = r.obs_block_number;
        block_hash = normal r.obs_block_hash;
        confirmations = r.obs_confirmations;
        present = r.obs_present;
        known = has_observation r;
        log_fingerprint = normal r.obs_log_fingerprint;
      }

  -- `WithReceiptObservation`
  unfoldable pub with_receipt_observation : Reference → ReceiptObservation → Reference
  with_receipt_observation r o = normalize_observation_metadata (record r {
    obs_present = o.present;
    obs_known =
        o.known
        || o.present
        || not (is_empty o.block_hash)
        || not (o.block_number == 0)
        || not (is_empty o.log_fingerprint);
    obs_block_hash = normal o.block_hash;
    obs_block_number = o.block_number;
    obs_confirmations = o.confirmations;
    obs_log_fingerprint = normal o.log_fingerprint;
    transaction_hash =
        if is_empty r.transaction_hash && not (is_empty o.transaction_hash)
        then normal o.transaction_hash
        else r.transaction_hash;
  })
