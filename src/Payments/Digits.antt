-- ===== src/Payments/Digits.antt =====
-- Digits: how `decimal` prints numbers and `set_string` reads them, and cutting and padding them.
use wizpay_mcp.Base.{
  ℕ, zero, suc, ◌+◌, ◌*◌, ◌/◌, ◌%◌, ◌<◌, ◌≤◌, ◌≡◌, ◌≢◌, refl, ap, ◌∙◌, true, false, ◌&&◌, leb, ltb,
  ◌==◌, if◌then◌else◌, some, [], ◌∷◌, ◌++◌, Text, is_empty, len, rune_len, decimal, digits_from,
  pos, all_digits, is_digit, starts_with_zero, digits_value, set_string, arith, Bool-cases, inl,
  inr,
}
use mathlib.Core.Option
use wizpay_mcp.Payments.Amount.{zeros, ends_with_zero, trim_zeros, first_bytes, after_bytes}

pub all_digits-append :
    (a b : Text) → all_digits a ≡ true → all_digits b ≡ true → all_digits (a ++ b) ≡ true
unfolding all_digits
all_digits-append [] b p q = q
all_digits-append (c ∷ a) b p q = ground (arith, all_digits-append a b)

pub all_digits-zeros : (n : ℕ) → all_digits (zeros n) ≡ true
unfolding all_digits zeros
all_digits-zeros zero = refl
all_digits-zeros (suc n) = ground (arith, all_digits-zeros n)

rune_len-digit : (c : ℕ) → is_digit c ≡ true → rune_len c ≡ 1
rune_len-digit c h = ground arith

pub len-append : (a b : Text) → len (a ++ b) ≡ len a + len b
unfolding len
len-append [] b = omega arith
len-append (c ∷ a) b = omega (arith, len-append a b)

pub len-zeros : (n : ℕ) → len (zeros n) ≡ n
unfolding len zeros
len-zeros zero = refl
len-zeros (suc n) = omega (arith, len-zeros n)

digits_from-all_digits :
    (fuel n : ℕ) (rest : Text)
    → all_digits rest ≡ true
    → all_digits (digits_from fuel n rest) ≡ true
unfolding digits_from all_digits
digits_from-all_digits zero n rest h = h
digits_from-all_digits (suc fuel) n rest h = elim (Bool-cases (ltb n 10)) [
  | inl small ↦ rw small (ground arith)
  | inr large ↦
      rw large (digits_from-all_digits fuel (n / 10) ((n % 10 + 48) ∷ rest) (ground arith))
]

pub decimal-all_digits : (n : ℕ) → all_digits (decimal n) ≡ true
unfolding decimal all_digits
decimal-all_digits n = digits_from-all_digits (suc n) n [] refl

read_digit :
    (acc d : ℕ) (rest : Text)
    → d < 10
    → digits_value acc ((d + 48) ∷ rest) ≡ digits_value (acc * 10 + d) rest
unfolding digits_value
read_digit acc d rest h =
    let t : (leb b'0' (d + 48) && leb (d + 48) b'9') ≡ true = ground arith in
    rw t (ap (λ m. digits_value (acc * 10 + m) rest) (omega arith))

digits_value-digits_from :
    (fuel n : ℕ) (rest : Text)
    → n < fuel
    → digits_value 0 (digits_from fuel n rest) ≡ digits_value n rest
unfolding digits_from
digits_value-digits_from zero n rest h = absurd (omega arith)
digits_value-digits_from (suc fuel) n rest h = elim (Bool-cases (ltb n 10)) [
  | inl small ↦
      rw small (read_digit 0 n rest (ground arith) ∙ ap (λ m. digits_value m rest) (omega arith))
  | inr large ↦ rw large (
      digits_value-digits_from fuel (n / 10) ((n % 10 + 48) ∷ rest) (ground arith)
      ∙ (read_digit (n / 10) (n % 10) rest (omega arith)
          ∙ ap (λ m. digits_value m rest) (omega arith)))
]

pub digits_value-decimal : (n : ℕ) → digits_value 0 (decimal n) ≡ some n
unfolding decimal digits_value
digits_value-decimal n = digits_value-digits_from (suc n) n [] (omega arith)

digits_from-starts :
    (fuel n : ℕ) (rest : Text)
    → n < fuel
    → 0 < n
    → starts_with_zero (digits_from fuel n rest) ≡ false
unfolding digits_from
digits_from-starts zero n rest h p = absurd (omega arith)
digits_from-starts (suc fuel) n rest h p = elim (Bool-cases (ltb n 10)) [
  | inl small ↦ rw small (ground arith)
  | inr large ↦
      rw large
        (digits_from-starts fuel (n / 10) ((n % 10 + 48) ∷ rest) (ground arith) (ground arith))
]

digits_from-cons : (fuel n c : ℕ) (rest : Text) → digits_from fuel n (c ∷ rest) ≢ []
unfolding digits_from
digits_from-cons zero n c rest e = cc
digits_from-cons (suc fuel) n c rest e = elim (Bool-cases (ltb n 10)) [
  | inl small ↦ absurd (ground (arith, e))
  | inr large ↦ digits_from-cons fuel (n / 10) (n % 10 + 48) (c ∷ rest) (rw large at e)
]

pub decimal_ne_nil : (n : ℕ) → decimal n ≢ []
unfolding decimal digits_from
decimal_ne_nil n e = elim (Bool-cases (ltb n 10)) [
  | inl small ↦ absurd (ground (arith, e))
  | inr large ↦ digits_from-cons n (n / 10) (n % 10 + 48) [] (rw large at e)
]

-- No printed number of more than one digit starts with 0.
pub decimal-starts : (n : ℕ) → 1 < len (decimal n) → starts_with_zero (decimal n) ≡ false
unfolding decimal digits_from len
decimal-starts zero h = absurd (omega arith)
decimal-starts (suc n) h = digits_from-starts (suc (suc n)) (suc n) [] (omega arith) (omega arith)

pub digits_value-zeros : (n : ℕ) (t : Text) → digits_value 0 (zeros n ++ t) ≡ digits_value 0 t
unfolding digits_value zeros
digits_value-zeros zero t = refl
digits_value-zeros (suc n) t = digits_value-zeros n t

pub set_string-digits :
    (t : Text) → all_digits t ≡ true → t ≢ [] → set_string t ≡ Option.map pos (digits_value 0 t)
unfolding set_string all_digits
set_string-digits [] h n = absurd (n refl)
set_string-digits (c ∷ []) h n = refl
set_string-digits (c ∷ d ∷ ds) h n = ground arith

cut_step :
    (c k : ℕ) (cs r : Text)
    → cs ≡ r ++ zeros k
    → (n : ℕ) × (c ∷ cs ≡ (if c == b'0' && is_empty r then [] else c ∷ r) ++ zeros n)
unfolding zeros
cut_step c k cs [] e = elim (Bool-cases (c == b'0')) [
  | inl zero_digit ↦ (suc k, rw zero_digit (ground (arith, e)))
  | inr other ↦ (k, rw other (ap (λ r. c ∷ r) e))
]
cut_step c k cs (d ∷ ds) e = (k, ground (arith, e))

end_step :
    (c : ℕ) (r : Text)
    → ends_with_zero r ≡ false
    → ends_with_zero (if c == b'0' && is_empty r then [] else c ∷ r) ≡ false
end_step c [] h = ground arith
end_step c (d ∷ ds) h = ground arith

-- Trimming takes off a row of zeros.
pub trim_zeros-cut : (t : Text) → (k : ℕ) × (t ≡ trim_zeros t ++ zeros k)
unfolding trim_zeros zeros
trim_zeros-cut [] = (0, refl)
trim_zeros-cut (c ∷ cs) = let (k, e) = trim_zeros-cut cs in cut_step c k cs (trim_zeros cs) e

pub trim_zeros-end : (t : Text) → ends_with_zero (trim_zeros t) ≡ false
unfolding trim_zeros
trim_zeros-end [] = refl
trim_zeros-end (c ∷ cs) = end_step c (trim_zeros cs) (trim_zeros-end cs)

pub trim_zeros-all_digits : (t : Text) → all_digits t ≡ true → all_digits (trim_zeros t) ≡ true
unfolding trim_zeros all_digits
trim_zeros-all_digits [] h = refl
trim_zeros-all_digits (c ∷ cs) h = ground (arith, trim_zeros-all_digits cs)

pub first-after : (n : ℕ) (t : Text) → first_bytes n t ++ after_bytes n t ≡ t
unfolding first_bytes after_bytes
first-after zero t = refl
first-after (suc n) [] = refl
first-after (suc n) (c ∷ t) = ap (λ r. c ∷ r) (first-after n t)

pub first_bytes-all_digits :
    (n : ℕ) (t : Text)
    → all_digits t ≡ true
    → (all_digits (first_bytes n t) ≡ true) × (all_digits (after_bytes n t) ≡ true)
unfolding first_bytes after_bytes all_digits
first_bytes-all_digits zero t h = (refl, h)
first_bytes-all_digits (suc n) [] h = (refl, refl)
first_bytes-all_digits (suc n) (c ∷ t) h = ground (arith, first_bytes-all_digits n t)

pub len-first_bytes :
    (n : ℕ) (t : Text) → all_digits t ≡ true → n ≤ len t → len (first_bytes n t) ≡ n
unfolding first_bytes all_digits len
len-first_bytes zero t h b = refl
len-first_bytes (suc n) [] h b = absurd (omega arith)
len-first_bytes (suc n) (c ∷ t) h b = ground (arith, rune_len-digit c, len-first_bytes n t)

pub starts-first_bytes :
    (n : ℕ) (t : Text) → 0 < n → starts_with_zero (first_bytes n t) ≡ starts_with_zero t
unfolding first_bytes
starts-first_bytes zero t h = absurd (omega arith)
starts-first_bytes (suc n) [] h = refl
starts-first_bytes (suc n) (c ∷ t) h = refl
