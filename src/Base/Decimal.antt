-- ===== src/Base/Decimal.antt =====
-- Printed numbers are read back, and a length prefix delimits what stands behind it.
use Prim.Native.Nat.{ℕ, zero, suc, ◌+◌, ◌-◌, ◌*◌, ◌/◌, ◌%◌, ◌<◌}
use mathlib.Core.Path.{◌≡◌, refl, sym, ap, ◌∙◌}
use mathlib.Core.Logic.{◌≢◌, inl, inr}
use mathlib.Core.List.{[], ◌∷◌, ◌++◌}
use native.Mathlib.Omega.{arith}
use wizpay_mcp.Base.Tests.{ltb, Bool-cases}
use wizpay_mcp.Base.Texts.{Text, rune_len, len, digits_from, decimal}

-- The number that digits spell, behind a number that is already read.
read : ℕ → Text → ℕ
read n [] = n
read n (c ∷ cs) = read (n * 10 + (c - 48)) cs

read-digits_from :
    (fuel n : ℕ) (acc : Text) → n < fuel → read 0 (digits_from fuel n acc) ≡ read n acc
unfolding digits_from read
read-digits_from zero n acc h = absurd (omega arith)
read-digits_from (suc fuel) n acc h = elim (Bool-cases (ltb n 10)) [
  | inl small ↦ rw small (ap (λ m. read m acc) (omega arith))
  | inr large ↦ rw large (
      read-digits_from fuel (n / 10) ((n % 10 + 48) ∷ acc) (ground arith)
      ∙ ap (λ m. read m acc) (omega arith))
]

-- Two numbers are printed alike only if they are equal.
pub decimal-injective : (a b : ℕ) → decimal a ≡ decimal b → a ≡ b
unfolding decimal read
decimal-injective a b h =
    sym (read-digits_from (suc a) a [] (omega arith))
    ∙ ap (read 0) h
    ∙ read-digits_from (suc b) b [] (omega arith)

abbrev IsDigits : Text → Type 0
IsDigits [] = Unit {0}
IsDigits (c ∷ cs) = (c < 58) × IsDigits cs

digits_from-IsDigits : (fuel n : ℕ) (acc : Text) → IsDigits acc → IsDigits (digits_from fuel n acc)
unfolding digits_from
digits_from-IsDigits zero n acc h = h
digits_from-IsDigits (suc fuel) n acc h = elim (Bool-cases (ltb n 10)) [
  | inl small ↦ rw small (ground arith, h)
  | inr large ↦ rw large (digits_from-IsDigits fuel (n / 10) ((n % 10 + 48) ∷ acc) (omega arith, h))
]

split_at_colon :
    (a b x y : Text) → IsDigits a → IsDigits b → a ++ b':' ∷ x ≡ b ++ b':' ∷ y → (a ≡ b) × (x ≡ y)
split_at_colon [] [] x y p q h = (refl, cc)
split_at_colon [] (d ∷ b) x y p q h = absurd (ground arith)
split_at_colon (c ∷ a) [] x y p q h = absurd (ground arith)
split_at_colon (c ∷ a) (d ∷ b) x y p q h =
    let (same, rest) = split_at_colon a b x y p.1 q.1 (cc) in (cc, rest)

rune_len_pos : (c : ℕ) → 0 < rune_len c
rune_len_pos c = ground arith

split_at_len : (a b x y : Text) → len a ≡ len b → a ++ x ≡ b ++ y → (a ≡ b) × (x ≡ y)
unfolding len
split_at_len [] [] x y e h = (refl, h)
split_at_len [] (d ∷ b) x y e h = absurd (omega (arith, rune_len_pos d))
split_at_len (c ∷ a) [] x y e h = absurd (omega (arith, rune_len_pos c))
split_at_len (c ∷ a) (d ∷ b) x y e h =
    let heads : c ≡ d = cc in
    let (same, rest) = split_at_len a b x y (omega (arith, ap rune_len heads)) (cc) in (cc, rest)

-- A part behind its length in bytes and a colon is told from what follows it.
pub prefixed_split :
    (a b x y : Text)
    → decimal (len a) ++ b':' ∷ (a ++ x) ≡ decimal (len b) ++ b':' ∷ (b ++ y)
    → (a ≡ b) × (x ≡ y)
unfolding decimal
prefixed_split a b x y h =
    let (lengths, rest) =
      split_at_colon (decimal (len a)) (decimal (len b)) (a ++ x) (b ++ y)
        (digits_from-IsDigits (suc (len a)) (len a) [] tt)
        (digits_from-IsDigits (suc (len b)) (len b) [] tt) h in
    split_at_len a b x y (decimal-injective (len a) (len b) lengths) rest

pub prefixed_ne_nil : (a x : Text) (c : ℕ) → a ++ c ∷ x ≢ []
prefixed_ne_nil [] x c h = cc
prefixed_ne_nil (d ∷ a) x c h = cc
