-- ===== src/Text/Numbers.antt =====
-- Reading back the decimal form of a number.
use prompt_manager.Base.{
  ℕ, zero, suc, ◌+◌, ◌*◌, ◌/◌, ◌%◌, ◌<◌, ◌≤◌, ◌≡◌, refl, ap, ◌∙◌, pos, half_word, Bool, true, false,
  Bool-cases, inl, inr, none, some, [], ◌∷◌, arith, ltb, ◌==◌, if◌then◌else◌, ==→eq, le→leb,
}
use prompt_manager.Text.Defs.{Text, is_empty}
use prompt_manager.Text.Decimal.{digits, decimal, read_digits, in_range_pos, atoi}

-- A text whose first code is a digit.
abbrev StartsDigit : Text → Type 0
StartsDigit [] = 1 ≤ 0
StartsDigit (c ∷ s) = (b'0' ≤ c) × (c ≤ b'9')

last_digit : (n : ℕ) → n % 10 < 10
last_digit n = omega arith

read_digit :
    (acc d : ℕ) (s : Text)
    → d < 10
    → read_digits acc ((b'0' + d) ∷ s) ≡ read_digits (acc * 10 + d) s
unfolding read_digits
read_digit acc d s h =
    rw (le→leb b'0' (b'0' + d) (omega arith), le→leb (b'0' + d) b'9' (omega arith))
      (ap (λ (e : ℕ). read_digits (acc * 10 + e) s) (omega arith))

read_digits-digits :
    (fuel n : ℕ) (s : Text) → n < fuel → read_digits 0 (digits fuel n s) ≡ read_digits n s
unfolding digits
read_digits-digits zero n s h = absurd (omega arith)
read_digits-digits (suc fuel) n s h = elim (Bool-cases (n / 10 == 0)) [
  | inl short ↦ rw short (
      read_digit 0 (n % 10) s (last_digit n)
      ∙ ap (λ (m : ℕ). read_digits m s) (omega (arith, ==→eq (n / 10) 0 short)))
  | inr long ↦ rw long (
      read_digits-digits fuel (n / 10) _ (ground (arith, h, long))
      ∙ read_digit (n / 10) (n % 10) s (last_digit n)
      ∙ ap (λ (m : ℕ). read_digits m s) (omega arith))
]

digits-StartsDigit : (fuel n : ℕ) (s : Text) → StartsDigit s → StartsDigit (digits fuel n s)
unfolding digits
digits-StartsDigit zero n s h = h
digits-StartsDigit (suc fuel) n s h = elim (Bool-cases (n / 10 == 0)) [
  | inl short ↦ rw short (omega arith, omega arith)
  | inr long ↦ rw long (digits-StartsDigit fuel (n / 10) _ (omega arith, omega arith))
]

above : (a c : ℕ) → a < c → (c == a) ≡ false
above a c h = ground (arith, h)

-- The texts that begin with a digit are read without a sign.
atoi_of_StartsDigit : (s : Text) → StartsDigit s → atoi s ≡ in_range_pos (read_digits 0 s)
unfolding atoi
atoi_of_StartsDigit [] h = absurd (omega arith)
atoi_of_StartsDigit (c ∷ s) h =
    let no_minus : (c == b'-') ≡ false = above b'-' c (omega (arith, h.0)) in
    let no_plus : (c == b'+') ≡ false = above b'+' c (omega (arith, h.0)) in
    rw (no_minus, no_plus) refl

decimal-StartsDigit : (n : ℕ) → StartsDigit (decimal n)
unfolding decimal
decimal-StartsDigit n = elim (Bool-cases (n / 10 == 0)) [
  | inl short ↦ rw short (omega arith, omega arith)
  | inr long ↦ rw long (digits-StartsDigit n (n / 10) _ (omega arith, omega arith))
]

pub read_digits-decimal : (n : ℕ) → read_digits 0 (decimal n) ≡ some n
unfolding decimal read_digits
read_digits-decimal n = read_digits-digits (suc n) n [] (omega arith)

below : (a c : ℕ) → a < c → ltb a c ≡ true
below a c h = ground (arith, h)

-- Atoi reads back the decimal form of a number of 63 bits.
pub atoi-decimal : (n : ℕ) → n < half_word → atoi (decimal n) ≡ some (pos n)
atoi-decimal n small =
    atoi_of_StartsDigit (decimal n) (decimal-StartsDigit n)
    ∙ ap in_range_pos (read_digits-decimal n)
    ∙ ap (λ (b : Bool). if b then some (pos n) else none) (below n half_word small)

pub decimal_filled : (n : ℕ) → is_empty (decimal n) ≡ false
decimal_filled n = go (decimal n) (decimal-StartsDigit n)
  where
    go : (s : Text) → StartsDigit s → is_empty s ≡ false
    go [] h = absurd (omega arith)
    go (c ∷ s) h = refl
