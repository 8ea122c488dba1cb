-- ===== src/Text/Decimal.antt =====
-- The decimal form of numbers: fmt's %d, and strconv.Atoi on the texts that queries hold.
use prompt_manager.Base.{
  ℕ, zero, suc, ◌+◌, ◌-◌, ◌*◌, ◌/◌, ◌%◌, ℤ, pos, negsuc, half_word, ◌&&◌, Option, none, some, [],
  ◌∷◌, ltb, leb, ◌==◌, if◌then◌else◌,
}
use prompt_manager.Text.Defs.{Text}

-- The digits of `n` in front of `acc`; every round divides by ten, so `n + 1` rounds are enough.
unfoldable pub digits : ℕ → ℕ → Text → Text
digits zero n acc = acc
digits (suc fuel) n acc =
    let shown = (b'0' + n % 10) ∷ acc in
    let rest = digits fuel (n / 10) shown in if n / 10 == 0 then shown else rest

unfoldable pub decimal : ℕ → Text
unfolding digits
decimal n = digits (suc n) n []

unfoldable pub read_digits : ℕ → Text → Option ℕ
read_digits acc [] = some acc
read_digits acc (c ∷ s) =
    let rest = read_digits (acc * 10 + (c - b'0')) s in
    if leb b'0' c && leb c b'9' then rest else none

-- no digit at all is a syntax error
unfoldable pub read_number : Text → Option ℕ
unfolding read_digits
read_number [] = none
read_number (c ∷ s) = read_digits 0 (c ∷ s)

abbrev pub in_range_pos : Option ℕ → Option ℤ
in_range_pos none = none
in_range_pos (some n) = if ltb n half_word then some (pos n) else none

abbrev pub in_range_neg : Option ℕ → Option ℤ
in_range_neg none = none
in_range_neg (some zero) = some (pos zero)
in_range_neg (some (suc n)) = if ltb n half_word then some (negsuc n) else none

-- strconv.Atoi: an optional sign, digits, and a value of 64 bits; none for every error
unfoldable pub atoi : Text → Option ℤ
unfolding read_number
atoi [] = none
atoi (c ∷ s) =
    if c == b'-'
    then in_range_neg (read_number s)
    else if c == b'+'
    then in_range_pos (read_number s)
    else in_range_pos (read_number (c ∷ s))
