-- ===== src/Base/Int.antt =====
-- Integers over the native numbers, and Go's 64-bit `int` where the code can wrap around.
use Prim.Native.Nat.{ℕ, suc, ◌+◌, ◌-◌, ◌/◌, ◌%◌, ◌^◌, ◌<◌}
use mathlib.Core.Path.{◌≡◌}
use native.Mathlib.Omega.{arith}
use mathlib.Core.Bool.{Bool, false}
use prompt_manager.Base.Tests.{ltb, leb, if◌then◌else◌}

-- `negsuc n` is -(n + 1)
pub data ℤ : Type 0 where
  pos : ℕ → ℤ
  negsuc : ℕ → ℤ

-- i > 0
abbrev pub is_positive : ℤ → Bool
is_positive (pos n) = ltb 0 n
is_positive (negsuc _) = false

-- the value of an integer that is not negative, and 0 for the others
abbrev pub pos_part : ℤ → ℕ
pos_part (pos n) = n
pos_part (negsuc _) = 0

abbrev pub neg_part : ℤ → ℕ
neg_part (pos _) = 0
neg_part (negsuc n) = suc n

infixl 65 ◌+ℤ◌
abbrev pub ◌+ℤ◌ : ℤ → ℤ → ℤ
a +ℤ b =
    let up = pos_part a + pos_part b in
    let down = neg_part a + neg_part b in
    if leb down up then pos (up - down) else negsuc (down - up - 1)

abbrev pub word : ℕ
word = 2 ^ 64

abbrev pub half_word : ℕ
half_word = 2 ^ 63

-- The `int64` with the bits of a number: the wrap-around of Go's signed arithmetic.
abbrev pub int64 : ℕ → ℤ
int64 n = let m = n % word in if ltb m half_word then pos m else negsuc (word - m - 1)

-- what the wrap-around leaves alone
pub int64_small : (n : ℕ) → n < half_word → int64 n ≡ pos n
int64_small n h = ground arith

-- Go's `/` by a number, which truncates towards 0
abbrev pub quot : ℤ → ℕ → ℤ
quot (pos n) d = pos (n / d)
quot (negsuc n) d = let q = suc n / d in if leb q 0 then pos 0 else negsuc (q - 1)
