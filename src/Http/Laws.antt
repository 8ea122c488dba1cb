-- ===== src/Http/Laws.antt =====
-- What the handlers answer: the numbers of a query, and the statuses of errors.
use prompt_manager.Base.{
  ℕ, ◌<◌, ◌≡◌, refl, ℤ, pos, half_word, is_positive, Bool, true, Bool-cases, inl, inr, Option, none,
  some, arith,
}
use prompt_manager.Text.{Text, is_empty, decimal, atoi}
use prompt_manager.Text.Numbers.{atoi-decimal, decimal_filled}
use prompt_manager.Http.Query.{is_nonnegative, accepted, query_number, parse_pagination}

query_number-passes :
    (test : ℤ → Bool) (fallback : ℤ) (value : Text)
    → test fallback ≡ true
    → test (query_number test fallback value) ≡ true
unfolding query_number
query_number-passes test fallback value h = elim (Bool-cases (is_empty value)) [
  | inl blank ↦ rw blank h
  | inr given ↦ rw given (go (atoi value))
]
  where
    go : (o : Option ℤ) → test (accepted test fallback o) ≡ true
    go none = h
    go (some v) = elim (Bool-cases (test v)) [
      | inl passes ↦ rw passes passes
      | inr fails ↦ rw fails h
    ]

-- Whatever the query holds, the limit is positive and the offset is not negative.
pub parse_pagination_bounds :
    (limit_str offset_str : Text)
    → let (limit, offset) = parse_pagination limit_str offset_str in
      (is_positive limit ≡ true) × (is_nonnegative offset ≡ true)
unfolding parse_pagination
parse_pagination_bounds limit_str offset_str = (
  query_number-passes is_positive (pos 50) limit_str refl,
  query_number-passes is_nonnegative (pos 0) offset_str refl,
)

query_number-decimal :
    (test : ℤ → Bool) (fallback : ℤ) (n : ℕ)
    → n < half_word
    → test (pos n) ≡ true
    → query_number test fallback (decimal n) ≡ pos n
unfolding query_number
query_number-decimal test fallback n small passes =
    rw (decimal_filled n, atoi-decimal n small, passes) refl

-- A query that holds two numbers in decimal form, the first not 0, gives these numbers.
pub parse_pagination-decimal :
    (limit offset : ℕ)
    → 0 < limit
    → limit < half_word
    → offset < half_word
    → parse_pagination (decimal limit) (decimal offset) ≡ (pos limit, pos offset)
unfolding parse_pagination
parse_pagination-decimal limit offset positive small small' =
    rw
      (
        query_number-decimal is_positive (pos 50) limit small (ground (arith, positive)),
        query_number-decimal is_nonnegative (pos 0) offset small' refl,
      )
      refl
