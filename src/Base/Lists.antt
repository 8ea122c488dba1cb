-- ===== src/Base/Lists.antt =====
-- Lists over the native numbers: the library's names, and the loops of SQL statements.
use Prim.Native.Nat.{ℕ, zero, suc, max}
use mathlib.Core.Bool.{Bool, false, ◌||◌}
use mathlib.Core.Option.{Option, none, some}
use mathlib.Core.List.{List, [], ◌∷◌}
use prompt_manager.Base.Tests.{ltb, if◌then◌else◌}

module _ {ℓ} {A : Type ℓ} where
  abbrev pub length : List A → ℕ
  length [] = 0
  length (x ∷ xs) = suc (length xs)

  abbrev pub take : ℕ → List A → List A
  take zero xs = []
  take (suc n) [] = []
  take (suc n) (x ∷ xs) = x ∷ take n xs

  abbrev pub drop : ℕ → List A → List A
  drop zero xs = xs
  drop (suc n) [] = []
  drop (suc n) (x ∷ xs) = drop n xs

  abbrev pub any : (A → Bool) → List A → Bool
  any p [] = false
  any p (x ∷ xs) = p x || any p xs

  -- WHERE
  abbrev pub select : (A → Bool) → List A → List A
  select p [] = []
  select p (x ∷ xs) = if p x then x ∷ select p xs else select p xs

  -- the row that a query for a single row returns, if any
  abbrev pub first : (A → Bool) → List A → Option A
  first p [] = none
  first p (x ∷ xs) = if p x then some x else first p xs

  -- SELECT COUNT(1) WHERE
  abbrev pub count : (A → Bool) → List A → ℕ
  count p [] = 0
  count p (x ∷ xs) = if p x then suc (count p xs) else count p xs

  -- UPDATE SET WHERE
  abbrev pub update : (A → Bool) → (A → A) → List A → List A
  update p f [] = []
  update p f (x ∷ xs) = (if p x then f x else x) ∷ update p f xs

  -- SELECT MAX WHERE, 0 if no row is selected
  abbrev pub maximum : (A → Bool) → (A → ℕ) → List A → ℕ
  maximum p key [] = 0
  maximum p key (x ∷ xs) = if p x then max (key x) (maximum p key xs) else maximum p key xs

  -- ORDER BY key DESC, by insertion: a row stands behind those of the same key before it
  abbrev pub place : (A → ℕ) → A → List A → List A
  place key x [] = x ∷ []
  place key x (y ∷ ys) = if ltb (key x) (key y) then y ∷ place key x ys else x ∷ y ∷ ys

  abbrev pub descending : (A → ℕ) → List A → List A
  descending key [] = []
  descending key (x ∷ xs) = place key x (descending key xs)

  -- LIMIT OFFSET
  abbrev pub page : ℕ → ℕ → List A → List A
  page limit offset xs = take limit (drop offset xs)

  module _ {κ} (P : A → Type κ) where
    abbrev pub All : List A → Type κ
    All [] = Unit
    All (x ∷ xs) = P x × All xs
