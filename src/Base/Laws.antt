-- ===== src/Base/Laws.antt =====
-- Laws of the loops over tables.
use Prim.Native.Nat.{ℕ, zero, suc, ◌+◌, ◌-◌, ◌≤◌, max}
use mathlib.Core.Path.{◌≡◌, refl}
use mathlib.Core.Bool.{Bool, true, false, ◌||◌}
use mathlib.Core.Option.{none, some}
use mathlib.Core.List.{List, [], ◌∷◌, ◌++◌}
use native.Mathlib.Omega.{arith}
use prompt_manager.Base.Tests.{ltb, if◌then◌else◌}
use prompt_manager.Base.Lists.{
  length, take, drop, any, select, first, count, update, maximum, place, descending, All,
}

module _ {ℓ κ} {A : Type ℓ} (P : A → Type κ) where
  pub All-concat : (xs : List A) {x : A} → All P xs → P x → All P (xs ++ x ∷ [])
  All-concat [] h p = (p, tt)
  All-concat (y ∷ xs) h p = (h.0, All-concat xs h.1 p)

  pub All-update :
      (hit : A → Bool) (f : A → A) (xs : List A)
      → ((x : A) → hit x ≡ true → P x → P (f x))
      → All P xs
      → All P (update hit f xs)
  All-update hit f [] step h = tt
  All-update hit f (x ∷ xs) step h = (changed (hit x) refl, All-update hit f xs step h.1)
    where
      changed : (b : Bool) → hit x ≡ b → P (if b then f x else x)
      changed true e = step x e h.0
      changed false e = h.0

pub All-map {ℓ κ λ'} :
    {A : Type ℓ} (P : A → Type κ) (Q : A → Type λ') (xs : List A)
    → ((x : A) → P x → Q x)
    → All P xs
    → All Q xs
All-map P Q [] f h = tt
All-map P Q (x ∷ xs) f h = (f x h.0, All-map P Q xs f h.1)

module _ {ℓ} {A : Type ℓ} where
  pub first-concat :
      (p : A → Bool) (xs : List A) (x y : A) → first p xs ≡ some y → first p (xs ++ x ∷ []) ≡ some y
  first-concat p [] x y h = ground arith
  first-concat p (z ∷ xs) x y h = ground (arith, first-concat p xs x y)

  pub length-select : (p : A → Bool) (xs : List A) → length (select p xs) ≡ count p xs
  length-select p [] = refl
  length-select p (x ∷ xs) = ground (arith, length-select p xs)

  pub length-place : (key : A → ℕ) (x : A) (xs : List A) → length (place key x xs) ≡ suc (length xs)
  length-place key x [] = refl
  length-place key x (y ∷ ys) = ground (arith, length-place key x ys)

  pub length-descending : (key : A → ℕ) (xs : List A) → length (descending key xs) ≡ length xs
  length-descending key [] = refl
  length-descending key (x ∷ xs) =
      omega (arith, length-place key x (descending key xs), length-descending key xs)

  pub length-take : (n : ℕ) (xs : List A) → length (take n xs) ≤ n
  length-take zero xs = omega arith
  length-take (suc n) [] = omega arith
  length-take (suc n) (x ∷ xs) = omega (arith, length-take n xs)

  pub length-take_eq :
      (n : ℕ) (xs : List A) → length (take n xs) ≡ (if ltb n (length xs) then n else length xs)
  length-take_eq zero [] = refl
  length-take_eq zero (x ∷ xs) = ground arith
  length-take_eq (suc n) [] = ground arith
  length-take_eq (suc n) (x ∷ xs) = ground (arith, length-take_eq n xs)

  pub length-drop : (n : ℕ) (xs : List A) → length (drop n xs) ≡ length xs - n
  length-drop zero xs = omega arith
  length-drop (suc n) [] = omega arith
  length-drop (suc n) (x ∷ xs) = omega (arith, length-drop n xs)

  pub take-take : (n : ℕ) (xs : List A) → take n (take (suc n) xs) ≡ take n xs
  take-take zero xs = refl
  take-take (suc n) [] = refl
  take-take (suc n) (x ∷ xs) = cc (take-take n xs)

  pub count-concat :
      (p : A → Bool) (xs : List A) (x : A)
      → count p (xs ++ x ∷ []) ≡ count p xs + (if p x then 1 else 0)
  count-concat p [] x = ground arith
  count-concat p (y ∷ xs) x = ground (arith, count-concat p xs x)

  pub maximum-concat :
      (p : A → Bool) (key : A → ℕ) (xs : List A) (x : A)
      → maximum p key (xs ++ x ∷ []) ≡ max (maximum p key xs) (if p x then key x else 0)
  maximum-concat p key [] x = ground arith
  maximum-concat p key (y ∷ xs) x = ground (arith, maximum-concat p key xs x)

  pub any-concat : (p : A → Bool) (xs : List A) (x : A) → any p (xs ++ x ∷ []) ≡ any p xs || p x
  any-concat p [] x = ground arith
  any-concat p (y ∷ xs) x = ground (arith, any-concat p xs x)

  pub any_none :
      (p q : A → Bool) (xs : List A)
      → ((x : A) → q x ≡ true → p x ≡ true)
      → any p xs ≡ false
      → any q xs ≡ false
  any_none p q [] sub h = refl
  any_none p q (x ∷ xs) sub h = ground (arith, sub x, any_none p q xs sub)

  pub update_none : (p : A → Bool) (f : A → A) (xs : List A) → count p xs ≡ 0 → update p f xs ≡ xs
  update_none p f [] h = refl
  update_none p f (x ∷ xs) h = ground (arith, update_none p f xs)

  -- A change that takes the rows out of the test leaves none to be found.
  pub first-update_none :
      (p : A → Bool) (f : A → A) (xs : List A)
      → ((x : A) → p x ≡ true → p (f x) ≡ false)
      → first p (update p f xs) ≡ none
  first-update_none p f [] out = refl
  first-update_none p f (x ∷ xs) out = ground (arith, out x, first-update_none p f xs out)

  pub first-none_of_count : (p : A → Bool) (xs : List A) → count p xs ≡ 0 → first p xs ≡ none
  first-none_of_count p [] h = refl
  first-none_of_count p (x ∷ xs) h = ground (arith, first-none_of_count p xs)

  pub count_of_first-none : (p : A → Bool) (xs : List A) → first p xs ≡ none → count p xs ≡ 0
  count_of_first-none p [] h = refl
  count_of_first-none p (x ∷ xs) h = ground (arith, count_of_first-none p xs)

  pub first_passes : (p : A → Bool) (xs : List A) (y : A) → first p xs ≡ some y → p y ≡ true
  first_passes p [] y h = ground arith
  first_passes p (x ∷ xs) y h = ground (arith, first_passes p xs y)

  pub any_of_first :
      (p q : A → Bool) (xs : List A) (y : A)
      → ((x : A) → p x ≡ true → q x ≡ true)
      → first p xs ≡ some y
      → any q xs ≡ true
  any_of_first p q [] y sub h = ground arith
  any_of_first p q (x ∷ xs) y sub h = ground (arith, sub x, any_of_first p q xs y sub)

  -- the first hit of a test that asks for more, and of a list whose first hit is changed
  pub first_refine :
      (p q : A → Bool) (xs : List A) (y : A)
      → ((x : A) → q x ≡ true → p x ≡ true)
      → first p xs ≡ some y
      → q y ≡ true
      → first q xs ≡ some y
  first_refine p q [] y sub h e = ground arith
  first_refine p q (x ∷ xs) y sub h e = ground (arith, sub x, first_refine p q xs y sub)

  pub first-update_hit :
      (p hit : A → Bool) (f : A → A) (xs : List A) (y : A)
      → ((x : A) → p (f x) ≡ p x)
      → first p xs ≡ some y
      → hit y ≡ true
      → first p (update hit f xs) ≡ some (f y)
  first-update_hit p hit f [] y same_test h e = ground arith
  first-update_hit p hit f (x ∷ xs) y same_test h e =
      ground (arith, same_test x, first-update_hit p hit f xs y same_test)

  pub first-concat_new :
      (p : A → Bool) (xs : List A) (x : A)
      → first p xs ≡ none
      → p x ≡ true
      → first p (xs ++ x ∷ []) ≡ some x
  first-concat_new p [] x h e = rw e
  first-concat_new p (y ∷ xs) x h e = ground (arith, first-concat_new p xs x)

  pub first-none_of_any :
      (p q : A → Bool) (xs : List A)
      → ((x : A) → p x ≡ true → q x ≡ true)
      → any q xs ≡ false
      → first p xs ≡ none
  first-none_of_any p q [] sub h = refl
  first-none_of_any p q (x ∷ xs) sub h = ground (arith, sub x, first-none_of_any p q xs sub)

  -- The row that a change of the first hit finds again.
  pub first-update_kept :
      (p hit : A → Bool) (f : A → A) (xs : List A) (y : A)
      → ((x : A) → p x ≡ true → hit x ≡ true)
      → ((x : A) → hit x ≡ true → p (f x) ≡ true)
      → first hit xs ≡ some y
      → first p (update hit f xs) ≡ some (f y)
  first-update_kept p hit f [] y sub kept h = ground arith
  first-update_kept p hit f (x ∷ xs) y sub kept h =
      ground (arith, sub x, kept x, first-update_kept p hit f xs y sub kept)

  -- A row that a change brings into the test is found where no other passed it.
  pub first-update_turned :
      (p hit : A → Bool) (f : A → A) (xs : List A) (y : A)
      → ((x : A) → hit x ≡ true → p (f x) ≡ true)
      → first p xs ≡ none
      → first hit xs ≡ some y
      → first p (update hit f xs) ≡ some (f y)
  first-update_turned p hit f [] y turn none_yet h = ground arith
  first-update_turned p hit f (x ∷ xs) y turn none_yet h =
      ground (arith, turn x, first-update_turned p hit f xs y turn)
