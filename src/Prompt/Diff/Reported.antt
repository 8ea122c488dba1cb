-- ===== src/Prompt/Diff/Reported.antt =====
-- What a list of changes reports for a key, before and after it has been sorted.
use prompt_manager.Base.{
  ◌≡◌, refl, sym, ap, ◌∙◌, subst, Bool, true, false, Bool-cases, inl, inr, Option, none, some, List,
  [], ◌∷◌, any, if◌then◌else◌,
}
use prompt_manager.Text.{Text, same}
use prompt_manager.Text.Laws.{same_iff}
use prompt_manager.Domain.{Members}
use prompt_manager.Prompt.Diff.Fields.{
  Printer, Change, JsonFieldChange, change_at, with_change, changes_of, sort_changes,
}
use prompt_manager.Prompt.Diff.Order.{
  reported, IsSorted, insert_change-IsSorted, reported-insert_change,
}

abbrev pub has : Text → List Text → Bool
has key keys = any (λ k. same k key) keys

abbrev pub IsOnce : List Text → Type 0
IsOnce [] = Unit
IsOnce (k ∷ ks) = (has k ks ≡ false) × IsOnce ks

-- An order of the keys of a map: each of them, once.
pub record IsOrder (order : List Text → List Text) : Type 0 where
  pub keeps : (keys : List Text) (key : Text) → has key (order keys) ≡ has key keys
  pub once : (keys : List Text) → IsOnce keys → IsOnce (order keys)

abbrev pub keyed : Text → Option Change → Option JsonFieldChange
keyed key none = none
keyed key (some c) = some (record { key = key; change = c })

if_none : {A : Type 0} (b : Bool) → ◌≡◌ {A = Option A} (if b then none else none) none
if_none true = refl
if_none false = refl

module _ (pr : Printer) (left right : Members) where
  pub reported-changes_of :
      (key : Text) (keys : List Text)
      → reported key (changes_of pr left right keys)
        ≡ (if has key keys then keyed key (change_at pr left right key) else none)
  unfolding changes_of
  reported-changes_of key [] = refl
  reported-changes_of key (k ∷ keys) = elim (Bool-cases (same k key)) [
    | inl hit ↦ rw hit (
        at (change_at pr left right k) refl hit ((same_iff k key).0 hit)
          (reported-changes_of key keys))
    | inr missed ↦
        rw missed (beside (change_at pr left right k) missed ∙ reported-changes_of key keys)
  ]
    where
      beside :
          (o : Option Change)
          → same k key ≡ false
          → reported key (with_change k o (changes_of pr left right keys))
            ≡ reported key (changes_of pr left right keys)
      beside none missed = refl
      beside (some c) missed = rw missed refl

      at :
          (o : Option Change)
          → change_at pr left right k ≡ o
          → same k key ≡ true
          → k ≡ key
          → reported key (changes_of pr left right keys)
            ≡ (if has key keys then keyed key (change_at pr left right key) else none)
          → reported key (with_change k o (changes_of pr left right keys))
            ≡ keyed key (change_at pr left right key)
      at none h hit e rest =
          let missing : change_at pr left right key ≡ none =
            subst (λ t. change_at pr left right t ≡ none) e h in
          rest
          ∙ ap (λ (o : Option Change). if has key keys then keyed key o else none) missing
          ∙ if_none (has key keys)
          ∙ ap (keyed key) (sym missing)
      at (some c) h hit e rest =
          let found : change_at pr left right key ≡ some c =
            subst (λ t. change_at pr left right t ≡ some c) e h in
          rw hit (
            ap (λ (t : Text). some (record { key = t; change = c })) e ∙ ap (keyed key) (sym found))

  -- sorting loses and adds no change
  pub sort_changes_lem :
      (keys : List Text)
      → IsOnce keys
      → IsSorted (sort_changes (changes_of pr left right keys))
        × ((key : Text)
            → reported key (sort_changes (changes_of pr left right keys))
              ≡ reported key (changes_of pr left right keys))
  unfolding changes_of sort_changes
  sort_changes_lem [] once = (tt, λ key. refl)
  sort_changes_lem (k ∷ keys) (new, once) =
      let (sorted, kept) = sort_changes_lem keys once in
      put (change_at pr left right k) sorted kept
        (kept k ∙ reported-changes_of k keys ∙ rw new refl)
    where
      put :
          (o : Option Change)
          → IsSorted (sort_changes (changes_of pr left right keys))
          → ((key : Text)
              → reported key (sort_changes (changes_of pr left right keys))
                ≡ reported key (changes_of pr left right keys))
          → reported k (sort_changes (changes_of pr left right keys)) ≡ none
          → IsSorted (sort_changes (with_change k o (changes_of pr left right keys)))
            × ((key : Text)
                → reported key (sort_changes (with_change k o (changes_of pr left right keys)))
                  ≡ reported key (with_change k o (changes_of pr left right keys)))
      put none sorted kept absent = (sorted, kept)
      put (some c) sorted kept absent =
          let change : JsonFieldChange = record { key = k; change = c } in
          (
            insert_change-IsSorted change _ absent sorted,
            λ key.
                reported-insert_change key change _ absent
                ∙ ap (λ (o : Option JsonFieldChange). if same k key then some change else o)
                    (kept key),
          )
