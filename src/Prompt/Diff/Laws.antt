-- ===== src/Prompt/Diff/Laws.antt =====
-- A field diff reports each key that differs, once and in order, however Go walks the map.
use prompt_manager.Base.{
  ◌≡◌, refl, sym, ap, ◌∙◌, Bool, true, false, ◌||◌, Bool-cases, inl, inr, Option, none, some, List,
  [], ◌∷◌, arith, if◌then◌else◌,
}
use prompt_manager.Text.{Text, same}
use prompt_manager.Text.Laws.{same_iff}
use prompt_manager.Domain.{Members, end, member, RawMessage}
use prompt_manager.Prompt.Diff.Fields.{
  Printer, JsonFieldChange, value_at, compare_values, change_at, insert_change, sort_changes,
  members_of, all_keys, with_keys, keys_of, some_changes, build_field_diff, before,
}
use prompt_manager.Prompt.Diff.Order.{reported, IsSorted, IsSorted-unique}
use prompt_manager.Prompt.Diff.Reported.{
  has, IsOnce, IsOrder, keyed, reported-changes_of, sort_changes_lem,
}

has_same : (k key : Text) (xs : List Text) → same k key ≡ true → has k xs ≡ has key xs
has_same k key xs h = ap (λ t. has t xs) ((same_iff k key).0 h)

-- a key that is put before the keys of a list, unless it is one of them
has_put :
    (key k : Text) (xs : List Text)
    → has key (if has k xs then xs else k ∷ xs) ≡ (same k key || has key xs)
has_put key k xs = ground (arith, has_same k key xs)

value_at-none : (key : Text) (ms : Members) → has key (keys_of ms) ≡ false → value_at key ms ≡ none
unfolding keys_of value_at
value_at-none key end h = refl
value_at-none key (member k v rest) h =
    let apart = sym (has_put key k (keys_of rest)) ∙ h in
    ground (arith, apart, value_at-none key rest)

keys_of-IsOnce : (ms : Members) → IsOnce (keys_of ms)
unfolding keys_of
keys_of-IsOnce end = tt
keys_of-IsOnce (member k v rest) = elim (Bool-cases (has k (keys_of rest))) [
  | inl there ↦ rw there (keys_of-IsOnce rest)
  | inr new ↦ rw new (new, keys_of-IsOnce rest)
]

has-with_keys :
    (key : Text) (ks there : List Text)
    → has key (with_keys ks there) ≡ (has key ks || has key there)
unfolding with_keys
has-with_keys key [] there = refl
has-with_keys key (k ∷ ks) there = ground (arith, has_same k key there, has-with_keys key ks there)

with_keys-IsOnce : (ks there : List Text) → IsOnce ks → IsOnce there → IsOnce (with_keys ks there)
unfolding with_keys
with_keys-IsOnce [] there a b = b
with_keys-IsOnce (k ∷ ks) there (new, a) b = elim (Bool-cases (has k there)) [
  | inl h ↦ rw h (with_keys-IsOnce ks there a b)
  | inr h ↦ rw h (has-with_keys k ks there ∙ rw (new, h) refl, with_keys-IsOnce ks there a b)
]

-- the change that a field diff shows for a key
abbrev pub shown : Text → Option (List JsonFieldChange) → Option JsonFieldChange
shown key none = none
shown key (some cs) = reported key cs

abbrev pub OptionIsSorted : Option (List JsonFieldChange) → Type 0
OptionIsSorted none = Unit
OptionIsSorted (some cs) = IsSorted cs

shown-some_changes :
    (key : Text) (cs : List JsonFieldChange)
    → reported key (sort_changes cs) ≡ reported key cs
    → shown key (some_changes cs) ≡ reported key cs
shown-some_changes key [] h = refl
shown-some_changes key (c ∷ cs) h = h

some_changes-IsSorted :
    (cs : List JsonFieldChange) → IsSorted (sort_changes cs) → OptionIsSorted (some_changes cs)
some_changes-IsSorted [] h = tt
some_changes-IsSorted (c ∷ cs) h = h

all_keys-IsOnce : (left right : Members) → IsOnce (all_keys left right)
all_keys-IsOnce left right =
    with_keys-IsOnce (keys_of left) (keys_of right) (keys_of-IsOnce left) (keys_of-IsOnce right)

-- what is known of a key's change, whether or not it is among the keys
absent_key :
    (pr : Printer) (left right : Members) (key : Text)
    → (if has key (all_keys left right) then keyed key (change_at pr left right key) else none)
      ≡ keyed key (change_at pr left right key)
unfolding compare_values
absent_key pr left right key = elim (Bool-cases (has key (all_keys left right))) [
  | inl there ↦ rw there refl
  | inr missing ↦
      let apart = sym (has-with_keys key (keys_of left) (keys_of right)) ∙ missing in
      let none_left = value_at-none key left (ground (arith, apart)) in
      let none_right = value_at-none key right (ground (arith, apart)) in
      rw (missing, none_left, none_right) refl
]

-- Whatever the order in which Go walks the keys, each of them once, the field diff shows for each
-- key what the comparison of its two values gives, and is strictly sorted by key.
pub build_field_diff_lem :
    (pr : Printer) (order : List Text → List Text) (left right : RawMessage)
    → IsOrder order
    → let diff = build_field_diff pr order left right in
      ((key : Text)
        → shown key diff ≡ keyed key (change_at pr (members_of left) (members_of right) key))
      × OptionIsSorted diff
unfolding build_field_diff
build_field_diff_lem pr order left right is =
    let l = members_of left in
    let r = members_of right in
    let keys = order (all_keys l r) in
    let (sorted, kept) = sort_changes_lem pr l r keys (is.once _ (all_keys-IsOnce l r)) in
    (
      λ key.
          shown-some_changes key _ (kept key)
          ∙ reported-changes_of pr l r key keys
          ∙ rw (is.keeps (all_keys l r) key) (absent_key pr l r key),
      some_changes-IsSorted _ sorted,
    )

abbrev unless_empty : List JsonFieldChange → Option (List JsonFieldChange)
unless_empty [] = none
unless_empty (c ∷ cs) = some (c ∷ cs)

unless_empty-insert_change :
    (c : JsonFieldChange) (cs : List JsonFieldChange)
    → some (insert_change c cs) ≡ unless_empty (insert_change c cs)
unfolding insert_change
unless_empty-insert_change c [] = refl
unless_empty-insert_change c (d ∷ ds) = elim (Bool-cases (before d.key c.key)) [
  | inl h ↦ rw h refl
  | inr h ↦ rw h refl
]

some_changes_sorted : (cs : List JsonFieldChange) → some_changes cs ≡ unless_empty (sort_changes cs)
unfolding sort_changes
some_changes_sorted [] = refl
some_changes_sorted (c ∷ cs) = unless_empty-insert_change c (sort_changes cs)

-- The field diff does not depend on the order in which Go walks the keys.
pub build_field_diff_stable :
    (pr : Printer) (order order' : List Text → List Text) (left right : RawMessage)
    → IsOrder order
    → IsOrder order'
    → build_field_diff pr order left right ≡ build_field_diff pr order' left right
unfolding build_field_diff
build_field_diff_stable pr order order' left right is is' =
    let l = members_of left in
    let r = members_of right in
    let once = all_keys-IsOnce l r in
    let (sorted, kept) = sort_changes_lem pr l r (order (all_keys l r)) (is.once _ once) in
    let (sorted', kept') = sort_changes_lem pr l r (order' (all_keys l r)) (is'.once _ once) in
    some_changes_sorted _
    ∙ ap unless_empty (
        IsSorted-unique _ _ sorted sorted' (λ key.
          kept key
          ∙ reported-changes_of pr l r key _
          ∙ ap (λ (b : Bool). if b then keyed key (change_at pr l r key) else none)
              (is.keeps _ key ∙ sym (is'.keeps _ key))
          ∙ sym (kept' key ∙ reported-changes_of pr l r key _)))
    ∙ sym (some_changes_sorted _)
