-- ===== src/Prompt/Diff/Fields.antt =====
-- buildFieldDiff and stringifyJSONValue.
use prompt_manager.Base.{
  Bool, true, false, ◌&&◌, ◌||◌, Option, none, some, List, [], ◌∷◌, any, ltb, ◌==◌, if◌then◌else◌,
}
use prompt_manager.Text.{Text, codes, same}
use prompt_manager.Domain.{Json, null, bool, num, str, arr, obj, Members, end, member, RawMessage}

-- What encoding/json and fmt print: a float64 by "%v" from its printed form, and a value by
-- json.Marshal.
pub record Printer : Type 0 where
  pub number : Text → Text
  pub marshal : Json → Text

unfoldable pub stringify_json_value : Printer → Json → Text
stringify_json_value pr null = []
stringify_json_value pr (str s) = s
stringify_json_value pr (bool true) = codes "true"
stringify_json_value pr (bool false) = codes "false"
stringify_json_value pr (num n) = pr.number n
stringify_json_value pr (arr xs) = pr.marshal (arr xs)
stringify_json_value pr (obj ms) = pr.marshal (obj ms)

pub data Change : Type 0 where
  added : Text → Change
  removed : Text → Change
  modified : Text → Text → Change

-- JSONFieldChange: `type`, `left` and `right` are the change
pub record JsonFieldChange : Type 0 where
  pub key : Text
  pub change : Change

-- json.Unmarshal into a map: the last member of a name counts, and what is no object gives none
unfoldable pub value_at : Text → Members → Option Json
value_at key end = none
value_at key (member k v rest) =
    let later = value_at key rest in
    elim later [ some u ↦ some u | none ↦ if same k key then some v else none ]

abbrev pub members_of : RawMessage → Members
members_of none = end
members_of (some null) = end
members_of (some (bool b)) = end
members_of (some (num n)) = end
members_of (some (str s)) = end
members_of (some (arr xs)) = end
members_of (some (obj ms)) = ms

-- the body of `switch`, for the values of a key on both sides
unfoldable pub compare_values : Printer → Option Json → Option Json → Option Change
compare_values pr none (some r) = some (added (stringify_json_value pr r))
compare_values pr (some l) none = some (removed (stringify_json_value pr l))
compare_values pr none none = none
compare_values pr (some l) (some r) =
    let left = stringify_json_value pr l in
    let right = stringify_json_value pr r in
    if same left right then none else some (modified left right)

abbrev pub change_at : Printer → Members → Members → Text → Option Change
change_at pr left right key = compare_values pr (value_at key left) (value_at key right)

abbrev pub with_change : Text → Option Change → List JsonFieldChange → List JsonFieldChange
with_change key none rest = rest
with_change key (some c) rest = record { key = key; change = c } ∷ rest

-- the loop over the keys, in the order in which the map gives them
unfoldable pub changes_of : Printer → Members → Members → List Text → List JsonFieldChange
changes_of pr left right [] = []
changes_of pr left right (key ∷ keys) =
    with_change key (change_at pr left right key) (changes_of pr left right keys)

-- Go's < on strings
unfoldable pub before : Text → Text → Bool
before [] [] = false
before [] (d ∷ t) = true
before (c ∷ s) [] = false
before (c ∷ s) (d ∷ t) = ltb c d || c == d && before s t

unfoldable pub insert_change : JsonFieldChange → List JsonFieldChange → List JsonFieldChange
insert_change c [] = c ∷ []
insert_change c (d ∷ ds) = if before d.key c.key then d ∷ insert_change c ds else c ∷ d ∷ ds

-- sort.Slice by the key
unfoldable pub sort_changes : List JsonFieldChange → List JsonFieldChange
sort_changes [] = []
sort_changes (c ∷ cs) = insert_change c (sort_changes cs)

unfoldable pub keys_of : Members → List Text
keys_of end = []
keys_of (member k v rest) =
    let keys = keys_of rest in if any (λ j. same j k) keys then keys else k ∷ keys

-- the keys that are not there already, before those that are
unfoldable pub with_keys : List Text → List Text → List Text
with_keys [] there = there
with_keys (k ∷ ks) there =
    let keys = with_keys ks there in if any (λ j. same j k) there then keys else k ∷ keys

-- the keys of both maps, each once
abbrev pub all_keys : Members → Members → List Text
all_keys left right = with_keys (keys_of left) (keys_of right)

abbrev pub some_changes : List JsonFieldChange → Option (List JsonFieldChange)
some_changes [] = none
some_changes (c ∷ cs) = some (sort_changes (c ∷ cs))

-- FieldDiff is its changes. The order in which Go walks a map is not fixed: `order` puts the keys
-- in that order.
unfoldable pub build_field_diff :
    Printer → (List Text → List Text) → RawMessage → RawMessage → Option (List JsonFieldChange)
build_field_diff pr order left_raw right_raw =
    let left = members_of left_raw in
    let right = members_of right_raw in
    some_changes (changes_of pr left right (order (all_keys left right)))
