-- ===== src/Prompt/Diff/Tests.antt =====
-- Field diffs of small objects, and the theorems at them.
use prompt_manager.Base.{◌≡◌, refl, some, List, [], ◌∷◌, arith}
use prompt_manager.Text.{Text, codes, same}
use prompt_manager.Domain.{num, str, null, obj, end, member, RawMessage}
use prompt_manager.Prompt.Diff.Fields.{
  Printer, modified, added, removed, build_field_diff, stringify_json_value, value_at,
  compare_values, changes_of, sort_changes, insert_change, before, keys_of, with_keys, members_of,
  change_at,
}
use prompt_manager.Prompt.Diff.Laws.{
  OptionIsSorted, shown, build_field_diff_lem, build_field_diff_stable,
}
use prompt_manager.Prompt.Diff.Reported.{IsOnce, IsOrder, has, keyed}

abbrev pub plain : Printer
plain = record { number = λ n. n; marshal = λ j. codes "…" }

abbrev earlier : RawMessage
earlier =
    some (obj (member (codes "b") (num (codes "1")) (member (codes "a") (str (codes "x")) end)))

abbrev later : RawMessage
later = some (obj (member (codes "c") null (member (codes "b") (num (codes "2")) end)))

-- an order of its own
abbrev swapped : List Text → List Text
swapped [] = []
swapped (k ∷ []) = k ∷ []
swapped (j ∷ k ∷ keys) = k ∷ j ∷ keys

as_given-IsOrder : IsOrder (λ keys. keys)
as_given-IsOrder = record { keeps = λ keys key. refl; once = λ keys h. h }

swapped_keeps : (keys : List Text) (key : Text) → has key (swapped keys) ≡ has key keys
swapped_keeps [] key = refl
swapped_keeps (k ∷ []) key = refl
swapped_keeps (j ∷ k ∷ keys) key = ground arith

same_sym : (s t : Text) → same s t ≡ same t s
unfolding same
same_sym [] [] = refl
same_sym [] (d ∷ t) = refl
same_sym (c ∷ s) [] = refl
same_sym (c ∷ s) (d ∷ t) = ground (arith, same_sym s t)

swapped-IsOnce : (keys : List Text) → IsOnce keys → IsOnce (swapped keys)
swapped-IsOnce [] h = tt
swapped-IsOnce (k ∷ []) h = h
swapped-IsOnce (j ∷ k ∷ keys) (a, (b, c)) =
    (ground (arith, a, b, same_sym j k), (ground (arith, a), c))

swapped-IsOrder : IsOrder swapped
swapped-IsOrder = record { keeps = swapped_keeps; once = swapped-IsOnce }

differing :
    build_field_diff plain swapped earlier later
    ≡ some (
        record { key = codes "a"; change = removed (codes "x") }
        ∷ record { key = codes "b"; change = modified (codes "1") (codes "2") }
        ∷ record { key = codes "c"; change = added (codes "") }
        ∷ [])
unfolding build_field_diff stringify_json_value value_at compare_values changes_of sort_changes
    insert_change before keys_of with_keys same
differing = refl

build_field_diff_lem_example :
    let diff = build_field_diff plain swapped earlier later in
    ((key : Text)
      → shown key diff ≡ keyed key (change_at plain (members_of earlier) (members_of later) key))
    × OptionIsSorted diff
build_field_diff_lem_example = build_field_diff_lem plain swapped earlier later swapped-IsOrder

build_field_diff_stable_example :
    build_field_diff plain swapped earlier later
    ≡ build_field_diff plain (λ keys. keys) earlier later
build_field_diff_stable_example =
    build_field_diff_stable plain swapped (λ keys. keys) earlier later swapped-IsOrder
      as_given-IsOrder
