-- ===== src/Http/Query.antt =====
-- parsePagination, parseQueryInt, and strconv.ParseBool.
use prompt_manager.Base.{
  ℤ, pos, negsuc, Bool, true, false, ◌||◌, Option, none, some, is_positive, if◌then◌else◌,
}
use prompt_manager.Text.{Text, codes, same, is_empty, trim_space, atoi}

abbrev pub is_nonnegative : ℤ → Bool
is_nonnegative (pos _) = true
is_nonnegative (negsuc _) = false

-- the number, if there is one and it passes the test
abbrev pub accepted : (ℤ → Bool) → ℤ → Option ℤ → ℤ
accepted test fallback none = fallback
accepted test fallback (some v) = if test v then v else fallback

unfoldable pub query_number : (ℤ → Bool) → ℤ → Text → ℤ
query_number test fallback value =
    if is_empty value then fallback else accepted test fallback (atoi value)

unfoldable pub parse_pagination : Text → Text → ℤ × ℤ
unfolding query_number
parse_pagination limit_str offset_str =
    (query_number is_positive (pos 50) limit_str, query_number is_nonnegative (pos 0) offset_str)

unfoldable pub parse_query_int : Text → ℤ → ℤ
unfolding query_number
parse_query_int value fallback = query_number is_positive fallback value

-- strconv.ParseBool; none for an error
unfoldable pub parse_bool : Text → Option Bool
parse_bool s =
    if same s (codes "1")
      || same s (codes "t")
      || same s (codes "T")
      || same s (codes "TRUE")
      || same s (codes "true")
      || same s (codes "True")
    then some true
    else if same s (codes "0")
        || same s (codes "f")
        || same s (codes "F")
        || same s (codes "FALSE")
        || same s (codes "false")
        || same s (codes "False")
    then some false
    else none

abbrev pub or_false : Option Bool → Bool
or_false none = false
or_false (some b) = b

-- the parameter includeDeleted
unfoldable pub parse_flag : Text → Bool
parse_flag raw =
    let value = trim_space raw in if is_empty value then false else or_false (parse_bool value)
