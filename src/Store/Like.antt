-- ===== src/Store/Like.antt =====
-- SQL's LIKE: `%` stands for any text and `_` for one code point.
use prompt_manager.Base.{ℕ, Bool, true, false, ◌||◌, ◌&&◌, [], ◌∷◌, ◌==◌, if◌then◌else◌}
use prompt_manager.Text.{Text, is_empty}

-- `p` holds of some end of the text.
abbrev pub some_end : (Text → Bool) → Text → Bool
some_end p [] = p []
some_end p (c ∷ s) = p (c ∷ s) || some_end p s

-- The first code point fits `b`, and `p` holds of the rest.
abbrev pub one_then : ℕ → (Text → Bool) → Text → Bool
one_then b p [] = false
one_then b p (c ∷ s) = (b == b'_' || b == c) && p s

-- the code point behind an escape, as itself
abbrev pub literal_then : ℕ → (Text → Bool) → Text → Bool
literal_then b p [] = false
literal_then b p (c ∷ s) = b == c && p s

-- Whether the engine takes a backslash for an escape. A pattern that ends in one matches nothing
-- here; PostgreSQL reports it as an error, and no pattern of the code ends so.
unfoldable pub like : (escapes : Bool) → Text → Text → Bool
like escapes [] s = is_empty s
like escapes (b ∷ []) s =
    if b == b'%' then true else if escapes && b == b'\\' then false else one_then b is_empty s
like escapes (b ∷ b' ∷ pattern) s =
    let rest = like escapes (b' ∷ pattern) in
    let escaped = like escapes pattern in
    if b == b'%'
    then some_end rest s
    else if escapes && b == b'\\'
    then literal_then b' escaped s
    else one_then b rest s
