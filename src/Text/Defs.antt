-- ===== src/Text/Defs.antt =====
-- Texts as their code points, with the operations of Go's `strings` package that the code calls.
use Prim.Native.Char.{code}
use prompt_manager.Base.{
  ℕ, ◌+◌, ◌-◌, String, Bool, true, false, ◌&&◌, ◌||◌, Option, none, some, List, [], ◌∷◌, map, leb,
  ◌==◌, if◌then◌else◌,
}
use prompt_manager.Text.Lower.{lower_wide}

abbrev pub Text : Type 0
Text = List ℕ

-- The code points of a literal.
abbrev pub codes : String → Text
codes String.[] = []
codes (String.◌∷◌ c s) = code c ∷ codes s

unfoldable pub same : Text → Text → Bool
same [] [] = true
same (a ∷ s) (b ∷ t) = a == b && same s t
same _ _ = false

abbrev pub is_empty : Text → Bool
is_empty [] = true
is_empty (_ ∷ _) = false

-- unicode.IsSpace
unfoldable pub is_space : ℕ → Bool
is_space c =
    (leb 9 c && leb c 13)
    || c == 32
    || c == 0x85
    || c == 0xA0
    || c == 0x1680
    || (leb 0x2000 c && leb c 0x200A)
    || c == 0x2028
    || c == 0x2029
    || c == 0x202F
    || c == 0x205F
    || c == 0x3000

unfoldable pub trim_left : Text → Text
trim_left [] = []
trim_left (c ∷ s) = if is_space c then trim_left s else c ∷ s

unfoldable pub trim_right : Text → Text
trim_right [] = []
trim_right (c ∷ s) = let rest = trim_right s in if is_space c && is_empty rest then [] else c ∷ rest

-- strings.TrimSpace
unfoldable pub trim_space : Text → Text
unfolding trim_left trim_right is_space
trim_space s = trim_right (trim_left s)

-- unicode.ToLower
unfoldable pub lower_code : ℕ → ℕ
unfolding lower_wide
lower_code c = if leb b'A' c && leb c b'Z' then c + 32 else if leb c 127 then c else lower_wide c

-- strings.ToLower
unfoldable pub to_lower : Text → Text
unfolding lower_code
to_lower s = map lower_code s

-- unicode.ToUpper where the result is an ASCII letter: those of ASCII, U+017F and U+0131. The code
-- compares what it gets with words of ASCII.
unfoldable pub upper_code : ℕ → ℕ
upper_code c =
    if leb b'a' c && leb c b'z'
    then c - 32
    else if c == 0x17F
    then b'S'
    else if c == 0x131
    then b'I'
    else c

-- strings.ToUpper
unfoldable pub to_upper : Text → Text
unfolding upper_code
to_upper s = map upper_code s

unfoldable pub has_prefix : Text → Text → Bool
has_prefix s [] = true
has_prefix [] (_ ∷ _) = false
has_prefix (a ∷ s) (b ∷ t) = a == b && has_prefix s t

-- strings.Contains
unfoldable pub contains : Text → Text → Bool
unfolding has_prefix
contains [] t = has_prefix [] t
contains (a ∷ s) t = has_prefix (a ∷ s) t || contains s t

-- optionalString: the trimmed text, or nil if it is blank
unfoldable pub optional_string : Text → Option Text
unfolding trim_space
optional_string val =
    let trimmed = trim_space val in if is_empty trimmed then none else some trimmed

-- optionalTrimmedString
unfoldable pub optional_trimmed_string : Option Text → Option Text
unfolding optional_string
optional_trimmed_string none = none
optional_trimmed_string (some val) = optional_string val
