-- ===== src/Store/Wildcards.antt =====
-- LIKE with a pattern that is made of a text without wildcards, and strings.Contains.
use prompt_manager.Base.{◌≡◌, refl, ap, ◌∙◌, Bool, false, ◌||◌, [], ◌∷◌, ◌++◌, any, arith, ◌==◌}
use prompt_manager.Text.{Text, has_prefix, contains}
use prompt_manager.Store.Like.{some_end, like}

-- the code points that LIKE does not read as themselves, on every engine
abbrev pub has_wildcard : Text → Bool
has_wildcard t = any (λ b. b == b'%' || b == b'_' || b == b'\\') t

like_prefix :
    (escapes : Bool) (t s : Text)
    → has_wildcard t ≡ false
    → like escapes (t ++ b'%' ∷ []) s ≡ has_prefix s t
unfolding like has_prefix
like_prefix escapes [] s h = refl
like_prefix escapes (b ∷ []) [] h = ground (arith, h)
like_prefix escapes (b ∷ []) (c ∷ s) h = ground (arith, h)
like_prefix escapes (b ∷ b' ∷ t) [] h = ground (arith, h)
like_prefix escapes (b ∷ b' ∷ t) (c ∷ s) h = ground (arith, h, like_prefix escapes (b' ∷ t) s)

some_end-contains :
    (p : Text → Bool) (t s : Text)
    → ((s : Text) → p s ≡ has_prefix s t)
    → some_end p s ≡ contains s t
unfolding contains
some_end-contains p t [] h = h []
some_end-contains p t (c ∷ s) h =
    ap (λ (b : Bool). b || some_end p s) (h (c ∷ s))
    ∙ ap (λ (b : Bool). has_prefix (c ∷ s) t || b) (some_end-contains p t s h)

-- the pattern of a search
pub like-contains :
    (escapes : Bool) (t s : Text)
    → has_wildcard t ≡ false
    → like escapes (b'%' ∷ (t ++ b'%' ∷ [])) s ≡ contains s t
unfolding like
like-contains escapes [] s h = some_end-contains _ [] s (λ e. like_prefix escapes [] e h)
like-contains escapes (b ∷ t) s h =
    some_end-contains _ (b ∷ t) s (λ e. like_prefix escapes (b ∷ t) e h)
