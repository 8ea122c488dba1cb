-- ===== src/Middleware/Cors.antt =====
-- buildCORSConfig and classifyAllowedOrigins of internal/server/http/router.go.
use prompt_manager.Base.{Bool, true, false, not, ◌&&◌, ◌||◌, List, [], ◌∷◌, any, if◌then◌else◌}
use prompt_manager.Text.{Text, codes, same, is_empty, trim_space, to_lower, contains}
use prompt_manager.Config.Settings.{CorsConfig}

pub record Origins : Type 0 where
  pub exact : List Text
  pub patterns : List Text
  pub allow_all : Bool

abbrev pub all_origins : Origins
all_origins = record { exact = []; patterns = []; allow_all = true }

abbrev pub with_exact : Text → Origins → Origins
with_exact origin o = record o { exact = if o.allow_all then [] else origin ∷ o.exact }

abbrev pub with_pattern : Text → Origins → Origins
with_pattern origin o = record o { patterns = if o.allow_all then [] else origin ∷ o.patterns }

-- The loop, with the lower-case exact origins so far. `compiles` says whether the expression of a
-- pattern compiles; a pattern stands for its expression.
unfoldable pub classify_from : (Text → Bool) → List Text → List Text → Origins
classify_from compiles seen [] = record { exact = []; patterns = []; allow_all = false }
classify_from compiles seen (origin ∷ origins) =
    let clean = trim_space origin in
    let skipped = classify_from compiles seen origins in
    let added = classify_from compiles (to_lower clean ∷ seen) origins in
    if is_empty clean
    then skipped
    else if same clean (codes "*")
    then all_origins
    else if contains clean (codes "*")
    then (if compiles clean then with_pattern clean skipped else skipped)
    else if any (λ s. same s (to_lower clean)) seen
    then skipped
    else with_exact clean added

unfoldable pub classify_allowed_origins : (Text → Bool) → List Text → Origins
classify_allowed_origins compiles origins = classify_from compiles [] origins

-- how the CORS library is told which origins are allowed
pub data AllowRule : Type 0 where
  everything : AllowRule
  listed : List Text → AllowRule
  tested : (Text → Bool) → AllowRule

abbrev pub is_none : List Text → Bool
is_none [] = true
is_none (x ∷ xs) = false

-- AllowOriginFunc; `matches` is the match of a pattern's expression
abbrev pub origin_allowed : (Text → Text → Bool) → Origins → Text → Bool
origin_allowed matches o origin =
    not (is_empty origin)
    && (any (λ e. same (to_lower origin) (to_lower e)) o.exact
        || any (λ p. matches p origin) o.patterns)

unfoldable pub allow_rule : (Text → Text → Bool) → Origins → AllowRule
allow_rule matches o =
    if o.allow_all
    then everything
    else if is_none o.patterns
    then listed o.exact
    else tested (origin_allowed matches o)

unfoldable pub build_cors_rule : (Text → Bool) → (Text → Text → Bool) → CorsConfig → AllowRule
build_cors_rule compiles matches cfg =
    allow_rule matches (classify_allowed_origins compiles cfg.allow_origins)
