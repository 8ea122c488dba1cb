-- ===== src/Repository/Sql/Dialect.antt =====
-- internal/infra/database/dialect.go
use prompt_manager.Base.{ℕ, ◌+◌, Bool, ◌||◌, ◌∷◌, if◌then◌else◌}
use prompt_manager.Text.{Text, codes, same, decimal}

pub record Dialect : Type 0 where
  pub driver : Text

-- the drivers of PostgreSQL
abbrev pub is_numbered : Text → Bool
is_numbered driver =
    same driver (codes "postgres") || same driver (codes "pgx") || same driver (codes "postgresql")

-- fmt.Sprintf("$%d", index), or "?"
abbrev pub mark : Bool → ℕ → Text
mark numbered index = if numbered then b'$' ∷ decimal index else codes "?"

unfoldable pub placeholder : Dialect → ℕ → Text
placeholder d index = mark (is_numbered d.driver) index

pub record PlaceholderBuilder : Type 0 where
  pub dialect : Dialect
  pub index : ℕ

abbrev pub new_builder : Dialect → PlaceholderBuilder
new_builder d = record { dialect = d; index = 0 }

-- Next: the placeholder, and the builder behind it
unfoldable pub next : PlaceholderBuilder → Text × PlaceholderBuilder
unfolding placeholder
next b = (placeholder b.dialect (b.index + 1), record b { index = b.index + 1 })
