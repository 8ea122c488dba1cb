-- ===== src/Repository/Sql/Tests.antt =====
-- The texts of statements, and the theorem at concrete inputs.
use prompt_manager.Base.{◌≡◌, refl, pos, true, false, none, some, []}
use prompt_manager.Text.{Text, codes, same, decimal, trim_space, to_lower}
use prompt_manager.Domain.{PromptListOptions, PromptUpdateParams, PromptRestoreParams}
use prompt_manager.Repository.Prompts
use prompt_manager.Repository.Sql.Dialect.{Dialect, is_numbered, placeholder, next}
use prompt_manager.Repository.Sql.Statements.{
  Built, statement, update_statement, restore_statement, update_text,
}
use prompt_manager.Repository.Sql.Selects.{
  list_statement, count_statement, tail_text, query_rows, query_count,
}
use prompt_manager.Repository.Sql.Meaning.{execute}
use prompt_manager.Repository.Sql.Laws.Statements.{statements-refine}

abbrev postgres : Dialect
postgres = record { driver = codes "pgx" }

abbrev sqlite : Dialect
sqlite = record { driver = codes "sqlite" }

-- a new name, and no tags any more
abbrev renaming : PromptUpdateParams
renaming = record {
  name = some (codes "b");
  description = none;
  tags = none;
  has_name = true;
  has_description = false;
  has_tags = true;
}

abbrev reviving : PromptRestoreParams
reviving = record {
  description = some (codes "new");
  tags = none;
  created_by = none;
  body = none;
  has_description = true;
  has_tags = false;
  has_created_by = true;
  has_body = true;
}

abbrev searching : PromptListOptions
searching = record { limit = pos 0; offset = pos 7; search = codes " Hi "; include_deleted = false }

abbrev text_of_built : Built → Text
text_of_built (statement u) = update_text u
text_of_built other_built = []

numbered_text :
    text_of_built (update_statement postgres (codes "1") renaming)
    ≡ codes
        "UPDATE prompts SET name = $1, tags = $2, updated_at = CURRENT_TIMESTAMP WHERE id = $3 AND deleted_at IS NULL"
unfolding update_statement update_text next placeholder same decimal
numbered_text = refl

plain_text :
    text_of_built (restore_statement sqlite (codes "1") reviving)
    ≡ codes
        "UPDATE prompts SET status = 'active', deleted_at = NULL, updated_at = CURRENT_TIMESTAMP, description = ?, created_by = ?, body = ? WHERE id = ? AND status = 'deleted'"
unfolding restore_statement update_text next placeholder same decimal
plain_text = refl

list_text :
    tail_text (list_statement postgres searching)
    ≡ codes
        " WHERE p.deleted_at IS NULL AND LOWER(p.name) LIKE $1 ORDER BY p.updated_at DESC LIMIT $2 OFFSET $3"
unfolding list_statement tail_text next placeholder same decimal trim_space to_lower
list_text = refl

statements-refine_example :
    (execute (is_numbered postgres.driver) (update_statement postgres (codes "1") renaming)
      ≡ Prompts.update (codes "1") renaming)
    × (execute (is_numbered postgres.driver) (restore_statement postgres (codes "1") reviving)
        ≡ Prompts.restore (codes "1") reviving)
    × (query_rows (is_numbered postgres.driver) (list_statement postgres searching)
        ≡ Prompts.list searching)
    × (query_count (is_numbered postgres.driver) (count_statement postgres searching)
        ≡ Prompts.count_all searching)
statements-refine_example = statements-refine postgres (codes "1") renaming reviving searching
