-- ===== src/Repository/Sql/Selects.antt =====
-- The SELECT statements of promptRepository.List and Count, and what a database makes of them.
use prompt_manager.Base.{
  ℕ, suc, Bool, true, false, ◌&&◌, Option, none, some, List, [], ◌∷◌, ◌++◌, select, count, page,
  descending, map, if◌then◌else◌,
}
use prompt_manager.Text.{Text, codes, is_empty}
use prompt_manager.Domain.{Prompt, PromptListOptions}
use prompt_manager.Store.{Action, Engine, query, like}
use prompt_manager.Repository.Paging.{limit_or, offset_of}
use prompt_manager.Repository.Prompts.{live, joined, search_pattern, search_of}
use prompt_manager.Repository.Sql.Dialect.{Dialect, PlaceholderBuilder, new_builder, next}
use prompt_manager.Repository.Sql.Statements.{Value, str, number, join}
use prompt_manager.Repository.Sql.Meaning.{bound}

-- "p.deleted_at IS NULL", and "LOWER(p.name) LIKE …"
pub data Condition : Type 0 where
  undeleted : Condition
  name_like : (placeholder : Text) → Condition

pub record Select : Type 0 where
  pub conditions : List Condition
  -- the placeholders of LIMIT and OFFSET, where the statement has them
  pub bounds : Option (Text × Text)
  pub args : List Value

abbrev pub first_condition : Bool → List Condition
first_condition include_deleted = if include_deleted then [] else undeleted ∷ []

-- the text to search for, and whether there is one
abbrev pub conditions_of :
    PlaceholderBuilder → (include_deleted : Bool) → (search : Text) → List Condition
conditions_of ph include_deleted search =
    if is_empty search
    then first_condition include_deleted
    else first_condition include_deleted ++ name_like (next ph).0 ∷ []

abbrev pub search_args : Text → List Value
search_args search = if is_empty search then [] else str (search_pattern search) ∷ []

abbrev pub behind_search : Text → PlaceholderBuilder → PlaceholderBuilder
behind_search search ph = if is_empty search then ph else (next ph).1

unfoldable pub list_statement : Dialect → PromptListOptions → Select
list_statement d opts =
    let search = search_of opts in
    let ph = new_builder d in
    let (limit, ph1) = next (behind_search search ph) in
    let (offset, ph2) = next ph1 in
    record {
      conditions = conditions_of ph opts.include_deleted search;
      bounds = some (limit, offset);
      args =
          search_args search
          ++ number (limit_or 50 opts.limit) ∷ number (offset_of opts.offset) ∷ [];
    }

unfoldable pub count_statement : Dialect → PromptListOptions → Select
count_statement d opts =
    let search = search_of opts in
    record {
      conditions = conditions_of (new_builder d) opts.include_deleted search;
      bounds = none;
      args = search_args search;
    }

abbrev pub condition_text : Condition → Text
condition_text undeleted = codes "p.deleted_at IS NULL"
condition_text (name_like placeholder) = codes "LOWER(p.name) LIKE " ++ placeholder

abbrev pub where_text : List Condition → Text
where_text [] = []
where_text (c ∷ cs) = codes " WHERE " ++ join (codes " AND ") (map condition_text (c ∷ cs))

abbrev pub bounds_text : Option (Text × Text) → Text
bounds_text none = []
bounds_text (some (limit, offset)) =
    codes " ORDER BY p.updated_at DESC LIMIT " ++ (limit ++ (codes " OFFSET " ++ offset))

-- the text behind the table and its join
unfoldable pub tail_text : Select → Text
tail_text s = where_text s.conditions ++ bounds_text s.bounds

abbrev pub matches : Engine → Option Value → Text → Bool
matches e (some (str pattern)) name = like e.like_escapes pattern name
matches e other_value name = false

-- the conditions, behind `position` placeholders
abbrev pub meets : Bool → List Value → Engine → ℕ → List Condition → Prompt → Bool
meets numbered args e position [] p = true
meets numbered args e position (undeleted ∷ cs) p = live p && meets numbered args e position cs p
meets numbered args e position (name_like placeholder ∷ cs) p =
    matches e (bound numbered (suc position) placeholder args) (e.lower p.name)
    && meets numbered args e (suc position) cs p

abbrev pub placeholders : List Condition → ℕ
placeholders [] = 0
placeholders (undeleted ∷ cs) = placeholders cs
placeholders (name_like placeholder ∷ cs) = suc (placeholders cs)

-- LIMIT and OFFSET; a statement with other arguments is refused, and has no rows
abbrev pub paged : Option Value → Option Value → List Prompt → List Prompt
paged (some (number limit)) (some (number offset)) rows = page limit offset rows
paged limit offset rows = []

abbrev pub bounded : Bool → Select → List Prompt → List Prompt
bounded numbered s rows = elim s.bounds [
  | none ↦ rows
  | some b ↦
      let n = placeholders s.conditions in
      paged (bound numbered (suc n) b.0 s.args) (bound numbered (suc (suc n)) b.1 s.args)
        (descending (λ p. p.updated_at) rows)
]

-- the rows of a statement, and their number
unfoldable pub rows_of : Bool → Select → Engine → List Prompt → List Prompt
unfolding bound
rows_of numbered s e prompts =
    bounded numbered s (select (meets numbered s.args e 0 s.conditions) prompts)

unfoldable pub count_of : Bool → Select → Engine → List Prompt → ℕ
unfolding bound
count_of numbered s e prompts = count (meets numbered s.args e 0 s.conditions) prompts

unfoldable pub query_rows : Bool → Select → Action (List Prompt)
query_rows numbered s = query λ e db. map (joined db) (rows_of numbered s e db.prompts)

unfoldable pub query_count : Bool → Select → Action ℕ
query_count numbered s = query λ e db. count_of numbered s e db.prompts
