-- ===== src/Repository/Sql/Statements.antt =====
-- The UPDATE statements of promptRepository.Update and Restore, and the conditions of List and Count.
use prompt_manager.Base.{
  ℕ, Bool, not, ◌&&◌, Option, none, some, is_some, true, false, List, [], ◌∷◌, ◌++◌, if◌then◌else◌,
}
use prompt_manager.Text.{Text, codes}
use prompt_manager.Domain.{Error, other, RawMessage, PromptUpdateParams, PromptRestoreParams}
use prompt_manager.Repository.Sql.Dialect.{Dialect, PlaceholderBuilder, new_builder, next}

-- an argument of a statement
pub data Value : Type 0 where
  str : Text → Value
  -- sql.NullString
  nullable : Option Text → Value
  raw : RawMessage → Value
  number : ℕ → Value

-- `column = placeholder`, or an assignment without one
pub data Assignment : Type 0 where
  assigned : (column placeholder : Text) → Assignment
  fixed : Text → Assignment

-- the variables ph, sets and args
pub record Build : Type 0 where
  pub ph : PlaceholderBuilder
  pub sets : List Assignment
  pub args : List Value

abbrev pub begin : Dialect → List Assignment → Build
begin d sets = record { ph = new_builder d; sets = sets; args = [] }

abbrev pub add : Text → Value → Build → Build
add column value b =
    let (placeholder, ph) = next b.ph in
    record {
      ph = ph;
      sets = b.sets ++ assigned column placeholder ∷ [];
      args = b.args ++ value ∷ [];
    }

-- if params.Has… { … }
abbrev pub add_if : Bool → Text → Value → Build → Build
add_if has column value b = if has then add column value b else b

-- UPDATE prompts SET … WHERE id = …
pub record Update : Type 0 where
  pub sets : List Assignment
  pub id_placeholder : Text
  pub condition : Text
  pub args : List Value

-- what the builder comes to: an error, no statement, or one
pub data Built : Type 0 where
  refused : Error → Built
  nothing : Built
  statement : Update → Built

abbrev pub finish : (id condition : Text) → List Assignment → Build → Built
finish id condition last b =
    let (placeholder, ph) = next b.ph in
    statement (record {
      sets = b.sets ++ last;
      id_placeholder = placeholder;
      condition = condition;
      args = b.args ++ str id ∷ [];
    })

abbrev pub text_of : Option Text → Text
text_of none = []
text_of (some t) = t

abbrev pub update_sets : Dialect → PromptUpdateParams → Build
update_sets d params = add_if params.has_tags (codes "tags") (raw params.tags) (
    add_if params.has_description (codes "description") (nullable params.description)
      (add_if params.has_name (codes "name") (str (text_of params.name)) (begin d [])))

abbrev pub is_nil {ℓ} : {A : Type ℓ} → List A → Bool
is_nil [] = true
is_nil (x ∷ xs) = false

unfoldable pub update_statement : Dialect → Text → PromptUpdateParams → Built
update_statement d id params =
    if params.has_name && not (is_some params.name)
    then refused (other (codes "prompt name cannot be nil"))
    else if is_nil (update_sets d params).sets
    then nothing
    else finish id (codes " AND deleted_at IS NULL")
        (fixed (codes "updated_at = CURRENT_TIMESTAMP") ∷ []) (update_sets d params)

-- what Restore always sets
abbrev pub restore_first : List Assignment
restore_first =
    fixed (codes "status = 'active'")
    ∷ fixed (codes "deleted_at = NULL")
    ∷ fixed (codes "updated_at = CURRENT_TIMESTAMP")
    ∷ []

abbrev pub restore_sets : Dialect → PromptRestoreParams → Build
restore_sets d params = add_if params.has_body (codes "body") (nullable params.body) (
    add_if params.has_created_by (codes "created_by") (nullable params.created_by) (
      add_if params.has_tags (codes "tags") (raw params.tags) (
        add_if params.has_description (codes "description") (nullable params.description)
          (begin d restore_first))))

unfoldable pub restore_statement : Dialect → Text → PromptRestoreParams → Built
restore_statement d id params =
    finish id (codes " AND status = 'deleted'") [] (restore_sets d params)

-- strings.Join
abbrev pub join : Text → List Text → Text
join separator [] = []
join separator (t ∷ []) = t
join separator (t ∷ s ∷ ts) = t ++ (separator ++ join separator (s ∷ ts))

abbrev pub assignment_text : Assignment → Text
assignment_text (assigned column placeholder) = column ++ (codes " = " ++ placeholder)
assignment_text (fixed text) = text

abbrev pub texts : List Assignment → List Text
texts [] = []
texts (a ∷ as') = assignment_text a ∷ texts as'

-- the text of the statement
unfoldable pub update_text : Update → Text
update_text u =
    codes "UPDATE prompts SET "
    ++ (join (codes ", ") (texts u.sets)
        ++ (codes " WHERE id = " ++ (u.id_placeholder ++ u.condition)))
