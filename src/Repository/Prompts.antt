-- ===== src/Repository/Prompts.antt =====
-- promptRepository
use prompt_manager.Base.{
  ℕ, Bool, not, ◌&&◌, ◌||◌, Option, none, some, is_some, List, [], ◌∷◌, ◌++◌, map, select, first,
  count, page, descending, if◌then◌else◌,
}
use prompt_manager.Text.{Text, codes, same, is_empty, trim_space, to_lower}
use prompt_manager.Domain.{
  User, Prompt, PromptListOptions, PromptUpdateParams, PromptRestoreParams, other,
}
use prompt_manager.Store.{
  Action, Engine, Database, ◌>>=◌, ◌>>◌, pure, raise, query, exec, affected, found, insert_prompt,
  update_prompts, like,
}
use prompt_manager.Repository.Paging.{limit_or, offset_of}

unfoldable pub create : Prompt → Action (Unit {0})
create prompt = do
  exec λ now. insert_prompt (record prompt {
    status = codes "active";
    deleted_at = none;
    created_at = now;
    updated_at = now;
  })
  pure tt

-- The author as the queries report it: the email of the user whom LEFT JOIN finds, or the column.
abbrev pub author : List User → Option Text → Option Text
author users none = none
author users (some created_by) = elim (first (λ u. same u.id created_by) users) [
  | none ↦ some created_by
  | some u ↦ some u.email
]

abbrev pub joined : Database → Prompt → Prompt
joined db p = record p { created_by = author db.users p.created_by }

-- deleted_at IS NULL
abbrev pub live : Prompt → Bool
live p = not (is_some p.deleted_at)

abbrev pub with_id : Text → Prompt → Bool
with_id prompt_id p = same p.id prompt_id

abbrev pub live_id : Text → Prompt → Bool
live_id prompt_id p = same p.id prompt_id && live p

abbrev pub read_one : Database → Option Prompt → Option Prompt
read_one db none = none
read_one db (some p) = some (joined db p)

unfoldable pub get_by_id : Text → Action Prompt
get_by_id prompt_id = do
  row ← query λ _ db. read_one db (first (live_id prompt_id) db.prompts)
  found row

unfoldable pub get_by_id_include_deleted : Text → Action Prompt
get_by_id_include_deleted prompt_id = do
  row ← query λ _ db. read_one db (first (with_id prompt_id) db.prompts)
  found row

abbrev pub named : Engine → Text → Bool → Prompt → Bool
named e name include_deleted p = same (e.lower p.name) (e.lower name) && (include_deleted || live p)

unfoldable pub get_by_name : Text → Bool → Action Prompt
get_by_name name include_deleted = do
  row ← query λ e db. read_one db (first (named e name include_deleted) db.prompts)
  found row

-- fmt.Sprintf("%%%s%%", search)
abbrev pub search_pattern : Text → Text
search_pattern search = b'%' ∷ (search ++ b'%' ∷ [])

-- the conditions that List and Count share
abbrev pub listed : Engine → Text → Bool → Prompt → Bool
listed e search include_deleted p =
    (include_deleted || live p)
    && (is_empty search || like e.like_escapes (search_pattern search) (e.lower p.name))

abbrev pub search_of : PromptListOptions → Text
search_of opts = trim_space (to_lower opts.search)

unfoldable pub list : PromptListOptions → Action (List Prompt)
list opts = query λ e db. map (joined db) (
    page (limit_or 50 opts.limit) (offset_of opts.offset) (
      descending (λ p. p.updated_at)
        (select (listed e (search_of opts) opts.include_deleted) db.prompts)))

unfoldable pub count_all : PromptListOptions → Action ℕ
count_all opts = query λ e db. count (listed e (search_of opts) opts.include_deleted) db.prompts

unfoldable pub update_active_version : Text → Option Text → Option Text → Action (Unit {0})
update_active_version prompt_id version_id body = do
  rows ← exec λ now.
      update_prompts (live_id prompt_id)
        (λ p. record p { active_version_id = version_id; body = body; updated_at = now })
  affected rows

abbrev pub name_or : Option Text → Text → Text
name_or none old = old
name_or (some new) old = new

-- the assignments that Update collects
abbrev pub apply_update : PromptUpdateParams → ℕ → Prompt → Prompt
apply_update params now p = record p {
  name = if params.has_name then name_or params.name p.name else p.name;
  description = if params.has_description then params.description else p.description;
  tags = if params.has_tags then params.tags else p.tags;
  updated_at = now;
}

unfoldable pub update : Text → PromptUpdateParams → Action (Unit {0})
update prompt_id params =
    if params.has_name && not (is_some params.name)
    then raise (other (codes "prompt name cannot be nil"))
    else if not (params.has_name || params.has_description || params.has_tags)
    then pure tt
    else do
      rows ← exec λ now. update_prompts (live_id prompt_id) (apply_update params now)
      affected rows

unfoldable pub delete : Text → Action (Unit {0})
delete prompt_id = do
  rows ← exec λ now.
      update_prompts (live_id prompt_id)
        (λ p. record p { status = codes "deleted"; deleted_at = some now; updated_at = now })
  affected rows

-- the assignments that Restore collects
abbrev pub apply_restore : PromptRestoreParams → ℕ → Prompt → Prompt
apply_restore params now p = record p {
  status = codes "active";
  deleted_at = none;
  updated_at = now;
  description = if params.has_description then params.description else p.description;
  tags = if params.has_tags then params.tags else p.tags;
  created_by = if params.has_created_by then params.created_by else p.created_by;
  body = if params.has_body then params.body else p.body;
}

-- WHERE id = … AND status = 'deleted'
abbrev pub deleted_id : Text → Prompt → Bool
deleted_id prompt_id p = same p.id prompt_id && same p.status (codes "deleted")

unfoldable pub restore : Text → PromptRestoreParams → Action (Unit {0})
restore prompt_id params = do
  rows ← exec λ now. update_prompts (deleted_id prompt_id) (apply_restore params now)
  affected rows
