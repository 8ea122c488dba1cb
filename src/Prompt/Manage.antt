-- ===== src/Prompt/Manage.antt =====
-- GetPrompt, ListPrompts, UpdatePrompt, DeletePrompt, RestorePrompt.
use prompt_manager.Base.{
  ℕ, false, not, ◌&&◌, ◌||◌, Option, none, some, is_some, List, if◌then◌else◌,
}
use prompt_manager.Text.{Text, codes, same, is_empty, trim_space, to_lower, optional_trimmed_string}
use prompt_manager.Domain.{
  Error, name_required, prompt_not_found, prompt_already_exists, no_fields_to_update,
  prompt_not_deleted, is_not_found, is_unique_violation, RawMessage, marshal_strings, Prompt,
  PromptListOptions, PromptUpdateParams, PromptRestoreParams,
}
use prompt_manager.Store.{Action, ◌>>=◌, ◌>>◌, pure, raise, raise_if, map_error, missing_as}
use prompt_manager.Repository.Prompts
use prompt_manager.Prompt.Inputs.{Service, UpdatePromptInput, audit, status_payload}

unfoldable pub get_prompt : Text → Action Prompt
get_prompt prompt_id = map_error (missing_as prompt_not_found) (Prompts.get_by_id prompt_id)

unfoldable pub list_prompts : PromptListOptions → Action (List Prompt × ℕ)
list_prompts opts = do
  let repo_opts = record opts { search = trim_space opts.search }
  prompts ← Prompts.list repo_opts
  total ← Prompts.count_all repo_opts
  pure (prompts, total)

-- the errors of Update
abbrev pub update_error : Error → Error
update_error e =
    if is_not_found e
    then prompt_not_found
    else if is_unique_violation e
    then prompt_already_exists
    else e

-- the new name: trimmed, and not empty
unfoldable pub checked_name : Option Text → Action (Option Text)
checked_name none = pure none
checked_name (some raw) =
    let name = trim_space raw in if is_empty name then raise name_required else pure (some name)

abbrev pub update_tags : Option (Option (List Text)) → RawMessage
update_tags (some (some tags)) = some (marshal_strings tags)
update_tags _ = none

abbrev pub update_params : Option Text → UpdatePromptInput → PromptUpdateParams
update_params name input = record {
  name = name;
  description = optional_trimmed_string input.description;
  tags = update_tags input.tags;
  has_name = is_some name;
  has_description = is_some input.description;
  has_tags = is_some input.tags;
}

unfoldable pub update_prompt : UpdatePromptInput → Action Prompt
update_prompt input = do
  name ← checked_name input.name
  let updates = update_params name input
  raise_if (not (updates.has_name || updates.has_description || updates.has_tags))
      no_fields_to_update
  map_error update_error (Prompts.update input.prompt_id updates)
  get_prompt input.prompt_id

unfoldable pub delete_prompt : Service → Text → Text → Action (Unit {0})
delete_prompt s prompt_id deleted_by = do
  map_error (missing_as prompt_not_found) (Prompts.delete prompt_id)
  audit s prompt_id (codes "prompt.deleted") (status_payload (codes "deleted")) deleted_by

-- `PromptRestoreParams{}`
abbrev pub no_restore_params : PromptRestoreParams
no_restore_params = record {
  description = none;
  tags = none;
  created_by = none;
  body = none;
  has_description = false;
  has_tags = false;
  has_created_by = false;
  has_body = false;
}

unfoldable pub restore_prompt : Service → Text → Text → Action Prompt
restore_prompt s prompt_id restored_by = do
  deleted ← map_error (missing_as prompt_not_found) (Prompts.get_by_id_include_deleted prompt_id)
  raise_if
      (not (is_some deleted.deleted_at) && not (same (to_lower deleted.status) (codes "deleted")))
      prompt_not_deleted
  map_error (missing_as prompt_not_found) (Prompts.restore prompt_id no_restore_params)
  restored ← get_prompt prompt_id
  audit s prompt_id (codes "prompt.restored") (status_payload (codes "restored")) restored_by
  pure restored
