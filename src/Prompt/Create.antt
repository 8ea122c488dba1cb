-- ===== src/Prompt/Create.antt =====
-- CreatePrompt: a new prompt, or a deleted one of the same name brought back.
use prompt_manager.Base.{true, Option, none, some, [], if◌then◌else◌}
use prompt_manager.Text.{
  Text, codes, same, is_empty, trim_space, optional_string, optional_trimmed_string,
}
use prompt_manager.Domain.{
  Error, name_required, prompt_already_exists, is_not_found, is_unique_violation, Prompt,
  PromptRestoreParams, Result, ok, err,
}
use prompt_manager.Store.{Action, ◌>>=◌, ◌>>◌, pure, raise, raise_if, attempt, map_error, new_id}
use prompt_manager.Repository.Prompts
use prompt_manager.Prompt.Inputs.{CreatePromptInput, tags_json}
use prompt_manager.Prompt.Manage.{get_prompt}

-- `existing`, where an error other than ErrNotFound is returned
unfoldable pub existing_of : Result Prompt → Action (Option Prompt)
existing_of (ok p) = pure (some p)
existing_of (err e) = if is_not_found e then pure none else raise e

abbrev pub restore_params : CreatePromptInput → PromptRestoreParams
restore_params input = record {
  description = optional_trimmed_string input.description;
  tags = tags_json input.tags;
  created_by = optional_string input.created_by;
  body = none;
  has_description = true;
  has_tags = true;
  has_created_by = true;
  has_body = true;
}

abbrev pub new_prompt : Text → Text → CreatePromptInput → Prompt
new_prompt id name input = record {
  id = id;
  name = name;
  description = optional_trimmed_string input.description;
  tags = tags_json input.tags;
  active_version_id = none;
  body = none;
  created_by = optional_string input.created_by;
  status = [];
  deleted_at = none;
  created_at = 0;
  updated_at = 0;
}

abbrev pub create_error : Error → Error
create_error e = if is_unique_violation e then prompt_already_exists else e

unfoldable pub insert_new : Text → CreatePromptInput → Action Prompt
insert_new name input = do
  id ← new_id
  map_error create_error (Prompts.create (new_prompt id name input))
  get_prompt id

unfoldable pub restore_existing : Prompt → CreatePromptInput → Action Prompt
restore_existing existing input = do
  Prompts.restore existing.id (restore_params input)
  get_prompt existing.id

unfoldable pub create_or_restore : Option Prompt → Text → CreatePromptInput → Action Prompt
create_or_restore none name input = insert_new name input
create_or_restore (some existing) name input =
    if same existing.status (codes "deleted")
    then restore_existing existing input
    else raise prompt_already_exists

-- the fields of the result are those of the input, whatever was read back
abbrev pub as_given : CreatePromptInput → Prompt → Prompt
as_given input created = record created {
  tags = tags_json input.tags;
  description = optional_trimmed_string input.description;
  created_by = optional_string input.created_by;
}

unfoldable pub create_prompt : CreatePromptInput → Action Prompt
create_prompt input = do
  let name = trim_space input.name
  raise_if (is_empty name) name_required
  lookup ← attempt (Prompts.get_by_name name true)
  existing ← existing_of lookup
  created ← create_or_restore existing name input
  pure (as_given input created)
