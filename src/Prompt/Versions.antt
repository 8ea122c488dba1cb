-- ===== src/Prompt/Versions.antt =====
-- CreatePromptVersion and SetActiveVersion.
use prompt_manager.Base.{ℕ, ◌+◌, Option, none, some, if◌then◌else◌}
use prompt_manager.Text.{Text, codes, is_empty, trim_space, optional_string, decimal}
use prompt_manager.Domain.{
  body_required, version_not_found, Json, bool, num, str, obj, Members, end, member, Prompt,
  PromptVersion,
}
use prompt_manager.Store.{Action, ◌>>=◌, ◌>>◌, pure, raise_if, map_error, missing_as, new_id}
use prompt_manager.Repository.Prompts
use prompt_manager.Repository.Versions
use prompt_manager.Prompt.Inputs.{Service, CreatePromptVersionInput, normalized_status, audit}
use prompt_manager.Prompt.Manage.{get_prompt}

abbrev previous_member : Option Text → Members → Members
previous_member none rest = rest
previous_member (some id) rest = member (codes "previous_version_id") (str id) rest

-- json.Marshal writes the keys of a map in order
abbrev pub activated_payload : Prompt → PromptVersion → Json
activated_payload prompt version = obj (
    previous_member prompt.active_version_id (
      member (codes "version_id") (str version.id)
        (member (codes "version_number") (num (decimal version.version_number)) end)))

unfoldable pub set_active_version : Service → Text → Text → Text → Action (Unit {0})
set_active_version s prompt_id version_id activated_by = do
  prompt ← get_prompt prompt_id
  version ← map_error (missing_as version_not_found) (Versions.get_by_id version_id)
  Prompts.update_active_version prompt_id (some version_id) (some version.body)
  audit s prompt_id (codes "prompt.version.activated") (activated_payload prompt version)
      activated_by

abbrev pub created_payload : CreatePromptVersionInput → PromptVersion → Json
created_payload input created = obj (
    member (codes "activated_inline") (bool input.activate) (
      member (codes "status") (str created.status) (
        member (codes "version_id") (str created.id)
          (member (codes "version_number") (num (decimal created.version_number)) end))))

abbrev pub new_version : Text → ℕ → Text → Prompt → CreatePromptVersionInput → PromptVersion
new_version id latest body prompt input = record {
  id = id;
  prompt_id = prompt.id;
  version_number = latest + 1;
  body = body;
  variables_schema = input.variables_schema;
  status = normalized_status input.status;
  metadata = input.metadata;
  created_by = optional_string input.created_by;
  created_at = 0;
}

-- `if input.Activate { … }`
unfoldable pub activate_inline :
    Service → CreatePromptVersionInput → Prompt → PromptVersion → Action (Unit {0})
activate_inline s input prompt created =
    if input.activate then set_active_version s prompt.id created.id input.created_by else pure tt

-- the version behind its row, and the statements up to reading it back
unfoldable pub add_version : CreatePromptVersionInput → Prompt → Text → Action PromptVersion
add_version input prompt body = do
  latest ← Versions.get_latest_version_number prompt.id
  id ← new_id
  Versions.create (new_version id latest body prompt input)
  map_error (missing_as version_not_found) (Versions.get_by_id id)

unfoldable pub create_prompt_version : Service → CreatePromptVersionInput → Action PromptVersion
create_prompt_version s input = do
  prompt ← get_prompt input.prompt_id
  let body = trim_space input.body
  raise_if (is_empty body) body_required
  created ← add_version input prompt body
  activate_inline s input prompt created
  audit s prompt.id (codes "prompt.version.created") (created_payload input created)
      input.created_by
  pure created
