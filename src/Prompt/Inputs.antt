-- ===== src/Prompt/Inputs.antt =====
-- The inputs of the service's methods, the status of a version, and the audit log.
use prompt_manager.Base.{Bool, ◌||◌, Option, none, some, List, [], ◌∷◌, if◌then◌else◌}
use prompt_manager.Text.{Text, codes, same, trim_space, to_lower, optional_string}
use prompt_manager.Domain.{Json, obj, end, member, str, RawMessage, marshal_strings}
use prompt_manager.Store.{Action, ◌>>=◌, pure, new_id}
use prompt_manager.Repository.Audits

-- `repos.PromptAuditLog != nil`, the one repository that the service tests for
pub record Service : Type 0 where
  pub has_audit_log : Bool

pub record CreatePromptInput : Type 0 where
  pub name : Text
  pub description : Option Text
  pub tags : List Text
  pub created_by : Text

-- `tags` is a pointer to a slice, which may be nil
pub record UpdatePromptInput : Type 0 where
  pub prompt_id : Text
  pub name : Option Text
  pub description : Option Text
  pub tags : Option (Option (List Text))

pub record CreatePromptVersionInput : Type 0 where
  pub prompt_id : Text
  pub body : Text
  pub variables_schema : Option Json
  pub metadata : Option Json
  pub status : Text
  pub created_by : Text
  pub activate : Bool

unfoldable pub normalized_status : Text → Text
normalized_status status =
    let value = trim_space (to_lower status) in
    if same value (codes "published") || same value (codes "draft") || same value (codes "archived")
    then value
    else codes "draft"

-- the tags of a new prompt: nothing for an empty slice
abbrev pub tags_json : List Text → RawMessage
tags_json [] = none
tags_json (t ∷ ts) = some (marshal_strings (t ∷ ts))

unfoldable pub audit : Service → Text → Text → Json → Text → Action (Unit {0})
audit s prompt_id action payload actor =
    if s.has_audit_log
    then (do
      id ← new_id
      Audits.create (record {
        id = id;
        prompt_id = prompt_id;
        action = action;
        payload = some payload;
        created_by = optional_string actor;
        created_at = 0;
      }))
    else pure tt

abbrev pub status_payload : Text → Json
status_payload status = obj (member (codes "status") (str status) end)
