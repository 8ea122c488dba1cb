-- ===== src/Http/Prompts/Requests.antt =====
-- The payloads of the prompt handlers. Decoding is the JSON library's; the `binding` tags are
-- tested here.
use prompt_manager.Base.{
  Bool, true, ◌&&◌, ◌||◌, Option, none, some, List, length, ltb, leb, if◌then◌else◌,
}
use prompt_manager.Text.{Text, codes, same, is_empty}
use prompt_manager.Domain.{Json, other, Result, ok, err}

pub record CreatePromptRequest : Type 0 where
  pub name : Text
  pub description : Option Text
  pub tags : List Text
  pub body : Text

pub record UpdatePromptRequest : Type 0 where
  pub name : Option Text
  pub description : Option Text
  pub tags : Option (List Text)

pub record CreatePromptVersionRequest : Type 0 where
  pub body : Text
  pub variables_schema : Option Json
  pub metadata : Option Json
  pub status : Text
  pub activate : Bool

-- min=1,max=128
abbrev pub is_name : Text → Bool
is_name name = ltb 0 (length name) && leb (length name) 128

-- binding:"required,min=1,max=128", "max=10", and "omitempty,min=1", which all texts pass
unfoldable pub create_prompt_binding : CreatePromptRequest → Bool
create_prompt_binding req = is_name req.name && leb (length req.tags) 10

abbrev pub is_optional_name : Option Text → Bool
is_optional_name none = true
is_optional_name (some name) = is_name name

-- "max=10" without omitempty: what the validator says of a nil pointer is its own
abbrev pub at_most_ten : Bool → Option (List Text) → Bool
at_most_ten nil_passes none = nil_passes
at_most_ten nil_passes (some tags) = leb (length tags) 10

-- binding:"omitempty,min=1,max=128", and "max=10"
unfoldable pub update_prompt_binding : Bool → UpdatePromptRequest → Bool
update_prompt_binding nil_passes req = is_optional_name req.name && at_most_ten nil_passes req.tags

-- binding:"required,min=1", and "omitempty,oneof=draft published archived"
unfoldable pub create_version_binding : CreatePromptVersionRequest → Bool
create_version_binding req =
    ltb 0 (length req.body)
    && (is_empty req.status
        || same req.status (codes "draft")
        || same req.status (codes "published")
        || same req.status (codes "archived"))

-- ShouldBindJSON: what the decoder gives, if it passes the tags; `refused` is the validator's text
unfoldable pub should_bind : {A : Type 0} → (A → Bool) → Text → Result A → Result A
should_bind passes refused (err e) = err e
should_bind passes refused (ok req) = if passes req then ok req else err (other refused)
