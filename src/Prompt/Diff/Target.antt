-- ===== src/Prompt/Diff/Target.antt =====
-- DiffPromptVersion, resolveDiffTarget and summarizeVersion.
use prompt_manager.Base.{ℕ, Bool, not, Option, none, some, List, if◌then◌else◌}
use prompt_manager.Text.{Text, same}
use prompt_manager.Domain.{prompt_not_found, version_not_found, Prompt, PromptVersion}
use prompt_manager.Store.{Action, ◌>>=◌, ◌>>◌, pure, raise, raise_if, map_error, missing_as}
use prompt_manager.Repository.Prompts
use prompt_manager.Repository.Versions
use prompt_manager.Prompt.Diff.Fields.{Printer, JsonFieldChange, build_field_diff}
use prompt_manager.Prompt.Diff.Body.{DiffSegment, build_body_diff}

pub record DiffPromptVersionOptions : Type 0 where
  pub target_version_id : Option Text
  pub compare_to_active : Bool
  pub compare_to_previous : Bool

pub record VersionSummary : Type 0 where
  pub id : Text
  pub version_number : ℕ
  pub created_by : Option Text
  pub created_at : ℕ
  pub status : Text

pub record PromptVersionDiff : Type 0 where
  pub prompt_id : Text
  pub base : VersionSummary
  pub target : VersionSummary
  pub body : List DiffSegment
  pub variables : Option (List JsonFieldChange)
  pub metadata : Option (List JsonFieldChange)

-- What is not the program's: the printing of values, the order of a map, and the diff of texts.
pub record Libraries : Type 0 where
  pub printer : Printer
  pub order : List Text → List Text
  pub text_diff : Text → Text → List DiffSegment

abbrev pub summarize_version : PromptVersion → VersionSummary
summarize_version v = record {
  id = v.id;
  version_number = v.version_number;
  created_by = v.created_by;
  created_at = v.created_at;
  status = v.status;
}

-- GetByID, with ErrVersionNotFound for a version that is not there
unfoldable pub find_version : Text → Action PromptVersion
find_version id = map_error (missing_as version_not_found) (Versions.get_by_id id)

-- and for one of another prompt
unfoldable pub own_version : Text → Text → Action PromptVersion
own_version prompt_id id = do
  version ← find_version id
  raise_if (not (same version.prompt_id prompt_id)) version_not_found
  pure version

abbrev pub active_version : Prompt → Action PromptVersion
active_version prompt = elim prompt.active_version_id [
  | none ↦ raise version_not_found
  | some id ↦ find_version id
]

-- CompareToPrevious is set where it was not, so that it decides nothing.
unfoldable pub resolve_diff_target :
    Text → PromptVersion → DiffPromptVersionOptions → Action PromptVersion
resolve_diff_target prompt_id base opts = elim opts.target_version_id [
  | some id ↦ own_version prompt_id id
  | none ↦
      if opts.compare_to_active
      then (do
        prompt ← map_error (missing_as prompt_not_found) (Prompts.get_by_id prompt_id)
        active_version prompt)
      else map_error (missing_as version_not_found)
          (Versions.get_previous_version prompt_id base.version_number)
]

abbrev pub diff_of : Libraries → Text → PromptVersion → PromptVersion → PromptVersionDiff
diff_of l prompt_id base target = record {
  prompt_id = prompt_id;
  base = summarize_version base;
  target = summarize_version target;
  body = build_body_diff (l.text_diff target.body base.body);
  variables = build_field_diff l.printer l.order target.variables_schema base.variables_schema;
  metadata = build_field_diff l.printer l.order target.metadata base.metadata;
}

unfoldable pub diff_prompt_version :
    Libraries → Text → Text → DiffPromptVersionOptions → Action PromptVersionDiff
diff_prompt_version l prompt_id base_version_id opts = do
  base ← own_version prompt_id base_version_id
  target ← resolve_diff_target prompt_id base opts
  pure (diff_of l prompt_id base target)
