-- ===== src/Http/Prompts/Handlers.antt =====
-- The handlers of prompts. `ctx.Param` and `ctx.Query` are arguments; `Context` is what the guard
-- has left.
use prompt_manager.Base.{
  ℕ, ◌+◌, ℤ, pos, negsuc, Bool, true, false, not, ◌&&◌, none, some, is_some, List, length, pos_part,
  int64, ltb, if◌then◌else◌,
}
use prompt_manager.Text.{Text, codes, same, is_empty, trim_space, to_lower}
use prompt_manager.Domain.{
  Error, Result, ok, err, message, Prompt, PromptVersion, PromptExecutionAggregate,
}
use prompt_manager.Store.{World}
use prompt_manager.Prompt.{
  Service, CreatePromptInput, UpdatePromptInput, CreatePromptVersionInput, PromptVersionPage,
  create_prompt, get_prompt, update_prompt, delete_prompt, restore_prompt, list_prompts,
  create_prompt_version, set_active_version, list_prompt_versions_ex, get_execution_stats,
}
use prompt_manager.Prompt.Diff.Target.{
  DiffPromptVersionOptions, PromptVersionDiff, Libraries, diff_prompt_version,
}
use prompt_manager.Http.Response.{Response, respond_ok, respond_error, Handler, answer_with, reply}
use prompt_manager.Middleware.Guard.{Context}
use prompt_manager.Http.Query.{parse_pagination, parse_query_int, parse_flag}
use prompt_manager.Http.Prompts.Requests.{
  CreatePromptRequest, UpdatePromptRequest, CreatePromptVersionRequest, create_prompt_binding,
  update_prompt_binding, create_version_binding, should_bind,
}
use prompt_manager.Http.Prompts.Errors.{handle_error}

abbrev pub actor : Context → Text
actor u = if is_empty u.user_email then u.user_id else u.user_email

abbrev pub invalid_payload : {A : Type 0} → Error → Response A
invalid_payload e = respond_error 400 (codes "INVALID_PAYLOAD") (message e)

abbrev pub input_of : Context → CreatePromptRequest → CreatePromptInput
input_of u req = record {
  name = req.name;
  description = req.description;
  tags = req.tags;
  created_by = actor u;
}

abbrev pub first_version : Context → Text → Text → CreatePromptVersionInput
first_version u prompt_id body = record {
  prompt_id = prompt_id;
  body = body;
  variables_schema = none;
  metadata = none;
  status = codes "published";
  created_by = actor u;
  activate = true;
}

-- the prompt that is read again, or the one there was
abbrev pub reloaded : Prompt → Result Prompt × World → Response Prompt × World
reloaded prompt (ok updated, w) = (respond_ok updated, w)
reloaded prompt (err e, w) = (respond_ok prompt, w)

-- `if body != "" { … }`
unfoldable pub with_first_version : Service → Context → Text → Prompt → Handler Prompt
with_first_version s u raw prompt w =
    let body = trim_space raw in
    if is_empty body
    then (respond_ok prompt, w)
    else answer_with (create_prompt_version s (first_version u prompt.id body))
        (λ e. respond_error 500 (codes "CREATE_VERSION_FAILED") (message e))
        (λ version w'. reloaded prompt (get_prompt prompt.id w')) w

unfoldable pub create_prompt_handler :
    Service → Context → Text → Result CreatePromptRequest → Handler Prompt
create_prompt_handler s u refused decoded w =
    elim (should_bind create_prompt_binding refused decoded) [
      | err e ↦ (invalid_payload e, w)
      | ok req ↦
          answer_with (create_prompt (input_of u req)) handle_error
            (with_first_version s u req.body) w
    ]

abbrev pub update_of : Text → UpdatePromptRequest → UpdatePromptInput
update_of id req = record {
  prompt_id = id;
  name = req.name;
  description = req.description;
  tags = elim req.tags [ none ↦ none | some tags ↦ some (some tags) ];
}

unfoldable pub update_prompt_handler :
    Bool → Text → Text → Result UpdatePromptRequest → Handler Prompt
update_prompt_handler nil_passes id refused decoded w =
    elim (should_bind (update_prompt_binding nil_passes) refused decoded) [
      | err e ↦ (invalid_payload e, w)
      | ok req ↦
          if not (is_some req.name) && not (is_some req.description) && not (is_some req.tags)
          then (respond_error 400 (codes "INVALID_PAYLOAD") (codes "至少需要提供一个需要更新的字段"), w)
          else answer_with (update_prompt (update_of id req)) handle_error
              (λ p. reply (respond_ok p)) w
    ]

pub record PromptList : Type 0 where
  pub items : List Prompt
  pub total : ℕ
  pub limit : ℤ
  pub offset : ℤ
  pub has_more : Bool

abbrev pub is_before : ℤ → ℕ → Bool
is_before (pos n) total = ltb n total
is_before (negsuc _) total = true

-- int64(offset)+int64(len(prompts)) < total, for an offset of a query, which is not negative
abbrev pub list_of : ℤ → ℤ → List Prompt × ℕ → PromptList
list_of limit offset (prompts, total) = record {
  items = prompts;
  total = total;
  limit = limit;
  offset = offset;
  has_more = is_before (int64 (pos_part offset + length prompts)) total;
}

unfoldable pub list_prompts_handler :
    (limit offset search include_deleted : Text) → Handler PromptList
list_prompts_handler limit_str offset_str search include_deleted =
    let (limit, offset) = parse_pagination limit_str offset_str in
    answer_with
      (list_prompts (record {
        limit = limit;
        offset = offset;
        search = trim_space search;
        include_deleted = parse_flag include_deleted;
      }))
      (λ e. respond_error 500 (codes "LIST_FAILED") (message e))
      (λ found. reply (respond_ok (list_of limit offset found)))

unfoldable pub get_prompt_handler : Text → Handler Prompt
get_prompt_handler id = answer_with (get_prompt id) handle_error (λ p. reply (respond_ok p))

abbrev pub version_input : Context → Text → CreatePromptVersionRequest → CreatePromptVersionInput
version_input u id req = record {
  prompt_id = id;
  body = req.body;
  variables_schema = req.variables_schema;
  metadata = req.metadata;
  status = req.status;
  created_by = actor u;
  activate = req.activate;
}

unfoldable pub create_version_handler :
    Service → Context → Text → Text → Result CreatePromptVersionRequest → Handler PromptVersion
create_version_handler s u id refused decoded w =
    elim (should_bind create_version_binding refused decoded) [
      | err e ↦ (invalid_payload e, w)
      | ok req ↦
          answer_with (create_prompt_version s (version_input u id req)) handle_error
            (λ v. reply (respond_ok v)) w
    ]

unfoldable pub list_versions_handler : (id limit offset status : Text) → Handler PromptVersionPage
list_versions_handler id limit_str offset_str status =
    let (limit, offset) = parse_pagination limit_str offset_str in
    answer_with (list_prompt_versions_ex id limit offset (trim_space status)) handle_error
      (λ page. reply (respond_ok page))

unfoldable pub diff_options : (compare_to target_id : Text) → DiffPromptVersionOptions
diff_options raw_compare_to raw_target_id =
    let compare_to = trim_space (to_lower raw_compare_to) in
    let target_id = trim_space raw_target_id in
    if not (is_empty target_id)
    then record {
      target_version_id = some target_id;
      compare_to_active = false;
      compare_to_previous = false;
    }
    else if same compare_to (codes "active")
    then record { target_version_id = none; compare_to_active = true; compare_to_previous = false }
    else record { target_version_id = none; compare_to_active = false; compare_to_previous = true }

unfoldable pub diff_handler :
    Libraries → (id version_id compare_to target_id : Text) → Handler PromptVersionDiff
diff_handler l id version_id compare_to target_id =
    answer_with (diff_prompt_version l id version_id (diff_options compare_to target_id))
      handle_error (λ diff. reply (respond_ok diff))

-- the answer is the two ids
unfoldable pub set_active_handler :
    Service → Context → (id version_id : Text) → Handler (Text × Text)
set_active_handler s u id version_id =
    answer_with (set_active_version s id version_id (actor u)) handle_error
      (λ done. reply (respond_ok (id, version_id)))

unfoldable pub get_prompt_stats_handler : (id days : Text) → Handler (List PromptExecutionAggregate)
get_prompt_stats_handler id days =
    answer_with (get_execution_stats id (parse_query_int days (pos 7))) handle_error
      (λ stats. reply (respond_ok stats))

unfoldable pub delete_prompt_handler : Service → Context → Text → Handler Text
delete_prompt_handler s u id =
    answer_with (delete_prompt s id (actor u)) handle_error (λ done. reply (respond_ok id))

unfoldable pub restore_prompt_handler : Service → Context → Text → Handler Prompt
restore_prompt_handler s u id =
    answer_with (restore_prompt s id (actor u)) handle_error (λ p. reply (respond_ok p))
