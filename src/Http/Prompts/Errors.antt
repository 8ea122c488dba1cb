-- ===== src/Http/Prompts/Errors.antt =====
-- PromptHandler.handleError
use prompt_manager.Text.{codes}
use prompt_manager.Domain.{
  Error, name_required, body_required, prompt_already_exists, prompt_not_deleted, prompt_not_found,
  version_not_found, no_fields_to_update, message,
}
use prompt_manager.Http.Response.{Response, respond_error}

unfoldable pub handle_error : {A : Type 0} → Error → Response A
handle_error name_required = respond_error 400 (codes "INVALID_INPUT") (message name_required)
handle_error body_required = respond_error 400 (codes "INVALID_INPUT") (message body_required)
handle_error prompt_already_exists =
    respond_error 409 (codes "PROMPT_EXISTS") (message prompt_already_exists)
handle_error prompt_not_deleted =
    respond_error 400 (codes "PROMPT_NOT_DELETED") (message prompt_not_deleted)
handle_error prompt_not_found =
    respond_error 404 (codes "PROMPT_NOT_FOUND") (message prompt_not_found)
handle_error version_not_found =
    respond_error 404 (codes "VERSION_NOT_FOUND") (message version_not_found)
handle_error no_fields_to_update =
    respond_error 400 (codes "NO_FIELDS_TO_UPDATE") (message no_fields_to_update)
handle_error e = respond_error 500 (codes "INTERNAL_ERROR") (message e)
