-- ===== src/Prompt/Calls.antt =====
-- A client of the service: a sequence of calls of its methods, each with its own events.
use prompt_manager.Base.{List, [], ◌∷◌}
use prompt_manager.Text.{Text}
use prompt_manager.Store.{World}
use prompt_manager.Prompt.Inputs.{
  Service, CreatePromptInput, UpdatePromptInput, CreatePromptVersionInput,
}
use prompt_manager.Prompt.Manage.{get_prompt, update_prompt, delete_prompt, restore_prompt}
use prompt_manager.Prompt.Create.{create_prompt}
use prompt_manager.Prompt.Versions.{set_active_version, create_prompt_version}

pub data Call : Type 0 where
  create : CreatePromptInput → Call
  get : Text → Call
  update : UpdatePromptInput → Call
  delete : (prompt_id deleted_by : Text) → Call
  restore : (prompt_id restored_by : Text) → Call
  create_version : CreatePromptVersionInput → Call
  activate : (prompt_id version_id activated_by : Text) → Call

-- The world after a call, whether it has failed or not.
unfoldable pub perform : Service → Call → World → World
perform s (create input) w = (create_prompt input w).1
perform s (get id) w = (get_prompt id w).1
perform s (update input) w = (update_prompt input w).1
perform s (delete id actor) w = (delete_prompt s id actor w).1
perform s (restore id actor) w = (restore_prompt s id actor w).1
perform s (create_version input) w = (create_prompt_version s input w).1
perform s (activate id version actor) w = (set_active_version s id version actor w).1

unfoldable pub perform_all : Service → List Call → World → World
perform_all s [] w = w
perform_all s (c ∷ cs) w = perform_all s cs (perform s c w)
