-- ===== src/Prompt/UpdateTests.antt =====
-- Runs of UpdatePrompt, and its theorems at concrete inputs.
use prompt_manager.Base.{◌≡◌, refl, none, some, [], ◌∷◌}
use prompt_manager.Text.{codes}
use prompt_manager.Domain.{ok, err, prompt_already_exists}
use prompt_manager.Store.{World}
use prompt_manager.Repository.Prompts.{joined}
use prompt_manager.Repository.Quiet.{with_prompts}
use prompt_manager.Prompt.Inputs.{UpdatePromptInput}
use prompt_manager.Prompt.Manage.{update_prompt}
use prompt_manager.Prompt.Calls.{Call, perform_all}
use prompt_manager.Prompt.Run.{service}
use prompt_manager.Prompt.Laws.Update.{
  changed_rows, with_fields, update_prompt_ok, update_prompt_taken,
}
use prompt_manager.Prompt.Tests.{on, start, greeting, filled, greeting_row}

-- a new name, and no tags any more
abbrev renaming : UpdatePromptInput
renaming = record {
  prompt_id = codes "1";
  name = some (codes " Farewell ");
  description = none;
  tags = some none;
}

update_prompt_ok_example :
    let w1 = with_prompts (changed_rows renaming filled) filled in
    update_prompt renaming filled
    ≡ (ok (joined w1.db (with_fields renaming filled.now greeting_row)), w1)
unfolding service
update_prompt_ok_example = update_prompt_ok renaming filled greeting_row refl refl refl refl refl

-- with a prompt of the new name
abbrev crowded : World
crowded =
    perform_all on
      (Call.create greeting ∷ Call.create (record greeting { name = codes "farewell" }) ∷ []) start

update_prompt_taken_example :
    update_prompt (record renaming { name = some (codes "farewell") }) crowded
    ≡ (err prompt_already_exists, crowded)
unfolding service
update_prompt_taken_example =
    update_prompt_taken (record renaming { name = some (codes "farewell") }) crowded
      (elim crowded.db.prompts [ [] ↦ greeting_row | p ∷ _ ↦ p ]) refl refl refl refl refl refl
