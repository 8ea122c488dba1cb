-- ===== src/Prompt/Laws/Revival.antt =====
-- CreatePrompt with the name of a deleted prompt, which is brought back.
use prompt_manager.Base.{
  ℕ, ◌≡◌, refl, ap, ◌∙◌, true, false, Option, none, some, List, arith, first, update,
  first-update_turned,
}
use prompt_manager.Text.{
  codes, same, is_empty, trim_space, optional_string, optional_trimmed_string,
}
use prompt_manager.Domain.{Prompt, ok}
use prompt_manager.Store.{World, distinct, pure}
use prompt_manager.Store.Quiet.{IsQuiet, bind_ok, then_ok}
use prompt_manager.Repository.Prompts
use prompt_manager.Repository.Prompts.{apply_restore, deleted_id, named, live_id, joined, read_one}
use prompt_manager.Repository.Quiet.{with_prompts, update_quiet_ok}
use prompt_manager.Prompt.Inputs.{CreatePromptInput, tags_json}
use prompt_manager.Prompt.Create.{restore_existing, create_or_restore, as_given, create_prompt}
use prompt_manager.Prompt.Laws.Visibility.{answer, get_prompt_quiet}
use prompt_manager.Prompt.Laws.Creation.{holder, create_prompt_search}

-- the row of a deleted prompt that is brought back
abbrev pub brought_back : CreatePromptInput → ℕ → Prompt → Prompt
brought_back input now p = record p {
  description = optional_trimmed_string input.description;
  tags = tags_json input.tags;
  body = none;
  created_by = optional_string input.created_by;
  status = codes "active";
  deleted_at = none;
  updated_at = now;
}

restore_existing_lem :
    (input : CreatePromptInput) (w : World) (p : Prompt)
    → IsQuiet w
    → first (deleted_id p.id) w.db.prompts ≡ some p
    → first (live_id p.id) w.db.prompts ≡ none
    → distinct (λ r. r.name) w.db.prompts ≡ true
    → let w' = with_prompts (update (deleted_id p.id) (brought_back input w.now) w.db.prompts) w in
      restore_existing (joined w.db p) input w
      ≡ (ok (joined w'.db (brought_back input w.now p)), w')
unfolding restore_existing Prompts.restore
restore_existing_lem input w p q own unlive names =
    let w' = with_prompts (update (deleted_id p.id) (brought_back input w.now) w.db.prompts) w in
    then_ok _ w
      (update_quiet_ok (deleted_id p.id) (λ now. brought_back input now) w q (λ now r. refl) names
        own)
      _
    ∙ get_prompt_quiet p.id w' q
    ∙ ap (λ (o : Option Prompt). (answer w'.db o, w'))
        (first-update_turned (live_id p.id) (deleted_id p.id) _ w.db.prompts p (λ x e. ground arith)
          unlive own)

-- In a quiet world where names are distinct, for a name that is not blank, where the first row with
-- that name in the lower case of the engine, live or not, is a deleted prompt, the first deleted row
-- of its id, and no live row has that id: the prompt is brought back under its id and its old name,
-- active, with the description, the tags and the author of the input and without a body; it keeps
-- the id of its active version.
pub create_prompt_revives :
    (input : CreatePromptInput) (w : World) (p : Prompt)
    → IsQuiet w
    → is_empty (trim_space input.name) ≡ false
    → holder (trim_space input.name) w ≡ some p
    → same p.status (codes "deleted") ≡ true
    → first (deleted_id p.id) w.db.prompts ≡ some p
    → first (live_id p.id) w.db.prompts ≡ none
    → distinct (λ r. r.name) w.db.prompts ≡ true
    → create_prompt input w ≡ (
      ok (as_given input (brought_back input w.now p)),
      with_prompts (update (deleted_id p.id) (brought_back input w.now) w.db.prompts) w,
    )
unfolding pure
create_prompt_revives input w p q filled held deleted own unlive names =
    create_prompt_search input w q filled
    ∙ bind_ok _ w
        (ap
            (λ (o : Option Prompt).
              create_or_restore (read_one w.db o) (trim_space input.name) input w)
            held
          ∙ restored)
        _
  where
    rows : List Prompt
    rows = update (deleted_id p.id) (brought_back input w.now) w.db.prompts

    restored :
        create_or_restore (some (joined w.db p)) (trim_space input.name) input w
        ≡ (ok (joined (with_prompts rows w).db (brought_back input w.now p)), with_prompts rows w)
    restored =
        unfold create_or_restore in rw deleted (restore_existing_lem input w p q own unlive names)
