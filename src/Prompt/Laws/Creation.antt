-- ===== src/Prompt/Laws/Creation.antt =====
-- CreatePrompt: a blank or a taken name, and a new prompt.
use prompt_manager.Base.{
  ℕ, suc, ◌≡◌, refl, ap, ◌∙◌, Bool, true, false, ◌||◌, ◌&&◌, Option, none, some, [], ◌∷◌, ◌++◌,
  arith, any, first, first-concat_new, first-none_of_any,
}
use prompt_manager.Text.{Text, codes, same, is_empty, trim_space}
use prompt_manager.Text.Laws.{same_iff}
use prompt_manager.Domain.{name_required, prompt_already_exists, Prompt, ok, err}
use prompt_manager.Store.{World, Action, ◌>>=◌, pure, raise, new_id, found, exec, insert_prompt}
use prompt_manager.Store.Quiet.{
  IsQuiet, query_then_quiet, exec_quiet, bind_ok, then_ok, bind_err, then_err, raise_if_ok,
  raise_if_err, map_error_ok, attempt_result,
}
use prompt_manager.Repository.Prompts
use prompt_manager.Repository.Prompts.{apply_restore, deleted_id, named, live_id, joined, read_one}
use prompt_manager.Repository.Quiet.{with_prompts}
use prompt_manager.Prompt.Inputs.{CreatePromptInput}
use prompt_manager.Prompt.Create.{
  existing_of, new_prompt, insert_new, create_or_restore, as_given, create_prompt, create_error,
}
use prompt_manager.Prompt.Laws.Visibility.{answer, get_prompt_quiet}

-- A name of white space is refused, and nothing is read or written.
create_prompt_blank :
    (input : CreatePromptInput) (w : World)
    → is_empty (trim_space input.name) ≡ true
    → create_prompt input w ≡ (err name_required, w)
unfolding create_prompt
create_prompt_blank input w blank = then_err _ w (raise_if_err _ name_required w blank) _

-- the first row that has the name in the lower case of the engine, deleted or not
abbrev pub holder : Text → World → Option Prompt
holder name w = first (λ r. same (w.engine.lower r.name) (w.engine.lower name)) w.db.prompts

and_true : (b : Bool) → (b && true) ≡ b
and_true true = refl
and_true false = refl

named-holder :
    (name : Text) (w : World) → first (named w.engine name true) w.db.prompts ≡ holder name w
named-holder name w i =
    first (λ r. and_true (same (w.engine.lower r.name) (w.engine.lower name)) i) w.db.prompts

existing_found :
    {A : Type 0} (o : Option Prompt) (k : Option Prompt → Action A) (w : World)
    → ◌>>=◌ (existing_of (found o w).0) k (found o w).1 ≡ k o w
unfolding existing_of found raise pure ◌>>=◌
existing_found none k w = refl
existing_found (some p) k w = refl

-- The search for the name, and what follows it.
pub create_prompt_search :
    (input : CreatePromptInput) (w : World)
    → IsQuiet w
    → is_empty (trim_space input.name) ≡ false
    → create_prompt input w
      ≡ (create_or_restore
              (read_one w.db (holder (trim_space input.name) w))
              (trim_space input.name)
              input
            >>= λ created. pure (as_given input created))
          w
unfolding create_prompt Prompts.get_by_name
create_prompt_search input w q filled =
    then_ok _ w (raise_if_ok _ name_required w filled) _
    ∙ bind_ok _ w
        (attempt_result _ w (
          query_then_quiet w q _ found
          ∙ ap (λ (o : Option Prompt). found (read_one w.db o) w)
              (named-holder (trim_space input.name) w)))
        _
    ∙ existing_found (read_one w.db (holder (trim_space input.name) w)) _ w

-- In a quiet world, a name that is not blank is refused, and nothing is written, where the first row
-- with that name in the lower case of the engine, live or not, is not deleted.
pub create_prompt_taken :
    (input : CreatePromptInput) (w : World) (p : Prompt)
    → IsQuiet w
    → is_empty (trim_space input.name) ≡ false
    → holder (trim_space input.name) w ≡ some p
    → same p.status (codes "deleted") ≡ false
    → create_prompt input w ≡ (err prompt_already_exists, w)
create_prompt_taken input w p q filled held live =
    create_prompt_search input w q filled
    ∙ bind_err _ w
        (ap
            (λ (o : Option Prompt).
              create_or_restore (read_one w.db o) (trim_space input.name) input w)
            held
          ∙ refused)
        _
  where
    refused :
        create_or_restore (some (joined w.db p)) (trim_space input.name) input w
        ≡ (err prompt_already_exists, w)
    refused = unfold create_or_restore raise in rw live

-- the row of a new prompt
abbrev pub stored : Text → ℕ → Text → CreatePromptInput → Prompt
stored id now name input = record (new_prompt id name input) {
  status = codes "active";
  deleted_at = none;
  created_at = now;
  updated_at = now;
}

-- no row is in the way of a new one
abbrev pub IsFree : Text → Text → World → Type 0
IsFree id name w = any (λ r. same r.id id || same r.name name) w.db.prompts ≡ false

create_row :
    (id name : Text) (input : CreatePromptInput) (w : World)
    → IsQuiet w
    → IsFree id name w
    → Prompts.create (new_prompt id name input) w
      ≡ (ok tt, with_prompts (w.db.prompts ++ stored id w.now name input ∷ []) w)
unfolding Prompts.create insert_prompt pure
create_row id name input w q free =
    let row = stored id w.now name input in
    let done : exec (λ now. insert_prompt (stored id now name input)) w
        ≡ (ok 1, with_prompts (w.db.prompts ++ row ∷ []) w) =
      exec_quiet _ w q ∙ rw free in
    then_ok _ w done (pure tt)

insert_new_lem :
    (name : Text) (input : CreatePromptInput) (w : World)
    → IsQuiet w
    → IsFree (w.uuid w.issued) name w
    → let row = stored (w.uuid w.issued) w.now name input in
      let w' = with_prompts (w.db.prompts ++ row ∷ []) (record w { issued = suc w.issued }) in
      insert_new name input w ≡ (ok (joined w'.db row), w')
unfolding insert_new new_id
insert_new_lem name input w q free =
    let id = w.uuid w.issued in
    let row = stored id w.now name input in
    let issued = record w { issued = suc w.issued } in
    let w' = with_prompts (w.db.prompts ++ row ∷ []) issued in
    bind_ok new_id w refl _
    ∙ then_ok _ issued (map_error_ok create_error _ issued (create_row id name input issued q free))
        _
    ∙ get_prompt_quiet id w' q
    ∙ ap (λ (o : Option Prompt). (answer w'.db o, w'))
        (first-concat_new (live_id id) w.db.prompts row
          (first-none_of_any (live_id id) _ w.db.prompts (λ p e. ground arith) free)
          (rw ((same_iff id id).1 refl)))

-- In a quiet world, for a name that is not blank and that no prompt holds, where no row has the new
-- id or that name: the prompt is stored under the new id, active and without a version, with the
-- fields of the input, and the answer is that prompt.
pub create_prompt_new :
    (input : CreatePromptInput) (w : World)
    → IsQuiet w
    → is_empty (trim_space input.name) ≡ false
    → holder (trim_space input.name) w ≡ none
    → IsFree (w.uuid w.issued) (trim_space input.name) w
    → let row = stored (w.uuid w.issued) w.now (trim_space input.name) input in
      create_prompt input w
      ≡ (ok row, with_prompts (w.db.prompts ++ row ∷ []) (record w { issued = suc w.issued }))
unfolding pure
create_prompt_new input w q filled unheld free =
    create_prompt_search input w q filled
    ∙ bind_ok _ w
        (ap
            (λ (o : Option Prompt).
              create_or_restore (read_one w.db o) (trim_space input.name) input w)
            unheld
          ∙ inserted)
        _
  where
    inserted : create_or_restore none (trim_space input.name) input w ≡ (
      ok (
          joined
            (with_prompts
              (w.db.prompts ++ stored (w.uuid w.issued) w.now (trim_space input.name) input ∷ [])
              w).db
            (stored (w.uuid w.issued) w.now (trim_space input.name) input)),
      with_prompts
          (w.db.prompts ++ stored (w.uuid w.issued) w.now (trim_space input.name) input ∷ [])
          (record w { issued = suc w.issued }),
    )
    inserted = unfold create_or_restore in insert_new_lem (trim_space input.name) input w q free
