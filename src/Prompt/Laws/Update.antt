-- ===== src/Prompt/Laws/Update.antt =====
-- What UpdatePrompt does to the row of a prompt.
use prompt_manager.Base.{
  ◌≡◌, refl, ap, ◌∙◌, Bool, true, false, not, ◌&&◌, ◌||◌, Option, none, some, is_some, List, inl,
  inr, ℕ, if◌then◌else◌, first, update, first_passes, first-update_hit, first-none_of_count,
}
use prompt_manager.Text.{Text, is_empty, trim_space, optional_string, optional_trimmed_string}
use prompt_manager.Domain.{
  Prompt, RawMessage, marshal_strings, PromptUpdateParams, Result, ok, err, other,
  is_unique_violation, no_fields_to_update, prompt_already_exists,
}
use prompt_manager.Store.{World, distinct, pure, exec, affected, ◌>>=◌, update_prompts}
use prompt_manager.Store.Quiet.{
  IsQuiet, bind_ok, then_ok, then_err, raise_if_ok, map_error_ok, map_error_err,
}
use prompt_manager.Repository.Prompts
use prompt_manager.Repository.Prompts.{live_id, joined, apply_update}
use prompt_manager.Repository.Quiet.{with_prompts, update_quiet, update_quiet_shared, Outcome}
use prompt_manager.Prompt.Inputs.{UpdatePromptInput}
use prompt_manager.Prompt.Manage.{checked_name, update_params, update_error, update_prompt}
use prompt_manager.Prompt.Laws.Visibility.{answer, get_prompt_quiet}

abbrev pub blank_name : Option Text → Bool
blank_name none = false
blank_name (some raw) = is_empty (trim_space raw)

abbrev pub trimmed : Option Text → Option Text
trimmed none = none
trimmed (some raw) = some (trim_space raw)

-- the fields that the caller gives
abbrev pub fields_of : UpdatePromptInput → PromptUpdateParams
fields_of input = update_params (trimmed input.name) input

abbrev pub has_fields : UpdatePromptInput → Bool
has_fields input = is_some input.name || is_some input.description || is_some input.tags

abbrev or_old : {A : Type 0} → A → Option A → A
or_old old none = old
or_old old (some new) = new

-- a description of white space is taken away
abbrev new_description : Option Text → Option Text → Option Text
new_description old none = old
new_description old (some raw) = if is_empty (trim_space raw) then none else some (trim_space raw)

abbrev new_tags : RawMessage → Option (Option (List Text)) → RawMessage
new_tags old none = old
new_tags old (some none) = none
new_tags old (some (some tags)) = some (marshal_strings tags)

-- the row of a prompt with the fields that the input gives, trimmed, and the others as they were
abbrev pub with_fields : UpdatePromptInput → ℕ → Prompt → Prompt
with_fields input now p = record p {
  name = or_old p.name (trimmed input.name);
  description = new_description p.description input.description;
  tags = new_tags p.tags input.tags;
  updated_at = now;
}

-- what the code makes of the input is that row
with_fields-eq-apply_update :
    (input : UpdatePromptInput) (now : ℕ) (p : Prompt)
    → apply_update (fields_of input) now p ≡ with_fields input now p
unfolding optional_trimmed_string optional_string
with_fields-eq-apply_update input now p = go input.name input.description input.tags
  where
    go :
        (name description : Option Text) (tags : Option (Option (List Text)))
        → let i : UpdatePromptInput = record {
          prompt_id = input.prompt_id;
          name = name;
          description = description;
          tags = tags;
        } in
          apply_update (fields_of i) now p ≡ with_fields i now p
    go none none none = refl
    go none none (some none) = refl
    go none none (some (some t)) = refl
    go none (some d) none = refl
    go none (some d) (some none) = refl
    go none (some d) (some (some t)) = refl
    go (some n) none none = refl
    go (some n) none (some none) = refl
    go (some n) none (some (some t)) = refl
    go (some n) (some d) none = refl
    go (some n) (some d) (some none) = refl
    go (some n) (some d) (some (some t)) = refl

-- the rows after the change
abbrev pub changed_rows : UpdatePromptInput → World → List Prompt
changed_rows input w = update (live_id input.prompt_id) (with_fields input w.now) w.db.prompts

checked_name_filled :
    (name : Option Text) (w : World)
    → blank_name name ≡ false
    → checked_name name w ≡ (ok (trimmed name), w)
unfolding checked_name pure
checked_name_filled none w h = refl
checked_name_filled (some raw) w h = rw h refl

trimmed-is_some : (name : Option Text) → is_some (trimmed name) ≡ is_some name
trimmed-is_some none = refl
trimmed-is_some (some raw) = refl

and_not : (b : Bool) → (b && not b) ≡ false
and_not true = refl
and_not false = refl

module _ (input : UpdatePromptInput) (w : World) (p : Prompt) (q : IsQuiet w)
    (row : first (live_id input.prompt_id) w.db.prompts ≡ some p)
    (filled : blank_name input.name ≡ false) (given : has_fields input ≡ true) where
  change : World → Result (Unit {0}) × World
  change =
      exec (λ now. update_prompts (live_id input.prompt_id) (with_fields input now)) >>= affected

  unique_names :
      (r : Result (Unit {0})) (v : World)
      → Outcome (live_id input.prompt_id) (with_fields input w.now) w (r, v)
      → distinct (λ r. r.name) (changed_rows input w) ≡ true
      → ◌≡◌ {A = Result (Unit {0}) × World} (r, v) (ok tt, with_prompts (changed_rows input w) w)
  unique_names (ok _) v o names = ap (λ (u : World). (ok tt, u)) o.0
  unique_names (err e) v (same_world, inl (_, missed)) names =
      absurd (cc (first-none_of_count (live_id input.prompt_id) w.db.prompts missed, row))
  unique_names (err e) v (same_world, inr (_, shared)) names = absurd (cc (names, shared))

  given_names :
      (is_some (trimmed input.name) || is_some input.description || is_some input.tags) ≡ true
  given_names = rw (trimmed-is_some input.name) given

  repository_update : Prompts.update input.prompt_id (fields_of input) w ≡ change w
  unfolding Prompts.update change
  repository_update =
      rw (and_not (is_some (trimmed input.name)), given_names) refl
      ∙ ap
          (λ (f : ℕ → Prompt → Prompt).
            (exec (λ now. update_prompts (live_id input.prompt_id) (f now)) >>= affected) w)
          (λ i now r. with_fields-eq-apply_update input now r i)

  outcome : Outcome (live_id input.prompt_id) (with_fields input w.now) w (change w)
  unfolding change
  outcome = update_quiet (live_id input.prompt_id) (with_fields input) w q

  -- In a quiet world UpdatePrompt of a prompt that is there, the first live row of its id, with a
  -- field and with a name that is not blank where there is one, gives back the row with the name and
  -- the description of the input, trimmed, or without a description where it is blank, with its tags
  -- or without, and with the new time of change, where the new names of prompts are distinct. What
  -- the input does not give stays, and so do the rows of other ids.
  pub update_prompt_ok :
      distinct (λ r. r.name) (changed_rows input w) ≡ true
      → let w1 = with_prompts (changed_rows input w) w in
        update_prompt input w ≡ (ok (joined w1.db (with_fields input w.now p)), w1)
  unfolding update_prompt
  update_prompt_ok names =
      let w1 = with_prompts (changed_rows input w) w in
      let changed = repository_update ∙ unique_names _ _ outcome names in
      let kept =
        first-update_hit (live_id input.prompt_id) (live_id input.prompt_id)
          (with_fields input w.now) w.db.prompts p (λ r. refl) row
          (first_passes (live_id input.prompt_id) w.db.prompts p row) in
      bind_ok _ w (checked_name_filled input.name w filled) _
      ∙ then_ok _ w (raise_if_ok _ no_fields_to_update w (rw given_names refl)) _
      ∙ then_ok _ w (map_error_ok update_error _ w changed) _
      ∙ get_prompt_quiet input.prompt_id w1 q
      ∙ ap (λ (o : Option Prompt). (answer w1.db o, w1)) kept

  refused_change :
      distinct (λ r. r.name) (changed_rows input w) ≡ false
      → change w ≡ (err (other w.engine.unique_message), w)
  unfolding change
  refused_change shared =
      update_quiet_shared (live_id input.prompt_id) (with_fields input) w q shared

  -- In a quiet world UpdatePrompt of such a prompt is refused as a duplicate and writes nothing
  -- where the new names of prompts are not distinct, if the text by which the engine reports that is
  -- one that isUniqueViolation knows.
  pub update_prompt_taken :
      distinct (λ r. r.name) (changed_rows input w) ≡ false
      → is_unique_violation (other w.engine.unique_message) ≡ true
      → update_prompt input w ≡ (err prompt_already_exists, w)
  unfolding update_prompt
  update_prompt_taken shared known =
      let refused = repository_update ∙ refused_change shared in
      bind_ok _ w (checked_name_filled input.name w filled) _
      ∙ then_ok _ w (raise_if_ok _ no_fields_to_update w (rw given_names refl)) _
      ∙ then_err _ w (map_error_err update_error _ w refused) _
      ∙ rw known refl
