-- ===== src/Prompt/Laws/Activation.antt =====
-- What a prompt shows after a version has been made active.
use prompt_manager.Base.{
  ℕ, ◌≡◌, refl, sym, subst, ap, ◌∙◌, true, Option, some, List, first, update, first-update_kept,
}
use prompt_manager.Text.{Text, codes, same}
use prompt_manager.Domain.{Prompt, PromptVersion, Result, ok, version_not_found}
use prompt_manager.Store.{World, distinct, pure, found, map_error, missing_as}
use prompt_manager.Store.Quiet.{IsQuiet, query_then_quiet, bind_ok, then_ok, map_error_ok}
use prompt_manager.Repository.Prompts
use prompt_manager.Repository.Prompts.{live_id, joined}
use prompt_manager.Repository.Versions
use prompt_manager.Repository.Quiet.{with_prompts, update_quiet_ok}
use prompt_manager.Prompt.Inputs.{Service, audit}
use prompt_manager.Prompt.Manage.{get_prompt}
use prompt_manager.Prompt.Versions.{set_active_version, activated_payload}
use prompt_manager.Prompt.Laws.Visibility.{IsAside, answer, get_prompt_quiet, audit-IsAside}

abbrev pub version_row : Text → World → Option PromptVersion
version_row id w = first (λ v. same v.id id) w.db.versions

-- the row of a prompt whose active version is the one with the id and the body
abbrev pub activated : Text → Text → ℕ → Prompt → Prompt
activated version_id body now p = record p {
  active_version_id = some version_id;
  body = some body;
  updated_at = now;
}

pub find_version_quiet :
    (id : Text) (w : World) (v : PromptVersion)
    → IsQuiet w
    → version_row id w ≡ some v
    → map_error (missing_as version_not_found) (Versions.get_by_id id) w ≡ (ok v, w)
unfolding Versions.get_by_id pure found
find_version_quiet id w v q row =
    map_error_ok (missing_as version_not_found) _ w
      (query_then_quiet w q _ found ∙ ap (λ (o : Option PromptVersion). found o w) row)

-- Up to the audit log.
pub set_active_version_run :
    (s : Service) (id version_id actor : Text) (w : World) (p : Prompt) (v : PromptVersion)
    → IsQuiet w
    → first (live_id id) w.db.prompts ≡ some p
    → version_row version_id w ≡ some v
    → distinct (λ r. r.name) w.db.prompts ≡ true
    → set_active_version s id version_id actor w
      ≡ audit s id
          (codes "prompt.version.activated")
          (activated_payload (joined w.db p) v)
          actor
          (with_prompts (update (live_id id) (activated version_id v.body w.now) w.db.prompts) w)
unfolding set_active_version Prompts.update_active_version
set_active_version_run s id version_id actor w p v q live row names =
    bind_ok (get_prompt id) w
      (get_prompt_quiet id w q ∙ ap (λ (o : Option Prompt). (answer w.db o, w)) live) _
    ∙ bind_ok _ w (find_version_quiet version_id w v q row) _
    ∙ then_ok _ w
        (update_quiet_ok (live_id id) (λ now. activated version_id v.body now) w q (λ now r. refl)
          names live)
        _

pub shown_of_aside :
    (id : Text) (rows : List Prompt) (w w' : World) (p : Prompt)
    → IsAside (with_prompts rows w) w'
    → first (live_id id) rows ≡ some p
    → get_prompt id w' ≡ (ok (joined w'.db p), w')
shown_of_aside id rows w w' p aside live =
    get_prompt_quiet id w' aside.quiet
    ∙ ap (λ (o : Option Prompt). (answer w'.db o, w'))
        (ap (λ (ps : List Prompt). first (live_id id) ps) aside.prompts ∙ live)

pub activated_found :
    (id version_id body : Text) (now : ℕ) (rows : List Prompt) (p : Prompt)
    → first (live_id id) rows ≡ some p
    → first (live_id id) (update (live_id id) (activated version_id body now) rows)
      ≡ some (activated version_id body now p)
activated_found id version_id body now rows p live =
    first-update_kept (live_id id) (live_id id) (activated version_id body now) rows p (λ r h. h)
      (λ r h. h) live

-- In a quiet world where names are distinct, after SetActiveVersion on a prompt that is there and
-- any version that is there, of whatever prompt, GetPrompt shows the id and the body of that
-- version, also where the audit log fails.
pub get-set_active_version :
    (s : Service) (id version_id actor : Text) (w : World) (p : Prompt) (v : PromptVersion)
    → IsQuiet w
    → first (live_id id) w.db.prompts ≡ some p
    → version_row version_id w ≡ some v
    → distinct (λ r. r.name) w.db.prompts ≡ true
    → let w' = (set_active_version s id version_id actor w).1 in
      get_prompt id w' ≡ (ok (joined w'.db (activated version_id v.body w.now p)), w')
get-set_active_version s id version_id actor w p v q live row names =
    let rows = update (live_id id) (activated version_id v.body w.now) w.db.prompts in
    let aside =
      subst (λ (r : Result (Unit {0}) × World). IsAside (with_prompts rows w) r.1)
        (sym (set_active_version_run s id version_id actor w p v q live row names))
        (audit-IsAside s id _ _ actor (with_prompts rows w) q) in
    shown_of_aside id rows w _ _ aside
      (activated_found id version_id v.body w.now w.db.prompts p live)
