-- ===== src/Prompt/Laws/Lifecycle.antt =====
-- A prompt that is deleted and restored.
use prompt_manager.Base.{
  ℕ, ◌≡◌, refl, sym, subst, ap, ◌∙◌, true, false, Option, none, some, is_some, List, arith, first,
  update, first_refine, first_passes, first-update_hit,
}
use prompt_manager.Text.{Text, codes, same, to_lower}
use prompt_manager.Text.Laws.{same_iff}
use prompt_manager.Domain.{Prompt, Result, ok, err, prompt_not_found, prompt_not_deleted}
use prompt_manager.Store.{World, ◌>>◌, distinct, pure, found, map_error, missing_as}
use prompt_manager.Store.Quiet.{
  IsQuiet, query_then_quiet, bind_ok, then_ok, then_err, raise_if_ok, raise_if_err, map_error_ok,
}
use prompt_manager.Repository.Prompts
use prompt_manager.Repository.Prompts.{
  live, live_id, with_id, deleted_id, joined, read_one, apply_restore,
}
use prompt_manager.Repository.Quiet.{with_prompts, update_quiet_ok, distinct-update}
use prompt_manager.Prompt.Inputs.{Service, audit, status_payload}
use prompt_manager.Prompt.Manage.{get_prompt, delete_prompt, restore_prompt}
use prompt_manager.Prompt.Laws.Visibility.{
  IsAside, answer, get_prompt_quiet, audit-IsAside, bind-IsAside,
}

abbrev marked : ℕ → Prompt → Prompt
marked now p = record p { status = codes "deleted"; deleted_at = some now; updated_at = now }

-- Up to the audit log.
delete_prompt_run :
    (s : Service) (id actor : Text) (w : World) (p : Prompt)
    → IsQuiet w
    → first (live_id id) w.db.prompts ≡ some p
    → distinct (λ r. r.name) w.db.prompts ≡ true
    → delete_prompt s id actor w
      ≡ audit s id
          (codes "prompt.deleted")
          (status_payload (codes "deleted"))
          actor
          (with_prompts (update (live_id id) (marked w.now) w.db.prompts) w)
unfolding delete_prompt Prompts.delete
delete_prompt_run s id actor w p q row names =
    then_ok _ w
      (map_error_ok (missing_as prompt_not_found) _ w
        (update_quiet_ok (live_id id) marked w q (λ now r. refl) names row))
      _

delete_prompt-IsAside :
    (s : Service) (id actor : Text) (w : World) (p : Prompt)
    → IsQuiet w
    → first (live_id id) w.db.prompts ≡ some p
    → distinct (λ r. r.name) w.db.prompts ≡ true
    → IsAside
        (with_prompts (update (live_id id) (marked w.now) w.db.prompts) w)
        (delete_prompt s id actor w).1
delete_prompt-IsAside s id actor w p q row names =
    let w1 = with_prompts (update (live_id id) (marked w.now) w.db.prompts) w in
    subst (λ (r : Result (Unit {0}) × World). IsAside w1 r.1)
      (sym (delete_prompt_run s id actor w p q row names)) (audit-IsAside s id _ _ actor w1 q)

-- a prompt as it is after a restoration
abbrev pub restored : ℕ → Prompt → Prompt
restored now p = record p { status = codes "active"; deleted_at = none; updated_at = now }

include_deleted_quiet :
    (id : Text) (w : World) (p : Prompt)
    → IsQuiet w
    → first (with_id id) w.db.prompts ≡ some p
    → map_error (missing_as prompt_not_found) (Prompts.get_by_id_include_deleted id) w
      ≡ (ok (joined w.db p), w)
unfolding Prompts.get_by_id_include_deleted found pure
include_deleted_quiet id w p q row =
    map_error_ok (missing_as prompt_not_found) _ w
      (query_then_quiet w q _ found ∙ ap (λ (o : Option Prompt). found (read_one w.db o) w) row)

-- In a quiet world RestorePrompt of a prompt, the first row of its id, that has neither a time of
-- deletion nor the status "deleted" is refused, and nothing is written.
restore_prompt_live :
    (s : Service) (id actor : Text) (w : World) (p : Prompt)
    → IsQuiet w
    → first (with_id id) w.db.prompts ≡ some p
    → p.deleted_at ≡ none
    → same (to_lower p.status) (codes "deleted") ≡ false
    → restore_prompt s id actor w ≡ (err prompt_not_deleted, w)
unfolding restore_prompt
restore_prompt_live s id actor w p q row undeleted active =
    bind_ok _ w (include_deleted_quiet id w p q row) _
    ∙ then_err _ w (raise_if_err _ prompt_not_deleted w (rw (undeleted, active) refl)) _

-- the row of a prompt that is restored, where its id is found first
restored_row :
    (id : Text) (now : ℕ) (rows : List Prompt) (p : Prompt)
    → first (with_id id) rows ≡ some p
    → same p.status (codes "deleted") ≡ true
    → first (live_id id) (update (deleted_id id) (restored now) rows) ≡ some (restored now p)
restored_row id now rows p row status =
    let own = first_passes (with_id id) rows p row in
    first_refine (with_id id) (live_id id) _ (restored now p) (λ r h. ground arith)
      (first-update_hit (with_id id) (deleted_id id) (restored now) rows p (λ r. refl) row
        (rw (own, status) refl))
      (rw own refl)

finish_restore :
    (s : Service) (id actor : Text) (w : World) (p : Prompt)
    → IsQuiet w
    → IsAside w
        ((audit s id (codes "prompt.restored") (status_payload (codes "restored")) actor >> pure p)
          w).1
unfolding ◌>>◌ pure
finish_restore s id actor w p q =
    bind-IsAside w w _ _ (audit-IsAside s id _ _ actor w q) (λ done w' aside. aside)

restore_prompt-IsAside :
    (s : Service) (id actor : Text) (w : World) (p : Prompt)
    → IsQuiet w
    → first (with_id id) w.db.prompts ≡ some p
    → same p.status (codes "deleted") ≡ true
    → is_some p.deleted_at ≡ true
    → distinct (λ r. r.name) w.db.prompts ≡ true
    → IsAside
        (with_prompts (update (deleted_id id) (restored w.now) w.db.prompts) w)
        (restore_prompt s id actor w).1
unfolding restore_prompt Prompts.restore
restore_prompt-IsAside s id actor w p q row status time names =
    let rows = update (deleted_id id) (restored w.now) w.db.prompts in
    let w1 = with_prompts rows w in
    let own = first_passes (with_id id) w.db.prompts p row in
    let hit =
      first_refine (with_id id) (deleted_id id) w.db.prompts p (λ r h. ground arith) row
        (rw (own, status) refl) in
    let run =
      bind_ok _ w (include_deleted_quiet id w p q row) _
      ∙ then_ok _ w (raise_if_ok _ prompt_not_deleted w (rw time refl)) _
      ∙ then_ok _ w
          (map_error_ok (missing_as prompt_not_found) _ w
            (update_quiet_ok (deleted_id id) restored w q (λ now r. refl) names hit))
          _
      ∙ bind_ok (get_prompt id) w1
          (get_prompt_quiet id w1 q
            ∙ ap (λ (o : Option Prompt). (answer w1.db o, w1))
                (restored_row id w.now w.db.prompts p row status))
          _ in
    subst (λ (r : Result Prompt × World). IsAside w1 r.1) (sym run)
      (finish_restore s id actor w1 (joined w1.db (restored w.now p)) q)

-- In a quiet world where names are distinct, a prompt that is there, the first row of its id, is
-- shown again after DeletePrompt and RestorePrompt, active, with a new time of change and else as it
-- was, also where the audit log fails.
pub restore-delete_prompt :
    (s : Service) (id actor actor' : Text) (w : World) (p : Prompt)
    → IsQuiet w
    → first (with_id id) w.db.prompts ≡ some p
    → p.deleted_at ≡ none
    → distinct (λ r. r.name) w.db.prompts ≡ true
    → let w1 = (delete_prompt s id actor w).1 in
      let w2 = (restore_prompt s id actor' w1).1 in
      get_prompt id w2 ≡ (ok (joined w2.db (restored w1.now p)), w2)
restore-delete_prompt s id actor actor' w p q row undeleted names =
    let own = first_passes (with_id id) w.db.prompts p row in
    let is_live =
      first_refine (with_id id) (live_id id) w.db.prompts p (λ r h. ground arith) row
        (rw (own, undeleted) refl) in
    let aside = delete_prompt-IsAside s id actor w p q is_live names in
    let w1 = (delete_prompt s id actor w).1 in
    let row1 : first (with_id id) w1.db.prompts ≡ some (marked w.now p) =
      ap (λ (rows : List Prompt). first (with_id id) rows) aside.prompts
      ∙ first-update_hit (with_id id) (live_id id) (marked w.now) w.db.prompts p (λ r. refl) row
          (rw (own, undeleted) refl) in
    let names1 : distinct (λ r. r.name) w1.db.prompts ≡ true =
      ap (λ (rows : List Prompt). distinct (λ r. r.name) rows) aside.prompts
      ∙ distinct-update (live_id id) (marked w.now) (λ r. refl) w.db.prompts
      ∙ names in
    let aside2 =
      restore_prompt-IsAside s id actor' w1 (marked w.now p) aside.quiet row1
        ((same_iff _ _).1 refl) refl names1 in
    get_prompt_quiet id _ aside2.quiet
    ∙ ap
        (λ (o : Option Prompt).
          (answer (restore_prompt s id actor' w1).1.db o, (restore_prompt s id actor' w1).1))
        (ap (λ (rows : List Prompt). first (live_id id) rows) aside2.prompts
          ∙ restored_row id w1.now w1.db.prompts (marked w.now p) row1 ((same_iff _ _).1 refl))
