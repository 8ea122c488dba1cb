-- ===== src/Prompt/Laws/Versions.antt =====
-- What a prompt shows after a version has been created and made active.
use prompt_manager.Base.{
  suc, ◌≡◌, refl, sym, subst, ap, ◌∙◌, Bool, true, false, ◌&&◌, ◌||◌, Option, some, [], ◌∷◌, ◌++◌,
  arith, any, first, update, first-concat_new, first-none_of_any, first_passes, any_of_first, ◌==◌,
}
use prompt_manager.Text.{Text, codes, same, is_empty, trim_space}
use prompt_manager.Text.Laws.{same_iff}
use prompt_manager.Domain.{Prompt, PromptVersion, Result, ok, body_required}
use prompt_manager.Store.{World, ◌>>◌, distinct, pure, new_id, exec, insert_version}
use prompt_manager.Store.Quiet.{
  IsQuiet, query_then_quiet, exec_quiet, bind_ok, then_ok, raise_if_ok,
}
use prompt_manager.Repository.Prompts.{live_id, joined}
use prompt_manager.Repository.Versions
use prompt_manager.Repository.Quiet.{with_prompts}
use prompt_manager.Prompt.Inputs.{Service, CreatePromptVersionInput, audit}
use prompt_manager.Prompt.Manage.{get_prompt}
use prompt_manager.Prompt.Invariant.Numbers.{latest}
use prompt_manager.Repository.Users.{or_default}
use prompt_manager.Prompt.Versions.{
  new_version, activate_inline, add_version, create_prompt_version, created_payload,
}
use prompt_manager.Prompt.Laws.Visibility.{
  IsAside, IsAside-trans, answer, get_prompt_quiet, audit-IsAside, bind-IsAside,
}
use prompt_manager.Prompt.Laws.Activation.{
  version_row, activated, find_version_quiet, set_active_version_run, shown_of_aside,
  activated_found,
}

-- the row of a new version
abbrev pub stored_version : World → Text → Prompt → CreatePromptVersionInput → PromptVersion
stored_version w body p input =
    let v = new_version (w.uuid w.issued) (latest p.id w.db) body p input in
    record v { status = or_default v.status (codes "draft"); created_at = w.now }

-- no row is in the way of a version
abbrev pub VersionIsFree : PromptVersion → World → Type 0
VersionIsFree v w =
    any
      (λ r. same r.id v.id || same r.prompt_id v.prompt_id && r.version_number == v.version_number)
      w.db.versions
    ≡ false

abbrev with_version : PromptVersion → World → World
with_version v w = record w {
  issued = suc w.issued;
  db = record w.db { versions = w.db.versions ++ v ∷ [] };
}

and_false : (b : Bool) → (b && false) ≡ false
and_false true = refl
and_false false = refl

create_row :
    (v : PromptVersion) (w : World) (p : Prompt)
    → IsQuiet w
    → let row = record v { status = or_default v.status (codes "draft"); created_at = w.now } in
      VersionIsFree row w
      → first (live_id v.prompt_id) w.db.prompts ≡ some p
      → Versions.create v w
        ≡ (ok tt, record w { db = record w.db { versions = w.db.versions ++ row ∷ [] } })
unfolding Versions.create insert_version pure
create_row v w p q free live =
    let row = record v { status = or_default v.status (codes "draft"); created_at = w.now } in
    let parent : any (λ r. same r.id v.prompt_id) w.db.prompts ≡ true =
      any_of_first (live_id v.prompt_id) _ w.db.prompts p (λ r e. ground arith) live in
    let done : exec
          (λ now.
            insert_version
              (record v { status = or_default v.status (codes "draft"); created_at = now }))
          w
        ≡ (ok 1, record w { db = record w.db { versions = w.db.versions ++ row ∷ [] } }) =
      exec_quiet _ w q ∙ rw (free, parent) (rw (and_false w.engine.foreign_keys) refl) in
    then_ok _ w done (pure tt)

stored_found :
    (v : PromptVersion) (w : World)
    → VersionIsFree v w
    → version_row v.id (with_version v w) ≡ some v
stored_found v w free =
    first-concat_new (λ r. same r.id v.id) w.db.versions v
      (first-none_of_any _ _ w.db.versions (λ r e. ground arith) free) ((same_iff v.id v.id).1 refl)

add_version_run :
    (input : CreatePromptVersionInput) (w : World) (p : Prompt) (body : Text)
    → IsQuiet w
    → first (live_id p.id) w.db.prompts ≡ some p
    → VersionIsFree (stored_version w body p input) w
    → add_version input (joined w.db p) body w
      ≡ (ok (stored_version w body p input), with_version (stored_version w body p input) w)
unfolding add_version new_id Versions.get_latest_version_number
add_version_run input w p body q live free =
    let v = stored_version w body p input in
    let issued = record w { issued = suc w.issued } in
    query_then_quiet w q _ _
    ∙ bind_ok new_id w refl _
    ∙ then_ok _ issued
        (create_row (new_version (w.uuid w.issued) (latest p.id w.db) body p input) issued p q free
          live)
        _
    ∙ find_version_quiet v.id (with_version v w) v q (stored_found v w free)

-- What CreatePromptVersion does behind the new row runs aside of the prompts.
finish-IsAside :
    (s : Service) (input : CreatePromptVersionInput) (v w : World) (prompt : Prompt)
    (created : PromptVersion)
    → IsAside v (activate_inline s input prompt created w).1
    → IsAside v
        ((activate_inline s input prompt created
            >> (audit s prompt.id
                  (codes "prompt.version.created")
                  (created_payload input created)
                  input.created_by
                >> pure created))
          w).1
unfolding pure ◌>>◌
finish-IsAside s input v w prompt created h = bind-IsAside v w _ _ h (λ done w' aside.
    bind-IsAside v w' _ _
      (IsAside-trans aside (audit-IsAside s prompt.id _ _ input.created_by w' aside.quiet))
      (λ done w'' aside'. aside'))

activate_inline-IsAside :
    (s : Service) (input : CreatePromptVersionInput) (w : World) (p : Prompt) (v : PromptVersion)
    → IsQuiet w
    → input.activate ≡ true
    → first (live_id p.id) w.db.prompts ≡ some p
    → version_row v.id w ≡ some v
    → distinct (λ r. r.name) w.db.prompts ≡ true
    → IsAside
        (with_prompts (update (live_id p.id) (activated v.id v.body w.now) w.db.prompts) w)
        (activate_inline s input (joined w.db p) v w).1
unfolding activate_inline
activate_inline-IsAside s input w p v q active live row names =
    let rows = update (live_id p.id) (activated v.id v.body w.now) w.db.prompts in
    rw active (
      subst (λ (r : Result (Unit {0}) × World). IsAside (with_prompts rows w) r.1)
        (sym (set_active_version_run s p.id v.id input.created_by w p v q live row names))
        (audit-IsAside s p.id _ _ input.created_by (with_prompts rows w) q))

-- In a quiet world where names are distinct, after CreatePromptVersion with `activate` on a prompt
-- that is there, with a body that is not blank and a row that the constraints let in, GetPrompt
-- shows the id of the new version and its trimmed body, also where the audit log fails.
pub get-create_prompt_version :
    (s : Service) (input : CreatePromptVersionInput) (w : World) (p : Prompt)
    → IsQuiet w
    → input.activate ≡ true
    → first (live_id input.prompt_id) w.db.prompts ≡ some p
    → is_empty (trim_space input.body) ≡ false
    → VersionIsFree (stored_version w (trim_space input.body) p input) w
    → distinct (λ r. r.name) w.db.prompts ≡ true
    → let w' = (create_prompt_version s input w).1 in
      get_prompt p.id w'
      ≡ (ok (joined w'.db (activated (w.uuid w.issued) (trim_space input.body) w.now p)), w')
unfolding create_prompt_version
get-create_prompt_version s input w p q active live filled free names =
    let body = trim_space input.body in
    let v = stored_version w body p input in
    let at : p.id ≡ input.prompt_id =
      (same_iff p.id input.prompt_id).0
        (ground (arith, first_passes (live_id input.prompt_id) w.db.prompts p live)) in
    let own : first (live_id p.id) w.db.prompts ≡ some p =
      subst (λ t. first (live_id t) w.db.prompts ≡ some p) (sym at) live in
    let w1 = with_version v w in
    let rows = update (live_id p.id) (activated v.id v.body w.now) w.db.prompts in
    let run =
      bind_ok (get_prompt input.prompt_id) w
        (get_prompt_quiet input.prompt_id w q ∙ ap (λ (o : Option Prompt). (answer w.db o, w)) live)
        _
      ∙ then_ok _ w (raise_if_ok _ body_required w filled) _
      ∙ bind_ok _ w (add_version_run input w p body q own free) _ in
    let inline =
      activate_inline-IsAside s input w1 p v q active own (stored_found v w free) names in
    let aside =
      subst (λ (r : Result PromptVersion × World). IsAside (with_prompts rows w1) r.1) (sym run)
        (finish-IsAside s input (with_prompts rows w1) w1 (joined w.db p) v inline) in
    shown_of_aside p.id rows w1 _ _ aside
      (activated_found p.id v.id v.body w.now w.db.prompts p own)
