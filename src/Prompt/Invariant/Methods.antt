-- ===== src/Prompt/Invariant/Methods.antt =====
-- Each method of the service keeps an invariant that its writes keep.
use prompt_manager.Base.{List, [], ◌∷◌, ◌≡◌, inl, inr, refl, Bool-cases, Bool, Option, none, some}
use prompt_manager.Text.{Text, is_empty, trim_space}
use prompt_manager.Text.Laws.{IsClean, OptionIsClean, trim_space-IsClean}
use prompt_manager.Domain.{
  version_not_found, Result, ok, err, Json, Prompt, PromptVersion, PromptAuditLog,
  PromptUpdateParams, PromptRestoreParams,
}
use prompt_manager.Store.{Database, World, Action, ◌>>=◌, ◌>>◌, pure, raise, map_error, missing_as}
use prompt_manager.Store.Keeps.{Holds, Keeps, keeps_rules, Keeps-pure, Keeps-bind, Keeps-guard}
use prompt_manager.Repository.Prompts
use prompt_manager.Repository.Versions
use prompt_manager.Repository.Audits
use prompt_manager.Prompt.Inputs.{
  Service, CreatePromptInput, UpdatePromptInput, CreatePromptVersionInput, audit,
}
use prompt_manager.Prompt.Manage.{
  get_prompt, checked_name, update_prompt, delete_prompt, restore_prompt, no_restore_params,
}
use prompt_manager.Prompt.Create.{
  existing_of, new_prompt, insert_new, restore_existing, create_or_restore, create_prompt,
  restore_params,
}
use prompt_manager.Prompt.Versions.{
  set_active_version, activate_inline, add_version, create_prompt_version,
}
use prompt_manager.Prompt.Calls.{Call, perform, perform_all}

-- The writes of the service, each with what the service knows of its arguments.
pub record Admits {I : Type 0} (P : I → Database → Type 0) (i : I) : Type 0 where
  pub create :
      (id name : Text) (input : CreatePromptInput)
      → IsClean name
      → Keeps P i (Prompts.create (new_prompt id name input))
  pub update :
      (id : Text) (params : PromptUpdateParams)
      → OptionIsClean params.name
      → Keeps P i (Prompts.update id params)
  pub delete : (id : Text) → Keeps P i (Prompts.delete id)
  pub restore :
      (id : Text) (params : PromptRestoreParams)
      → params.body ≡ none
      → Keeps P i (Prompts.restore id params)
  pub log : (a : PromptAuditLog) → Keeps P i (Audits.create a)
  pub add_version :
      (input : CreatePromptVersionInput) (prompt : Prompt) (body : Text)
      → IsClean body
      → Keeps P i (add_version input prompt body)
  pub activate :
      (prompt_id version_id : Text) (rest : PromptVersion → Action (Unit {0}))
      → ((v : PromptVersion) → Keeps P i (rest v))
      → Keeps P i (
          map_error (missing_as version_not_found) (Versions.get_by_id version_id) >>= λ v.
          Prompts.update_active_version prompt_id (some version_id) (some v.body) >> rest v)

module _ {I : Type 0} {P : I → Database → Type 0} {i : I} where
  pub Keeps-get_prompt : (id : Text) → Keeps P i (get_prompt id)
  unfolding get_prompt Prompts.get_by_id
  Keeps-get_prompt id = search keeps_rules

  Keeps-existing_of : (r : Result Prompt) → Keeps P i (existing_of r)
  unfolding existing_of
  Keeps-existing_of (ok p) = Keeps-pure (some p)
  Keeps-existing_of (err e) = search keeps_rules

  Keeps-get_by_name : (name : Text) (all : Bool) → Keeps P i (Prompts.get_by_name name all)
  unfolding Prompts.get_by_name
  Keeps-get_by_name name all = search keeps_rules

  -- The name that is handed on is trimmed, and not empty.
  Keeps-checked_name :
      {A : Type 0} (raw : Option Text) (k : Option Text → Action A)
      → ((name : Option Text) → OptionIsClean name → Keeps P i (k name))
      → Keeps P i (checked_name raw >>= k)
  unfolding checked_name ◌>>=◌ pure raise
  Keeps-checked_name none k kk = kk none tt
  Keeps-checked_name (some raw) k kk = elim (Bool-cases (is_empty (trim_space raw))) [
    | inl blank ↦ rw blank (record { at = λ w h. h })
    | inr filled ↦ rw filled (kk _ (trim_space-IsClean raw filled))
  ]

module _ {I : Type 0} {P : I → Database → Type 0} {i : I} (a : Admits P i) where
  Keeps-audit :
      (s : Service) (id action : Text) (payload : Json) (actor : Text)
      → Keeps P i (audit s id action payload actor)
  unfolding audit
  Keeps-audit s id action payload actor = search (keeps_rules, a.log)

  Keeps-restore_bare : (id : Text) → Keeps P i (Prompts.restore id no_restore_params)
  Keeps-restore_bare id = a.restore id no_restore_params refl

  Keeps-restore_as_given :
      (id : Text) (input : CreatePromptInput)
      → Keeps P i (Prompts.restore id (restore_params input))
  Keeps-restore_as_given id input = a.restore id (restore_params input) refl

  pub Keeps-delete_prompt : (s : Service) (id actor : Text) → Keeps P i (delete_prompt s id actor)
  unfolding delete_prompt
  Keeps-delete_prompt s id actor = search (keeps_rules, a.delete, Keeps-audit)

  pub Keeps-restore_prompt : (s : Service) (id actor : Text) → Keeps P i (restore_prompt s id actor)
  unfolding restore_prompt Prompts.get_by_id_include_deleted
  Keeps-restore_prompt s id actor =
      search (keeps_rules, Keeps-restore_bare, Keeps-audit, Keeps-get_prompt) depth 8

  Keeps-create_or_restore :
      (existing : Option Prompt) (name : Text) (input : CreatePromptInput)
      → IsClean name
      → Keeps P i (create_or_restore existing name input)
  unfolding create_or_restore insert_new restore_existing
  Keeps-create_or_restore none name input c = search (keeps_rules, a.create, Keeps-get_prompt)
  Keeps-create_or_restore (some p) name input c =
      search (keeps_rules, Keeps-restore_as_given, Keeps-get_prompt)

  pub Keeps-create_prompt : (input : CreatePromptInput) → Keeps P i (create_prompt input)
  unfolding create_prompt
  Keeps-create_prompt input = Keeps-guard _ _ _ λ filled.
      let clean = trim_space-IsClean input.name filled in
      search (keeps_rules, Keeps-get_by_name, Keeps-existing_of, Keeps-create_or_restore)

  pub Keeps-update_prompt : (input : UpdatePromptInput) → Keeps P i (update_prompt input)
  unfolding update_prompt
  Keeps-update_prompt input =
      Keeps-checked_name input.name _ λ name clean. search (keeps_rules, a.update, Keeps-get_prompt)

  pub Keeps-set_active_version :
      (s : Service) (prompt_id version_id actor : Text)
      → Keeps P i (set_active_version s prompt_id version_id actor)
  unfolding set_active_version
  Keeps-set_active_version s prompt_id version_id actor =
      search (keeps_rules, a.activate, Keeps-get_prompt, Keeps-audit)

  pub Keeps-create_prompt_version :
      (s : Service) (input : CreatePromptVersionInput) → Keeps P i (create_prompt_version s input)
  unfolding create_prompt_version activate_inline
  Keeps-create_prompt_version s input = Keeps-bind _ _ (Keeps-get_prompt input.prompt_id) λ prompt.
      Keeps-guard _ _ _ λ filled.
        let clean = trim_space-IsClean input.body filled in
        search (keeps_rules, a.add_version, Keeps-set_active_version, Keeps-audit)

  Holds-perform : (s : Service) (c : Call) (w : World) → Holds P i w → Holds P i (perform s c w)
  unfolding perform
  Holds-perform s (Call.create input) = (Keeps-create_prompt input).at
  Holds-perform s (Call.get id) = (Keeps-get_prompt id).at
  Holds-perform s (Call.update input) = (Keeps-update_prompt input).at
  Holds-perform s (Call.delete id actor) = (Keeps-delete_prompt s id actor).at
  Holds-perform s (Call.restore id actor) = (Keeps-restore_prompt s id actor).at
  Holds-perform s (Call.create_version input) = (Keeps-create_prompt_version s input).at
  Holds-perform s (Call.activate id version actor) =
      (Keeps-set_active_version s id version actor).at

  -- From a world where the invariant holds, it holds after any calls.
  pub Holds-perform_all :
      (s : Service) (cs : List Call) (w : World) → Holds P i w → Holds P i (perform_all s cs w)
  unfolding perform_all
  Holds-perform_all s [] w h = h
  Holds-perform_all s (c ∷ cs) w h = Holds-perform_all s cs _ (Holds-perform s c w h)
