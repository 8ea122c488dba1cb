-- ===== src/Prompt/Invariant/Lifecycle.antt =====
-- A prompt is deleted, with a time of deletion, or active without one; its name is clean.
use prompt_manager.Base.{
  ℕ, ◌≡◌, refl, sym, subst, Bool, true, false, Option, none, some, List, All, All-concat,
  All-update, if◌then◌else◌,
}
use prompt_manager.Text.{Text, codes}
use prompt_manager.Text.Laws.{IsClean, OptionIsClean}
use prompt_manager.Domain.{Prompt, PromptUpdateParams, PromptVersion}
use prompt_manager.Store.{Database, World, exec, update_prompts, insert_version}
use prompt_manager.Store.Keeps.{
  Holds, Keeps, Keeps-exec, Keeps-bind, Keeps-then, Keeps-if, Keeps-raise, Keeps-pure,
  Keeps-affected, keeps_rules,
}
use prompt_manager.Store.Writes.{
  insert_prompt-ok, insert_audit-ok, insert_version-ok, update_prompts-ok,
}
use prompt_manager.Repository.Prompts
use prompt_manager.Repository.Versions
use prompt_manager.Repository.Audits
use prompt_manager.Prompt.Inputs.{Service}
use prompt_manager.Prompt.Versions.{add_version}
use prompt_manager.Prompt.Invariant.Methods.{Admits, Holds-perform_all}
use prompt_manager.Prompt.Calls.{Call, perform_all}

-- The status that goes with a time of deletion.
abbrev pub status_of : Option ℕ → Text
status_of none = codes "active"
status_of (some _) = codes "deleted"

pub record PromptIsSound (p : Prompt) : Type 0 where
  pub lifecycle : p.status ≡ status_of p.deleted_at
  pub clean : IsClean p.name

abbrev pub PromptsAreSound : Unit {0} → Database → Type 0
PromptsAreSound _ db = All PromptIsSound db.prompts

Keeps-update_prompts :
    (hit : Prompt → Bool) (set : ℕ → Prompt → Prompt)
    → ((now : ℕ) (p : Prompt) → hit p ≡ true → PromptIsSound p → PromptIsSound (set now p))
    → Keeps PromptsAreSound tt (exec λ now. update_prompts hit (set now))
Keeps-update_prompts hit set step = Keeps-exec _ λ now e db n db' h ok.
    subst (PromptsAreSound tt) (sym (update_prompts-ok e db hit (set now) ok).0)
      (All-update PromptIsSound hit (set now) db.prompts (step now) h)

Keeps-update :
    (id : Text) (params : PromptUpdateParams)
    → OptionIsClean params.name
    → Keeps PromptsAreSound tt (Prompts.update id params)
unfolding Prompts.update
Keeps-update id params c = Keeps-if _ _ _ (Keeps-raise _) (
    Keeps-if _ _ _ (Keeps-pure _) (
      Keeps-bind _ _
        (Keeps-update_prompts _ _ λ now p hit v. record {
          lifecycle = v.lifecycle;
          clean = renamed params.has_name params.name p v c;
        })
        Keeps-affected))
  where
    renamed :
        (given : Bool) (name : Option Text) (p : Prompt)
        → PromptIsSound p
        → OptionIsClean name
        → IsClean (if given then Prompts.name_or name p.name else p.name)
    renamed false name p v c = v.clean
    renamed true none p v c = v.clean
    renamed true (some name) p v c = c

Keeps-activate :
    (id version : Text) (body : Text)
    → Keeps PromptsAreSound tt (Prompts.update_active_version id (some version) (some body))
unfolding Prompts.update_active_version
Keeps-activate id version body =
    Keeps-bind _ _
      (Keeps-update_prompts _ _ λ now p hit v. record { lifecycle = v.lifecycle; clean = v.clean })
      Keeps-affected

Keeps-insert_version :
    (v : ℕ → PromptVersion) → Keeps PromptsAreSound tt (exec λ now. insert_version (v now))
Keeps-insert_version v = Keeps-exec _ λ now e db n db' h done.
    subst (PromptsAreSound tt) (sym (insert_version-ok e db (v now) done).0) h

Admits-PromptsAreSound : Admits PromptsAreSound tt
unfolding Prompts.create Prompts.delete Prompts.restore Audits.create add_version Versions.create
    Versions.get_by_id Versions.get_latest_version_number
Admits-PromptsAreSound = record {
  create = λ id name input c.
      Keeps-then _ _
        (Keeps-exec _ λ now e db n db' h done.
          subst (PromptsAreSound tt) (sym (insert_prompt-ok e db _ done))
            (All-concat PromptIsSound db.prompts h (record { lifecycle = refl; clean = c })))
        (Keeps-pure _);
  update = Keeps-update;
  delete = λ id.
      Keeps-bind _ _
        (Keeps-update_prompts _ _ λ now p hit v. record { lifecycle = refl; clean = v.clean })
        Keeps-affected;
  restore = λ id params none_given.
      Keeps-bind _ _
        (Keeps-update_prompts _ _ λ now p hit v. record { lifecycle = refl; clean = v.clean })
        Keeps-affected;
  log = λ a.
      Keeps-then _ _
        (Keeps-exec _
          λ now e db n db' h done. subst (PromptsAreSound tt) (sym (insert_audit-ok e db _ done)) h)
        (Keeps-pure _);
  add_version = λ input prompt body c. search (keeps_rules, Keeps-insert_version) depth 8;
  activate = λ id version rest k. search (keeps_rules, Keeps-activate, k);
}

-- However calls and the writes of other clients follow one another, and whatever fails, every
-- prompt has a clean name, and its status is "deleted" exactly when it has a time of deletion and
-- "active" otherwise, if that held before and the other clients keep it.
pub perform_all-PromptsAreSound :
    (s : Service) (cs : List Call) (w : World)
    → Holds PromptsAreSound tt w
    → All PromptIsSound (perform_all s cs w).db.prompts
perform_all-PromptsAreSound s cs w h = (Holds-perform_all Admits-PromptsAreSound s cs w h).now
