-- ===== src/Prompt/Invariant/History.antt =====
-- The versions and the audit log only grow: no call changes or removes an entry.
use prompt_manager.Base.{
  ℕ, ◌≡◌, sym, subst, ap, ◌∙◌, Bool, some, List, All, [], ◌∷◌, ◌++◌, append_assoc, append-nil,
}
use prompt_manager.Text.{Text}
use prompt_manager.Domain.{Prompt, PromptUpdateParams, PromptVersion, PromptAuditLog}
use prompt_manager.Store.{Database, World, exec, update_prompts, insert_version}
use prompt_manager.Store.Keeps.{IsTrusted, Keeps, Keeps-exec, Keeps-then, Keeps-pure, keeps_rules}
use prompt_manager.Store.Writes.{
  insert_prompt-ok, insert_audit-ok, insert_version-ok, update_prompts-ok,
}
use prompt_manager.Repository.Prompts
use prompt_manager.Repository.Versions
use prompt_manager.Repository.Audits
use prompt_manager.Prompt.Inputs.{Service}
use prompt_manager.Prompt.Versions.{add_version}
use prompt_manager.Prompt.Invariant.Methods.{Admits, Holds-perform_all}
use prompt_manager.Prompt.Calls.{Call, perform_all}

-- `ys` is `xs` with more behind it
abbrev pub Extends : {A : Type 0} → List A → List A → Type 0
Extends {A} xs ys = (zs : List A) × (ys ≡ xs ++ zs)

-- what has been recorded
pub record History : Type 0 where
  pub versions : List PromptVersion
  pub audits : List PromptAuditLog

abbrev pub recorded : Database → History
recorded db = record { versions = db.versions; audits = db.audits }

abbrev pub Remembers : History → Database → Type 0
Remembers h db = Extends h.versions db.versions × Extends h.audits db.audits

Extends-concat : {A : Type 0} (xs ys : List A) (y : A) → Extends xs ys → Extends xs (ys ++ y ∷ [])
Extends-concat xs ys y (zs, e) =
    (zs ++ y ∷ [], ap (λ (l : List _). l ++ y ∷ []) e ∙ append_assoc xs zs (y ∷ []))

module _ (h : History) where
  Keeps-update_prompts :
      (hit : Prompt → Bool) (set : ℕ → Prompt → Prompt)
      → Keeps Remembers h (exec λ now. update_prompts hit (set now))
  Keeps-update_prompts hit set =
      Keeps-exec _ λ now e db n db' r ok.
        subst (Remembers h) (sym (update_prompts-ok e db hit (set now) ok).0) r

  Keeps-update :
      (id : Text) (params : PromptUpdateParams) → Keeps Remembers h (Prompts.update id params)
  unfolding Prompts.update
  Keeps-update id params = search (keeps_rules, Keeps-update_prompts)

  Keeps-activate :
      (id version body : Text)
      → Keeps Remembers h (Prompts.update_active_version id (some version) (some body))
  unfolding Prompts.update_active_version
  Keeps-activate id version body = search (keeps_rules, Keeps-update_prompts)

  Keeps-insert_version :
      (v : ℕ → PromptVersion) → Keeps Remembers h (exec λ now. insert_version (v now))
  Keeps-insert_version v = Keeps-exec _ λ now e db n db' r done.
      subst (Remembers h) (sym (insert_version-ok e db (v now) done).0)
        (Extends-concat h.versions db.versions (v now) r.0, r.1)

  Admits-Remembers : Admits Remembers h
  unfolding Prompts.create Prompts.delete Prompts.restore Audits.create add_version Versions.create
      Versions.get_by_id Versions.get_latest_version_number
  Admits-Remembers = record {
    create = λ id name input c.
        Keeps-then _ _
          (Keeps-exec _
            λ now e db n db' r done. subst (Remembers h) (sym (insert_prompt-ok e db _ done)) r)
          (Keeps-pure _);
    update = λ id params c. Keeps-update id params;
    delete = λ id. search (keeps_rules, Keeps-update_prompts);
    restore = λ id params none_given. search (keeps_rules, Keeps-update_prompts);
    log = λ a.
        Keeps-then _ _
          (Keeps-exec _ λ now e db n db' r done.
            subst (Remembers h) (sym (insert_audit-ok e db _ done))
              (r.0, Extends-concat h.audits db.audits _ r.1))
          (Keeps-pure _);
    add_version = λ input prompt body c. search (keeps_rules, Keeps-insert_version) depth 8;
    activate = λ id version rest k. search (keeps_rules, Keeps-activate, k);
  }

-- However calls and the writes of other clients follow one another, and whatever fails, the
-- versions and the entries of the audit log that were there at the start are still there, unchanged
-- and in their order, with the new ones behind them, if the other clients only add to them too.
pub perform_all-Remembers :
    (s : Service) (cs : List Call) (w : World)
    → All (IsTrusted Remembers) w.events
    → Remembers (recorded w.db) (perform_all s cs w).db
perform_all-Remembers s cs w trusted =
    (Holds-perform_all (Admits-Remembers (recorded w.db)) s cs w (record {
      now = (([], sym (append-nil w.db.versions)), ([], sym (append-nil w.db.audits)));
      later = trusted;
    })).now
