-- ===== src/Prompt/Invariant/Bodies.antt =====
-- The statements by which the bodies of prompts stay those of their versions.
use prompt_manager.Base.{
  ℕ, ◌≡◌, sym, subst, Bool, true, false, Option, none, some, List, [], ◌∷◌, ◌++◌, All, All-map,
  All-update, All-concat, update, first, first-concat, if◌then◌else◌,
}
use prompt_manager.Text.{Text, same}
use prompt_manager.Domain.{
  Prompt, PromptVersion, PromptAuditLog, PromptUpdateParams, PromptRestoreParams,
}
use prompt_manager.Store.{Database, exec, update_prompts, insert_version}
use prompt_manager.Store.Keeps.{
  Keeps, Keeps-exec, Keeps-bind, Keeps-then, Keeps-if, Keeps-raise, Keeps-pure, Keeps-affected,
}
use prompt_manager.Store.Writes.{
  insert_prompt-ok, insert_audit-ok, insert_version-ok, update_prompts-ok,
}
use prompt_manager.Repository.Prompts
use prompt_manager.Repository.Audits
use prompt_manager.Prompt.Inputs.{CreatePromptInput}
use prompt_manager.Prompt.Create.{new_prompt}

abbrev pub version_by_id : Text → List PromptVersion → Option PromptVersion
version_by_id id versions = first (λ v. same v.id id) versions

-- A body stands beside the id of a version that exists and has that body. (A prompt that
-- CreatePrompt has brought back keeps the id and has no body.)
abbrev pub ShowsBody : List PromptVersion → Option Text → Option Text → Type 0
ShowsBody versions active none = Unit
ShowsBody versions none (some body) = ⊥
ShowsBody versions (some id) (some body) =
    (v : PromptVersion) × (version_by_id id versions ≡ some v) × (v.body ≡ body)

pub record PromptShowsBody (versions : List PromptVersion) (p : Prompt) : Type 0 where
  pub shows : ShowsBody versions p.active_version_id p.body

-- What holds of all prompts, with a version that a call has read.
abbrev pub Shown : Option (Text × PromptVersion) → Database → Type 0
Shown none db = All (PromptShowsBody db.versions) db.prompts
Shown (some (id, v)) db =
    All (PromptShowsBody db.versions) db.prompts × (version_by_id id db.versions ≡ some v)

ShowsBody-concat :
    (versions : List PromptVersion) (v : PromptVersion) (active body : Option Text)
    → ShowsBody versions active body
    → ShowsBody (versions ++ v ∷ []) active body
ShowsBody-concat versions v active none h = tt
ShowsBody-concat versions v (some id) (some body) (old, found_old, same_body) =
    (old, first-concat _ versions v old found_old, same_body)
ShowsBody-concat versions v none (some body) h = h

module _ {i : Option (Text × PromptVersion)} where
  -- a change of the rows of prompts that respects the bodies
  pub Keeps-update_prompts :
      (hit : Prompt → Bool) (set : ℕ → Prompt → Prompt)
      → ((now : ℕ) (db : Database) (p : Prompt)
          → Shown i db
          → PromptShowsBody db.versions p
          → PromptShowsBody db.versions (set now p))
      → Keeps Shown i (exec λ now. update_prompts hit (set now))
  Keeps-update_prompts hit set step = Keeps-exec _ λ now e db n db' h done.
      subst (Shown i) (sym (update_prompts-ok e db hit (set now) done).0)
        (changed i now db h (step now db))
    where
      changed :
          (j : Option (Text × PromptVersion)) (now : ℕ) (db : Database)
          → Shown j db
          → ((p : Prompt)
              → Shown j db
              → PromptShowsBody db.versions p
              → PromptShowsBody db.versions (set now p))
          → Shown j (record db { prompts = update hit (set now) db.prompts })
      changed none now db h step = All-update _ hit (set now) db.prompts (λ p _. step p h) h
      changed (some f) now db h step =
          (All-update _ hit (set now) db.prompts (λ p _. step p h) h.0, h.1)

  pub Keeps-create :
      (id name : Text) (input : CreatePromptInput)
      → Keeps Shown i (Prompts.create (new_prompt id name input))
  unfolding Prompts.create
  Keeps-create id name input =
      Keeps-then _ _
        (Keeps-exec _ λ now e db n db' h done.
          subst (Shown i) (sym (insert_prompt-ok e db _ done))
            (added i db _ (record { shows = tt }) h))
        (Keeps-pure _)
    where
      added :
          (j : Option (Text × PromptVersion)) (db : Database) (p : Prompt)
          → PromptShowsBody db.versions p
          → Shown j db
          → Shown j (record db { prompts = db.prompts ++ p ∷ [] })
      added none db p q h = All-concat _ db.prompts h q
      added (some f) db p q h = (All-concat _ db.prompts h.0 q, h.1)

  pub Keeps-log : (a : PromptAuditLog) → Keeps Shown i (Audits.create a)
  unfolding Audits.create
  Keeps-log a =
      Keeps-then _ _
        (Keeps-exec _ λ now e db n db' h done.
          subst (Shown i) (sym (insert_audit-ok e db _ done)) (logged i db _ h))
        (Keeps-pure _)
    where
      logged :
          (j : Option (Text × PromptVersion)) (db : Database) (audits : List PromptAuditLog)
          → Shown j db
          → Shown j (record db { audits = audits })
      logged none db audits h = h
      logged (some f) db audits h = h

  pub Keeps-insert_version :
      (v : ℕ → PromptVersion) → Keeps Shown i (exec λ now. insert_version (v now))
  Keeps-insert_version v = Keeps-exec _ λ now e db n db' h done.
      subst (Shown i) (sym (insert_version-ok e db (v now) done).0) (grown i db (v now) h)
    where
      all_grown :
          (db : Database) (v : PromptVersion)
          → Shown none db
          → Shown none (record db { versions = db.versions ++ v ∷ [] })
      all_grown db v h =
          All-map _ _ db.prompts
            (λ p q. record {
              shows = ShowsBody-concat db.versions v p.active_version_id p.body q.shows;
            })
            h

      grown :
          (j : Option (Text × PromptVersion)) (db : Database) (v : PromptVersion)
          → Shown j db
          → Shown j (record db { versions = db.versions ++ v ∷ [] })
      grown none db v h = all_grown db v h
      grown (some (id, old)) db v h = (all_grown db v h.0, first-concat _ db.versions v old h.1)

  pub Keeps-update :
      (id : Text) (params : PromptUpdateParams) → Keeps Shown i (Prompts.update id params)
  unfolding Prompts.update
  Keeps-update id params = Keeps-if _ _ _ (Keeps-raise _) (
      Keeps-if _ _ _ (Keeps-pure _) (
        Keeps-bind _ _ (Keeps-update_prompts _ _ λ now db p h q. record { shows = q.shows })
          Keeps-affected))

  pub Keeps-delete : (id : Text) → Keeps Shown i (Prompts.delete id)
  unfolding Prompts.delete
  Keeps-delete id =
      Keeps-bind _ _ (Keeps-update_prompts _ _ λ now db p h q. record { shows = q.shows })
        Keeps-affected

  pub Keeps-restore :
      (id : Text) (params : PromptRestoreParams)
      → params.body ≡ none
      → Keeps Shown i (Prompts.restore id params)
  unfolding Prompts.restore
  Keeps-restore id params bare =
      Keeps-bind _ _
        (Keeps-update_prompts _ _ λ now db p h q. record {
          shows = emptied params.has_body params.body bare db.versions p q.shows;
        })
        Keeps-affected
    where
      emptied :
          (given : Bool) (body : Option Text)
          → body ≡ none
          → (versions : List PromptVersion) (p : Prompt)
          → ShowsBody versions p.active_version_id p.body
          → ShowsBody versions p.active_version_id (if given then body else p.body)
      emptied true none e versions p h = tt
      emptied true (some b) e versions p h = cc
      emptied false body e versions p h = h
