-- ===== src/Prompt/Invariant/Numbering.antt =====
-- The versions of a prompt are numbered from 1 without a gap, also where calls interleave.
use prompt_manager.Base.{
  ℕ, ◌+◌, ◌≤◌, ◌≡◌, refl, sym, subst, ap, ◌∙◌, Bool, List, [], ◌∷◌, arith, All, All-map,
}
use prompt_manager.Text.{Text}
use prompt_manager.Domain.{Prompt, PromptVersion, PromptAuditLog, PromptUpdateParams}
use prompt_manager.Store.{Database, World, exec, update_prompts}
use prompt_manager.Store.Keeps.{
  Holds, Keeps, Keeps-exec, Keeps-read, Keeps-bind, Keeps-then, Keeps-if, Keeps-raise, Keeps-pure,
  Keeps-affected, Keeps-new_id, keeps_rules,
}
use prompt_manager.Store.Writes.{
  insert_prompt-ok, insert_audit-ok, insert_version-ok, update_prompts-ok,
}
use prompt_manager.Repository.Prompts
use prompt_manager.Repository.Audits
use prompt_manager.Repository.Versions
use prompt_manager.Repository.Versions.{of_prompt}
use prompt_manager.Prompt.Inputs.{Service, CreatePromptVersionInput}
use prompt_manager.Prompt.Versions.{add_version}
use prompt_manager.Prompt.Calls.{Call, perform_all}
use prompt_manager.Prompt.Invariant.Methods.{Admits, Holds-perform_all}
use prompt_manager.Prompt.Invariant.Numbers.{
  latest, IsNumbered, IsFresh, with_version, latest-with_version, number_of_fresh,
  gapless-with_version, exact-with_version,
}

-- The numbering, with numbers that a call has read as the latest ones of prompts.
abbrev pub NumberedFrom : List (Text × ℕ) → Database → Type 0
NumberedFrom facts db = IsNumbered db × All (λ f. f.1 ≤ latest f.0 db) facts

-- The writes that leave the versions alone.
same_versions :
    (facts : List (Text × ℕ)) (db : Database) (prompts : List Prompt) (audits : List PromptAuditLog)
    → NumberedFrom facts db
    → NumberedFrom facts (record db { prompts = prompts; audits = audits })
same_versions facts db prompts audits (h, known) =
    (record { gapless = h.gapless; exact = h.exact }, known)

module _ {facts : List (Text × ℕ)} where
  Keeps-update_prompts :
      (hit : Prompt → Bool) (set : ℕ → Prompt → Prompt)
      → Keeps NumberedFrom facts (exec λ now. update_prompts hit (set now))
  Keeps-update_prompts hit set = Keeps-exec _ λ now e db n db' h done.
      subst (NumberedFrom facts) (sym (update_prompts-ok e db hit (set now) done).0)
        (same_versions facts db _ _ h)

  Keeps-create : (p : Prompt) → Keeps NumberedFrom facts (Prompts.create p)
  unfolding Prompts.create
  Keeps-create p =
      Keeps-then _ _
        (Keeps-exec _ λ now e db n db' h done.
          subst (NumberedFrom facts) (sym (insert_prompt-ok e db _ done))
            (same_versions facts db _ _ h))
        (Keeps-pure _)

  Keeps-log : (a : PromptAuditLog) → Keeps NumberedFrom facts (Audits.create a)
  unfolding Audits.create
  Keeps-log a =
      Keeps-then _ _
        (Keeps-exec _ λ now e db n db' h done.
          subst (NumberedFrom facts) (sym (insert_audit-ok e db _ done))
            (same_versions facts db _ _ h))
        (Keeps-pure _)

  Keeps-update :
      (id : Text) (params : PromptUpdateParams)
      → Keeps NumberedFrom facts (Prompts.update id params)
  unfolding Prompts.update
  Keeps-update id params =
      Keeps-if _ _ _ (Keeps-raise _)
        (Keeps-if _ _ _ (Keeps-pure _) (Keeps-bind _ _ (Keeps-update_prompts _ _) Keeps-affected))

-- A version that carries the number after one that was read as the latest.
insert-NumberedFrom :
    (facts : List (Text × ℕ)) (l : ℕ) (v : PromptVersion) (db : Database)
    → v.version_number ≡ l + 1
    → IsFresh v db
    → NumberedFrom ((v.prompt_id, l) ∷ facts) db
    → NumberedFrom ((v.prompt_id, l) ∷ facts) (with_version v db)
insert-NumberedFrom facts l v db number fresh (h, (read, known)) =
    let next = number ∙ ap (λ (k : ℕ). k + 1) (number_of_fresh v l db h fresh number read) in
    (
      record { gapless = gapless-with_version v db h next; exact = exact-with_version v db h next },
      All-map _ _ ((v.prompt_id, l) ∷ facts) (λ f le. omega (arith, latest-with_version f.0 v db))
          (read, known),
    )

Keeps-add_version :
    (facts : List (Text × ℕ)) (input : CreatePromptVersionInput) (prompt : Prompt) (body : Text)
    → Keeps NumberedFrom facts (add_version input prompt body)
unfolding add_version Versions.create Versions.get_by_id Versions.get_latest_version_number
Keeps-add_version facts input prompt body =
    Keeps-read (λ l. (prompt.id, l) ∷ facts) _ _ (λ e db (h, known). (h, (omega arith, known)))
      (λ l db (h, known). (h, known.1))
      (λ l. Keeps-bind _ _ Keeps-new_id λ id.
        Keeps-then _ _
          (Keeps-then _ _
            (Keeps-exec _ λ now e db n db' h done.
              let (same_db, fresh) = insert_version-ok e db _ done in
              subst (NumberedFrom ((prompt.id, l) ∷ facts)) (sym same_db)
                (insert-NumberedFrom facts l _ db refl fresh h))
            (Keeps-pure _))
          (search keeps_rules))

Admits-NumberedFrom : (facts : List (Text × ℕ)) → Admits NumberedFrom facts
unfolding Prompts.delete Prompts.restore Prompts.update_active_version Versions.get_by_id
Admits-NumberedFrom facts = record {
  create = λ id name input c. Keeps-create _;
  update = λ id params c. Keeps-update id params;
  delete = λ id. Keeps-bind _ _ (Keeps-update_prompts _ _) Keeps-affected;
  restore = λ id params none_given. Keeps-bind _ _ (Keeps-update_prompts _ _) Keeps-affected;
  log = Keeps-log;
  add_version = λ input prompt body c. Keeps-add_version facts input prompt body;
  activate = λ id version rest k.
      Keeps-bind _ _ (search keeps_rules)
        λ v. Keeps-then _ _ (Keeps-bind _ _ (Keeps-update_prompts _ _) Keeps-affected) (k v);
}

-- However calls and the writes of other clients follow one another, and whatever fails, the
-- versions of each prompt have the numbers from 1 to their count, each of them, if that held before
-- and the other clients keep it and lower no latest number.
pub perform_all-IsNumbered :
    (s : Service) (cs : List Call) (w : World)
    → Holds NumberedFrom [] w
    → IsNumbered (perform_all s cs w).db
perform_all-IsNumbered s cs w h = (Holds-perform_all (Admits-NumberedFrom []) s cs w h).now.0
