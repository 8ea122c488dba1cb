-- ===== src/Store/Writes.antt =====
-- What a write that succeeds has done to the database.
use prompt_manager.Base.{
  ℕ, ◌≡◌, Bool, true, false, ◌&&◌, ◌||◌, [], ◌∷◌, ◌++◌, arith, any, count, update, ◌==◌,
}
use prompt_manager.Text.{same}
use prompt_manager.Domain.{User, UserIdentity, Prompt, PromptVersion, PromptAuditLog, ok}
use prompt_manager.Store.Tables.{
  Database, Engine, distinct, insert_user, insert_identity, insert_prompt, insert_version,
  insert_audit, update_prompts, update_users,
}

module _ (e : Engine) (db : Database) {n : ℕ} {db' : Database} where
  pub insert_user-ok :
      (u : User) → insert_user u e db ≡ ok (n, db') → db' ≡ record db { users = db.users ++ u ∷ [] }
  unfolding insert_user
  insert_user-ok u h = ground arith

  pub insert_identity-ok :
      (i : UserIdentity)
      → insert_identity i e db ≡ ok (n, db')
      → db' ≡ record db { identities = db.identities ++ i ∷ [] }
  unfolding insert_identity
  insert_identity-ok i h = ground arith

  pub insert_prompt-ok :
      (p : Prompt)
      → insert_prompt p e db ≡ ok (n, db')
      → db' ≡ record db { prompts = db.prompts ++ p ∷ [] }
  unfolding insert_prompt
  insert_prompt-ok p h = ground arith

  pub insert_version-ok :
      (v : PromptVersion)
      → insert_version v e db ≡ ok (n, db')
      → (db' ≡ record db { versions = db.versions ++ v ∷ [] })
        × (any
              (λ r.
                same r.id v.id
                || same r.prompt_id v.prompt_id && r.version_number == v.version_number)
              db.versions
            ≡ false)
  unfolding insert_version
  insert_version-ok v h = ground arith

  pub insert_audit-ok :
      (a : PromptAuditLog)
      → insert_audit a e db ≡ ok (n, db')
      → db' ≡ record db { audits = db.audits ++ a ∷ [] }
  unfolding insert_audit
  insert_audit-ok a h = ground arith

  pub update_prompts-ok :
      (hit : Prompt → Bool) (set : Prompt → Prompt)
      → update_prompts hit set e db ≡ ok (n, db')
      → (db' ≡ record db { prompts = update hit set db.prompts })
        × (n ≡ count hit db.prompts)
        × (distinct (λ r. r.name) (update hit set db.prompts) ≡ true)
  unfolding update_prompts
  update_prompts-ok hit set h = ground arith

  pub update_users-ok :
      (hit : User → Bool) (set : User → User)
      → update_users hit set e db ≡ ok (n, db')
      → db' ≡ record db { users = update hit set db.users }
  unfolding update_users
  update_users-ok hit set h = ground arith
