-- ===== src/Store/Tables.antt =====
-- The tables of db/migrations, with the constraints that they declare.
-- A row of `prompts` is a Prompt whose `created_by` is the column of that name.
use prompt_manager.Base.{
  ℕ, ℤ, Bool, true, not, ◌&&◌, ◌||◌, Option, List, [], ◌∷◌, ◌++◌, any, count, update, ◌==◌,
  if◌then◌else◌,
}
use prompt_manager.Text.{Text, same}
use prompt_manager.Domain.{
  User, UserIdentity, Prompt, PromptVersion, PromptAuditLog, PromptExecutionLog, Result, ok, err,
  other,
}

-- A row of prompt_execution_logs: the log, with its duration as a column that may be NULL.
pub record ExecutionRow : Type 0 where
  pub log : PromptExecutionLog
  pub duration_ms : Option ℤ

pub record Database : Type 0 where
  pub users : List User
  pub identities : List UserIdentity
  pub prompts : List Prompt
  pub versions : List PromptVersion
  pub audits : List PromptAuditLog
  pub executions : List ExecutionRow

-- What the code leaves to the database engine: the texts of its errors, whether it enforces
-- foreign keys, and its function LOWER.
pub record Engine : Type 0 where
  pub unique_message : Text
  pub foreign_key_message : Text
  pub foreign_keys : Bool
  pub lower : Text → Text
  -- whether LIKE takes a backslash for an escape, as PostgreSQL does and SQLite does not
  pub like_escapes : Bool

-- No two rows agree in a column that is UNIQUE.
abbrev pub distinct {ℓ} : {A : Type ℓ} → (A → Text) → List A → Bool
distinct key [] = true
distinct key (x ∷ xs) = not (any (λ y. same (key x) (key y)) xs) && distinct key xs

-- What a write statement does: it fails and changes nothing, or it gives the number of rows.
abbrev pub Write : Type 0
Write = Engine → Database → Result (ℕ × Database)

-- A row may refer to a parent that is not there only where the engine does not look.
abbrev pub orphaned : Engine → Bool → Bool
orphaned e found = e.foreign_keys && not found

unfoldable pub insert_user : User → Write
insert_user u e db =
    if any (λ r. same r.id u.id || same r.email u.email) db.users
    then err (other e.unique_message)
    else ok (1, record db { users = db.users ++ u ∷ [] })

unfoldable pub insert_identity : UserIdentity → Write
insert_identity i e db =
    if any
      (λ r.
        same r.id i.id || same r.provider i.provider && same r.provider_user_id i.provider_user_id)
      db.identities
    then err (other e.unique_message)
    else if orphaned e (any (λ u. same u.id i.user_id) db.users)
    then err (other e.foreign_key_message)
    else ok (1, record db { identities = db.identities ++ i ∷ [] })

unfoldable pub insert_prompt : Prompt → Write
insert_prompt p e db =
    if any (λ r. same r.id p.id || same r.name p.name) db.prompts
    then err (other e.unique_message)
    else ok (1, record db { prompts = db.prompts ++ p ∷ [] })

unfoldable pub insert_version : PromptVersion → Write
insert_version v e db =
    if any
      (λ r. same r.id v.id || same r.prompt_id v.prompt_id && r.version_number == v.version_number)
      db.versions
    then err (other e.unique_message)
    else if orphaned e (any (λ p. same p.id v.prompt_id) db.prompts)
    then err (other e.foreign_key_message)
    else ok (1, record db { versions = db.versions ++ v ∷ [] })

unfoldable pub insert_audit : PromptAuditLog → Write
insert_audit a e db =
    if any (λ r. same r.id a.id) db.audits
    then err (other e.unique_message)
    else if orphaned e (any (λ p. same p.id a.prompt_id) db.prompts)
    then err (other e.foreign_key_message)
    else ok (1, record db { audits = db.audits ++ a ∷ [] })

unfoldable pub insert_execution : ExecutionRow → Write
insert_execution x e db =
    if any (λ r. same r.log.id x.log.id) db.executions
    then err (other e.unique_message)
    else if orphaned e (
        any (λ p. same p.id x.log.prompt_id) db.prompts
        && any (λ v. same v.id x.log.prompt_version_id) db.versions)
    then err (other e.foreign_key_message)
    else ok (1, record db { executions = db.executions ++ x ∷ [] })

-- UPDATE prompts SET … WHERE …: the rows that are hit, unless two rows would share a name.
unfoldable pub update_prompts : (Prompt → Bool) → (Prompt → Prompt) → Write
update_prompts hit set e db =
    let rows = update hit set db.prompts in
    if distinct (λ r. r.name) rows
    then ok (count hit db.prompts, record db { prompts = rows })
    else err (other e.unique_message)

unfoldable pub update_users : (User → Bool) → (User → User) → Write
update_users hit set e db = ok (count hit db.users, record db { users = update hit set db.users })
