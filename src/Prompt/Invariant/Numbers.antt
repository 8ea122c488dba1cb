-- ===== src/Prompt/Invariant/Numbers.antt =====
-- The numbers of the versions of a prompt, and what a new version does to them.
use prompt_manager.Base.{
  ℕ, ◌+◌, ◌≤◌, max, ◌≡◌, subst, Bool, true, false, ◌&&◌, ◌||◌, inl, inr, Bool-cases, [], ◌∷◌, ◌++◌,
  arith, any, any-concat, any_none, count, count-concat, maximum, maximum-concat, ltb, ◌==◌,
  if◌then◌else◌,
}
use prompt_manager.Text.{Text, same}
use prompt_manager.Text.Laws.{same_iff}
use prompt_manager.Domain.{PromptVersion}
use prompt_manager.Store.{Database}
use prompt_manager.Repository.Versions.{of_prompt}

abbrev pub latest : Text → Database → ℕ
latest id db = maximum (of_prompt id) (λ v. v.version_number) db.versions

abbrev pub versions_of : Text → Database → ℕ
versions_of id db = count (of_prompt id) db.versions

abbrev pub has_number : Text → ℕ → Database → Bool
has_number id n db = any (λ v. same v.prompt_id id && v.version_number == n) db.versions

pub record IsNumbered (db : Database) : Type 0 where
  pub gapless : (id : Text) (n : ℕ) → 1 ≤ n → n ≤ latest id db → has_number id n db ≡ true
  pub exact : (id : Text) → latest id db ≡ versions_of id db

-- a version that a UNIQUE constraint lets in beside the others
abbrev pub IsFresh : PromptVersion → Database → Type 0
IsFresh v db =
    any
      (λ r. same r.id v.id || same r.prompt_id v.prompt_id && r.version_number == v.version_number)
      db.versions
    ≡ false

abbrev pub with_version : PromptVersion → Database → Database
with_version v db = record db { versions = db.versions ++ v ∷ [] }

pub latest-with_version :
    (id : Text) (v : PromptVersion) (db : Database)
    → latest id (with_version v db)
      ≡ max (latest id db) (if same v.prompt_id id then v.version_number else 0)
latest-with_version id v db = maximum-concat (of_prompt id) (λ r. r.version_number) db.versions v

-- A fresh version whose number is at most one above the latest is exactly one above it.
pub number_of_fresh :
    (v : PromptVersion) (l : ℕ) (db : Database)
    → IsNumbered db
    → IsFresh v db
    → v.version_number ≡ l + 1
    → l ≤ latest v.prompt_id db
    → l ≡ latest v.prompt_id db
number_of_fresh v l db h fresh number le = elim (Bool-cases (ltb l (latest v.prompt_id db))) [
  | inl less ↦
      let taken = h.gapless v.prompt_id v.version_number (omega arith) (ground arith) in
      let free =
        any_none _ (λ r. same r.prompt_id v.prompt_id && r.version_number == v.version_number)
          db.versions (λ r e. ground arith) fresh in
      absurd (cc (taken, free))
  | inr not_less ↦ ground arith
]

has_number-with_version :
    (id : Text) (n : ℕ) (v : PromptVersion) (db : Database)
    → has_number id n (with_version v db)
      ≡ has_number id n db || same v.prompt_id id && v.version_number == n
has_number-with_version id n v db =
    any-concat (λ r. same r.prompt_id id && r.version_number == n) db.versions v

module _ (v : PromptVersion) (db : Database) (h : IsNumbered db)
    (next : v.version_number ≡ latest v.prompt_id db + 1) where
  pub gapless-with_version :
      (id : Text) (n : ℕ)
      → 1 ≤ n
      → n ≤ latest id (with_version v db)
      → has_number id n (with_version v db) ≡ true
  gapless-with_version id n low high = elim (Bool-cases (same v.prompt_id id)) [
    | inl own ↦
        let e = (same_iff v.prompt_id id).0 own in
        rw (has_number-with_version id n v db) (
          subst (GaplessAt n) e (ground (arith, h.gapless v.prompt_id n low)) own
            (rw own at rw (latest-with_version id v db) at high))
    | inr another ↦
        let old = h.gapless id n low (ground (arith, latest-with_version id v db)) in
        rw (has_number-with_version id n v db, old)
  ]
    where
      GaplessAt : ℕ → Text → Type 0
      GaplessAt n id =
          same v.prompt_id id ≡ true
          → n ≤ max (latest id db) v.version_number
          → (has_number id n db || same v.prompt_id id && v.version_number == n) ≡ true

  pub exact-with_version :
      (id : Text) → latest id (with_version v db) ≡ versions_of id (with_version v db)
  exact-with_version id = elim (Bool-cases (same v.prompt_id id)) [
    | inl own ↦
        rw
          (
            latest-with_version id v db,
            count-concat (of_prompt id) db.versions v,
            own,
            next,
            (same_iff v.prompt_id id).0 own,
          )
          (omega (arith, h.exact id))
    | inr another ↦
        rw (latest-with_version id v db, count-concat (of_prompt id) db.versions v, another)
          (omega (arith, h.exact id))
  ]
