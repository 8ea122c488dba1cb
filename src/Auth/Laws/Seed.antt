-- ===== src/Auth/Laws/Seed.antt =====
-- The administrator that is seeded at every start.
use prompt_manager.Base.{
  ℕ, suc, ◌≡◌, refl, ap, ◌∙◌, Bool, true, false, ◌||◌, Option, none, some, [], ◌∷◌, ◌++◌, any,
  first, first-none_of_any, arith, if◌then◌else◌,
}
use prompt_manager.Text.{Text, codes, same, is_empty, trim_space, to_lower}
use prompt_manager.Domain.{User, Result, ok}
use prompt_manager.Store.{World, Action, pure, raise, lift, new_id, found, insert_user}
use prompt_manager.Store.Quiet.{
  IsQuiet, query_then_quiet, exec_quiet, bind_ok, then_ok, attempt_result,
}
use prompt_manager.Repository.Users
use prompt_manager.Repository.Users.{or_default}
use prompt_manager.Config.Settings.{SeedAdminConfig}
use prompt_manager.Config.Defaults.{text_or}
use prompt_manager.Auth.Library.{Library}
use prompt_manager.Auth.Seed.{clean, admin_of, create_admin, unless_there, ensure_default_admin}

abbrev pub seed_email : SeedAdminConfig → SeedAdminConfig → Text
seed_email seed legacy =
    let own = to_lower (trim_space seed.email) in
    if is_empty own then to_lower (trim_space legacy.email) else own

-- the role of the seed, or that of the environment
abbrev pub seed_role : SeedAdminConfig → SeedAdminConfig → Text
seed_role seed legacy =
    let own = to_lower (trim_space seed.role) in
    if is_empty own then to_lower (trim_space legacy.role) else own

abbrev pub has_email : Text → World → Option User
has_email email w = first (λ u. same u.email email) w.db.users

-- In a quiet world where a user has the address of the seed, whoever that is, seeding changes
-- nothing.
ensure_default_admin_there :
    (l : Library) (seed legacy : SeedAdminConfig) (w : World) (u : User)
    → IsQuiet w
    → has_email (seed_email seed legacy) w ≡ some u
    → ensure_default_admin l seed legacy w ≡ (ok tt, w)
unfolding ensure_default_admin Users.get_by_email found pure unless_there
ensure_default_admin_there l seed legacy w u q there =
    skipped (is_empty (seed_email seed legacy) || is_empty (text_or seed.password legacy.password))
      _
      (bind_ok _ w
        (attempt_result _ w
          (query_then_quiet w q _ found ∙ ap (λ (o : Option User). found o w) there))
        _)
  where
    skipped :
        (b : Bool) (m : Action (Unit {0}))
        → m w ≡ (ok tt, w)
        → (if b then pure tt else m) w ≡ (ok tt, w)
    skipped true m h = refl
    skipped false m h = h

-- the user that is seeded
abbrev pub seeded : (id email hash role : Text) → ℕ → User
seeded id email hash role now = record {
  id = id;
  email = email;
  hashed_password = hash;
  role = if is_empty role then codes "admin" else role;
  status = codes "active";
  last_login_at = none;
  created_at = now;
  updated_at = now;
}

passed :
    (b : Bool) (m : Action (Unit {0})) (w : World) → b ≡ false → (if b then pure tt else m) w ≡ m w
passed true m w h = absurd (cc h)
passed false m w h = refl

role_filled : (role : Text) → is_empty (text_or role (codes "admin")) ≡ false
role_filled [] = refl
role_filled (c ∷ s) = refl

create_seeded :
    (id email hash role : Text) (w : World)
    → IsQuiet w
    → any (λ r. same r.id id || same r.email email) w.db.users ≡ false
    → Users.create (admin_of id email hash (text_or role (codes "admin"))) w ≡ (
      ok tt,
      record w { db = record w.db { users = w.db.users ++ seeded id email hash role w.now ∷ [] } },
    )
unfolding Users.create insert_user pure
create_seeded id email hash role w q free =
    let row = record (admin_of id email hash (text_or role (codes "admin"))) {
      role = or_default (text_or role (codes "admin")) (codes "viewer");
      created_at = w.now;
      updated_at = w.now;
    } in
    let kept : row ≡ seeded id email hash role w.now =
      ap
        (λ (b : Bool). record (seeded id email hash role w.now) {
          role = if b then codes "viewer" else text_or role (codes "admin");
        })
        (role_filled role) in
    then_ok _ w {w' = record w { db = record w.db { users = w.db.users ++ row ∷ [] } }} {a = 1}
      (exec_quiet _ w q ∙ rw free refl) (pure tt)
    ∙ ap (λ (u : User). (ok tt, record w { db = record w.db { users = w.db.users ++ u ∷ [] } }))
        kept

-- In a quiet world where no user has the address of the seed, in lower case and trimmed, or the new
-- id, and the password can be hashed, seeding adds one active user of that address, with the hash
-- and the role of the seed, or "admin" where it is blank.
pub ensure_default_admin_new :
    (l : Library) (seed legacy : SeedAdminConfig) (w : World) (hash : Text)
    → IsQuiet w
    → (is_empty (seed_email seed legacy) || is_empty (text_or seed.password legacy.password))
      ≡ false
    → any (λ r. same r.id (w.uuid w.issued) || same r.email (seed_email seed legacy)) w.db.users
      ≡ false
    → l.hash_password (text_or seed.password legacy.password) ≡ ok hash
    → let role = seed_role seed legacy in
      let w' = record w {
        issued = suc w.issued;
        db = record w.db {
          users =
              w.db.users ++ seeded (w.uuid w.issued) (seed_email seed legacy) hash role w.now ∷ [];
        };
      } in
      ensure_default_admin l seed legacy w ≡ (ok tt, w')
unfolding ensure_default_admin Users.get_by_email unless_there create_admin found raise lift new_id
ensure_default_admin_new l seed legacy w hash q given free hashed =
    let email = seed_email seed legacy in
    let role = text_or (clean seed.role) (clean legacy.role) in
    passed _ _ w given
    ∙ bind_ok _ w
        (attempt_result _ w (
          query_then_quiet w q _ found
          ∙ ap (λ (o : Option User). found o w)
              (first-none_of_any (λ u. same u.email email) _ w.db.users (λ u e. ground arith)
                free)))
        _
    ∙ bind_ok _ w (ap (λ (r : Result Text). (r, w)) hashed) _
    ∙ bind_ok new_id w refl _
    ∙ create_seeded (w.uuid w.issued) email hash role (record w { issued = suc w.issued }) q free
