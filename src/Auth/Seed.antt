-- ===== src/Auth/Seed.antt =====
-- ensureDefaultAdmin of internal/infra/container.go.
use prompt_manager.Base.{◌||◌, none, if◌then◌else◌}
use prompt_manager.Text.{Text, codes, is_empty, trim_space, to_lower}
use prompt_manager.Domain.{not_found, User, Result, ok, err}
use prompt_manager.Store.{Action, ◌>>=◌, pure, raise, attempt, lift, new_id}
use prompt_manager.Repository.Users
use prompt_manager.Config.Settings.{SeedAdminConfig}
use prompt_manager.Config.Defaults.{text_or}
use prompt_manager.Auth.Library.{Library}

abbrev pub clean : Text → Text
clean t = to_lower (trim_space t)

abbrev pub admin_of : (id email hash role : Text) → User
admin_of id email hash role = record {
  id = id;
  email = email;
  hashed_password = hash;
  role = role;
  status = codes "active";
  last_login_at = none;
  created_at = 0;
  updated_at = 0;
}

unfoldable pub create_admin : Library → (email password role : Text) → Action (Unit {0})
create_admin l email password role = do
  hash ← lift (l.hash_password password)
  id ← new_id
  Users.create (admin_of id email hash (text_or role (codes "admin")))

-- `err != domain.ErrNotFound` compares the error itself
unfoldable pub unless_there :
    Library → (email password role : Text) → Result User → Action (Unit {0})
unless_there l email password role (ok user) = pure tt
unless_there l email password role (err not_found) = create_admin l email password role
unless_there l email password role (err e) = raise e

-- `legacy` holds the environment variables PROMPT_MANAGER_INIT_ADMIN_…
unfoldable pub ensure_default_admin : Library → (seed legacy : SeedAdminConfig) → Action (Unit {0})
ensure_default_admin l seed legacy =
    let email = text_or (clean seed.email) (clean legacy.email) in
    let password = text_or seed.password legacy.password in
    let role = text_or (clean seed.role) (clean legacy.role) in
    if is_empty email || is_empty password
    then pure tt
    else attempt (Users.get_by_email email) >>= unless_there l email password role
