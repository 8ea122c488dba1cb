-- ===== src/Repository/Users.antt =====
-- userRepository
use prompt_manager.Base.{none, some, first, if◌then◌else◌}
use prompt_manager.Text.{Text, codes, is_empty, same}
use prompt_manager.Domain.{User}
use prompt_manager.Store.{
  Action, ◌>>=◌, ◌>>◌, pure, query, exec, affected, found, insert_user, update_users,
}

-- a role or a status that is left empty
abbrev pub or_default : Text → Text → Text
or_default value fallback = if is_empty value then fallback else value

unfoldable pub create : User → Action (Unit {0})
create user = do
  exec λ now. insert_user (record user {
    role = or_default user.role (codes "viewer");
    status = or_default user.status (codes "active");
    last_login_at = none;
    created_at = now;
    updated_at = now;
  })
  pure tt

unfoldable pub get_by_id : Text → Action User
get_by_id user_id = do row ← query λ _ db. first (λ u. same u.id user_id) db.users; found row

unfoldable pub get_by_email : Text → Action User
get_by_email email = do row ← query λ _ db. first (λ u. same u.email email) db.users; found row

unfoldable pub update_last_login : Text → Action (Unit {0})
update_last_login user_id = do
  rows ← exec λ now.
      update_users (λ u. same u.id user_id)
        (λ u. record u { last_login_at = some now; updated_at = now })
  affected rows
