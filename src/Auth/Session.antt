-- ===== src/Auth/Session.antt =====
-- Login and Refresh.
use prompt_manager.Base.{not, ◌||◌, if◌then◌else◌}
use prompt_manager.Text.{Text, codes, same, is_empty, trim_space, to_lower}
use prompt_manager.Domain.{
  invalid_credentials, user_disabled, token_invalid, is_not_found, Result, ok, err, User,
}
use prompt_manager.Store.{
  Action, ◌>>=◌, ◌>>◌, pure, raise, raise_if, map_error, missing_as, attempt,
}
use prompt_manager.Repository.Users
use prompt_manager.Auth.Library.{AuthService}
use prompt_manager.Auth.Tokens.{Tokens, issue_tokens, parse_token}

unfoldable pub normalize_email : Text → Text
normalize_email email = trim_space (to_lower email)

-- `if err != nil && !errors.Is(err, domain.ErrNotFound) { return err }`
unfoldable pub unless_missing : Result (Unit {0}) → Action (Unit {0})
unless_missing (ok _) = pure tt
unless_missing (err e) = if is_not_found e then pure tt else raise e

unfoldable pub record_login : User → Action (Unit {0})
record_login user = attempt (Users.update_last_login user.id) >>= unless_missing

unfoldable pub login : AuthService → (email password : Text) → Action (Tokens × User)
login s raw_email password = do
  let email = normalize_email raw_email
  raise_if (is_empty email || is_empty password) invalid_credentials
  user ← map_error (missing_as invalid_credentials) (Users.get_by_email email)
  raise_if (not (same user.status (codes "active"))) user_disabled
  raise_if (not (s.library.verify_password user.hashed_password password)) invalid_credentials
  record_login user
  tokens ← issue_tokens s user
  pure (tokens, user)

-- The status of the user is not looked at.
unfoldable pub refresh : AuthService → Text → Action (Tokens × User)
refresh s refresh_token = do
  claims ←
      map_error (λ e. token_invalid)
        (parse_token s.library refresh_token s.cfg.refresh_token_secret)
  raise_if (not (same claims.token_type (codes "refresh"))) token_invalid
  user ← map_error (missing_as token_invalid) (Users.get_by_email claims.subject)
  tokens ← issue_tokens s user
  pure (tokens, user)
