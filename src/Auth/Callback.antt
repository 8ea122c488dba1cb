-- ===== src/Auth/Callback.antt =====
-- HandleGitHubCallback and findOrCreateUserByEmail.
use prompt_manager.Base.{not, ◌&&◌, ◌||◌, Option, none, some, [], ◌++◌, if◌then◌else◌}
use prompt_manager.Text.{Text, codes, same, is_empty, trim_space}
use prompt_manager.Domain.{
  oauth_disabled, oauth_state_invalid, oauth_exchange_failed, oauth_email_missing, user_disabled,
  wrapped, message, is_not_found, Result, ok, err, User, UserIdentity,
}
use prompt_manager.Store.{
  Action, ◌>>=◌, ◌>>◌, pure, raise, raise_if, map_error, attempt, lift, new_id,
}
use prompt_manager.Repository.Users
use prompt_manager.Repository.Identities
use prompt_manager.Auth.Library.{AuthService, Library, Url}
use prompt_manager.Auth.Tokens.{Tokens, issue_tokens}
use prompt_manager.Auth.State.{OauthState, parse_oauth_state, normalize_redirect_uri}
use prompt_manager.Auth.GitHub.{
  GitHubUserInfo, exchange_github_code, fetch_github_user, fetch_primary_github_email,
  ensure_github_org_access,
}
use prompt_manager.Auth.Session.{normalize_email, record_login}

abbrev pub new_user : (id email hash : Text) → User
new_user id email hash = record {
  id = id;
  email = email;
  hashed_password = hash;
  role = codes "admin";
  status = codes "active";
  last_login_at = none;
  created_at = 0;
  updated_at = 0;
}

-- after Create: the user that is there, whether or not it was this call that put it there
unfoldable pub created_or_existing : Text → Result (Unit {0}) → Action User
created_or_existing email (ok _) = Users.get_by_email email
created_or_existing email (err e) = map_error (λ lookup_error. e) (Users.get_by_email email)

unfoldable pub create_user : AuthService → Text → Action User
create_user s email = do
  first_half ← new_id
  second_half ← new_id
  hash ← lift (s.library.hash_password (first_half ++ second_half))
  id ← new_id
  created ← attempt (Users.create (new_user id email hash))
  created_or_existing email created

unfoldable pub found_or_create : AuthService → Text → Result User → Action User
found_or_create s email (ok user) = pure user
found_or_create s email (err e) = if is_not_found e then create_user s email else raise e

unfoldable pub find_or_create_user_by_email : AuthService → Text → Action User
find_or_create_user_by_email s email = do
  let normalized = normalize_email email
  raise_if (is_empty normalized) oauth_email_missing
  found ← attempt (Users.get_by_email normalized)
  found_or_create s normalized found

abbrev pub some_text : Text → Option Text
some_text t = if is_empty t then none else some t

abbrev pub new_identity : (id user_id : Text) → GitHubUserInfo → UserIdentity
new_identity id user_id gh = record {
  id = id;
  user_id = user_id;
  provider = codes "github";
  provider_user_id = gh.id;
  provider_login = some_text (trim_space gh.login);
  avatar_url = some_text (trim_space gh.avatar_url);
  created_at = 0;
  updated_at = 0;
}

unfoldable pub link_user : AuthService → Text → GitHubUserInfo → Action User
link_user s email gh = do
  user ← find_or_create_user_by_email s email
  id ← new_id
  Identities.create (new_identity id user.id gh)
  pure user

-- the user of the identity, or a new link
unfoldable pub user_of : AuthService → Text → GitHubUserInfo → Result UserIdentity → Action User
user_of s email gh (ok identity) = Users.get_by_id identity.user_id
user_of s email gh (err e) = if is_not_found e then link_user s email gh else raise e

pub record SignedIn : Type 0 where
  pub tokens : Tokens
  pub user : User
  pub redirect : Text
  pub mode : Text
  pub origin : Text

abbrev pub origin_of : Text → Result Url → Text
origin_of given (err e) = given
origin_of given (ok u) =
    if not (is_empty u.scheme) && not (is_empty u.host)
    then u.scheme ++ codes "://" ++ u.host
    else given

-- the origin of the state, or that of the redirect
abbrev pub client_origin : Library → Text → Text → Text
client_origin l given redirect =
    if is_empty given && not (is_empty redirect)
    then origin_of given (l.parse_url redirect)
    else given

unfoldable pub email_of : AuthService → Text → GitHubUserInfo → Action Text
email_of s token gh =
    let email = trim_space gh.email in
    if is_empty email then lift (fetch_primary_github_email s token) else pure email

unfoldable pub final_redirect : Library → Text → Action Text
final_redirect l redirect =
    if is_empty redirect
    then pure []
    else map_error (λ e. wrapped oauth_state_invalid (message e))
        (lift (normalize_redirect_uri l redirect))

-- what GitHub says of the code: the address and the user, who belongs to an allowed organization
unfoldable pub ask_github : AuthService → (code state : Text) → Action (Text × GitHubUserInfo)
ask_github s code state = do
  token ← lift (exchange_github_code s code state)
  gh ← lift (fetch_github_user s token)
  email ← email_of s token gh
  lift (ensure_github_org_access s token)
  pure (email, gh)

-- the user of the identity, who is active
unfoldable pub local_user : AuthService → Text → GitHubUserInfo → Action User
local_user s email gh = do
  raise_if (is_empty gh.id) oauth_exchange_failed
  identity ← attempt (Identities.get_by_provider_and_external_id (codes "github") gh.id)
  user ← user_of s email gh identity
  raise_if (not (same user.status (codes "active"))) user_disabled
  record_login user
  pure user

unfoldable pub github_state : AuthService → Text → Action OauthState
github_state s state = do
  st ← map_error (λ e. oauth_state_invalid) (parse_oauth_state s state)
  raise_if (not (same st.provider (codes "github"))) oauth_state_invalid
  pure st

unfoldable pub handle_github_callback : AuthService → (code state : Text) → Action SignedIn
handle_github_callback s raw_code raw_state = do
  raise_if (not s.cfg.github.enabled) oauth_disabled
  let code = trim_space raw_code
  let state = trim_space raw_state
  raise_if (is_empty code || is_empty state) oauth_state_invalid
  st ← github_state s state
  redirect ← final_redirect s.library st.redirect
  asked ← ask_github s code state
  user ← local_user s asked.0 asked.1
  tokens ← issue_tokens s user
  pure (record {
    tokens = tokens;
    user = user;
    redirect = redirect;
    mode = st.mode;
    origin = client_origin s.library st.origin redirect;
  })
