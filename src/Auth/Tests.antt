-- ===== src/Auth/Tests.antt =====
-- A sign-in service with a small library, and the theorems at it.
use prompt_manager.Base.{◌≡◌, refl, pos, true, false, none, List, [], ◌∷◌, first, if◌then◌else◌}
use prompt_manager.Text.{Text, codes, same, trim_space}
use prompt_manager.Domain.{other, token_invalid, oauth_email_missing, Result, ok, err, User}
use prompt_manager.Store.{clock, World}
use prompt_manager.Config.Settings.{AuthConfig}
use prompt_manager.Auth.Service.{new_service, with_github_endpoints, with_http_client}
use prompt_manager.Auth.Library.{AuthService, Library, Claims, GitHub, replied, decoded, EmailEntry}
use prompt_manager.Auth.Tokens.{Tokens, generate_token, parse_token, claims_of, issue_tokens}
use prompt_manager.Auth.State.{
  state_claims, generate_oauth_state, parse_oauth_state, normalize_response_mode,
  normalize_redirect_uri,
}
use prompt_manager.Auth.GitHub.{
  exchange_github_code, fetch_github_user, ensure_github_org_access, pick_email, filled_names,
  fetch_github_orgs, orgs_allowed, counts,
}
use prompt_manager.Auth.Session.{normalize_email, login, refresh, unless_missing, record_login}
use prompt_manager.Auth.Callback.{
  SignedIn, created_or_existing, create_user, found_or_create, find_or_create_user_by_email,
  link_user, user_of, email_of, final_redirect, ask_github, local_user, github_state,
  handle_github_callback,
}
use prompt_manager.Auth.Laws.Entry.{IsEntry, IsRefresh, login-IsEntry, refresh-IsRefresh}
use prompt_manager.Auth.Laws.State.{timed, in_seconds, parse-generate_oauth_state}
use prompt_manager.Auth.Laws.Callback.{IsAdmitted, handle_github_callback-IsAdmitted}
use prompt_manager.Auth.Laws.Emails.{is_main, address_or, pick_email_lem}
use prompt_manager.Prompt.Run.{service}
use prompt_manager.Prompt.Tests.{start}
use prompt_manager.Store.{insert_user, insert_identity, update_users}
use prompt_manager.Repository.Users
use prompt_manager.Repository.Identities
use prompt_manager.Text.{to_lower}
use prompt_manager.Auth.Laws.Success.{seen_world, issued_tokens, login_ok}
use prompt_manager.Config.Settings.{SeedAdminConfig}
use prompt_manager.Config.Defaults.{seconds}
use prompt_manager.Auth.Seed.{ensure_default_admin}
use prompt_manager.Auth.Laws.Seed.{seeded, ensure_default_admin_new}

abbrev pub cfg : AuthConfig
cfg = record {
  access_token_secret = codes "access";
  refresh_token_secret = codes "refresh";
  access_token_ttl = pos 0;
  refresh_token_ttl = pos 0;
  api_key_hash_secret = codes "key";
  github = record {
    enabled = true;
    client_id = codes "id";
    client_secret = codes "s";
    redirect_url = codes "http://x";
    scopes = [];
    allowed_orgs = codes "Team" ∷ [];
    state_ttl = seconds 60;
  };
}

abbrev pub ann : User
ann = record {
  id = codes "7";
  email = codes "ann@x.org";
  hashed_password = codes "#pw";
  role = codes "viewer";
  status = codes "active";
  last_login_at = none;
  created_at = 0;
  updated_at = 0;
}

abbrev pub state : Claims
state =
    in_seconds
      (timed (state_claims (codes "github") [] (codes "json") [] (codes "1")) 5 (seconds 60))

-- A token is the name of its kind.
abbrev pub verified : Text → Result Claims
verified token =
    if same token (codes "oauth_state")
    then ok state
    else if same token (codes "refresh")
    then ok (claims_of (codes "refresh") ann)
    else err (other (codes "bad token"))

abbrev pub hub : GitHub
hub = record {
  token = λ url form.
      replied 200 (codes "OK")
        (decoded (record { access_token = codes "gh"; error = []; error_description = [] }));
  user = λ url t. replied 200 (codes "OK") (
      decoded (record {
        id = codes "42";
        login = codes "ann";
        email = codes "Ann@x.org";
        avatar_url = [];
      }));
  emails = λ url t. replied 200 (codes "OK") (decoded []);
  orgs = λ url t. replied 200 (codes "OK") (decoded (codes "team" ∷ []));
}

abbrev pub library : Library
library = record {
  sign = λ secret claims. ok claims.token_type;
  verify = λ secret now token. verified token;
  hash_password = λ plain. ok (b'#' ∷ plain);
  verify_password = λ hash plain. same hash (b'#' ∷ plain);
  parse_url =
      λ u. ok (record { scheme = codes "http"; host = codes "x"; is_abs = true; string = u });
  encode = λ query. [];
  github = hub;
}

abbrev pub s : AuthService
s = new_service cfg library []

-- An endpoint that is blank, or a client that is nil, leaves the one that is there.
options :
    new_service cfg library (with_github_endpoints [] (codes "t") [] ∷ with_http_client none ∷ [])
    ≡ record s { github_token_url = codes "t" }
options = refl

abbrev pub home : World
home = record start { db = record start.db { users = ann ∷ [] } }

abbrev given : {A : Type 0} → A → Result A → A
given default (ok a) = a
given default (err e) = default

abbrev no_tokens : Tokens
no_tokens = record {
  access_token = [];
  access_token_expires_at = pos 0;
  refresh_token = [];
  refresh_token_expires_at = pos 0;
}

abbrev entered : Tokens × User
entered = given (no_tokens, ann) (login s (codes " ANN@x.org") (codes "pw") home).0

login-IsEntry_example : IsEntry s (codes " ANN@x.org") (codes "pw") entered.1
unfolding service normalize_email login unless_missing record_login issue_tokens clock
    generate_token update_users Users.get_by_email Users.update_last_login
login-IsEntry_example =
    login-IsEntry s (codes " ANN@x.org") (codes "pw") home entered.0 entered.1 refl

abbrev refreshed : Tokens × User
refreshed = given (no_tokens, ann) (refresh s (codes "refresh") home).0

refresh-IsRefresh_example : IsRefresh s (codes "refresh") refreshed.1
unfolding service refresh issue_tokens clock generate_token parse_token Users.get_by_email
refresh-IsRefresh_example = refresh-IsRefresh s (codes "refresh") home refreshed.0 refreshed.1 refl

-- An access token is no refresh token.
other_kind : (refresh s (codes "oauth_state") home).0 ≡ err token_invalid
unfolding service refresh issue_tokens clock generate_token parse_token Users.get_by_email
other_kind = refl

abbrev signed_in : SignedIn
signed_in =
    given (record { tokens = no_tokens; user = ann; redirect = []; mode = []; origin = [] })
      (handle_github_callback s (codes "code") (codes "oauth_state") home).0

handle_github_callback-IsAdmitted_example :
    IsAdmitted s (trim_space (codes "code")) (trim_space (codes "oauth_state")) signed_in.user
unfolding service normalize_email unless_missing record_login issue_tokens clock generate_token
    parse_token update_users insert_user insert_identity Users.get_by_email Users.get_by_id
    Users.create Users.update_last_login Identities.create
    Identities.get_by_provider_and_external_id parse_oauth_state normalize_response_mode
    normalize_redirect_uri exchange_github_code fetch_github_user fetch_github_orgs filled_names
    orgs_allowed ensure_github_org_access created_or_existing create_user found_or_create
    find_or_create_user_by_email link_user user_of email_of final_redirect ask_github local_user
    github_state handle_github_callback
handle_github_callback-IsAdmitted_example =
    handle_github_callback-IsAdmitted s (codes "code") (codes "oauth_state") home signed_in refl

abbrev issued : World
issued = (generate_oauth_state s (codes "github") [] (codes "json") [] home).1

parse-generate_oauth_state_example : parse_oauth_state s (codes "oauth_state") issued ≡ (
  ok (record {
    provider = trim_space (codes "github");
    redirect = trim_space [];
    mode = normalize_response_mode (codes "json");
    origin = trim_space [];
  }),
  issued,
)
unfolding service clock generate_token generate_oauth_state
parse-generate_oauth_state_example =
    parse-generate_oauth_state s (codes "github") [] (codes "json") [] home issued
      (codes "oauth_state") (record { reads_back = λ now good. refl; filled = refl }) refl refl

abbrev entries : List EmailEntry
entries =
    record { email = codes "old@x.org"; primary = true; verified = false }
    ∷ record { email = codes "ann@x.org"; primary = false; verified = true }
    ∷ []

pick_email_lem_example :
    pick_email [] entries
    ≡ address_or
        (first is_main entries)
        (address_or (first counts entries) (err oauth_email_missing))
pick_email_lem_example = pick_email_lem entries

login_ok_example :
    login s (codes " ANN@x.org") (codes "pw") home
    ≡ (ok (issued_tokens s 5 (codes "access") (codes "refresh"), ann), seen_world ann home)
unfolding normalize_email trim_space to_lower same
login_ok_example =
    login_ok s (codes " ANN@x.org") (codes "pw") home ann (codes "access") (codes "refresh") refl
      refl refl refl refl
      (record {
        access_secret = refl;
        refresh_secret = refl;
        access_signed = refl;
        refresh_signed = refl;
      })

abbrev given_seed : SeedAdminConfig
given_seed = record { email = codes " ANN@x.org"; password = codes "pw"; role = [] }

abbrev pub no_seed : SeedAdminConfig
no_seed = record { email = []; password = []; role = [] }

ensure_default_admin_new_example : ensure_default_admin library given_seed no_seed start ≡ (
  ok tt,
  record start {
    issued = 1;
    db = record start.db {
      users = seeded (codes "1") (codes "ann@x.org") (codes "#pw") (codes "") 5 ∷ [];
    };
  },
)
unfolding trim_space to_lower same
ensure_default_admin_new_example =
    ensure_default_admin_new library given_seed no_seed start (codes "#pw") refl refl refl refl
