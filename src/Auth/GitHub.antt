-- ===== src/Auth/GitHub.antt =====
-- The requests to GitHub, and what their replies are worth.
use prompt_manager.Base.{
  ℕ, Bool, true, false, not, ◌&&◌, ◌||◌, List, [], ◌∷◌, ◌++◌, any, leb, if◌then◌else◌,
}
use prompt_manager.Text.{Text, codes, same, is_empty, trim_space, to_lower}
use prompt_manager.Domain.{
  oauth_exchange_failed, oauth_email_missing, oauth_org_unauthorized, wrapped, message, Result, ok,
  err,
}
use prompt_manager.Auth.Library.{
  AuthService, Reply, not_made, not_sent, replied, unreadable, undecodable, decoded, TokenPayload,
  UserPayload, EmailEntry,
}

-- fmt.Errorf("%w: …", ErrOAuthExchangeFailed)
abbrev pub failed : {A : Type 0} → Text → Result A
failed detail = err (wrapped oauth_exchange_failed detail)

abbrev pub reason_of : Text → Text → Text
reason_of description status =
    if is_empty (trim_space description) then status else trim_space description

abbrev pub token_of : ℕ → Text → TokenPayload → Result Text
token_of code status payload =
    if leb 400 code || not (is_empty payload.error)
    then failed (reason_of payload.error_description status)
    else if is_empty payload.access_token
    then failed (codes "empty access token")
    else ok payload.access_token

abbrev pub token_reply : Reply TokenPayload → Result Text
token_reply (not_made e) = err e
token_reply (not_sent e) = failed (message e)
token_reply (replied status_code status unreadable) = failed (codes "read body")
token_reply (replied status_code status undecodable) = failed (codes "decode response")
token_reply (replied status_code status (decoded payload)) = token_of status_code status payload

-- the form of the exchange
abbrev pub exchange_form : AuthService → (code state : Text) → List (Text × Text)
exchange_form s code state =
    (codes "client_id", s.cfg.github.client_id)
    ∷ (codes "client_secret", s.cfg.github.client_secret)
    ∷ (codes "code", code)
    ∷ (codes "redirect_uri", s.cfg.github.redirect_url)
    ∷ (codes "state", state)
    ∷ []

abbrev pub exchange_reply : AuthService → (code state : Text) → Reply TokenPayload
exchange_reply s code state =
    s.library.github.token s.github_token_url (s.library.encode (exchange_form s code state))

unfoldable pub exchange_github_code : AuthService → (code state : Text) → Result Text
exchange_github_code s code state = token_reply (exchange_reply s code state)

-- the reply to a request with a token, of a status below 400; the texts are those of the caller
abbrev pub fetched : {A : Type 0} → (refused undecoded : Text) → Reply A → Result A
fetched refused undecoded (not_made e) = err e
fetched refused undecoded (not_sent e) = failed (message e)
fetched refused undecoded (replied code status unreadable) =
    if leb 400 code then failed refused else failed undecoded
fetched refused undecoded (replied code status undecodable) =
    if leb 400 code then failed refused else failed undecoded
fetched refused undecoded (replied code status (decoded a)) =
    if leb 400 code then failed refused else ok a

-- doGitHubRequest
abbrev pub with_token : {A : Type 0} → Text → Result A → Result A
with_token token rest = if is_empty token then failed (codes "missing access token") else rest

pub record GitHubUserInfo : Type 0 where
  pub id : Text
  pub login : Text
  pub email : Text
  pub avatar_url : Text

abbrev pub user_info : UserPayload → Result GitHubUserInfo
user_info payload =
    let id = trim_space payload.id in
    if is_empty id || same id (codes "0")
    then failed (codes "invalid user id")
    else ok (record {
      id = id;
      login = trim_space payload.login;
      email = trim_space payload.email;
      avatar_url = trim_space payload.avatar_url;
    })

infixl 5 ◌andthen◌
abbrev pub ◌andthen◌ : {A B : Type 0} → Result A → (A → Result B) → Result B
(ok a) andthen k = k a
(err e) andthen k = err e

unfoldable pub fetch_github_user : AuthService → Text → Result GitHubUserInfo
fetch_github_user s token = with_token token (
    fetched (codes "fetch user profile") (codes "decode user profile")
      (s.library.github.user (s.github_api_base_url ++ codes "/user") token)
    andthen user_info)

-- `if candidate == "" { candidate = email }`
abbrev pub candidate_or : Text → Text → Text
candidate_or candidate email = if is_empty candidate then email else candidate

abbrev pub counts : EmailEntry → Bool
counts entry = entry.verified && not (is_empty (trim_space entry.email))

-- The loop over the entries, with the candidate so far: the first verified primary address, and
-- else the first verified one.
unfoldable pub pick_email : Text → List EmailEntry → Result Text
pick_email candidate [] = if is_empty candidate then err oauth_email_missing else ok candidate
pick_email candidate (entry ∷ entries) =
    let skipped = pick_email candidate entries in
    let kept = pick_email (candidate_or candidate (trim_space entry.email)) entries in
    if not (counts entry)
    then skipped
    else if entry.primary
    then ok (trim_space entry.email)
    else kept

unfoldable pub fetch_primary_github_email : AuthService → Text → Result Text
fetch_primary_github_email s token = with_token token (
    fetched (codes "fetch emails") (codes "decode emails")
      (s.library.github.emails (s.github_api_base_url ++ codes "/user/emails") token)
    andthen pick_email [])

unfoldable pub filled_names : List Text → List Text
filled_names [] = []
filled_names (login ∷ logins) =
    let names = filled_names logins in
    if is_empty (trim_space login) then names else trim_space login ∷ names

unfoldable pub fetch_github_orgs : AuthService → Text → Result (List Text)
fetch_github_orgs s token = with_token token (
    fetched (codes "fetch orgs") (codes "decode orgs")
      (s.library.github.orgs (s.github_api_base_url ++ codes "/user/orgs") token)
    andthen λ logins. ok (filled_names logins))

-- the keys of the map `allowed`
abbrev pub is_allowed : List Text → Text → Bool
is_allowed allowed_orgs org =
    any (λ o. let name = to_lower (trim_space o) in not (is_empty name) && same name (to_lower org))
      allowed_orgs

unfoldable pub orgs_allowed : List Text → List Text → Result (Unit {0})
orgs_allowed allowed_orgs orgs =
    if any (is_allowed allowed_orgs) orgs then ok tt else err oauth_org_unauthorized

abbrev pub is_none_listed : List Text → Bool
is_none_listed [] = true
is_none_listed (x ∷ xs) = false

-- An empty list of the user's organizations is refused like one without an allowed name.
unfoldable pub ensure_github_org_access : AuthService → Text → Result (Unit {0})
ensure_github_org_access s token =
    if is_none_listed s.cfg.github.allowed_orgs
    then ok tt
    else fetch_github_orgs s token andthen λ orgs.
        if is_none_listed orgs
        then err oauth_org_unauthorized
        else orgs_allowed s.cfg.github.allowed_orgs orgs
