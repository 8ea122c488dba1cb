-- ===== src/Http/Signin.antt =====
-- internal/server/http/auth_handler.go
use prompt_manager.Base.{Bool, not, ◌&&◌, length, leb, if◌then◌else◌}
use prompt_manager.Text.{Text, codes, same, is_empty, trim_space}
use prompt_manager.Domain.{
  Error, invalid_input, invalid_credentials, user_disabled, token_invalid, oauth_disabled,
  oauth_state_invalid, oauth_exchange_failed, oauth_email_missing, oauth_org_unauthorized, message,
  Result, ok, err, User,
}
use prompt_manager.Auth.Library.{AuthService, Library}
use prompt_manager.Auth.Tokens.{Tokens}
use prompt_manager.Auth.State.{github_authorize_url}
use prompt_manager.Auth.Session.{login, refresh}
use prompt_manager.Auth.Callback.{SignedIn, origin_of, handle_github_callback}
use prompt_manager.Http.Response.{Response, respond_ok, respond_error, Handler, answer_with, reply}
use prompt_manager.Http.Prompts.Requests.{should_bind}
use prompt_manager.Http.Prompts.Handlers.{invalid_payload}

pub record LoginRequest : Type 0 where
  pub email : Text
  pub password : Text

-- binding:"required,email,max=255" and "required,min=8,max=128"; `is_email` is the validator's
unfoldable pub login_binding : (Text → Bool) → LoginRequest → Bool
login_binding is_email req =
    not (is_empty req.email)
    && is_email req.email
    && leb (length req.email) 255
    && leb 8 (length req.password)
    && leb (length req.password) 128

-- binding:"required"
unfoldable pub refresh_binding : Text → Bool
refresh_binding refresh_token = not (is_empty refresh_token)

-- AuthHandler.handleError: the error itself is compared, not what it wraps
unfoldable pub signin_error : {A : Type 0} → Error → Response A
signin_error invalid_input = respond_error 400 (codes "INVALID_INPUT") (message invalid_input)
signin_error invalid_credentials = respond_error 401 (codes "INVALID_CREDENTIALS") (codes "邮箱或密码错误")
signin_error user_disabled = respond_error 403 (codes "USER_DISABLED") (message user_disabled)
signin_error token_invalid = respond_error 401 (codes "TOKEN_INVALID") (message token_invalid)
signin_error oauth_disabled = respond_error 400 (codes "OAUTH_DISABLED") (message oauth_disabled)
signin_error oauth_state_invalid =
    respond_error 400 (codes "OAUTH_STATE_INVALID") (message oauth_state_invalid)
signin_error oauth_exchange_failed =
    respond_error 502 (codes "OAUTH_EXCHANGE_FAILED") (message oauth_exchange_failed)
signin_error oauth_email_missing =
    respond_error 400 (codes "OAUTH_EMAIL_MISSING") (message oauth_email_missing)
signin_error oauth_org_unauthorized =
    respond_error 403 (codes "OAUTH_ORG_FORBIDDEN") (message oauth_org_unauthorized)
signin_error e = respond_error 500 (codes "INTERNAL_ERROR") (message e)

unfoldable pub login_handler :
    AuthService → (Text → Bool) → Text → Result LoginRequest → Handler (Tokens × User)
login_handler s is_email refused decoded w =
    elim (should_bind (login_binding is_email) refused decoded) [
      | err e ↦ (invalid_payload e, w)
      | ok req ↦
          answer_with (login s req.email req.password) signin_error (λ r. reply (respond_ok r)) w
    ]

unfoldable pub refresh_handler : AuthService → Text → Result Text → Handler (Tokens × User)
refresh_handler s refused decoded w = elim (should_bind refresh_binding refused decoded) [
  | err e ↦ (invalid_payload e, w)
  | ok token ↦ answer_with (refresh s token) signin_error (λ r. reply (respond_ok r)) w
]

-- the answer is where the client is sent
unfoldable pub github_login_handler :
    AuthService → (redirect_uri response_mode client_origin : Text) → Handler Text
github_login_handler s redirect_uri response_mode client_origin =
    answer_with (github_authorize_url s redirect_uri response_mode client_origin) signin_error
      (λ url. reply (respond_ok url))

-- The answer of the callback: the tokens as JSON, or a page that posts them to an origin.
pub data CallbackAnswer : Type 0 where
  json : Tokens → User → (redirect_uri : Text) → CallbackAnswer
  page : Tokens → User → (redirect_uri target_origin fallback_redirect : Text) → CallbackAnswer

abbrev pub target_origin : Library → (redirect_uri client_origin : Text) → Text
target_origin l redirect_uri client_origin =
    if not (is_empty (trim_space client_origin))
    then client_origin
    else if not (is_empty redirect_uri)
    then origin_of (codes "*") (l.parse_url redirect_uri)
    else codes "*"

-- respondWebMessage, up to the text of the page
abbrev pub respond_web_message : Library → SignedIn → CallbackAnswer
respond_web_message l r =
    page r.tokens r.user r.redirect (target_origin l r.redirect r.origin) (trim_space r.origin)

unfoldable pub callback_answer : Library → SignedIn → CallbackAnswer
callback_answer l r =
    if same r.mode (codes "web_message")
    then respond_web_message l r
    else json r.tokens r.user r.redirect

unfoldable pub github_callback_handler : AuthService → (code state : Text) → Handler CallbackAnswer
github_callback_handler s code state =
    answer_with (handle_github_callback s code state) signin_error
      (λ r. reply (respond_ok (callback_answer s.library r)))
