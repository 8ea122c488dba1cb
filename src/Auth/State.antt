-- ===== src/Auth/State.antt =====
-- The state of an OAuth flow: generateOAuthState, parseOAuthState, normalizeRedirectURI, and
-- GitHubAuthorizeURL.
use prompt_manager.Base.{pos, not, ◌&&◌, List, [], ◌∷◌, ◌++◌, if◌then◌else◌}
use prompt_manager.Text.{Text, codes, same, is_empty, trim_space, to_lower}
use prompt_manager.Domain.{
  oauth_disabled, oauth_state_invalid, other, wrapped, message, Result, ok, err,
}
use prompt_manager.Store.{Action, ◌>>=◌, ◌>>◌, pure, raise_if, map_error, lift, new_id}
use prompt_manager.Auth.Library.{AuthService, Library, Claims, Url, metadata_at}
use prompt_manager.Auth.Tokens.{generate_token, parse_token}

unfoldable pub normalize_response_mode : Text → Text
normalize_response_mode mode =
    if same (trim_space (to_lower mode)) (codes "web_message")
    then codes "web_message"
    else codes "json"

abbrev pub uri_checked : Url → Result Text
uri_checked u =
    if not u.is_abs
    then err (other (codes "invalid redirect_uri: must be absolute URL"))
    else if not (same (to_lower u.scheme) (codes "http"))
        && not (same (to_lower u.scheme) (codes "https"))
    then err (other (codes "invalid redirect_uri: unsupported scheme"))
    else ok u.string

abbrev pub uri_of : Result Url → Result Text
uri_of (err e) = err (other (codes "invalid redirect_uri: " ++ message e))
uri_of (ok u) = uri_checked u

unfoldable pub normalize_redirect_uri : Library → Text → Result Text
normalize_redirect_uri l raw =
    let trimmed = trim_space raw in if is_empty trimmed then ok [] else uri_of (l.parse_url trimmed)

abbrev pub unless_empty : Text → Text → List (Text × Text) → List (Text × Text)
unless_empty key value rest = if is_empty value then rest else (key, value) ∷ rest

abbrev pub state_claims : (provider redirect_uri response_mode client_origin nonce : Text) → Claims
state_claims provider redirect_uri response_mode client_origin nonce = record {
  user_id = [];
  role = [];
  token_type = codes "oauth_state";
  metadata =
      (codes "provider", provider)
      ∷ (codes "response_mode", response_mode)
      ∷ unless_empty (codes "client_origin") (trim_space client_origin)
          (unless_empty (codes "redirect_uri") redirect_uri ((codes "nonce", nonce) ∷ []));
  subject = provider;
  issuer = codes "prompt-manager";
  audience = codes "prompt-manager" ∷ [];
  issued_at = 0;
  expires_at = pos 0;
}

unfoldable pub generate_oauth_state :
    AuthService → (provider redirect_uri response_mode client_origin : Text) → Action Text
generate_oauth_state s provider redirect_uri response_mode client_origin = do
  nonce ← new_id
  generate_token s.library s.cfg.access_token_secret s.cfg.github.state_ttl
      (state_claims provider redirect_uri response_mode client_origin nonce)

pub record OauthState : Type 0 where
  pub provider : Text
  pub redirect : Text
  pub mode : Text
  pub origin : Text

abbrev pub state_of : Claims → OauthState
state_of claims = record {
  provider = trim_space claims.subject;
  redirect = trim_space (metadata_at (codes "redirect_uri") claims.metadata);
  mode = elim claims.metadata [
    | [] ↦ []
    | m ∷ ms ↦ normalize_response_mode (metadata_at (codes "response_mode") (m ∷ ms))
  ];
  origin = trim_space (metadata_at (codes "client_origin") claims.metadata);
}

unfoldable pub parse_oauth_state : AuthService → Text → Action OauthState
parse_oauth_state s state = do
  claims ← parse_token s.library state s.cfg.access_token_secret
  raise_if (not (same claims.token_type (codes "oauth_state"))) oauth_state_invalid
  pure (state_of claims)

abbrev pub join_spaces : List Text → Text
join_spaces [] = []
join_spaces (x ∷ []) = x
join_spaces (x ∷ y ∷ ys) = x ++ b' ' ∷ join_spaces (y ∷ ys)

abbrev pub scope_member : List Text → List (Text × Text) → List (Text × Text)
scope_member [] rest = rest
scope_member (x ∷ xs) rest = (codes "scope", join_spaces (x ∷ xs)) ∷ rest

unfoldable pub github_authorize_url :
    AuthService → (redirect_uri response_mode client_origin : Text) → Action Text
github_authorize_url s redirect_uri response_mode client_origin = do
  raise_if (not s.cfg.github.enabled) oauth_disabled
  final ←
      map_error (λ e. wrapped oauth_state_invalid (message e))
        (lift (normalize_redirect_uri s.library redirect_uri))
  state ←
      generate_oauth_state s (codes "github") final (normalize_response_mode response_mode)
        client_origin
  pure (
      s.github_auth_url
      ++ b'?'
        ∷ s.library.encode (
            (codes "client_id", s.cfg.github.client_id)
            ∷ (codes "redirect_uri", s.cfg.github.redirect_url)
            ∷ scope_member s.cfg.github.scopes
                ((codes "state", state) ∷ (codes "allow_signup", codes "false") ∷ [])))
