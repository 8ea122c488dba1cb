-- ===== src/Config/Validate.antt =====
-- validateConfig, and Load.
use prompt_manager.Base.{
  ℕ, ◌+◌, Bool, not, ◌&&◌, ◌||◌, List, [], ◌∷◌, ◌++◌, any, is_positive, ltb, if◌then◌else◌,
}
use prompt_manager.Text.{Text, codes, same, is_empty, trim_space, to_lower, to_upper, contains}
use prompt_manager.Domain.{other, message, Result, ok, err}
use prompt_manager.Config.Settings.{SecurityHeadersConfig, GitHubOAuthConfig, SeedConfig, Config}
use prompt_manager.Config.Defaults.{apply_defaults, determine_env}

-- The bytes of a code point in UTF-8, and of a text: what `len` counts.
abbrev pub utf8_width : ℕ → ℕ
utf8_width c = if ltb c 128 then 1 else if ltb c 2048 then 2 else if ltb c 65536 then 3 else 4

unfoldable pub byte_length : Text → ℕ
byte_length [] = 0
byte_length (c ∷ s) = utf8_width c + byte_length s

abbrev pub Checked : Type 0
Checked = Result (Unit {0})

-- if c { return err }, and else the rest
abbrev pub refuse_if : Bool → Text → Checked → Checked
refuse_if c text rest = if c then err (other text) else rest

infixr 5 ◌and_then◌
abbrev pub ◌and_then◌ : Checked → Checked → Checked
(ok _) and_then rest = rest
(err e) and_then rest = err e

unfoldable pub validate_secret : Text → Text → Checked
validate_secret field secret =
    let clean = trim_space secret in
    refuse_if (ltb (byte_length clean) 32)
      (codes "config " ++ field ++ codes " must be at least 32 characters")
      (refuse_if (contains (to_lower clean) (codes "change-me"))
        (codes "config " ++ field ++ codes " must not use default placeholder") (ok tt))

abbrev pub has_blank : List Text → Bool
has_blank texts = any (λ t. is_empty (trim_space t)) texts

abbrev pub uri_parsed : Result (Unit {0}) → Checked → Checked
uri_parsed (ok _) rest = rest
uri_parsed (err e) rest =
    err (other (codes "config auth.github.redirectUrl invalid: " ++ message e))

-- `parse_uri` is url.ParseRequestURI
unfoldable pub validate_github_oauth_config :
    (Text → Result (Unit {0})) → GitHubOAuthConfig → Checked
validate_github_oauth_config parse_uri oauth =
    if not oauth.enabled
    then ok tt
    else refuse_if (is_empty (trim_space oauth.client_id))
        (codes "config auth.github.clientId is required when GitHub OAuth is enabled")
        (refuse_if (is_empty (trim_space oauth.client_secret))
          (codes "config auth.github.clientSecret is required when GitHub OAuth is enabled")
          (refuse_if (is_empty (trim_space oauth.redirect_url))
            (codes "config auth.github.redirectUrl is required when GitHub OAuth is enabled")
            (uri_parsed (parse_uri (trim_space oauth.redirect_url)) (
              refuse_if (has_blank oauth.scopes)
                (codes "config auth.github.scopes contains empty entry")
                (refuse_if (has_blank oauth.allowed_orgs)
                  (codes "config auth.github.allowedOrgs contains empty entry")
                  (refuse_if (not (is_positive oauth.state_ttl))
                    (codes "config auth.github.stateTTL must be positive") (ok tt)))))))

unfoldable pub validate_origins : List Text → Text → Checked
validate_origins [] env = ok tt
validate_origins (origin ∷ origins) env =
    let clean = trim_space origin in
    let rest = validate_origins origins env in
    refuse_if (is_empty clean)
      (codes "config server.cors.allowOrigins must not contain empty entries")
      (refuse_if (same env (codes "production") && same clean (codes "*"))
        (codes "config server.cors.allowOrigins must not use wildcard '*' in production") rest)

unfoldable pub validate_security_headers : SecurityHeadersConfig → Checked
validate_security_headers cfg =
    let frame = trim_space (to_upper cfg.frame_options) in
    refuse_if
      (not (is_empty frame)
        && not (same frame (codes "DENY"))
        && not (same frame (codes "SAMEORIGIN")))
      (codes "config server.securityHeaders.frameOptions must be DENY or SAMEORIGIN when set")
      (ok tt)

unfoldable pub validate_seed_config : SeedConfig → Checked
validate_seed_config seed =
    let email = trim_space seed.admin.email in
    if not (is_empty email) || not (is_empty (trim_space seed.admin.password))
    then refuse_if (is_empty email)
        (codes "config seed.admin.email must be set when seed.admin.password provided")
        (refuse_if (is_empty seed.admin.password)
          (codes "config seed.admin.password must be set when seed.admin.email provided") (ok tt))
    else ok tt

unfoldable pub validate_config : (Text → Result (Unit {0})) → Config → Checked
validate_config parse_uri cfg =
    validate_secret (codes "auth.accessTokenSecret") cfg.auth.access_token_secret
    and_then validate_secret (codes "auth.refreshTokenSecret") cfg.auth.refresh_token_secret
    and_then validate_secret (codes "auth.apiKeyHashSecret") cfg.auth.api_key_hash_secret
    and_then validate_origins cfg.server.cors.allow_origins cfg.app.env
    and_then validate_security_headers cfg.server.security_headers
    and_then validate_github_oauth_config parse_uri cfg.auth.github
    and_then validate_seed_config cfg.seed

abbrev pub checked : Config → Checked → Result Config
checked cfg (ok _) = ok cfg
checked cfg (err e) = err e

-- Load, from what viper has read and merged
unfoldable pub load :
    (Text → Result (Unit {0})) → (env from_env : Text) → Result Config → Result Config
load parse_uri env from_env (err e) = err e
load parse_uri env from_env (ok decoded) =
    let cfg = apply_defaults decoded (determine_env env from_env) in
    checked cfg (validate_config parse_uri cfg)
