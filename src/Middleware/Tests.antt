-- ===== src/Middleware/Tests.antt =====
-- The guard and the origins, at small inputs.
use prompt_manager.Base.{◌≡◌, refl, true, [], ◌∷◌, if◌then◌else◌}
use prompt_manager.Text.{codes, same, trim_space, to_lower, to_upper, contains}
use prompt_manager.Domain.{other, ok, err}
use prompt_manager.Auth.Library.{Library}
use prompt_manager.Store.{clock}
use prompt_manager.Auth.Tokens.{claims_of, parse_token}
use prompt_manager.Auth.Tests.{library, ann, home}
use prompt_manager.Config.Settings.{Config}
use prompt_manager.Config.Defaults.{apply_defaults, determine_env}
use prompt_manager.Config.Validate.{
  byte_length, validate_secret, validate_origins, validate_security_headers,
  validate_github_oauth_config, validate_seed_config, validate_config, load,
}
use prompt_manager.Config.Tests.{read, parse_uri}
use prompt_manager.Http.Response.{answer_with}
use prompt_manager.Middleware.Guard.{access_claims, split_space, guarded, auth_guard}
use prompt_manager.Middleware.Cors.{classify_from, classify_allowed_origins}
use prompt_manager.Middleware.Laws.{IsGuarded, auth_guard-IsGuarded}
use prompt_manager.Prompt.Run.{service}

-- the library, for access tokens
abbrev access : Library
access = record library {
  verify = λ secret now token.
      if same token (codes "ok")
      then ok (claims_of (codes "access") ann)
      else err (other (codes "bad token"));
}

auth_guard-IsGuarded_example :
    IsGuarded access
      (codes "access")
      (codes "bearer ok")
      5
      (record { user_id = codes "7"; user_email = codes "ann@x.org"; user_role = codes "viewer" })
unfolding service clock parse_token access_claims split_space guarded auth_guard answer_with
auth_guard-IsGuarded_example =
    auth_guard-IsGuarded access (codes "access") (codes "bearer ok") home _ refl

abbrev live : Config
live = record read {
  server = record read.server {
    cors = record read.server.cors { allow_origins = codes "**" ∷ [] };
  };
}

abbrev loaded_live : Config
loaded_live = apply_defaults live (codes "production")

-- "**" is no wildcard to the validation, and so it loads in production as a pattern.
double_star : load parse_uri (codes "production") [] (ok live) ≡ ok loaded_live
unfolding load determine_env validate_config validate_secret validate_origins
    validate_security_headers validate_github_oauth_config validate_seed_config byte_length contains
    trim_space to_lower to_upper same apply_defaults
double_star = refl

double_star_pattern :
    (classify_allowed_origins (λ t. true) loaded_live.server.cors.allow_origins).patterns
    ≡ codes "**" ∷ []
unfolding classify_allowed_origins classify_from apply_defaults contains trim_space same to_lower
double_star_pattern = refl
