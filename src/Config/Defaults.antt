-- ===== src/Config/Defaults.antt =====
-- determineEnv and applyDefaults.
use prompt_manager.Base.{
  ℕ, zero, suc, ◌*◌, ℤ, pos, negsuc, Bool, true, false, List, [], ◌∷◌, is_positive, if◌then◌else◌,
}
use prompt_manager.Text.{Text, codes, is_empty}
use prompt_manager.Config.Settings.{
  SecurityHeadersConfig, ServerConfig, DatabaseConfig, GitHubOAuthConfig, Config,
}

abbrev pub text_or : Text → Text → Text
text_or value default = if is_empty value then default else value

abbrev pub is_zero : ℤ → Bool
is_zero (pos zero) = true
is_zero (pos (suc _)) = false
is_zero (negsuc _) = false

-- if value == 0, and if value <= 0
abbrev pub number_or : ℤ → ℤ → ℤ
number_or value default = if is_zero value then default else value

abbrev pub positive_or : ℤ → ℤ → ℤ
positive_or value default = if is_positive value then value else default

abbrev pub list_or : List Text → List Text → List Text
list_or [] default = default
list_or (x ∷ xs) default = x ∷ xs

-- nanoseconds
abbrev pub seconds : ℕ → ℤ
seconds n = pos (n * 1000000000)

-- `from_env` is the environment variable
unfoldable pub determine_env : Text → Text → Text
determine_env env from_env = text_or env (text_or from_env (codes "development"))

abbrev pub default_headers : SecurityHeadersConfig → SecurityHeadersConfig
default_headers h = record h {
  frame_options = text_or h.frame_options (codes "DENY");
  content_type_nosniff = true;
  referrer_policy = text_or h.referrer_policy (codes "no-referrer");
  xss_protection = text_or h.xss_protection (codes "0");
  cross_origin_opener_policy = text_or h.cross_origin_opener_policy (codes "same-origin");
  cross_origin_resource_policy = text_or h.cross_origin_resource_policy (codes "same-site");
}

abbrev pub default_server : ServerConfig → ServerConfig
default_server s = record s {
  host = text_or s.host (codes "0.0.0.0");
  port = number_or s.port (pos 8080);
  read_timeout = number_or s.read_timeout (seconds 10);
  write_timeout = number_or s.write_timeout (seconds 10);
  shutdown_timeout = number_or s.shutdown_timeout (seconds 10);
  max_request_body = positive_or s.max_request_body (pos 3145728);
  cors = record s.cors { allow_origins = list_or s.cors.allow_origins (codes "*" ∷ []) };
  security_headers = default_headers s.security_headers;
}

abbrev pub default_database : DatabaseConfig → DatabaseConfig
default_database d = record {
  driver = text_or d.driver (codes "sqlite");
  dsn = text_or d.dsn (codes "file:./data/dev.db?cache=shared&_fk=1");
  max_open = number_or d.max_open (pos 10);
  max_idle = number_or d.max_idle (pos 5);
  conn_max_lifetime = number_or d.conn_max_lifetime (seconds 300);
}

abbrev pub default_github : GitHubOAuthConfig → GitHubOAuthConfig
default_github g = record g {
  state_ttl = positive_or g.state_ttl (seconds 300);
  scopes = list_or g.scopes (codes "read:user" ∷ codes "user:email" ∷ []);
  redirect_url = text_or g.redirect_url (codes "http://localhost:8080/api/v1/auth/github/callback");
}

unfoldable pub apply_defaults : Config → Text → Config
apply_defaults cfg env = record cfg {
  app = record {
    name = text_or cfg.app.name (codes "prompt-manager");
    env = text_or cfg.app.env env;
  };
  server = default_server cfg.server;
  database = default_database cfg.database;
  redis = record cfg.redis { pool_size = number_or cfg.redis.pool_size (pos 10) };
  auth = record cfg.auth { github = default_github cfg.auth.github };
  logging = record { level = text_or cfg.logging.level (codes "info") };
}
