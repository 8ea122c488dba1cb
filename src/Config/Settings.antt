-- ===== src/Config/Settings.antt =====
-- The records of the configuration. A time.Duration is its number of nanoseconds.
use prompt_manager.Base.{ℤ, Bool, List}
use prompt_manager.Text.{Text}

pub record AppConfig : Type 0 where
  pub name : Text
  pub env : Text

pub record CorsConfig : Type 0 where
  pub allow_origins : List Text
  pub allow_credentials : Bool

pub record SecurityHeadersConfig : Type 0 where
  pub frame_options : Text
  pub content_type_nosniff : Bool
  pub referrer_policy : Text
  pub xss_protection : Text
  pub content_security_policy : Text
  pub cross_origin_opener_policy : Text
  pub cross_origin_embedder_policy : Text
  pub cross_origin_resource_policy : Text

pub record ServerConfig : Type 0 where
  pub host : Text
  pub port : ℤ
  pub read_timeout : ℤ
  pub write_timeout : ℤ
  pub shutdown_timeout : ℤ
  pub max_request_body : ℤ
  pub cors : CorsConfig
  pub security_headers : SecurityHeadersConfig

pub record DatabaseConfig : Type 0 where
  pub driver : Text
  pub dsn : Text
  pub max_open : ℤ
  pub max_idle : ℤ
  pub conn_max_lifetime : ℤ

pub record RedisConfig : Type 0 where
  pub addr : Text
  pub username : Text
  pub password : Text
  pub db : ℤ
  pub pool_size : ℤ

pub record GitHubOAuthConfig : Type 0 where
  pub enabled : Bool
  pub client_id : Text
  pub client_secret : Text
  pub redirect_url : Text
  pub scopes : List Text
  pub allowed_orgs : List Text
  pub state_ttl : ℤ

pub record AuthConfig : Type 0 where
  pub access_token_secret : Text
  pub refresh_token_secret : Text
  pub access_token_ttl : ℤ
  pub refresh_token_ttl : ℤ
  pub api_key_hash_secret : Text
  pub github : GitHubOAuthConfig

pub record LoggingConfig : Type 0 where
  pub level : Text

pub record SeedAdminConfig : Type 0 where
  pub email : Text
  pub password : Text
  pub role : Text

pub record SeedConfig : Type 0 where
  pub admin : SeedAdminConfig

pub record Config : Type 0 where
  pub app : AppConfig
  pub server : ServerConfig
  pub database : DatabaseConfig
  pub redis : RedisConfig
  pub auth : AuthConfig
  pub logging : LoggingConfig
  pub seed : SeedConfig
