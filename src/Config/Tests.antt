-- ===== src/Config/Tests.antt =====
-- Configurations of a development machine and of production.
use prompt_manager.Base.{◌≡◌, refl, pos, true, false, []}
use prompt_manager.Text.{Text, codes, same, trim_space, to_lower, to_upper, contains}
use prompt_manager.Domain.{other, Result, ok, err}
use prompt_manager.Config.Settings.{Config}
use prompt_manager.Config.Defaults.{apply_defaults, determine_env}
use prompt_manager.Config.Validate.{
  byte_length, validate_secret, validate_origins, validate_security_headers,
  validate_github_oauth_config, validate_seed_config, validate_config, load,
}
use prompt_manager.Config.Laws.{IsUsable, load-IsUsable}

abbrev pub parse_uri : Text → Result (Unit {0})
parse_uri uri = ok tt

abbrev pub secret : Text
secret = codes "0123456789abcdef0123456789abcdef"

abbrev pub read : Config
read = record {
  app = record { name = []; env = [] };
  server = record {
    host = [];
    port = pos 0;
    read_timeout = pos 0;
    write_timeout = pos 0;
    shutdown_timeout = pos 0;
    max_request_body = pos 0;
    cors = record { allow_origins = []; allow_credentials = false };
    security_headers = record {
      frame_options = codes "sameorigin";
      content_type_nosniff = false;
      referrer_policy = [];
      xss_protection = [];
      content_security_policy = [];
      cross_origin_opener_policy = [];
      cross_origin_embedder_policy = [];
      cross_origin_resource_policy = [];
    };
  };
  database = record {
    driver = [];
    dsn = [];
    max_open = pos 0;
    max_idle = pos 0;
    conn_max_lifetime = pos 0;
  };
  redis = record { addr = []; username = []; password = []; db = pos 0; pool_size = pos 0 };
  auth = record {
    access_token_secret = secret;
    refresh_token_secret = secret;
    access_token_ttl = pos 1;
    refresh_token_ttl = pos 1;
    api_key_hash_secret = secret;
    github = record {
      enabled = true;
      client_id = codes "id";
      client_secret = codes "s";
      redirect_url = [];
      scopes = [];
      allowed_orgs = [];
      state_ttl = pos 0;
    };
  };
  logging = record { level = [] };
  seed = record { admin = record { email = []; password = []; role = [] } };
}

abbrev pub loaded : Config
loaded = apply_defaults read (codes "development")

loads : load parse_uri [] [] (ok read) ≡ ok loaded
unfolding load determine_env validate_config validate_secret validate_origins
    validate_security_headers validate_github_oauth_config validate_seed_config byte_length contains
    trim_space to_lower to_upper same apply_defaults
loads = refl

-- The default origin is refused in production.
no_wildcard :
    load parse_uri (codes "production") [] (ok read)
    ≡ err (other (codes "config server.cors.allowOrigins must not use wildcard '*' in production"))
unfolding load determine_env validate_config validate_secret validate_origins
    validate_security_headers validate_github_oauth_config validate_seed_config byte_length contains
    trim_space to_lower to_upper same apply_defaults
no_wildcard = refl

load-IsUsable_example : IsUsable loaded
load-IsUsable_example = load-IsUsable parse_uri [] [] (ok read) loaded loads
