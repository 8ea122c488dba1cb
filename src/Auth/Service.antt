-- ===== src/Auth/Service.antt =====
-- NewService and its options.
use prompt_manager.Base.{Option, none, some, List, [], ◌∷◌}
use prompt_manager.Text.{Text, codes}
use prompt_manager.Config.Settings.{AuthConfig}
use prompt_manager.Config.Defaults.{text_or}
use prompt_manager.Auth.Library.{AuthService, GitHub, Library}

-- Option of the package
abbrev pub ServiceOption : Type 0
ServiceOption = AuthService → AuthService

-- an HTTP client is the replies that it brings
abbrev pub with_http_client : Option GitHub → ServiceOption
with_http_client none s = s
with_http_client (some client) s = record s { library = record s.library { github = client } }

abbrev pub with_github_endpoints : (auth_url token_url api_base_url : Text) → ServiceOption
with_github_endpoints auth_url token_url api_base_url s = record s {
  github_auth_url = text_or auth_url s.github_auth_url;
  github_token_url = text_or token_url s.github_token_url;
  github_api_base_url = text_or api_base_url s.github_api_base_url;
}

abbrev pub with_options : List ServiceOption → ServiceOption
with_options [] s = s
with_options (opt ∷ opts) s = with_options opts (opt s)

abbrev pub new_service : AuthConfig → Library → List ServiceOption → AuthService
new_service cfg library opts = with_options opts (record {
  cfg = cfg;
  library = library;
  github_auth_url = codes "https://github.com/login/oauth/authorize";
  github_token_url = codes "https://github.com/login/oauth/access_token";
  github_api_base_url = codes "https://api.github.com";
})
