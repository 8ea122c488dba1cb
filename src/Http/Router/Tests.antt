-- ===== src/Http/Router/Tests.antt =====
-- Requests at the routes of the program, and the theorems at concrete inputs.
use prompt_manager.Base.{◌≡◌, refl, true, false, ◌||◌, none, some, [], All, pos, if◌then◌else◌}
use prompt_manager.Text.{Text, codes, same}
use prompt_manager.Domain.{other, ok, err}
use prompt_manager.Auth.Library.{AuthService}
use prompt_manager.Auth.Tokens.{claims_of, parse_token}
use prompt_manager.Auth.Tests.{library, s, ann}
use prompt_manager.Config.Tests.{loaded}
use prompt_manager.Boot.Program.{main_options}
use prompt_manager.Prompt.Tests.{on, filled}
use prompt_manager.Prompt.Run.{service}
use prompt_manager.Prompt.Diff.Tests.{plain}
use prompt_manager.Middleware.Guard.{access_claims, split_space, guarded, auth_guard}
use prompt_manager.Middleware.Limits.{rate_limit}
use prompt_manager.Http.Response.{respond_ok, respond_error, answer_with}
use prompt_manager.Http.Prompts.Handlers
use prompt_manager.Http.Router.Routes.{Route, new_engine, auth_routes, prompt_routes}
use prompt_manager.Http.Router.Routes
use prompt_manager.Http.Router.Health.{
  HealthDependencies, database_status, redis_status, default_health_handler,
}
use prompt_manager.Http.Router.Serve.{Web, Request, deleted, call, limited_by, run_stages, serve}
use prompt_manager.Http.Router.Laws.{IsProtected, served, new_engine-IsProtected}
use prompt_manager.Http.Router.HealthLaws.{fails, default_health_handler_lem}

-- the sign-in, for access tokens
abbrev access : AuthService
access = record s {
  library = record library {
    verify = λ secret now token.
        if same token (codes "ok")
        then ok (claims_of (codes "access") ann)
        else err (other (codes "bad token"));
  };
}

abbrev web : Web
web = record {
  cfg = loaded;
  health = none;
  prompts = on;
  auth = access;
  diffs = record { printer = plain; order = λ keys. keys; text_diff = λ old new. [] };
  decoders = record {
    login = λ most body. err (other (codes "EOF"));
    refresh = λ most body. err (other (codes "EOF"));
    create_prompt = λ most body. err (other (codes "EOF"));
    update_prompt = λ most body. err (other (codes "EOF"));
    create_version = λ most body. err (other (codes "EOF"));
    is_email = λ email. true;
    nil_passes = true;
    refused = codes "refused";
  };
  quota =
      λ l key. ok (record { limit = pos 120; remaining = pos 1; reset = pos 60; reached = false });
}

abbrev deletion : Text → Request
deletion authorization = record {
  param = λ name. codes "1";
  query = λ name. [];
  authorization = authorization;
  client_ip = codes "10.0.0.1";
  body = [];
}

-- DELETE /api/v1/prompts/:id
abbrev delete_route : Route
delete_route =
    Routes.route
      (Routes.use_stage Routes.guarded
        (Routes.subgroup (Routes.api_group main_options) (codes "/prompts")))
      Routes.delete (codes "/:id") [] Routes.delete_prompt

without_token :
    served web delete_route (deletion []) filled
    ≡ (respond_error 401 (codes "UNAUTHORIZED") (codes "缺少认证信息"), filled)
unfolding serve run_stages limited_by rate_limit auth_guard
without_token = refl

with_token :
    (served web delete_route (deletion (codes "Bearer ok")) filled).0
    ≡ respond_ok (deleted (codes "1"))
unfolding service serve run_stages limited_by rate_limit auth_guard split_space guarded answer_with
    access_claims parse_token call Handlers.delete_prompt_handler
with_token = refl

new_engine-IsProtected_example : All (IsProtected web) (new_engine main_options)
new_engine-IsProtected_example = new_engine-IsProtected web main_options

default_health_handler_lem_example :
    let deps : HealthDependencies = record {
      db = some (ok tt);
      redis = some (err (other (codes "timeout")));
    } in
    let h = default_health_handler loaded.app (some deps) in
    let bad = fails deps.db || fails deps.redis in
    (h.http_status ≡ (if bad then 503 else 200))
    × (h.status ≡ (if bad then codes "degraded" else codes "ok"))
    × (h.dependencies ≡ some (database_status deps.db, redis_status deps.redis))
default_health_handler_lem_example =
    default_health_handler_lem loaded.app
      (record { db = some (ok tt); redis = some (err (other (codes "timeout"))) })
