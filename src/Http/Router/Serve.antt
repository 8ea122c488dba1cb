-- ===== src/Http/Router/Serve.antt =====
-- A request, from the middleware to the handler of its route.
use prompt_manager.Base.{ℤ, Bool, Option, List, [], ◌∷◌}
use prompt_manager.Text.{Text, codes}
use prompt_manager.Domain.{Prompt, PromptVersion, PromptExecutionAggregate, Result, User}
use prompt_manager.Store.{World}
use prompt_manager.Config.Settings.{Config}
use prompt_manager.Auth.Library.{AuthService}
use prompt_manager.Auth.Tokens.{Tokens}
use prompt_manager.Prompt.{Service, PromptVersionPage}
use prompt_manager.Prompt.Diff.Target.{PromptVersionDiff, Libraries}
use prompt_manager.Middleware.Guard.{Context, auth_guard}
use prompt_manager.Middleware.Limits.{Quota, rate_limit, limit_request_body}
use prompt_manager.Middleware.Headers.{security_headers}
use prompt_manager.Http.Response.{Response, respond_ok, respond_error, Handler, reply}
use prompt_manager.Http.Prompts.Requests.{
  CreatePromptRequest, UpdatePromptRequest, CreatePromptVersionRequest,
}
use prompt_manager.Http.Prompts.Handlers
use prompt_manager.Http.Prompts.Handlers.{PromptList}
use prompt_manager.Http.Signin.{
  LoginRequest, CallbackAnswer, login_handler, refresh_handler, github_login_handler,
  github_callback_handler,
}
use prompt_manager.Http.Router.Routes.{
  Limiter, Stage, limited, guarded, Endpoint, Route, healthz, given_health, login, github_login,
  refresh, github_callback, list_prompts, get_prompt, list_versions, diff_version, prompt_stats,
  create_prompt, update_prompt, create_version, set_active, delete_prompt, restore_prompt,
}
use prompt_manager.Http.Router.Health.{HealthDependencies, Health, default_health_handler}

-- What a handler reads of a request.
pub record Request : Type 0 where
  pub param : Text → Text
  pub query : Text → Text
  pub authorization : Text
  pub client_ip : Text
  pub body : Text

-- the data of a success
pub data Answer : Type 0 where
  health : Health → Answer
  given : Answer
  signed_in : Tokens → User → Answer
  redirect : Text → Answer
  callback : CallbackAnswer → Answer
  prompts : PromptList → Answer
  prompt : Prompt → Answer
  versions : PromptVersionPage → Answer
  diff : PromptVersionDiff → Answer
  stats : List PromptExecutionAggregate → Answer
  version : PromptVersion → Answer
  activated : (prompt_id version_id : Text) → Answer
  deleted : Text → Answer

-- The JSON decoder, by the most that it can read of a body, and the validator.
pub record Decoders : Type 0 where
  pub login : Option ℤ → Text → Result LoginRequest
  pub refresh : Option ℤ → Text → Result Text
  pub create_prompt : Option ℤ → Text → Result CreatePromptRequest
  pub update_prompt : Option ℤ → Text → Result UpdatePromptRequest
  pub create_version : Option ℤ → Text → Result CreatePromptVersionRequest
  pub is_email : Text → Bool
  pub nil_passes : Bool
  pub refused : Text

-- The services and the libraries under the handlers; `quota` is what a limiter says of a key.
pub record Web : Type 0 where
  pub cfg : Config
  pub health : Option HealthDependencies
  pub prompts : Service
  pub auth : AuthService
  pub diffs : Libraries
  pub decoders : Decoders
  pub quota : Limiter → Text → Result Quota

abbrev pub mapped : {A B : Type 0} → (A → B) → Response A → Response B
mapped f (respond_ok a) = respond_ok (f a)
mapped f (respond_error n code text) = respond_error n code text

abbrev pub answering : {A : Type 0} → (A → Answer) → Handler A → Handler Answer
answering f handler w = let (r, w') = handler w in (mapped f r, w')

-- the handler of an endpoint
unfoldable pub call : Web → Endpoint → Request → Context → Handler Answer
call web healthz req ctx =
    reply (respond_ok (health (default_health_handler web.cfg.app web.health)))
call web given_health req ctx = reply (respond_ok given)
call web login req ctx =
    let d = web.decoders in
    answering (λ r. signed_in r.0 r.1)
      (login_handler web.auth d.is_email d.refused
        (d.login (limit_request_body web.cfg.server.max_request_body) req.body))
call web github_login req ctx = answering redirect (
    github_login_handler web.auth (req.query (codes "redirect_uri"))
      (req.query (codes "response_mode")) (req.query (codes "client_origin")))
call web refresh req ctx =
    let d = web.decoders in
    answering (λ r. signed_in r.0 r.1)
      (refresh_handler web.auth d.refused
        (d.refresh (limit_request_body web.cfg.server.max_request_body) req.body))
call web github_callback req ctx =
    answering callback
      (github_callback_handler web.auth (req.query (codes "code")) (req.query (codes "state")))
call web list_prompts req ctx = answering prompts (
    Handlers.list_prompts_handler (req.query (codes "limit")) (req.query (codes "offset"))
      (req.query (codes "search")) (req.query (codes "includeDeleted")))
call web get_prompt req ctx =
    answering prompt (Handlers.get_prompt_handler (req.param (codes "id")))
call web list_versions req ctx = answering versions (
    Handlers.list_versions_handler (req.param (codes "id")) (req.query (codes "limit"))
      (req.query (codes "offset")) (req.query (codes "status")))
call web diff_version req ctx = answering diff (
    Handlers.diff_handler web.diffs (req.param (codes "id")) (req.param (codes "versionId"))
      (req.query (codes "compareTo")) (req.query (codes "targetVersionId")))
call web prompt_stats req ctx =
    answering stats
      (Handlers.get_prompt_stats_handler (req.param (codes "id")) (req.query (codes "days")))
call web create_prompt req ctx =
    let d = web.decoders in
    answering prompt (
      Handlers.create_prompt_handler web.prompts ctx d.refused
        (d.create_prompt (limit_request_body web.cfg.server.max_request_body) req.body))
call web update_prompt req ctx =
    let d = web.decoders in
    answering prompt (
      Handlers.update_prompt_handler d.nil_passes (req.param (codes "id")) d.refused
        (d.update_prompt (limit_request_body web.cfg.server.max_request_body) req.body))
call web create_version req ctx =
    let d = web.decoders in
    answering version (
      Handlers.create_version_handler web.prompts ctx (req.param (codes "id")) d.refused
        (d.create_version (limit_request_body web.cfg.server.max_request_body) req.body))
call web set_active req ctx =
    answering (λ ids. activated ids.0 ids.1)
      (Handlers.set_active_handler web.prompts ctx (req.param (codes "id"))
        (req.param (codes "versionId")))
call web delete_prompt req ctx =
    answering deleted (Handlers.delete_prompt_handler web.prompts ctx (req.param (codes "id")))
call web restore_prompt req ctx =
    answering prompt (Handlers.restore_prompt_handler web.prompts ctx (req.param (codes "id")))

-- A limiter in front of a handler, by the address of the client; its headers are left out.
unfoldable pub limited_by : Web → Request → Limiter → Handler Answer → Handler Answer
limited_by web req l next w =
    let (answered, w') =
      rate_limit (λ key v. (web.quota l key, v)) req.client_ip req.client_ip next w in
    (answered.0, w')

-- The stages of a route, in order, and then its handler.
unfoldable pub run_stages :
    Web → Request → List Stage → Context → (Context → Handler Answer) → Handler Answer
run_stages web req [] ctx next = next ctx
run_stages web req (limited l ∷ stages) ctx next =
    limited_by web req l (run_stages web req stages ctx next)
run_stages web req (guarded ∷ stages) ctx next =
    auth_guard web.auth.library web.cfg.auth.access_token_secret req.authorization
      (λ ctx'. run_stages web req stages ctx' next)

abbrev pub no_user : Context
no_user = record { user_id = []; user_email = []; user_role = [] }

pub record Reply : Type 0 where
  pub headers : List (Text × Text)
  pub response : Response Answer

unfoldable pub serve : Web → Route → Request → World → Reply × World
serve web r req w =
    let (response, w') = run_stages web req r.stages no_user (call web r.endpoint req) w in
    (record { headers = security_headers web.cfg.server.security_headers; response = response }, w')
