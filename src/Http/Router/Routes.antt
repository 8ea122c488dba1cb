-- ===== src/Http/Router/Routes.antt =====
-- NewEngine: the groups and the routes. Which route a request takes is the framework's choice.
use prompt_manager.Base.{Bool, List, [], ◌∷◌, ◌++◌, if◌then◌else◌}
use prompt_manager.Text.{Text, codes}

pub data Method : Type 0 where
  get : Method
  post : Method
  put : Method
  patch : Method
  delete : Method

-- the limiters of RouterOptions
pub data Limiter : Type 0 where
  general : Limiter
  auth_group : Limiter
  login_only : Limiter

-- what runs in front of a handler
pub data Stage : Type 0 where
  limited : Limiter → Stage
  guarded : Stage

-- the handlers
pub data Endpoint : Type 0 where
  healthz : Endpoint
  given_health : Endpoint
  login : Endpoint
  github_login : Endpoint
  refresh : Endpoint
  github_callback : Endpoint
  list_prompts : Endpoint
  get_prompt : Endpoint
  list_versions : Endpoint
  diff_version : Endpoint
  prompt_stats : Endpoint
  create_prompt : Endpoint
  update_prompt : Endpoint
  create_version : Endpoint
  set_active : Endpoint
  delete_prompt : Endpoint
  restore_prompt : Endpoint

pub record Route : Type 0 where
  pub method : Method
  pub path : Text
  pub stages : List Stage
  pub endpoint : Endpoint

-- Which of the optional handlers of RouterOptions are there.
pub record RouterOptions : Type 0 where
  pub health_handler : Bool
  pub auth_handler : Bool
  pub prompt_handler : Bool
  pub rate_limiter : Bool
  pub auth_rate_limit : Bool
  pub login_rate_limit : Bool

pub record Group : Type 0 where
  pub base : Text
  pub uses : List Stage

-- engine.Group and group.Group
abbrev pub subgroup : Group → Text → Group
subgroup g path = record { base = g.base ++ path; uses = g.uses }

-- group.Use
abbrev pub use_stage : Stage → Group → Group
use_stage stage g = record g { uses = g.uses ++ stage ∷ [] }

-- if opts.… != nil { group.Use(opts.…) }
abbrev pub use_if : Bool → Stage → Group → Group
use_if there stage g = record g { uses = (if there then g.uses ++ stage ∷ [] else g.uses) }

abbrev pub route : Group → Method → (path : Text) → List Stage → Endpoint → Route
route g method path own endpoint = record {
  method = method;
  path = g.base ++ path;
  stages = g.uses ++ own;
  endpoint = endpoint;
}

abbrev pub api_group : RouterOptions → Group
api_group opts =
    use_if opts.rate_limiter (limited general) (record { base = codes "/api/v1"; uses = [] })

abbrev pub login_stages : RouterOptions → List Stage
login_stages opts = if opts.login_rate_limit then limited login_only ∷ [] else []

abbrev pub auth_routes : RouterOptions → List Route
auth_routes opts =
    let g =
      use_if opts.auth_rate_limit (limited auth_group)
        (subgroup (api_group opts) (codes "/auth")) in
    route g post (codes "/login") (login_stages opts) login
    ∷ route g get (codes "/github/login") (login_stages opts) github_login
    ∷ route g post (codes "/refresh") [] refresh
    ∷ route g get (codes "/github/callback") [] github_callback
    ∷ []

abbrev pub prompt_routes : RouterOptions → List Route
prompt_routes opts =
    let g = use_stage guarded (subgroup (api_group opts) (codes "/prompts")) in
    route g get (codes "") [] list_prompts
    ∷ route g get (codes "/") [] list_prompts
    ∷ route g get (codes "/:id") [] get_prompt
    ∷ route g get (codes "/:id/versions") [] list_versions
    ∷ route g get (codes "/:id/versions/:versionId/diff") [] diff_version
    ∷ route g get (codes "/:id/stats") [] prompt_stats
    ∷ route g post (codes "") [] create_prompt
    ∷ route g post (codes "/") [] create_prompt
    ∷ route g put (codes "/:id") [] update_prompt
    ∷ route g patch (codes "/:id") [] update_prompt
    ∷ route g post (codes "/:id/versions") [] create_version
    ∷ route g post (codes "/:id/versions/:versionId/activate") [] set_active
    ∷ route g delete (codes "/:id") [] delete_prompt
    ∷ route g post (codes "/:id/restore") [] restore_prompt
    ∷ []

unfoldable pub new_engine : RouterOptions → List Route
new_engine opts =
    record {
      method = get;
      path = codes "/healthz";
      stages = [];
      endpoint = (if opts.health_handler then given_health else healthz);
    }
      ∷ (if opts.auth_handler then auth_routes opts else [])
    ++ (if opts.prompt_handler then prompt_routes opts else [])
