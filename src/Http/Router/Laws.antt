-- ===== src/Http/Router/Laws.antt =====
-- Nothing but the sign-in and the health check is served without an access token.
use prompt_manager.Base.{◌≡◌, refl, Bool, true, false, List, [], ◌∷◌, ◌++◌, any, All, if◌then◌else◌}
use prompt_manager.Text.{Text, codes, same}
use prompt_manager.Store.{World}
use prompt_manager.Http.Response.{Response}
use prompt_manager.Http.Router.Routes.{
  general, Stage, limited, Route, RouterOptions, auth_routes, prompt_routes, new_engine,
}
use prompt_manager.Http.Router.Serve.{Web, Request, Answer, call, run_stages, serve}
use prompt_manager.Http.Router.Decision.{Decision, limited_by-Decision, guard-Decision}

-- The paths that are open: the health check, and the sign-in.
abbrev pub open_paths : List Text
open_paths =
    codes "/healthz"
    ∷ codes "/api/v1/auth/login"
    ∷ codes "/api/v1/auth/github/login"
    ∷ codes "/api/v1/auth/refresh"
    ∷ codes "/api/v1/auth/github/callback"
    ∷ []

abbrev pub is_open : Route → Bool
is_open r = any (λ p. same p r.path) open_paths

-- what is served at a route, without the headers
abbrev pub served : Web → Route → Request → World → Response Answer × World
served web r req w = let (reply, w') = serve web r req w in (reply.response, w')

-- unless the path is open
pub record IsProtected (web : Web) (r : Route) : Type 0 where
  pub decides :
      is_open r ≡ false
      → (req : Request) (w : World)
      → Decision web req w (call web r.endpoint req) (served web r req w)

All-append : {A : Type 0} (P : A → Type 0) (xs ys : List A) → All P xs → All P ys → All P (xs ++ ys)
All-append P [] ys hx hy = hy
All-append P (x ∷ xs) ys hx hy = (hx.0, All-append P xs ys hx.1 hy)

All-if :
    {A : Type 0} (P : A → Type 0) (b : Bool) (xs : List A) → All P xs → All P (if b then xs else [])
All-if P true xs h = h
All-if P false xs h = tt

-- the stages of the prompt routes
abbrev prompt_stack : Bool → List Stage
prompt_stack general_limit =
    ((if general_limit then limited general ∷ [] else []) ++ Stage.guarded ∷ []) ++ []

module _ (web : Web) where
  open_route : (r : Route) → is_open r ≡ true → IsProtected web r
  open_route r e = record { decides = λ closed. absurd (cc (e, closed)) }

  prompt_stack-IsProtected :
      (general_limit : Bool) (r : Route) → r.stages ≡ prompt_stack general_limit → IsProtected web r
  unfolding serve run_stages
  prompt_stack-IsProtected true r e = record {
    decides = λ closed req w. rw e (
        limited_by-Decision web req w (call web r.endpoint req) general _
          (guard-Decision web req w (call web r.endpoint req)));
  }
  prompt_stack-IsProtected false r e = record {
    decides = λ closed req w. rw e (guard-Decision web req w (call web r.endpoint req));
  }

  auth_routes-IsProtected : (opts : RouterOptions) → All (IsProtected web) (auth_routes opts)
  unfolding same
  auth_routes-IsProtected opts =
      (open_route _ refl, (open_route _ refl, (open_route _ refl, (open_route _ refl, tt))))

  prompt_routes-IsProtected : (opts : RouterOptions) → All (IsProtected web) (prompt_routes opts)
  prompt_routes-IsProtected opts =
      let p = prompt_stack-IsProtected opts.rate_limiter in
      (
        p _ refl,
        (
          p _ refl,
          (
            p _ refl,
            (
              p _ refl,
              (
                p _ refl,
                (
                  p _ refl,
                  (
                    p _ refl,
                    (
                      p _ refl,
                      (p _ refl, (p _ refl, (p _ refl, (p _ refl, (p _ refl, (p _ refl, tt)))))),
                    ),
                  ),
                ),
              ),
            ),
          ),
        ),
      )

  -- At every route of the engine but those of the health check and of the sign-in, whatever the
  -- limiters say, a request is answered with an error and nothing is written, or its handler is run
  -- for the user of a bearer token that verifies, at that time, as an access token.
  pub new_engine-IsProtected : (opts : RouterOptions) → All (IsProtected web) (new_engine opts)
  unfolding new_engine same
  new_engine-IsProtected opts = (
    open_route _ refl,
    All-append (IsProtected web) _ _
        (All-if (IsProtected web) opts.auth_handler _ (auth_routes-IsProtected opts))
        (All-if (IsProtected web) opts.prompt_handler _ (prompt_routes-IsProtected opts)),
  )
