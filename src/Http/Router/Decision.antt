-- ===== src/Http/Router/Decision.antt =====
-- What comes of a request behind the guard and the limiters.
use prompt_manager.Base.{
  ◌≡◌, refl, sym, ap, ◌∙◌, Bool, true, false, not, Bool-cases, inl, inr, Option, none, some, ℕ,
}
use prompt_manager.Text.{Text, codes, same, is_empty, to_lower}
use prompt_manager.Domain.{token_invalid, Result, ok, err}
use prompt_manager.Store.{World, clock, lift, pure, raise_if, ◌>>=◌, ◌>>◌}
use prompt_manager.Auth.Library.{Library, Claims}
use prompt_manager.Auth.Tokens.{parse_token}
use prompt_manager.Middleware.Guard.{
  Context, context_of, split_space, unauthorized, access_claims, guarded, auth_guard,
}
use prompt_manager.Middleware.Limits.{Quota, limit_key, rate_limit}
use prompt_manager.Middleware.Laws.{IsGuarded, access_claims-IsAccess}
use prompt_manager.Http.Response.{Response, respond_error, Handler, answer_with}
use prompt_manager.Http.Router.Routes.{Limiter}
use prompt_manager.Http.Router.Serve.{Web, Request, Answer, limited_by}

-- What comes of a request at a guarded route: an error, and nothing is written, or the handler is
-- run for the user of an access token that verifies at that time.
pub data Decision (web : Web) (req : Request) (w : World) (next : Context → Handler Answer)
    (out : Response Answer × World) : Type 0 where
  refused :
      (status : ℕ) (code text : Text)
      → out ≡ (respond_error status code text, w)
      → Decision web req w next out
  admitted :
      (ctx : Context)
      → IsGuarded web.auth.library web.cfg.auth.access_token_secret req.authorization w.now ctx
      → out ≡ next ctx w
      → Decision web req w next out

parse_token-world :
    (l : Library) (token secret : Text) (w : World) → (parse_token l token secret w).1 ≡ w
unfolding parse_token clock ◌>>=◌ lift
parse_token-world l token secret w = elim (Bool-cases (is_empty token)) [
  | inl blank ↦ rw blank refl
  | inr given ↦ rw given refl
]

checked_claims-world :
    (c : Bool) (claims : Claims) (w : World) → ((raise_if c token_invalid >> pure claims) w).1 ≡ w
unfolding raise_if ◌>>◌ ◌>>=◌ pure
checked_claims-world true claims w = refl
checked_claims-world false claims w = refl

-- The guard writes nothing.
access_claims-world :
    (l : Library) (secret token : Text) (w : World) → (access_claims l secret token w).1 ≡ w
unfolding access_claims ◌>>=◌
access_claims-world l secret token w =
    go (parse_token l token secret w) (parse_token-world l token secret w)
  where
    go :
        (r : Result Claims × World)
        → r.1 ≡ w
        → (◌>>=◌
            (λ _. r)
            (λ claims.
              raise_if (not (same claims.token_type (codes "access"))) token_invalid >> pure claims)
            w).1
          ≡ w
    go (ok claims, v) e = checked_claims-world _ claims v ∙ e
    go (err x, v) e = e

module _ (web : Web) (req : Request) (w : World) (next : Context → Handler Answer) where
  -- a limiter in front
  pub limited_by-Decision :
      (l : Limiter) (inner : Handler Answer)
      → Decision web req w next (inner w)
      → Decision web req w next (limited_by web req l inner w)
  unfolding limited_by rate_limit
  limited_by-Decision l inner d = go (web.quota l (limit_key req.client_ip req.client_ip))
    where
      go :
          (r : Result Quota)
          → Decision web req w next (
              let (answered, w') =
                rate_limit (λ key v. (r, v)) req.client_ip req.client_ip inner w in
              (answered.0, w'))
      go (err e) = refused _ _ _ refl
      go (ok q) = elim (Bool-cases q.reached) [
        | inl full ↦ rw full (refused _ _ _ refl)
        | inr free ↦ rw free d
      ]

  claims-Decision :
      (scheme token : Text) (r : Result Claims × World)
      → split_space req.authorization ≡ some (scheme, token)
      → same (to_lower scheme) (codes "bearer") ≡ true
      → access_claims web.auth.library web.cfg.auth.access_token_secret token w ≡ r
      → Decision web req w next (
          answer_with
            (λ _. r)
            (λ e. unauthorized (codes "令牌无效"))
            (λ claims. next (context_of claims))
            w)
  unfolding answer_with
  claims-Decision scheme token (ok claims, v) split bearer e =
      let secret = web.cfg.auth.access_token_secret in
      let is =
        access_claims-IsAccess web.auth.library secret token w claims
          (ap (λ (r : Result Claims × World). r.0) e) in
      admitted (context_of claims)
        (record {
          scheme = scheme;
          token = token;
          claims = claims;
          split = split;
          bearer = bearer;
          verified = is.verified;
          access = is.access;
          context = refl;
        })
        (ap (next (context_of claims)) (
          ap (λ (r : Result Claims × World). r.1) (sym e)
          ∙ access_claims-world web.auth.library secret token w))
  claims-Decision scheme token (err x, v) split bearer e = refused _ _ _ (
      ap (λ (u : World). (unauthorized (codes "令牌无效"), u))
        (ap (λ (r : Result Claims × World). r.1) (sym e)
          ∙ access_claims-world web.auth.library web.cfg.auth.access_token_secret token w))

  split-Decision :
      (split : Option (Text × Text))
      → split_space req.authorization ≡ split
      → Decision web req w next
          (guarded web.auth.library web.cfg.auth.access_token_secret split next w)
  unfolding guarded answer_with
  split-Decision none e = refused _ _ _ refl
  split-Decision (some (scheme, token)) e =
      elim (Bool-cases (same (to_lower scheme) (codes "bearer"))) [
        | inl bearer ↦ rw bearer (claims-Decision scheme token _ e bearer refl)
        | inr other_scheme ↦ rw other_scheme (refused _ _ _ refl)
      ]

  pub guard-Decision :
      Decision web req w next
        (auth_guard web.auth.library web.cfg.auth.access_token_secret req.authorization next w)
  unfolding auth_guard
  guard-Decision = elim (Bool-cases (is_empty req.authorization)) [
    | inl blank ↦ rw blank (refused _ _ _ refl)
    | inr given ↦ rw given (split-Decision _ refl)
  ]
