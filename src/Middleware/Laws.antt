-- ===== src/Middleware/Laws.antt =====
-- Who passes the guard.
use prompt_manager.Base.{
  ℕ, ◌≡◌, refl, subst, ap, Bool, true, false, not, Bool-cases, inl, inr, Option, none, some, [],
  ◌∷◌, if◌then◌else◌,
}
use prompt_manager.Text.{Text, codes, same, to_lower}
use prompt_manager.Domain.{Error, token_invalid, Result, ok, err}
use prompt_manager.Store.{World, Action, pure}
use prompt_manager.Store.Inverse.{bind-Went, then-Went, raise_if_passed}
use prompt_manager.Auth.Library.{Library, Claims}
use prompt_manager.Auth.Laws.Entry.{not-false, parse_token_passed}
use prompt_manager.Http.Response.{Response, respond_ok, respond_error, answer_with, reply}
use prompt_manager.Middleware.Guard.{
  Context, context_of, split_space, unauthorized, access_claims, guarded, auth_guard,
}

-- A header with a bearer token that verifies, at the time of the request, as an access token.
pub record IsGuarded (l : Library) (secret header : Text) (now : ℕ) (ctx : Context) : Type 0 where
  pub scheme : Text
  pub token : Text
  pub claims : Claims
  pub split : split_space header ≡ some (scheme, token)
  pub bearer : same (to_lower scheme) (codes "bearer") ≡ true
  pub verified : l.verify secret now token ≡ ok claims
  pub access : same claims.token_type (codes "access") ≡ true
  pub context : context_of claims ≡ ctx

-- claims that have passed the test of their kind
pub record IsAccess (l : Library) (secret token : Text) (now : ℕ) (claims : Claims) : Type 0 where
  pub verified : l.verify secret now token ≡ ok claims
  pub access : same claims.token_type (codes "access") ≡ true

abbrev claims_or : Claims → Result Claims → Claims
claims_or default (ok c) = c
claims_or default (err e) = default

pub access_claims-IsAccess :
    (l : Library) (secret token : Text) (w : World) (claims : Claims)
    → (access_claims l secret token w).0 ≡ ok claims
    → IsAccess l secret token w.now claims
unfolding access_claims pure
access_claims-IsAccess l secret token w claims h =
    let a = bind-Went _ _ w h in
    let b = then-Went _ _ a.world a.rest_done in
    subst (IsAccess l secret token w.now) (ap (claims_or claims) b.rest_done) (record {
      verified = parse_token_passed l token secret w a.first_done;
      access = not-false _ (raise_if_passed _ token_invalid a.world b.first_done);
    })

abbrev context_or : Context → Response Context → Context
context_or ctx (respond_ok c) = c
context_or ctx (respond_error n c m) = ctx

answered_claims :
    (call : Action Claims) (w : World) (e : Error → Response Context) (ctx : Context)
    → ((x : Error) (c : Context) → e x ≡ respond_ok c → ⊥)
    → (answer_with call e (λ claims. reply (respond_ok (context_of claims))) w).0 ≡ respond_ok ctx
    → (claims : Claims) × ((call w).0 ≡ ok claims) × (context_of claims ≡ ctx)
unfolding answer_with
answered_claims call w e ctx never h = go (call w) refl h
  where
    go :
        (r : Result Claims × World)
        → call w ≡ r
        → (answer_with (λ _. r) e (λ claims. reply (respond_ok (context_of claims))) w).0
          ≡ respond_ok ctx
        → (claims : Claims) × ((call w).0 ≡ ok claims) × (context_of claims ≡ ctx)
    go (ok claims, w') same_call h =
        (claims, ap (λ (x : Result Claims × World). x.0) same_call, ap (context_or ctx) h)
    go (err x, w') same_call h = absurd (never x ctx h)

guarded-IsGuarded :
    (l : Library) (secret header : Text) (w : World) (ctx : Context) (split : Option (Text × Text))
    → split_space header ≡ split
    → (guarded l secret split (λ c. reply (respond_ok c)) w).0 ≡ respond_ok ctx
    → IsGuarded l secret header w.now ctx
unfolding guarded
guarded-IsGuarded l secret header w ctx none e h = absurd (cc h)
guarded-IsGuarded l secret header w ctx (some (scheme, token)) e h =
    elim (Bool-cases (same (to_lower scheme) (codes "bearer"))) [
      | inr other ↦ absurd (refused (same (to_lower scheme) (codes "bearer")) _ other h)
      | inl bearer ↦
          let (claims, done, context) =
            answered_claims (access_claims l secret token) w _ ctx (λ x c no. cc no)
              (passed (same (to_lower scheme) (codes "bearer")) _ bearer h) in
          let is = access_claims-IsAccess l secret token w claims done in
          record {
            scheme = scheme;
            token = token;
            claims = claims;
            split = e;
            bearer = bearer;
            verified = is.verified;
            access = is.access;
            context = context;
          }
    ]
  where
    refused :
        (b : Bool) (rest : Response Context × World)
        → b ≡ false
        → (if not b then (unauthorized (codes "认证信息格式错误"), w) else rest).0 ≡ respond_ok ctx
        → ⊥
    refused true rest e h = cc e
    refused false rest e h = cc h

    passed :
        (b : Bool) (rest : Response Context × World)
        → b ≡ true
        → (if not b then (unauthorized (codes "认证信息格式错误"), w) else rest).0 ≡ respond_ok ctx
        → rest.0 ≡ respond_ok ctx
    passed true rest e h = h
    passed false rest e h = absurd (cc e)

-- Behind the guard, a handler sees only the context of a bearer token that verifies, at that time,
-- as an access token.
pub auth_guard-IsGuarded :
    (l : Library) (secret header : Text) (w : World) (ctx : Context)
    → (auth_guard l secret header (λ c. reply (respond_ok c)) w).0 ≡ respond_ok ctx
    → IsGuarded l secret header w.now ctx
unfolding auth_guard
auth_guard-IsGuarded l secret [] w ctx h = absurd (cc h)
auth_guard-IsGuarded l secret (c ∷ s) w ctx h =
    guarded-IsGuarded l secret (c ∷ s) w ctx (split_space (c ∷ s)) refl h
