-- ===== src/Middleware/Bearer.antt =====
-- The tokens of a sign-in at the guard.
use prompt_manager.Base.{◌≡◌, refl, sym, ap, ◌∙◌, true, false, subst, ◌++◌}
use prompt_manager.Text.{Text, codes, same, is_empty, to_lower}
use prompt_manager.Domain.{Error, token_invalid, Result, ok, err, User}
use prompt_manager.Store.{World, pure, ◌>>◌}
use prompt_manager.Store.Quiet.{bind_ok, then_ok, raise_if_ok, bind_err, raise_if_err}
use prompt_manager.Auth.Library.{AuthService, Library, Claims}
use prompt_manager.Auth.Tokens.{Tokens}
use prompt_manager.Auth.Session.{login}
use prompt_manager.Auth.Laws.State.{is_after, whole_seconds, parse_token_result}
use prompt_manager.Auth.Laws.Issued.{IsSigner, login-IsIssued}
use prompt_manager.Http.Response.{Handler, answer_with}
use prompt_manager.Middleware.Guard.{
  Context, context_of, split_space, unauthorized, access_claims, guarded, auth_guard,
}

-- the header that a client sends with a token
abbrev pub bearer : Text → Text
bearer token = codes "Bearer " ++ token

-- what the guard does with a bearer token
module _ {A : Type 0} (l : Library) (secret token : Text) (next : Context → Handler A)
    (v : World) where
  auth_guard_bearer :
      auth_guard l secret (bearer token) next v
      ≡ answer_with
          (access_claims l secret token)
          (λ e. unauthorized (codes "令牌无效"))
          (λ claims. next (context_of claims))
          v
  unfolding auth_guard guarded split_space to_lower same
  auth_guard_bearer = refl

  auth_guard_passes :
      {claims : Claims}
      → access_claims l secret token v ≡ (ok claims, v)
      → auth_guard l secret (bearer token) next v ≡ next (context_of claims) v
  unfolding answer_with
  auth_guard_passes {claims} done =
      auth_guard_bearer
      ∙ ap
          (λ (r : Result Claims × World).
            answer_with (λ _. r) (λ e. unauthorized (codes "令牌无效"))
              (λ claims. next (context_of claims)) v)
          done

  auth_guard_refuses :
      {e : Error}
      → access_claims l secret token v ≡ (err e, v)
      → auth_guard l secret (bearer token) next v ≡ (unauthorized (codes "令牌无效"), v)
  unfolding answer_with
  auth_guard_refuses failed =
      auth_guard_bearer
      ∙ ap
          (λ (r : Result Claims × World).
            answer_with (λ _. r) (λ e. unauthorized (codes "令牌无效"))
              (λ claims. next (context_of claims)) v)
          failed

access_claims_ok :
    (l : Library) (secret token : Text) (v : World) {claims : Claims}
    → is_empty token ≡ false
    → l.verify secret v.now token ≡ ok claims
    → same claims.token_type (codes "access") ≡ true
    → access_claims l secret token v ≡ (ok claims, v)
unfolding access_claims pure
access_claims_ok l secret token v filled verified kind =
    bind_ok _ v (parse_token_result l secret token v filled verified) _
    ∙ then_ok _ v (raise_if_ok _ token_invalid v (rw kind refl)) _

-- a token that carries no access claims
access_claims_err :
    (l : Library) (secret token : Text) (v : World)
    → is_empty token ≡ false
    → ((claims : Claims)
        → l.verify secret v.now token ≡ ok claims
        → same claims.token_type (codes "access") ≡ false)
    → (e : Error) × (access_claims l secret token v ≡ (err e, v))
unfolding access_claims ◌>>◌
access_claims_err l secret token v filled other = go (l.verify secret v.now token) refl
  where
    go :
        (r : Result Claims)
        → l.verify secret v.now token ≡ r
        → (e : Error) × (access_claims l secret token v ≡ (err e, v))
    go (err x) e = (x, bind_err _ v (parse_token_result l secret token v filled e) _)
    go (ok claims) e = (
      token_invalid,
      bind_ok _ v (parse_token_result l secret token v filled e) _
          ∙ bind_err _ v (raise_if_err _ token_invalid v (rw (other claims e) refl)) _,
    )

-- Whatever happens between the statements of a login that succeeds, its access token as a bearer
-- token lets a request through the guard up to the whole second in which it expires, as the user
-- who signed in, and its refresh token never does, also where both kinds have one secret, if the
-- library is such a signer.
pub auth_guard-login :
    {A : Type 0} (s : AuthService) (email password : Text) (w v : World) (tokens : Tokens)
    (user : User) (next : Context → Handler A)
    → IsSigner s.library
    → (login s email password w).0 ≡ ok (tokens, user)
    → is_after (whole_seconds tokens.access_token_expires_at) v.now ≡ true
    → (auth_guard s.library s.cfg.access_token_secret (bearer tokens.access_token) next v
        ≡ next (record { user_id = user.id; user_email = user.email; user_role = user.role }) v)
      × (auth_guard s.library s.cfg.access_token_secret (bearer tokens.refresh_token) next v
          ≡ (unauthorized (codes "令牌无效"), v))
unfolding same
auth_guard-login s email password w v tokens user next signer h lives =
    let issued = login-IsIssued s email password w tokens user h in
    let read = signer.reads_back _ _ _ issued.access_signed in
    let good =
      subst (λ t. is_after (whole_seconds t) v.now ≡ true) (sym issued.access_expires) lives in
    let kept = signer.reads_back _ _ _ issued.refresh_signed in
    let secret = s.cfg.access_token_secret in
    (
      auth_guard_passes s.library secret tokens.access_token next v (
          access_claims_ok s.library secret tokens.access_token v read.filled
            (read.reads_back v.now good) refl),
      auth_guard_refuses s.library secret tokens.refresh_token next v
          (access_claims_err s.library secret tokens.refresh_token v kept.filled (λ claims verified.
            ap (λ (c : Claims). same c.token_type (codes "access"))
              (signer.carries _ secret _ _ claims v.now issued.refresh_signed verified))).1,
    )
