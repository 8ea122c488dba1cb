-- ===== src/Auth/Laws/Issued.antt =====
-- The tokens that a sign-in has issued, and what a refresh makes of them.
use prompt_manager.Base.{ℕ, ◌≡◌, refl, sym, ap, ◌∙◌, true, false, first, subst, Option, some}
use prompt_manager.Text.{Text, codes, same, is_empty}
use prompt_manager.Domain.{token_invalid, Result, ok, err, User}
use prompt_manager.Store.{clock, World, pure, found, missing_as}
use prompt_manager.Store.Inverse.{bind-Went, then-Went}
use prompt_manager.Store.Quiet.{
  IsQuiet, query_then_quiet, bind_ok, then_ok, raise_if_ok, map_error_ok,
}
use prompt_manager.Repository.Users
use prompt_manager.Auth.Library.{AuthService, Library, Claims, shift}
use prompt_manager.Auth.Tokens.{Tokens, issue_tokens, access_ttl, refresh_ttl, claims_of}
use prompt_manager.Auth.Session.{login, refresh}
use prompt_manager.Auth.Laws.State.{
  IsReadBack, in_seconds, timed, is_after, whole_seconds, generate_token_passed, parse_token_result,
}
use prompt_manager.Auth.Laws.Success.{issued_tokens, CanIssue, issue_tokens_ok}

-- What the library does with tokens: what it has signed it reads back under the same secret, and
-- under no secret a token gives other claims than it was signed with.
pub record IsSigner (l : Library) : Type 0 where
  pub reads_back :
      (secret token : Text) (claims : Claims)
      → l.sign secret claims ≡ ok token
      → IsReadBack l secret token claims
  pub carries :
      (secret other token : Text) (claims read : Claims) (now : ℕ)
      → l.sign secret claims ≡ ok token
      → l.verify other now token ≡ ok read
      → read ≡ in_seconds claims

-- Tokens that were signed for a user at a moment, each of its kind and with its secret.
pub record IsIssued (s : AuthService) (user : User) (tokens : Tokens) : Type 0 where
  pub now : ℕ
  pub access_signed :
      s.library.sign s.cfg.access_token_secret
        (timed (claims_of (codes "access") user) now (access_ttl s.cfg))
      ≡ ok tokens.access_token
  pub refresh_signed :
      s.library.sign s.cfg.refresh_token_secret
        (timed (claims_of (codes "refresh") user) now (refresh_ttl s.cfg))
      ≡ ok tokens.refresh_token
  pub access_expires : shift now (access_ttl s.cfg) ≡ tokens.access_token_expires_at
  pub refresh_expires : shift now (refresh_ttl s.cfg) ≡ tokens.refresh_token_expires_at

clock_passed : (w : World) {w' : World} {now : ℕ} → clock w ≡ (ok now, w') → now ≡ w'.now
unfolding clock
clock_passed w {w'} h = cc h

abbrev pair_or : {A : Type 0} → A → Result A → A
pair_or default (ok x) = x
pair_or default (err e) = default

issue_tokens-IsIssued :
    (s : AuthService) (user : User) (w : World) (tokens : Tokens)
    → (issue_tokens s user w).0 ≡ ok tokens
    → IsIssued s user tokens
unfolding issue_tokens pure
issue_tokens-IsIssued s user w tokens h =
    let a = bind-Went _ _ w h in
    let b = bind-Went _ _ a.world a.rest_done in
    let c = bind-Went _ _ b.world b.rest_done in
    let (access, same_world) = generate_token_passed s.library _ _ _ a.world b.first_done in
    let (refresh, _) = generate_token_passed s.library _ _ _ b.world c.first_done in
    let now = clock_passed w a.first_done in
    subst (IsIssued s user) (ap (pair_or tokens) c.rest_done) (record {
      now = a.world.now;
      access_signed = access;
      refresh_signed =
          ap
            (λ (v : World).
              s.library.sign s.cfg.refresh_token_secret
                (timed (claims_of (codes "refresh") user) v.now (refresh_ttl s.cfg)))
            (sym same_world)
          ∙ refresh;
      access_expires = ap (λ n. shift n (access_ttl s.cfg)) (sym now);
      refresh_expires = ap (λ n. shift n (refresh_ttl s.cfg)) (sym now);
    })

-- the tokens of a login
pub login-IsIssued :
    (s : AuthService) (email password : Text) (w : World) (tokens : Tokens) (user : User)
    → (login s email password w).0 ≡ ok (tokens, user)
    → IsIssued s user tokens
unfolding login pure
login-IsIssued s email password w tokens user h =
    let a = then-Went _ _ w h in
    let b = bind-Went _ _ a.world a.rest_done in
    let c = then-Went _ _ b.world b.rest_done in
    let d = then-Went _ _ c.world c.rest_done in
    let e = then-Went _ _ d.world d.rest_done in
    let f = bind-Went _ _ e.world e.rest_done in
    let issued =
      issue_tokens-IsIssued s b.result e.world f.result
        (ap (λ (r : Result Tokens × World). r.0) f.first_done) in
    subst (λ (x : Tokens × User). IsIssued s x.1 x.0) (ap (pair_or (tokens, user)) f.rest_done)
      issued

refresh_ok :
    (s : AuthService) (token : Text) (claims : Claims) (v : World) (u : User)
    (access renewed : Text)
    → IsQuiet v
    → is_empty token ≡ false
    → s.library.verify s.cfg.refresh_token_secret v.now token ≡ ok claims
    → same claims.token_type (codes "refresh") ≡ true
    → first (λ r. same r.email claims.subject) v.db.users ≡ some u
    → CanIssue s u v.now access renewed
    → refresh s token v ≡ (ok (issued_tokens s v.now access renewed, u), v)
unfolding refresh pure Users.get_by_email found
refresh_ok s token claims v u access renewed q filled verified kind row can =
    bind_ok _ v
      (map_error_ok (λ e. token_invalid) _ v
        (parse_token_result s.library s.cfg.refresh_token_secret token v filled verified))
      _
    ∙ then_ok _ v (raise_if_ok _ token_invalid v (rw kind refl)) _
    ∙ bind_ok _ v
        (map_error_ok (missing_as token_invalid) _ v
          (query_then_quiet v q _ found ∙ ap (λ (o : Option User). found o v) row))
        _
    ∙ bind_ok _ v (issue_tokens_ok s u access renewed v can) _

-- In a quiet world the refresh token of a login, which may itself have been interleaved with
-- anything, is exchanged for new tokens of the first user with the address of the one who signed in,
-- up to the whole second in which the token expires, if the library is such a signer and the new
-- tokens can be signed. Nothing is written.
pub refresh-login :
    (s : AuthService) (email password : Text) (w v : World) (tokens : Tokens) (user u : User)
    (access renewed : Text)
    → IsSigner s.library
    → (login s email password w).0 ≡ ok (tokens, user)
    → is_after (whole_seconds tokens.refresh_token_expires_at) v.now ≡ true
    → IsQuiet v
    → first (λ r. same r.email user.email) v.db.users ≡ some u
    → CanIssue s u v.now access renewed
    → refresh s tokens.refresh_token v ≡ (ok (issued_tokens s v.now access renewed, u), v)
unfolding same
refresh-login s email password w v tokens user u access renewed signer h lives q row can =
    let issued = login-IsIssued s email password w tokens user h in
    let read = signer.reads_back _ _ _ issued.refresh_signed in
    let good =
      subst (λ t. is_after (whole_seconds t) v.now ≡ true) (sym issued.refresh_expires) lives in
    refresh_ok s tokens.refresh_token _ v u access renewed q read.filled
      (read.reads_back v.now good) refl row can
