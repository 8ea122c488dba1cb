-- ===== src/Auth/Laws/Entry.antt =====
-- Login, Refresh and the callback: what a success tells of the user and the token.
use prompt_manager.Base.{
  ℕ, ◌≡◌, refl, subst, ap, Bool, true, false, not, ◌||◌, Bool-cases, inl, inr, first, first_passes,
  if◌then◌else◌,
}
use prompt_manager.Text.{Text, codes, same, is_empty, trim_space, to_lower}
use prompt_manager.Domain.{
  other, token_invalid, invalid_credentials, user_disabled, Result, ok, err, User,
}
use prompt_manager.Store.{clock, World, ◌>>=◌, pure, lift}
use prompt_manager.Store.Inverse.{
  bind-Went, then-Went, raise_if_passed, map_error_passed, query-found-Read,
}
use prompt_manager.Repository.Users
use prompt_manager.Auth.Library.{AuthService, Library, Claims}
use prompt_manager.Auth.Tokens.{Tokens, parse_token}
use prompt_manager.Auth.Session.{normalize_email, login, refresh}

pub not-false : (b : Bool) → not b ≡ false → b ≡ true
not-false true h = refl
not-false false h = absurd (cc h)

abbrev pub second_of : {A B : Type 0} → B → Result (A × B) → B
second_of b (ok (x, y)) = y
second_of b (err e) = b

found_by_email :
    (email : Text) (w : World) {w' : World} {u : User}
    → Users.get_by_email email w ≡ (ok u, w')
    → same u.email email ≡ true
unfolding Users.get_by_email
found_by_email email w {w'} {u} h =
    let read = query-found-Read (λ _ db. first (λ u. same u.email email) db.users) w h in
    first_passes (λ u. same u.email email) read.db.users u read.row

-- Who has signed in: an active user of the address, whose password it was.
pub record IsEntry (s : AuthService) (email password : Text) (user : User) : Type 0 where
  pub address : same user.email (trim_space (to_lower email)) ≡ true
  pub active : same user.status (codes "active") ≡ true
  pub password_fits : s.library.verify_password user.hashed_password password ≡ true
  pub given : (is_empty (trim_space (to_lower email)) || is_empty password) ≡ false

-- Whatever happens between its statements, a login that succeeds gives the active user whose
-- address, in lower case and trimmed, and password were given.
pub login-IsEntry :
    (s : AuthService) (email password : Text) (w : World) (tokens : Tokens) (user : User)
    → (login s email password w).0 ≡ ok (tokens, user)
    → IsEntry s email password user
unfolding login pure normalize_email
login-IsEntry s email password w tokens user h =
    let a = then-Went _ _ w h in
    let b = bind-Went _ _ a.world a.rest_done in
    let c = then-Went _ _ b.world b.rest_done in
    let d = then-Went _ _ c.world c.rest_done in
    let e = then-Went _ _ d.world d.rest_done in
    let f = bind-Went _ _ e.world e.rest_done in
    let it = ap (second_of user) f.rest_done in
    subst (IsEntry s email password) it (record {
      address =
          found_by_email (trim_space (to_lower email)) a.world
            (map_error_passed _ _ a.world b.first_done);
      active = not-false _ (raise_if_passed _ user_disabled b.world c.first_done);
      password_fits = not-false _ (raise_if_passed _ invalid_credentials c.world d.first_done);
      given = raise_if_passed _ invalid_credentials w a.first_done;
    })

-- A token that the library verifies at some time, under a secret, for a user.
pub record IsRefresh (s : AuthService) (token : Text) (user : User) : Type 0 where
  pub now : ℕ
  pub claims : Claims
  pub verified : s.library.verify s.cfg.refresh_token_secret now token ≡ ok claims
  pub kind : same claims.token_type (codes "refresh") ≡ true
  pub address : same user.email claims.subject ≡ true

pub parse_token_passed :
    (l : Library) (token secret : Text) (w : World) {w' : World} {claims : Claims}
    → parse_token l token secret w ≡ (ok claims, w')
    → l.verify secret w.now token ≡ ok claims
unfolding parse_token clock ◌>>=◌ lift
parse_token_passed l token secret w {w'} {claims} h = elim (Bool-cases (is_empty token)) [
  | inl blank ↦ absurd (refused (is_empty token) blank h)
  | inr given ↦ passed (is_empty token) given h
]
  where
    refused :
        (b : Bool)
        → b ≡ true
        → (if b then lift (err (other (codes "token empty"))) else λ v.
              (l.verify secret v.now token, v))
            w
          ≡ (ok claims, w')
        → ⊥
    refused true e h = cc h
    refused false e h = cc e

    passed :
        (b : Bool)
        → b ≡ false
        → (if b then lift (err (other (codes "token empty"))) else λ v.
              (l.verify secret v.now token, v))
            w
          ≡ (ok claims, w')
        → l.verify secret w.now token ≡ ok claims
    passed true e h = absurd (cc e)
    passed false e h = ap (λ (x : Result Claims × World). x.0) h

-- Whatever happens between its statements, a refresh that succeeds was given a token that verifies
-- under the secret of refresh tokens and is of their type, and gives the user of its subject.
pub refresh-IsRefresh :
    (s : AuthService) (token : Text) (w : World) (tokens : Tokens) (user : User)
    → (refresh s token w).0 ≡ ok (tokens, user)
    → IsRefresh s token user
unfolding refresh pure
refresh-IsRefresh s token w tokens user h =
    let a = bind-Went _ _ w h in
    let b = then-Went _ _ a.world a.rest_done in
    let c = bind-Went _ _ b.world b.rest_done in
    let d = bind-Went _ _ c.world c.rest_done in
    let it = ap (second_of user) d.rest_done in
    subst (IsRefresh s token) it (record {
      now = w.now;
      claims = a.result;
      verified =
          parse_token_passed s.library token s.cfg.refresh_token_secret w
            (map_error_passed _ _ w a.first_done);
      kind = not-false _ (raise_if_passed _ token_invalid a.world b.first_done);
      address = found_by_email a.result.subject b.world (map_error_passed _ _ b.world c.first_done);
    })
