-- ===== src/Auth/Laws/Success.antt =====
-- A login that has to succeed.
use prompt_manager.Base.{
  ℕ, zero, suc, ◌≡◌, refl, ap, ◌∙◌, ℤ, true, false, ◌||◌, Option, some, first, count, update, [],
  ◌∷◌,
}
use prompt_manager.Text.{Text, codes, same, is_empty, trim_space, to_lower}
use prompt_manager.Domain.{invalid_credentials, user_disabled, Result, ok, User}
use prompt_manager.Store.{
  clock, World, ◌>>=◌, pure, raise, missing_as, found, lift, affected, update_users,
}
use prompt_manager.Store.Quiet.{
  IsQuiet, query_then_quiet, exec_then_quiet, bind_ok, then_ok, raise_if_ok, map_error_ok,
  attempt_result,
}
use prompt_manager.Repository.Users
use prompt_manager.Auth.Library.{AuthService, Library, Claims, shift}
use prompt_manager.Auth.Tokens.{
  Tokens, generate_token, issue_tokens, access_ttl, refresh_ttl, claims_of,
}
use prompt_manager.Auth.Session.{normalize_email, unless_missing, record_login, login}
use prompt_manager.Auth.Laws.State.{timed}

abbrev seen_at : ℕ → User → User
seen_at now u = record u { last_login_at = some now; updated_at = now }

abbrev pub seen_world : User → World → World
seen_world u w = record w {
  db = record w.db { users = update (λ r. same r.id u.id) (seen_at w.now) w.db.users };
}

-- a login that is recorded, whether or not a row was hit
recorded :
    (n : ℕ) (u : User) (w : World) → unless_missing (affected n w).0 (affected n w).1 ≡ (ok tt, w)
unfolding affected unless_missing raise pure
recorded zero u w = refl
recorded (suc n) u w = refl

record_login_quiet : (u : User) (w : World) → IsQuiet w → record_login u w ≡ (ok tt, seen_world u w)
unfolding record_login Users.update_last_login update_users
record_login_quiet u w q =
    let n = count (λ r. same r.id u.id) w.db.users in
    bind_ok _ w
      (attempt_result _ w
        (exec_then_quiet _ affected w q ∙ bind_ok (λ _. (ok n, seen_world u w)) w refl affected))
      unless_missing
    ∙ recorded n u (seen_world u w)

generate_token_ok :
    (l : Library) (secret : Text) (ttl : ℤ) (claims : Claims) (w : World) {token : Text}
    → is_empty secret ≡ false
    → l.sign secret (timed claims w.now ttl) ≡ ok token
    → generate_token l secret ttl claims w ≡ (ok token, w)
unfolding generate_token clock ◌>>=◌ lift
generate_token_ok l [] ttl claims w h e = absurd (cc h)
generate_token_ok l (c ∷ s) ttl claims w h e = ap (λ (r : Result Text). (r, w)) e

abbrev pub issued_tokens : AuthService → ℕ → (access refresh : Text) → Tokens
issued_tokens s now access refresh = record {
  access_token = access;
  access_token_expires_at = shift now (access_ttl s.cfg);
  refresh_token = refresh;
  refresh_token_expires_at = shift now (refresh_ttl s.cfg);
}

-- Both tokens can be signed, each with its secret.
pub record CanIssue (s : AuthService) (u : User) (now : ℕ) (access refresh : Text) : Type 0 where
  pub access_secret : is_empty s.cfg.access_token_secret ≡ false
  pub refresh_secret : is_empty s.cfg.refresh_token_secret ≡ false
  pub access_signed :
      s.library.sign s.cfg.access_token_secret
        (timed (claims_of (codes "access") u) now (access_ttl s.cfg))
      ≡ ok access
  pub refresh_signed :
      s.library.sign s.cfg.refresh_token_secret
        (timed (claims_of (codes "refresh") u) now (refresh_ttl s.cfg))
      ≡ ok refresh

pub issue_tokens_ok :
    (s : AuthService) (u : User) (access refresh : Text) (w : World)
    → CanIssue s u w.now access refresh
    → issue_tokens s u w ≡ (ok (issued_tokens s w.now access refresh), w)
unfolding issue_tokens pure clock
issue_tokens_ok s u access refresh w can =
    bind_ok clock w refl _
    ∙ bind_ok _ w
        (generate_token_ok s.library s.cfg.access_token_secret _ _ w can.access_secret
          can.access_signed)
        _
    ∙ bind_ok _ w
        (generate_token_ok s.library s.cfg.refresh_token_secret _ _ w can.refresh_secret
          can.refresh_signed)
        _

-- In a quiet world, a login with an address that in lower case and trimmed is that of an active user,
-- and the password of that user, where the tokens can be signed, succeeds with these tokens and that
-- user, and notes the time of the login.
pub login_ok :
    (s : AuthService) (email password : Text) (w : World) (u : User) (access refresh : Text)
    → IsQuiet w
    → (is_empty (trim_space (to_lower email)) || is_empty password) ≡ false
    → first (λ r. same r.email (trim_space (to_lower email))) w.db.users ≡ some u
    → same u.status (codes "active") ≡ true
    → s.library.verify_password u.hashed_password password ≡ true
    → CanIssue s u w.now access refresh
    → login s email password w ≡ (ok (issued_tokens s w.now access refresh, u), seen_world u w)
unfolding login pure Users.get_by_email found normalize_email
login_ok s email password w u access refresh q given row active fits can =
    then_ok _ w (raise_if_ok _ invalid_credentials w given) _
    ∙ bind_ok _ w
        (map_error_ok (missing_as invalid_credentials) _ w
          (query_then_quiet w q _ found ∙ ap (λ (o : Option User). found o w) row))
        _
    ∙ then_ok _ w (raise_if_ok _ user_disabled w (rw active refl)) _
    ∙ then_ok _ w (raise_if_ok _ invalid_credentials w (rw fits refl)) _
    ∙ then_ok _ w (record_login_quiet u w q) _
    ∙ bind_ok _ (seen_world u w) (issue_tokens_ok s u access refresh (seen_world u w) can) _
