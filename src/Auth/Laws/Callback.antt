-- ===== src/Auth/Laws/Callback.antt =====
-- Whom the callback of GitHub signs in.
use prompt_manager.Base.{ℕ, ◌≡◌, sym, subst, ap, true, [], ◌⊎◌}
use prompt_manager.Text.{Text, codes, same, trim_space}
use prompt_manager.Domain.{
  oauth_disabled, oauth_state_invalid, user_disabled, Result, ok, err, User,
}
use prompt_manager.Store.{World, pure}
use prompt_manager.Store.Inverse.{
  bind-Went, then-Went, raise_if_passed, map_error_passed, lift_passed,
}
use prompt_manager.Auth.Library.{AuthService, Claims}
use prompt_manager.Auth.State.{OauthState, parse_oauth_state}
use prompt_manager.Auth.GitHub.{GitHubUserInfo}
use prompt_manager.Auth.Laws.Vouched.{
  IsTaken, IsKnown, IsMember, exchange_github_code-IsTaken, fetch_github_user-IsKnown,
  ensure_github_org_access-IsMember,
}
use prompt_manager.Auth.Callback.{
  SignedIn, ask_github, local_user, github_state, handle_github_callback,
}
use prompt_manager.Auth.Laws.Entry.{not-false, parse_token_passed}

-- A state of GitHub's flow, which verifies under the secret of access tokens.
pub record IsState (s : AuthService) (state : Text) : Type 0 where
  pub now : ℕ
  pub claims : Claims
  pub verified : s.library.verify s.cfg.access_token_secret now state ≡ ok claims
  pub kind : same claims.token_type (codes "oauth_state") ≡ true
  pub provider : same (trim_space claims.subject) (codes "github") ≡ true

-- What GitHub has said: the token of the code, the user of the token, and, where the configuration
-- allows some organizations only, that the user belongs to one of them.
pub record IsVouched (s : AuthService) (code state : Text) : Type 0 where
  pub token : Text
  pub info : GitHubUserInfo
  pub exchanged : IsTaken s code state token
  pub known : IsKnown s token info
  pub member : (s.cfg.github.allowed_orgs ≡ []) ⊎ IsMember s token

pub record IsAdmitted (s : AuthService) (code state : Text) (user : User) : Type 0 where
  pub enabled : s.cfg.github.enabled ≡ true
  pub issued : IsState s state
  pub vouched : IsVouched s code state
  pub active : same user.status (codes "active") ≡ true

abbrev provider_or : Text → Result OauthState → Text
provider_or provider (ok st) = st.provider
provider_or provider (err e) = provider

state_parsed :
    (s : AuthService) (state : Text) (w : World) (st : OauthState)
    → (parse_oauth_state s state w).0 ≡ ok st
    → same st.provider (codes "github") ≡ true
    → IsState s state
unfolding parse_oauth_state pure
state_parsed s state w st h github =
    let a = bind-Went _ _ w h in
    let b = then-Went _ _ a.world a.rest_done in
    record {
      now = w.now;
      claims = a.result;
      verified = parse_token_passed s.library state s.cfg.access_token_secret w a.first_done;
      kind = not-false _ (raise_if_passed _ oauth_state_invalid a.world b.first_done);
      provider =
          subst (λ p. same p (codes "github") ≡ true)
            (sym (ap (provider_or st.provider) b.rest_done)) github;
    }

github_state-IsState :
    (s : AuthService) (state : Text) (w : World) {w' : World} {st : OauthState}
    → github_state s state w ≡ (ok st, w')
    → IsState s state
unfolding github_state
github_state-IsState s state w h =
    let a = bind-Went _ _ w (ap (λ (r : Result OauthState × World). r.0) h) in
    let b = then-Went _ _ a.world a.rest_done in
    state_parsed s state w a.result
      (ap (λ (r : Result OauthState × World). r.0) (map_error_passed _ _ w a.first_done))
      (not-false _ (raise_if_passed _ oauth_state_invalid a.world b.first_done))

ask_github-IsVouched :
    (s : AuthService) (code state : Text) (w : World) {w' : World} {asked : Text × GitHubUserInfo}
    → ask_github s code state w ≡ (ok asked, w')
    → IsVouched s code state
unfolding ask_github
ask_github-IsVouched s code state w h =
    let a = bind-Went _ _ w (ap (λ (r : Result (Text × GitHubUserInfo) × World). r.0) h) in
    let b = bind-Went _ _ a.world a.rest_done in
    let c = bind-Went _ _ b.world b.rest_done in
    let d = then-Went _ _ c.world c.rest_done in
    record {
      token = a.result;
      info = b.result;
      exchanged = exchange_github_code-IsTaken s code state _ (lift_passed _ w a.first_done);
      known = fetch_github_user-IsKnown s _ _ (lift_passed _ a.world b.first_done);
      member = ensure_github_org_access-IsMember s _ (lift_passed _ c.world d.first_done);
    }

abbrev second_user : User → Result User → User
second_user user (ok u) = u
second_user user (err e) = user

local_user_active :
    (s : AuthService) (email : Text) (gh : GitHubUserInfo) (w : World) (user : User)
    → (local_user s email gh w).0 ≡ ok user
    → same user.status (codes "active") ≡ true
unfolding local_user pure
local_user_active s email gh w user h =
    let a = then-Went _ _ w h in
    let b = bind-Went _ _ a.world a.rest_done in
    let c = bind-Went _ _ b.world b.rest_done in
    let d = then-Went _ _ c.world c.rest_done in
    let e = then-Went _ _ d.world d.rest_done in
    subst (λ (u : User). same u.status (codes "active") ≡ true) (ap (second_user user) e.rest_done)
      (not-false _ (raise_if_passed _ user_disabled c.world d.first_done))

abbrev user_or : User → Result SignedIn → User
user_or user (ok r) = r.user
user_or user (err e) = user

-- Whatever happens between its statements, a callback that succeeds came back with a state that
-- verifies as one of GitHub's flow and with a code for which GitHub gave a token and then the user of
-- that token, who, if the list of allowed organizations is not empty, belongs to one of them by what
-- GitHub says; and it signs in an active user.
pub handle_github_callback-IsAdmitted :
    (s : AuthService) (code state : Text) (w : World) (r : SignedIn)
    → (handle_github_callback s code state w).0 ≡ ok r
    → IsAdmitted s (trim_space code) (trim_space state) r.user
unfolding handle_github_callback pure
handle_github_callback-IsAdmitted s code state w r h =
    let a = then-Went _ _ w h in
    let b = then-Went _ _ a.world a.rest_done in
    let c = bind-Went _ _ b.world b.rest_done in
    let d = bind-Went _ _ c.world c.rest_done in
    let e = bind-Went _ _ d.world d.rest_done in
    let f = bind-Went _ _ e.world e.rest_done in
    let g = bind-Went _ _ f.world f.rest_done in
    subst (λ (u : User). IsAdmitted s (trim_space code) (trim_space state) u)
      (ap (user_or r.user) g.rest_done)
      (record {
        enabled = not-false s.cfg.github.enabled (raise_if_passed _ oauth_disabled w a.first_done);
        issued = github_state-IsState s (trim_space state) b.world c.first_done;
        vouched = ask_github-IsVouched s (trim_space code) (trim_space state) d.world e.first_done;
        active =
            local_user_active s e.result.0 e.result.1 e.world f.result
              (ap (λ (x : Result User × World). x.0) f.first_done);
      })
