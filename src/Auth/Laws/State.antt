-- ===== src/Auth/Laws/State.antt =====
-- The state of an OAuth flow, and who comes back with it.
use prompt_manager.Base.{
  ℕ, suc, ◌≡◌, refl, sym, subst, ap, ◌∙◌, ℤ, pos, negsuc, Bool, true, false, List, [], ◌∷◌, arith,
  ◌+◌, ◌-◌, ◌%◌, pos_part, leb, ltb,
}
use prompt_manager.Text.{Text, codes, same, is_empty, trim_space}
use prompt_manager.Text.Laws.{trim_space_idem}
use prompt_manager.Domain.{oauth_state_invalid, Result, ok}
use prompt_manager.Store.{clock, World, ◌>>=◌, pure, lift, new_id}
use prompt_manager.Store.Quiet.{bind_ok, then_ok, raise_if_ok}
use prompt_manager.Auth.Library.{AuthService, Library, Claims, shift, metadata_at}
use prompt_manager.Auth.Tokens.{generate_token, parse_token}
use prompt_manager.Auth.State.{
  OauthState, state_claims, state_of, unless_empty, generate_oauth_state, parse_oauth_state,
  normalize_response_mode,
}

-- whether a token that expires then is still good
abbrev pub is_after : ℤ → ℕ → Bool
is_after (pos n) now = ltb now n
is_after (negsuc _) now = false

-- jwt.NewNumericDate: the whole seconds of a time
abbrev pub whole_seconds : ℤ → ℤ
whole_seconds (pos n) = pos (n - n % 1000000000)
whole_seconds (negsuc n) = negsuc (n - n % 1000000000 + 999999999)

-- the claims as a token holds them
abbrev pub in_seconds : Claims → Claims
in_seconds claims = record claims {
  issued_at = pos_part (whole_seconds (pos claims.issued_at));
  expires_at = whole_seconds claims.expires_at;
}

-- What the library does with a token that it has signed: it is not empty, and it gives its claims,
-- their times in whole seconds, until it expires.
pub record IsReadBack (l : Library) (secret token : Text) (claims : Claims) : Type 0 where
  pub reads_back :
      (now : ℕ)
      → is_after (in_seconds claims).expires_at now ≡ true
      → l.verify secret now token ≡ ok (in_seconds claims)
  pub filled : is_empty token ≡ false

-- the claims that a token of a time and a time to live carries
abbrev pub timed : Claims → ℕ → ℤ → Claims
timed claims now ttl = record claims { issued_at = now; expires_at = shift now ttl }

shift_after :
    (now : ℕ) (ttl : ℤ)
    → leb 1000000000 (pos_part ttl) ≡ true
    → is_after (whole_seconds (shift now ttl)) now ≡ true
shift_after now (pos n) h = ground (arith, h)
shift_after now (negsuc n) h = absurd (cc h)

abbrev metadata_behind : (origin redirect nonce : Text) → List (Text × Text)
metadata_behind origin redirect nonce =
    unless_empty (codes "client_origin") origin
      (unless_empty (codes "redirect_uri") redirect ((codes "nonce", nonce) ∷ []))

redirect_read :
    (o r nonce : Text) → metadata_at (codes "redirect_uri") (metadata_behind o r nonce) ≡ r
unfolding same
redirect_read [] [] nonce = refl
redirect_read [] (c ∷ s) nonce = refl
redirect_read (d ∷ t) [] nonce = refl
redirect_read (d ∷ t) (c ∷ s) nonce = refl

origin_read :
    (o r nonce : Text) → metadata_at (codes "client_origin") (metadata_behind o r nonce) ≡ o
unfolding same
origin_read [] [] nonce = refl
origin_read [] (c ∷ s) nonce = refl
origin_read (d ∷ t) r nonce = refl

abbrev read_state : (provider redirect mode origin : Text) → OauthState
read_state provider redirect mode origin = record {
  provider = trim_space provider;
  redirect = trim_space redirect;
  mode = normalize_response_mode mode;
  origin = trim_space origin;
}

-- the state that is read from the claims
state_of_claims :
    (p r m o nonce : Text) (now : ℕ) (ttl : ℤ)
    → state_of (in_seconds (timed (state_claims p r m o nonce) now ttl)) ≡ read_state p r m o
unfolding same
state_of_claims p r m o nonce now ttl =
    ap
      (λ (x : Text).
        read_state p x m
          (metadata_at (codes "client_origin") (metadata_behind (trim_space o) r nonce)))
      (redirect_read (trim_space o) r nonce)
    ∙ ap (λ (y : Text). read_state p r m y) (origin_read (trim_space o) r nonce)
    ∙ ap
        (λ (y : Text). record {
          provider = trim_space p;
          redirect = trim_space r;
          mode = normalize_response_mode m;
          origin = y;
        })
        (trim_space_idem o)

pub generate_token_passed :
    (l : Library) (secret : Text) (ttl : ℤ) (claims : Claims) (w : World) {w' : World}
    {token : Text}
    → generate_token l secret ttl claims w ≡ (ok token, w')
    → (l.sign secret (timed claims w.now ttl) ≡ ok token) × (w' ≡ w)
unfolding generate_token clock ◌>>=◌ lift
generate_token_passed l [] ttl claims w h = absurd (cc h)
generate_token_passed l (c ∷ s) ttl claims w h =
    (ap (λ (x : Result Text × World). x.0) h, sym (ap (λ (x : Result Text × World). x.1) h))

pub parse_token_result :
    (l : Library) (secret token : Text) (w : World) {r : Result Claims}
    → is_empty token ≡ false
    → l.verify secret w.now token ≡ r
    → parse_token l token secret w ≡ (r, w)
unfolding parse_token clock ◌>>=◌ lift
parse_token_result l secret [] w h e = absurd (cc h)
parse_token_result l secret (c ∷ s) w h e = ap (λ (r : Result Claims). (r, w)) e

generated :
    (s : AuthService) (provider redirect mode origin : Text) (w w' : World) (token : Text)
    → generate_oauth_state s provider redirect mode origin w ≡ (ok token, w')
    → generate_token s.library s.cfg.access_token_secret s.cfg.github.state_ttl
        (state_claims provider redirect mode origin (w.uuid w.issued))
        (record w { issued = suc w.issued })
      ≡ (ok token, w')
unfolding generate_oauth_state new_id ◌>>=◌
generated s provider redirect mode origin w w' token h = h

-- A state that has been issued with a time to live of a second or more is read back as it was made,
-- in the moment after, if the library reads back what it signs: its provider, redirect and origin
-- trimmed, and its mode normalized.
pub parse-generate_oauth_state :
    (s : AuthService) (provider redirect mode origin : Text) (w w' : World) (token : Text)
    → IsReadBack s.library s.cfg.access_token_secret token (
        timed
          (state_claims provider redirect mode origin (w.uuid w.issued))
          w.now
          s.cfg.github.state_ttl)
    → leb 1000000000 (pos_part s.cfg.github.state_ttl) ≡ true
    → generate_oauth_state s provider redirect mode origin w ≡ (ok token, w')
    → parse_oauth_state s token w' ≡ (
      ok (record {
        provider = trim_space provider;
        redirect = trim_space redirect;
        mode = normalize_response_mode mode;
        origin = trim_space origin;
      }),
      w',
    )
unfolding parse_oauth_state pure same
parse-generate_oauth_state s provider redirect mode origin w w' token signer lives h =
    let nonce = w.uuid w.issued in
    let (signed, same_world) =
      generate_token_passed s.library _ _ _ _
        (generated s provider redirect mode origin w w' token h) in
    let claims =
      in_seconds
        (timed (state_claims provider redirect mode origin nonce) w.now s.cfg.github.state_ttl) in
    let now : w.now ≡ w'.now = ap (λ (v : World). v.now) (sym same_world) in
    let good =
      subst (λ n. is_after claims.expires_at n ≡ true) now
        (shift_after w.now s.cfg.github.state_ttl lives) in
    let read = signer.reads_back w'.now good in
    bind_ok _ w'
      (parse_token_result s.library s.cfg.access_token_secret token w' signer.filled read) _
    ∙ then_ok _ w' (raise_if_ok _ oauth_state_invalid w' refl) _
    ∙ ap (λ (st : OauthState). (ok st, w'))
        (state_of_claims provider redirect mode origin nonce w.now s.cfg.github.state_ttl)
