-- ===== src/Auth/Tokens.antt =====
-- pkg/auth/jwt.go, and issueTokens.
use prompt_manager.Base.{ℤ, pos, [], ◌∷◌, if◌then◌else◌}
use prompt_manager.Text.{Text, codes, is_empty}
use prompt_manager.Domain.{other, err, User}
use prompt_manager.Store.{clock, Action, ◌>>=◌, pure, lift}
use prompt_manager.Config.Settings.{AuthConfig}
use prompt_manager.Config.Defaults.{positive_or, seconds}
use prompt_manager.Auth.Library.{Library, AuthService, Claims, shift}

unfoldable pub generate_token : Library → Text → ℤ → Claims → Action Text
generate_token l secret ttl claims =
    if is_empty secret
    then lift (err (other (codes "jwt secret missing")))
    else clock >>= λ now.
        lift (l.sign secret (record claims { issued_at = now; expires_at = shift now ttl }))

unfoldable pub parse_token : Library → Text → Text → Action Claims
parse_token l token secret =
    if is_empty token
    then lift (err (other (codes "token empty")))
    else clock >>= λ now. lift (l.verify secret now token)

pub record Tokens : Type 0 where
  pub access_token : Text
  pub access_token_expires_at : ℤ
  pub refresh_token : Text
  pub refresh_token_expires_at : ℤ

abbrev pub access_ttl : AuthConfig → ℤ
access_ttl cfg = positive_or cfg.access_token_ttl (seconds 900)

abbrev pub refresh_ttl : AuthConfig → ℤ
refresh_ttl cfg = positive_or cfg.refresh_token_ttl (seconds 2592000)

-- the claims of a user's token; GenerateToken sets the times
abbrev pub claims_of : Text → User → Claims
claims_of token_type user = record {
  user_id = user.id;
  role = user.role;
  token_type = token_type;
  metadata = [];
  subject = user.email;
  issuer = codes "prompt-manager";
  audience = codes "prompt-manager" ∷ [];
  issued_at = 0;
  expires_at = pos 0;
}

unfoldable pub issue_tokens : AuthService → User → Action Tokens
issue_tokens s user = do
  now ← clock
  access ←
      generate_token s.library s.cfg.access_token_secret (access_ttl s.cfg)
        (claims_of (codes "access") user)
  refresh ←
      generate_token s.library s.cfg.refresh_token_secret (refresh_ttl s.cfg)
        (claims_of (codes "refresh") user)
  pure (record {
    access_token = access;
    access_token_expires_at = shift now (access_ttl s.cfg);
    refresh_token = refresh;
    refresh_token_expires_at = shift now (refresh_ttl s.cfg);
  })
