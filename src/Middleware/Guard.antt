-- ===== src/Middleware/Guard.antt =====
-- auth_guard.go
use prompt_manager.Base.{ℕ, not, Option, none, some, List, any, [], ◌∷◌, ◌==◌, if◌then◌else◌}
use prompt_manager.Text.{Text, codes, same, is_empty, to_lower}
use prompt_manager.Domain.{token_invalid}
use prompt_manager.Store.{Action, ◌>>=◌, ◌>>◌, pure, raise_if}
use prompt_manager.Auth.Library.{Library, Claims}
use prompt_manager.Auth.Tokens.{parse_token}
use prompt_manager.Http.Response.{Response, respond_error, Handler, answer_with}

-- what the guard leaves in the context: user_id, user_email and user_role
pub record Context : Type 0 where
  pub user_id : Text
  pub user_email : Text
  pub user_role : Text

abbrev pub put_front : ℕ → Option (Text × Text) → Option (Text × Text)
put_front c none = none
put_front c (some (front, rest)) = some (c ∷ front, rest)

-- strings.SplitN(header, " ", 2): the text before the first space and the text behind it
unfoldable pub split_space : Text → Option (Text × Text)
split_space [] = none
split_space (c ∷ s) =
    let rest = split_space s in if c == b' ' then some ([], s) else put_front c rest

abbrev pub unauthorized : {A : Type 0} → Text → Response A
unauthorized text = respond_error 401 (codes "UNAUTHORIZED") text

abbrev pub context_of : Claims → Context
context_of claims = record {
  user_id = claims.user_id;
  user_email = claims.subject;
  user_role = claims.role;
}

-- the claims of an access token
unfoldable pub access_claims : Library → (secret token : Text) → Action Claims
access_claims l secret token = do
  claims ← parse_token l token secret
  raise_if (not (same claims.token_type (codes "access"))) token_invalid
  pure claims

-- the guard behind the split of the header
unfoldable pub guarded :
    {A : Type 0} → Library → Text → Option (Text × Text) → (Context → Handler A) → Handler A
guarded l secret none next w = (unauthorized (codes "认证信息格式错误"), w)
guarded l secret (some (scheme, token)) next w =
    if not (same (to_lower scheme) (codes "bearer"))
    then (unauthorized (codes "认证信息格式错误"), w)
    else answer_with (access_claims l secret token) (λ e. unauthorized (codes "令牌无效"))
        (λ claims. next (context_of claims)) w

-- the guard in front of a handler of the context
unfoldable pub auth_guard :
    {A : Type 0} → Library → (secret header : Text) → (Context → Handler A) → Handler A
auth_guard l secret header next w =
    if is_empty header
    then (unauthorized (codes "缺少认证信息"), w)
    else guarded l secret (split_space header) next w

unfoldable pub require_roles : {A : Type 0} → List Text → Context → Handler A → Handler A
require_roles roles ctx next w =
    if any (λ role. same (to_lower role) (to_lower ctx.user_role)) roles
    then next w
    else (respond_error 403 (codes "FORBIDDEN") (codes "当前角色无权限执行该操作"), w)
