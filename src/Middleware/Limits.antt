-- ===== src/Middleware/Limits.antt =====
-- ratelimit.go and bodylimit.go
use prompt_manager.Base.{ℤ, Bool, is_positive, Option, none, some, if◌then◌else◌}
use prompt_manager.Text.{Text, codes, is_empty}
use prompt_manager.Domain.{message, Result, ok, err}
use prompt_manager.Http.Response.{Response, respond_error}

-- what the limiter says of a key
pub record Quota : Type 0 where
  pub limit : ℤ
  pub remaining : ℤ
  pub reset : ℤ
  pub reached : Bool

unfoldable pub key_by_user_or_ip : (user_id client_ip : Text) → Text
key_by_user_or_ip user_id client_ip = if is_empty user_id then client_ip else user_id

abbrev pub limit_key : (key client_ip : Text) → Text
limit_key key client_ip = if is_empty key then client_ip else key

-- the headers X-RateLimit-Limit, -Remaining and -Reset
pub record QuotaHeaders : Type 0 where
  pub limit : ℤ
  pub remaining : ℤ
  pub reset : ℤ

abbrev pub quota_headers : Quota → QuotaHeaders
quota_headers q = record { limit = q.limit; remaining = q.remaining; reset = q.reset }

-- `get` is the limiter; the answer comes with the headers, if they have been set
unfoldable pub rate_limit :
    {A W : Type 0}
    → (Text → W → Result Quota × W)
    → (key client_ip : Text) → (W → Response A × W)
    → W
    → (Response A × Option QuotaHeaders) × W
rate_limit get key client_ip next w =
    let (quota, w') = get (limit_key key client_ip) w in
    elim quota [
      | err e ↦ ((respond_error 500 (codes "RATE_LIMIT_ERROR") (message e), none), w')
      | ok q ↦
          if q.reached
          then (
            (
              respond_error 429 (codes "RATE_LIMIT_EXCEEDED") (codes "请求过于频繁，请稍后再试"),
              some (quota_headers q),
            ),
            w',
          )
          else (let (r, w'') = next w' in ((r, some (quota_headers q)), w''))
    ]

-- the most that a handler can read of the body, if there is a limit
unfoldable pub limit_request_body : ℤ → Option ℤ
limit_request_body max_bytes = if is_positive max_bytes then some max_bytes else none
