-- ===== src/Http/SigninLaws.antt =====
-- What the sign-in handlers answer when GitHub does not take the code.
use prompt_manager.Base.{ℕ, ◌≡◌, refl, ap, subst, Bool, true, false, if◌then◌else◌}
use prompt_manager.Text.{Text, codes}
use prompt_manager.Domain.{Error, message, Result, ok, err}
use prompt_manager.Auth.Library.{
  AuthService, Reply, not_made, not_sent, replied, unreadable, undecodable, decoded, TokenPayload,
}
use prompt_manager.Auth.GitHub.{
  failed, reason_of, token_of, token_reply, exchange_reply, exchange_github_code,
}
use prompt_manager.Http.Response.{Response, respond_error}
use prompt_manager.Http.Signin.{CallbackAnswer, signin_error}

abbrev pub is_made : {A : Type 0} → Reply A → Bool
is_made (not_made e) = false
is_made (not_sent e) = true
is_made (replied code status body) = true

abbrev IsInternal : Error → Type 0
IsInternal e =
    ◌≡◌ {A = Response CallbackAnswer} (signin_error e)
      (respond_error 500 (codes "INTERNAL_ERROR") (message e))

abbrev error_or : {A : Type 0} → Error → Result A → Error
error_or e (ok a) = e
error_or e (err x) = x

wrapped-IsInternal : (detail : Text) {e : Error} → failed {A = Text} detail ≡ err e → IsInternal e
unfolding signin_error
wrapped-IsInternal detail {e} h = subst (λ x. IsInternal x) (ap (error_or e) h) refl

token_of-IsInternal :
    (code : ℕ) (status : Text) (payload : TokenPayload) {e : Error}
    → token_of code status payload ≡ err e
    → IsInternal e
token_of-IsInternal code status payload {e} h = go _ _ h
  where
    go :
        (b c : Bool)
        → (if b
            then failed (reason_of payload.error_description status)
            else if c
            then failed (codes "empty access token")
            else ok payload.access_token)
          ≡ err e
        → IsInternal e
    go true c h = wrapped-IsInternal _ h
    go false true h = wrapped-IsInternal _ h
    go false false h = absurd (cc h)

token_reply-IsInternal :
    (r : Reply TokenPayload) {e : Error} → is_made r ≡ true → token_reply r ≡ err e → IsInternal e
token_reply-IsInternal (not_made x) made h = absurd (cc made)
token_reply-IsInternal (not_sent x) made h = wrapped-IsInternal _ h
token_reply-IsInternal (replied c st unreadable) made h = wrapped-IsInternal _ h
token_reply-IsInternal (replied c st undecodable) made h = wrapped-IsInternal _ h
token_reply-IsInternal (replied c st (decoded payload)) made h = token_of-IsInternal c st payload h

-- Whatever goes wrong when a code is exchanged, once the request has been made, is answered with
-- the status 500 and never with the 502 of ErrOAuthExchangeFailed, which it wraps.
pub exchange_status :
    (s : AuthService) (code state : Text) (e : Error)
    → is_made (exchange_reply s code state) ≡ true
    → exchange_github_code s code state ≡ err e
    → ◌≡◌ {A = Response CallbackAnswer}
        (signin_error e)
        (respond_error 500 (codes "INTERNAL_ERROR") (message e))
unfolding exchange_github_code
exchange_status s code state e made h = token_reply-IsInternal (exchange_reply s code state) made h
