-- ===== src/Middleware/BearerTests.antt =====
-- A signer of two tokens, and a login with it.
use prompt_manager.Base.{
  ℕ, ◌≡◌, refl, sym, ap, ◌∙◌, Bool, true, false, inl, inr, ◌⊎◌, Option, none, some, List, [], ◌∷◌,
  subst, ◌==◌, ℤ, pos, negsuc, if◌then◌else◌, arith,
}
use mathlib.Core.Option
use prompt_manager.Text.{Text, codes, same}
use prompt_manager.Text.Laws.{same_iff}
use prompt_manager.Domain.{other, Result, ok, err}
use prompt_manager.Store.{clock}
use prompt_manager.Auth.Library.{AuthService, Library, Claims}
use prompt_manager.Auth.Tokens.{claims_of, access_ttl, refresh_ttl}
use prompt_manager.Auth.Laws.State.{IsReadBack, timed, in_seconds, is_after}
use prompt_manager.Auth.Laws.Issued.{IsSigner, refresh-login}
use prompt_manager.Repository.Users
use prompt_manager.Store.{update_users}
use prompt_manager.Auth.Tokens.{Tokens, generate_token, issue_tokens}
use prompt_manager.Auth.Session.{normalize_email, unless_missing, record_login, login, refresh}
use prompt_manager.Auth.Laws.Success.{issued_tokens}
use prompt_manager.Http.Response.{respond_ok, reply}
use prompt_manager.Middleware.Guard.{unauthorized, auth_guard}
use prompt_manager.Middleware.Bearer.{bearer, auth_guard-login}
use prompt_manager.Prompt.Run.{service}
use prompt_manager.Auth.Tests.{s, cfg, library, ann, home}

-- a proof that two texts, lists, numbers or claims are the same, where they are
some_if : {A : Type 0} (b : Bool) → (b ≡ true → A) → Option A
some_if true f = some (f refl)
some_if false f = none

text_match : (s t : Text) → Option (s ≡ t)
text_match s t = some_if (same s t) (same_iff s t).0

number_match : (m n : ℕ) → Option (m ≡ n)
number_match m n = some_if (m == n) (λ h. ground (arith, h))

both : {A B : Type 0} → Option A → Option B → Option (A × B)
both (some a) (some b) = some (a, b)
both (some a) none = none
both none b = none

integer_match : (m n : ℤ) → Option (m ≡ n)
integer_match (pos m) (pos n) = Option.map (ap pos) (number_match m n)
integer_match (pos m) (negsuc n) = none
integer_match (negsuc m) n = none

metadata_match : (m : List (Text × Text)) → Option (m ≡ [])
metadata_match [] = some refl
metadata_match (x ∷ m) = none

audience_match : (m : List Text) (t : Text) → Option (m ≡ t ∷ [])
audience_match (s ∷ []) t = Option.map (ap (λ u. u ∷ [])) (text_match s t)
audience_match _ t = none

claims_ext :
    (c d : Claims)
    → c.user_id ≡ d.user_id
    → c.role ≡ d.role
    → c.token_type ≡ d.token_type
    → c.metadata ≡ d.metadata
    → c.subject ≡ d.subject
    → c.issuer ≡ d.issuer
    → c.audience ≡ d.audience
    → c.issued_at ≡ d.issued_at
    → c.expires_at ≡ d.expires_at
    → c ≡ d
claims_ext c d = cc

-- the claims of one user in one audience, without metadata
claims_match : (c d : Claims) (t : Text) → d.metadata ≡ [] → d.audience ≡ t ∷ [] → Option (c ≡ d)
claims_match c d t plain one =
    Option.map
      (λ (u, (r, (k, (m, (s, (i, (a, (at, until)))))))).
        claims_ext c d u r k (m ∙ sym plain) s i (a ∙ sym one) at until)
      (both (text_match c.user_id d.user_id) (
        both (text_match c.role d.role) (
          both (text_match c.token_type d.token_type) (
            both (metadata_match c.metadata) (
              both (text_match c.subject d.subject) (
                both (text_match c.issuer d.issuer) (
                  both (audience_match c.audience t) (
                    both (number_match c.issued_at d.issued_at)
                      (integer_match c.expires_at d.expires_at)))))))))

abbrev access_ann : Claims
access_ann = timed (claims_of (codes "access") ann) 5 (access_ttl cfg)

abbrev refresh_ann : Claims
refresh_ann = timed (claims_of (codes "refresh") ann) 5 (refresh_ttl cfg)

abbrev signed : {A B : Type 0} → Option A → Option B → Result Text
signed (some a) b = ok (codes "a")
signed none (some b) = ok (codes "r")
signed none none = err (other (codes "cannot be signed"))

abbrev sign_ann : Claims → Result Text
sign_ann c =
    signed (claims_match c access_ann (codes "prompt-manager") refl refl)
      (claims_match c refresh_ann (codes "prompt-manager") refl refl)

abbrev if_live : Bool → Claims → Result Claims
if_live true c = ok (in_seconds c)
if_live false c = err (other (codes "expired"))

abbrev verify_ann : ℕ → Text → Result Claims
verify_ann now t =
    if same t (codes "a")
    then if_live (is_after (in_seconds access_ann).expires_at now) access_ann
    else if same t (codes "r")
    then if_live (is_after (in_seconds refresh_ann).expires_at now) refresh_ann
    else err (other (codes "bad token"))

abbrev signer : Library
signer = record library { sign = λ secret c. sign_ann c; verify = λ secret now t. verify_ann now t }

-- the two things that the signer signs
signed_cases :
    {A B : Type 0} (a : Option A) (b : Option B) (t : Text)
    → signed a b ≡ ok t
    → (A × (codes "a" ≡ t)) ⊎ (B × (codes "r" ≡ t))
signed_cases (some a) b t h = inl (a, cc h)
signed_cases none (some b) t h = inr (b, cc h)
signed_cases none none t h = absurd (cc h)

live_read : (b : Bool) (c read : Claims) → if_live b c ≡ ok read → read ≡ in_seconds c
live_read true c read h = cc h
live_read false c read h = absurd (cc h)

module _ (secret : Text) where
  access-IsReadBack : IsReadBack signer secret (codes "a") access_ann
  unfolding same
  access-IsReadBack = record { reads_back = λ now good. rw good refl; filled = refl }

  refresh-IsReadBack : IsReadBack signer secret (codes "r") refresh_ann
  unfolding same
  refresh-IsReadBack = record { reads_back = λ now good. rw good refl; filled = refl }

signer-IsSigner : IsSigner signer
unfolding same
signer-IsSigner = record {
  reads_back = λ secret t c h. elim (signed_cases _ _ t h) [
    | inl (e, f) ↦
        subst (λ (x : Claims × Text). IsReadBack signer secret x.1 x.0) (λ i. (sym e i, f i))
          (access-IsReadBack secret)
    | inr (e, f) ↦
        subst (λ (x : Claims × Text). IsReadBack signer secret x.1 x.0) (λ i. (sym e i, f i))
          (refresh-IsReadBack secret)
  ];
  carries = λ secret other t c read now h verified. elim (signed_cases _ _ t h) [
    | inl (e, f) ↦
        live_read _ access_ann read (subst (λ u. verify_ann now u ≡ ok read) (sym f) verified)
        ∙ ap in_seconds (sym e)
    | inr (e, f) ↦
        live_read _ refresh_ann read (subst (λ u. verify_ann now u ≡ ok read) (sym f) verified)
        ∙ ap in_seconds (sym e)
  ];
}

abbrev signing : AuthService
signing = record s { library = signer }

abbrev issued_ann : Tokens
issued_ann = issued_tokens signing 5 (codes "a") (codes "r")

login_ann : (login signing (codes " ANN@x.org") (codes "pw") home).0 ≡ ok (issued_ann, ann)
unfolding service normalize_email login unless_missing record_login issue_tokens clock
    generate_token update_users Users.get_by_email Users.update_last_login claims_match some_if
    text_match number_match integer_match metadata_match audience_match both
login_ann = refl

auth_guard-login_example :
    (auth_guard signer (codes "access") (bearer (codes "a")) (λ ctx. reply (respond_ok ctx)) home
      ≡ (
        respond_ok (record {
          user_id = codes "7";
          user_email = codes "ann@x.org";
          user_role = codes "viewer";
        }),
        home,
      ))
    × (auth_guard signer (codes "access") (bearer (codes "r")) (λ ctx. reply (respond_ok ctx)) home
        ≡ (unauthorized (codes "令牌无效"), home))
auth_guard-login_example =
    auth_guard-login signing (codes " ANN@x.org") (codes "pw") home home issued_ann ann
      (λ ctx. reply (respond_ok ctx)) signer-IsSigner login_ann refl

refresh-login_example : refresh signing (codes "r") home ≡ (ok (issued_ann, ann), home)
unfolding same claims_match some_if text_match number_match integer_match metadata_match
    audience_match both
refresh-login_example =
    refresh-login signing (codes " ANN@x.org") (codes "pw") home home issued_ann ann ann (codes "a")
      (codes "r") signer-IsSigner login_ann refl refl refl
      (record {
        access_secret = refl;
        refresh_secret = refl;
        access_signed = refl;
        refresh_signed = refl;
      })
