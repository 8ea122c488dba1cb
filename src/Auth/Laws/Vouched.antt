-- ===== src/Auth/Laws/Vouched.antt =====
-- What GitHub has said of someone who is signed in through it.
use prompt_manager.Base.{
  ℕ, ◌≡◌, refl, sym, subst, ap, Bool, true, false, not, ◌&&◌, ◌||◌, Bool-cases, ◌⊎◌, inl, inr, List,
  [], ◌∷◌, ◌++◌, any, arith, leb, if◌then◌else◌,
}
use prompt_manager.Text.{Text, codes, same, is_empty, trim_space, to_lower}
use prompt_manager.Domain.{Error, oauth_org_unauthorized, Result, ok, err}
use prompt_manager.Auth.Library.{
  AuthService, Reply, not_made, not_sent, replied, unreadable, undecodable, decoded, TokenPayload,
  UserPayload,
}
use prompt_manager.Auth.GitHub.{
  token_reply, exchange_reply, exchange_github_code, fetched, with_token, GitHubUserInfo, user_info,
  fetch_github_user, ◌andthen◌, filled_names, fetch_github_orgs, is_allowed, orgs_allowed,
  is_none_listed, ensure_github_org_access,
}

-- A reply of a status below 400 with a body that could be decoded.
pub record IsReply {A : Type 0} (r : Reply A) (a : A) : Type 0 where
  pub code : ℕ
  pub status : Text
  pub received : r ≡ replied code status (decoded a)
  pub good : leb 400 code ≡ false

-- GitHub has taken the code, with the secret of the client, and given a token for it.
pub record IsTaken (s : AuthService) (code state token : Text) : Type 0 where
  pub payload : TokenPayload
  pub reply : IsReply (exchange_reply s code state) payload
  pub no_error : is_empty payload.error ≡ true
  pub given : payload.access_token ≡ token
  pub filled : is_empty token ≡ false

-- GitHub has given the user of the token.
pub record IsKnown (s : AuthService) (token : Text) (info : GitHubUserInfo) : Type 0 where
  pub payload : UserPayload
  pub reply : IsReply (s.library.github.user (s.github_api_base_url ++ codes "/user") token) payload
  pub id : trim_space payload.id ≡ info.id
  pub filled : is_empty info.id ≡ false

-- GitHub has listed the organizations of the user of the token, and one of them, in lower case and
-- trimmed, is an allowed one.
pub record IsMember (s : AuthService) (token : Text) : Type 0 where
  pub logins : List Text
  pub reply :
      IsReply (s.library.github.orgs (s.github_api_base_url ++ codes "/user/orgs") token) logins
  pub allowed :
      any
        (λ login.
          any
            (λ o.
              not (is_empty (to_lower (trim_space o)))
              && same (to_lower (trim_space o)) (to_lower (trim_space login)))
            s.cfg.github.allowed_orgs)
        logins
      ≡ true

ok_of_second :
    {A : Type 0} (b : Bool) (e : Error) (r : Result A) {a : A}
    → (if b then err e else r) ≡ ok a
    → (b ≡ false) × (r ≡ ok a)
ok_of_second true e r h = absurd (cc h)
ok_of_second false e r h = (refl, h)

or_false : (a b : Bool) → (a || b) ≡ false → (a ≡ false) × (b ≡ false)
or_false true b h = absurd (cc h)
or_false false b h = (refl, h)

andthen-ok :
    {A B : Type 0} (r : Result A) (k : A → Result B) {b : B}
    → (r andthen k) ≡ ok b
    → (a : A) × ((r ≡ ok a) × (k a ≡ ok b))
andthen-ok (ok a) k h = (a, (refl, h))
andthen-ok (err e) k h = absurd (cc h)

never :
    {A : Type 0} (b : Bool) (e e' : Error) {a : A}
    → ◌≡◌ {A = Result A} (if b then err e else err e') (ok a)
    → ⊥
never true e e' h = cc h
never false e e' h = cc h

not-true : (b : Bool) → not b ≡ false → b ≡ true
not-true true h = refl
not-true false h = absurd (cc h)

abbrev value_or : {A : Type 0} → A → Result A → A
value_or a (ok b) = b
value_or a (err e) = a

pub exchange_github_code-IsTaken :
    (s : AuthService) (code state token : Text)
    → exchange_github_code s code state ≡ ok token
    → IsTaken s code state token
unfolding exchange_github_code
exchange_github_code-IsTaken s code state token h = go (exchange_reply s code state) refl h
  where
    go :
        (r : Reply TokenPayload)
        → exchange_reply s code state ≡ r
        → token_reply r ≡ ok token
        → IsTaken s code state token
    go (not_made e) same_reply h = absurd (cc h)
    go (not_sent e) same_reply h = absurd (cc h)
    go (replied n status unreadable) same_reply h = absurd (cc h)
    go (replied n status undecodable) same_reply h = absurd (cc h)
    go (replied n status (decoded p)) same_reply h =
        let (passed, rest) = ok_of_second (leb 400 n || not (is_empty p.error)) _ _ h in
        let (good, no_error) = or_false (leb 400 n) _ passed in
        let (filled, given) = ok_of_second (is_empty p.access_token) _ _ rest in
        let same_token = ap (value_or token) given in
        record {
          payload = p;
          reply = record { code = n; status = status; received = same_reply; good = good };
          no_error = not-true _ no_error;
          given = same_token;
          filled = subst (λ t. is_empty t ≡ false) same_token filled;
        }

fetched-ok :
    {A : Type 0} (refused undecoded : Text) (r : Reply A) (a : A)
    → fetched refused undecoded r ≡ ok a
    → IsReply r a
fetched-ok refused undecoded (not_made e) a h = absurd (cc h)
fetched-ok refused undecoded (not_sent e) a h = absurd (cc h)
fetched-ok refused undecoded (replied n status unreadable) a h = absurd (never (leb 400 n) _ _ h)
fetched-ok refused undecoded (replied n status undecodable) a h = absurd (never (leb 400 n) _ _ h)
fetched-ok refused undecoded (replied n status (decoded b)) a h =
    let (good, given) = ok_of_second _ _ _ h in
    record {
      code = n;
      status = status;
      received = ap (λ x. replied n status (decoded x)) (cc given);
      good = good;
    }

any_filled :
    (p : Text → Bool) (logins : List Text)
    → any p (filled_names logins) ≡ true
    → any (λ l. p (trim_space l)) logins ≡ true
unfolding filled_names
any_filled p [] h = h
any_filled p (l ∷ ls) h = ground (arith, h, any_filled p ls)

with_token-ok :
    {A : Type 0} (token : Text) (r : Result A) {a : A} → with_token token r ≡ ok a → r ≡ ok a
with_token-ok token r h = (ok_of_second (is_empty token) _ r h).1

pub fetch_github_user-IsKnown :
    (s : AuthService) (token : Text) (info : GitHubUserInfo)
    → fetch_github_user s token ≡ ok info
    → IsKnown s token info
unfolding fetch_github_user
fetch_github_user-IsKnown s token info h =
    let (p, (fetched_p, read)) = andthen-ok _ user_info (with_token-ok token _ h) in
    let (named, given) =
      ok_of_second (is_empty (trim_space p.id) || same (trim_space p.id) (codes "0")) _ _ read in
    let same_id = ap (λ (i : GitHubUserInfo). i.id) (ap (value_or info) given) in
    record {
      payload = p;
      reply = fetched-ok _ _ _ p fetched_p;
      id = same_id;
      filled = subst (λ t. is_empty t ≡ false) same_id (or_false _ _ named).0;
    }

orgs_allowed-ok :
    (allowed orgs : List Text)
    → orgs_allowed allowed orgs ≡ ok tt
    → any (is_allowed allowed) orgs ≡ true
unfolding orgs_allowed
orgs_allowed-ok allowed orgs h = elim (Bool-cases (any (is_allowed allowed) orgs)) [
  | inl is ↦ is
  | inr not_allowed ↦ absurd (refused _ _ not_allowed h)
]
  where
    refused :
        (b : Bool) (e : Error)
        → b ≡ false
        → ◌≡◌ {A = Result (Unit {0})} (if b then ok tt else err e) (ok tt)
        → ⊥
    refused true e n h = cc n
    refused false e n h = cc h

pub ensure_github_org_access-IsMember :
    (s : AuthService) (token : Text)
    → ensure_github_org_access s token ≡ ok tt
    → (s.cfg.github.allowed_orgs ≡ []) ⊎ IsMember s token
unfolding ensure_github_org_access fetch_github_orgs
ensure_github_org_access-IsMember s token h = go s.cfg.github.allowed_orgs refl h
  where
    go :
        (allowed : List Text)
        → s.cfg.github.allowed_orgs ≡ allowed
        → (if is_none_listed allowed
            then ok tt
            else fetch_github_orgs s token andthen λ orgs.
                if is_none_listed orgs
                then err oauth_org_unauthorized
                else orgs_allowed allowed orgs)
          ≡ ok tt
        → (allowed ≡ []) ⊎ IsMember s token
    go [] e h = inl refl
    go (o ∷ os) e h =
        let (orgs, (listed, rest)) = andthen-ok (fetch_github_orgs s token) _ h in
        let (some_org, access) = ok_of_second (is_none_listed orgs) _ _ rest in
        let (logins, (fetched_orgs, filtered)) = andthen-ok _ _ (with_token-ok token _ listed) in
        let found = orgs_allowed-ok (o ∷ os) orgs access in
        let named =
          subst (λ (names : List Text). any (is_allowed (o ∷ os)) names ≡ true)
            (sym (ap (value_or orgs) filtered)) found in
        inr (record {
          logins = logins;
          reply = fetched-ok _ _ _ logins fetched_orgs;
          allowed =
              subst (λ (a : List Text). any (λ l. is_allowed a (trim_space l)) logins ≡ true)
                (sym e) (any_filled (is_allowed (o ∷ os)) logins named);
        })
