-- ===== src/Config/Laws.antt =====
-- What a configuration that has been loaded promises.
use prompt_manager.Base.{
  ◌≡◌, refl, subst, ℤ, Bool, true, false, not, ◌&&◌, ◌||◌, Bool-cases, inl, inr, List, [], ◌∷◌, any,
  is_positive, ltb, if◌then◌else◌,
}
use prompt_manager.Text.{Text, codes, same, is_empty, trim_space, to_lower, contains}
use prompt_manager.Domain.{Result, ok, err}
use prompt_manager.Config.Settings.{Config, GitHubOAuthConfig}
use prompt_manager.Config.Defaults.{
  number_or, positive_or, list_or, is_zero, apply_defaults, determine_env,
}
use prompt_manager.Config.Validate.{
  byte_length, Checked, refuse_if, ◌and_then◌, validate_secret, validate_origins,
  validate_github_oauth_config, validate_config, checked, load, has_blank, uri_parsed,
}

abbrev pub is_nil : List Text → Bool
is_nil [] = true
is_nil (x ∷ xs) = false

enabled_branch :
    (b : Bool) (rest : Checked) → b ≡ true → (if not b then ok tt else rest) ≡ ok tt → rest ≡ ok tt
enabled_branch true rest e h = h
enabled_branch false rest e h = absurd (cc e)

and_refuted : (b c : Bool) → c ≡ false → (b && c) ≡ false
and_refuted true c h = h
and_refuted false c h = refl

refuse_if-ok :
    (c : Bool) (text : Text) (rest : Checked)
    → refuse_if c text rest ≡ ok tt
    → (c ≡ false) × (rest ≡ ok tt)
refuse_if-ok true text rest h = absurd (cc h)
refuse_if-ok false text rest h = (refl, h)

and_then-ok : (a b : Checked) → (a and_then b) ≡ ok tt → (a ≡ ok tt) × (b ≡ ok tt)
and_then-ok (ok _) b h = (refl, h)
and_then-ok (err e) b h = absurd (cc h)

-- A secret of 32 bytes at least that is not the placeholder.
pub record IsSecret (secret : Text) : Type 0 where
  pub long : ltb (byte_length (trim_space secret)) 32 ≡ false
  pub own : contains (to_lower (trim_space secret)) (codes "change-me") ≡ false

validate_secret-ok : (field secret : Text) → validate_secret field secret ≡ ok tt → IsSecret secret
unfolding validate_secret
validate_secret-ok field secret h =
    let (long, rest) = refuse_if-ok _ _ _ h in
    let (own, done) = refuse_if-ok _ _ _ rest in record { long = long; own = own }

-- Origins that are not blank, and in production no wildcard.
abbrev pub bad_origin : Text → Text → Bool
bad_origin env origin =
    is_empty (trim_space origin)
    || same env (codes "production") && same (trim_space origin) (codes "*")

validate_origins-ok :
    (origins : List Text) (env : Text)
    → validate_origins origins env ≡ ok tt
    → any (bad_origin env) origins ≡ false
unfolding validate_origins
validate_origins-ok [] env h = refl
validate_origins-ok (origin ∷ origins) env h =
    let (filled, rest) = refuse_if-ok (is_empty (trim_space origin)) _ _ h in
    let (tame, others) =
      refuse_if-ok (same env (codes "production") && same (trim_space origin) (codes "*")) _ _
        rest in
    rw (filled, tame) (validate_origins-ok origins env others)

-- the settings of a sign-in by GitHub, where it is enabled
pub record IsOauth (g : GitHubOAuthConfig) : Type 0 where
  pub client : (g.enabled && is_empty (trim_space g.client_id)) ≡ false
  pub secret : (g.enabled && is_empty (trim_space g.client_secret)) ≡ false
  pub redirect : (g.enabled && is_empty (trim_space g.redirect_url)) ≡ false
  pub scopes : (g.enabled && has_blank g.scopes) ≡ false
  pub orgs : (g.enabled && has_blank g.allowed_orgs) ≡ false

uri_parsed-ok : (r : Result (Unit {0})) (rest : Checked) → uri_parsed r rest ≡ ok tt → rest ≡ ok tt
uri_parsed-ok (ok _) rest h = h
uri_parsed-ok (err e) rest h = absurd (cc h)

validate_github_oauth_config-ok :
    (parse_uri : Text → Result (Unit {0})) (g : GitHubOAuthConfig)
    → validate_github_oauth_config parse_uri g ≡ ok tt
    → IsOauth g
unfolding validate_github_oauth_config
validate_github_oauth_config-ok parse_uri g h = elim (Bool-cases g.enabled) [
  | inr off ↦ record {
    client = rw off refl;
    secret = rw off refl;
    redirect = rw off refl;
    scopes = rw off refl;
    orgs = rw off refl;
  }
  | inl on ↦
      let h1 = enabled_branch g.enabled _ on h in
      let (client, h2) = refuse_if-ok _ _ _ h1 in
      let (secret, h3) = refuse_if-ok _ _ _ h2 in
      let (redirect, h4) = refuse_if-ok _ _ _ h3 in
      let h5 = uri_parsed-ok _ _ h4 in
      let (scopes, h6) = refuse_if-ok _ _ _ h5 in
      let (orgs, h7) = refuse_if-ok _ _ _ h6 in
      record {
        client = and_refuted g.enabled _ client;
        secret = and_refuted g.enabled _ secret;
        redirect = and_refuted g.enabled _ redirect;
        scopes = and_refuted g.enabled _ scopes;
        orgs = and_refuted g.enabled _ orgs;
      }
]

-- What the server relies on.
pub record IsUsable (cfg : Config) : Type 0 where
  pub access : IsSecret cfg.auth.access_token_secret
  pub refresh : IsSecret cfg.auth.refresh_token_secret
  pub api_key : IsSecret cfg.auth.api_key_hash_secret
  pub oauth : IsOauth cfg.auth.github
  pub state_ttl : is_positive cfg.auth.github.state_ttl ≡ true
  pub origins : any (bad_origin cfg.app.env) cfg.server.cors.allow_origins ≡ false
  pub some_origin : is_nil cfg.server.cors.allow_origins ≡ false
  pub port : is_zero cfg.server.port ≡ false
  pub body : is_positive cfg.server.max_request_body ≡ true
  pub nosniff : cfg.server.security_headers.content_type_nosniff ≡ true

positive_or-IsPositive :
    (value default : ℤ)
    → is_positive default ≡ true
    → is_positive (positive_or value default) ≡ true
positive_or-IsPositive value default h = elim (Bool-cases (is_positive value)) [
  | inl p ↦ rw p p
  | inr p ↦ rw p h
]

number_or-nonzero :
    (value default : ℤ) → is_zero default ≡ false → is_zero (number_or value default) ≡ false
number_or-nonzero value default h = elim (Bool-cases (is_zero value)) [
  | inl p ↦ rw p h
  | inr p ↦ rw p p
]

list_or-filled : (xs : List Text) (x : Text) (ys : List Text) → is_nil (list_or xs (x ∷ ys)) ≡ false
list_or-filled [] x ys = refl
list_or-filled (y ∷ xs) x ys = refl

checked-ok :
    (cfg cfg' : Config) (r : Checked) → checked cfg r ≡ ok cfg' → (cfg ≡ cfg') × (r ≡ ok tt)
checked-ok cfg cfg' (ok _) h = (cc h, refl)
checked-ok cfg cfg' (err e) h = absurd (cc h)

validated :
    (parse_uri : Text → Result (Unit {0})) (decoded : Config) (env : Text)
    → validate_config parse_uri (apply_defaults decoded env) ≡ ok tt
    → IsUsable (apply_defaults decoded env)
unfolding validate_config apply_defaults
validated parse_uri decoded env h =
    let (a, h1) = and_then-ok _ _ h in
    let (b, h2) = and_then-ok _ _ h1 in
    let (c, h3) = and_then-ok _ _ h2 in
    let (d, h4) = and_then-ok _ _ h3 in
    let (e, h5) = and_then-ok _ _ h4 in
    let (f, h6) = and_then-ok _ _ h5 in
    record {
      access = validate_secret-ok _ _ a;
      refresh = validate_secret-ok _ _ b;
      api_key = validate_secret-ok _ _ c;
      oauth = validate_github_oauth_config-ok parse_uri _ f;
      state_ttl = positive_or-IsPositive decoded.auth.github.state_ttl _ refl;
      origins = validate_origins-ok _ _ d;
      some_origin = list_or-filled decoded.server.cors.allow_origins _ _;
      port = number_or-nonzero decoded.server.port _ refl;
      body = positive_or-IsPositive decoded.server.max_request_body _ refl;
      nosniff = refl;
    }

-- A configuration that Load gives has secrets of 32 bytes that are not the placeholder, origins
-- that are not blank and without the wildcard in production, the settings of GitHub where it is
-- enabled, and a port, a body limit and a time to live to work with.
pub load-IsUsable :
    (parse_uri : Text → Result (Unit {0})) (env from_env : Text) (decoded : Result Config)
    (cfg : Config)
    → load parse_uri env from_env decoded ≡ ok cfg
    → IsUsable cfg
unfolding load
load-IsUsable parse_uri env from_env (err e) cfg h = absurd (cc h)
load-IsUsable parse_uri env from_env (ok decoded) cfg h =
    let (same_cfg, valid) = checked-ok _ cfg _ h in
    subst IsUsable same_cfg (validated parse_uri decoded (determine_env env from_env) valid)
