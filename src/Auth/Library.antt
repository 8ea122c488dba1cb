-- ===== src/Auth/Library.antt =====
-- What the sign-in takes from libraries and from GitHub: signed tokens, password hashes, URLs, and
-- the replies to requests.
use prompt_manager.Base.{ℕ, suc, ◌+◌, ◌-◌, ℤ, pos, negsuc, Bool, List, [], ◌∷◌, ltb, if◌then◌else◌}
use prompt_manager.Text.{Text, same}
use prompt_manager.Domain.{Error, Result}
use prompt_manager.Config.Settings.{AuthConfig}

-- A time after a duration, which may be negative.
abbrev pub shift : ℕ → ℤ → ℤ
shift now (pos n) = pos (now + n)
shift now (negsuc n) = if ltb n now then pos (now - suc n) else negsuc (n - now)

-- pkg/auth.Claims; `metadata` is a map, nil where it is empty
pub record Claims : Type 0 where
  pub user_id : Text
  pub role : Text
  pub token_type : Text
  pub metadata : List (Text × Text)
  pub subject : Text
  pub issuer : Text
  pub audience : List Text
  pub issued_at : ℕ
  pub expires_at : ℤ

-- the value of a key, and "" for none
abbrev pub metadata_at : Text → List (Text × Text) → Text
metadata_at key [] = []
metadata_at key (m ∷ ms) = if same m.0 key then m.1 else metadata_at key ms

pub record Url : Type 0 where
  pub scheme : Text
  pub host : Text
  pub is_abs : Bool
  pub string : Text

-- What comes of a request: it cannot be made, it cannot be sent, or there is a reply.
pub data Body (A : Type 0) : Type 0 where
  unreadable : Body A
  undecodable : Body A
  decoded : A → Body A

pub data Reply (A : Type 0) : Type 0 where
  not_made : Error → Reply A
  not_sent : Error → Reply A
  replied : (status_code : ℕ) (status : Text) (body : Body A) → Reply A

pub record TokenPayload : Type 0 where
  pub access_token : Text
  pub error : Text
  pub error_description : Text

pub record UserPayload : Type 0 where
  pub id : Text
  pub login : Text
  pub email : Text
  pub avatar_url : Text

pub record EmailEntry : Type 0 where
  pub email : Text
  pub primary : Bool
  pub verified : Bool

-- The replies to the requests of a client: the exchange, by its form, and those with a token.
pub record GitHub : Type 0 where
  pub token : (url form : Text) → Reply TokenPayload
  pub user : (url token : Text) → Reply UserPayload
  pub emails : (url token : Text) → Reply (List EmailEntry)
  -- the `login` of each organization
  pub orgs : (url token : Text) → Reply (List Text)

pub record Library : Type 0 where
  -- SignedString with HS256, and ParseWithClaims at a time
  pub sign : (secret : Text) → Claims → Result Text
  pub verify : (secret : Text) → ℕ → (token : Text) → Result Claims
  -- bcrypt
  pub hash_password : Text → Result Text
  pub verify_password : (hash plain : Text) → Bool
  pub parse_url : Text → Result Url
  -- url.Values.Encode
  pub encode : List (Text × Text) → Text
  pub github : GitHub

-- the Service of the package
pub record AuthService : Type 0 where
  pub cfg : AuthConfig
  pub library : Library
  pub github_auth_url : Text
  pub github_token_url : Text
  pub github_api_base_url : Text
