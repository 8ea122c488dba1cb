-- ===== src/Domain/Errors.antt =====
-- Go's error values: the named ones of each package, those with a text of their own, and the
-- wrapped ones of `fmt.Errorf("%w: …", err)`.
use prompt_manager.Base.{Bool, true, false, ◌++◌}
use prompt_manager.Text.{Text, codes, to_lower, contains}

pub data Error : Type 0 where
  -- internal/domain/errors.go
  not_found : Error
  -- internal/service/prompt/errors.go
  name_required body_required prompt_not_found version_not_found : Error
  prompt_already_exists no_fields_to_update prompt_not_deleted : Error
  -- internal/service/auth/errors.go
  invalid_input user_exists invalid_credentials user_disabled token_invalid : Error
  oauth_disabled oauth_state_invalid oauth_exchange_failed : Error
  oauth_email_missing oauth_org_unauthorized : Error
  -- an error of a library, or of errors.New and fmt.Errorf, by its text
  other : Text → Error
  wrapped : Error → Text → Error

-- err.Error()
unfoldable pub message : Error → Text
message not_found = codes "domain: not found"
message name_required = codes "prompt name required"
message body_required = codes "prompt body required"
message prompt_not_found = codes "prompt not found"
message version_not_found = codes "prompt version not found"
message prompt_already_exists = codes "prompt already exists"
message no_fields_to_update = codes "no prompt fields to update"
message prompt_not_deleted = codes "prompt is not deleted"
message invalid_input = codes "invalid input"
message user_exists = codes "user already exists"
message invalid_credentials = codes "invalid credentials"
message user_disabled = codes "user disabled"
message token_invalid = codes "token invalid"
message oauth_disabled = codes "oauth disabled"
message oauth_state_invalid = codes "oauth state invalid"
message oauth_exchange_failed = codes "oauth exchange failed"
message oauth_email_missing = codes "oauth email missing"
message oauth_org_unauthorized = codes "oauth organization not allowed"
message (other text) = text
message (wrapped e detail) = message e ++ (codes ": " ++ detail)

-- errors.Is(err, domain.ErrNotFound)
abbrev pub is_not_found : Error → Bool
is_not_found not_found = true
is_not_found (wrapped e _) = is_not_found e
is_not_found _ = false

-- isUniqueViolation
unfoldable pub is_unique_violation : Error → Bool
unfolding message to_lower contains
is_unique_violation err = contains (to_lower (message err)) (codes "unique")

-- The result of a call that can fail.
pub data Result {ℓ} (A : Type ℓ) : Type ℓ where
  ok : A → Result A
  err : Error → Result A
