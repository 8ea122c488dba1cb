-- ===== src/Domain/Entities.antt =====
-- internal/domain/entities.go and repository.go. Times are numbers of a clock.
use prompt_manager.Base.{ℕ, ℤ, Bool, Option}
use prompt_manager.Text.{Text}
use prompt_manager.Domain.Values.{RawMessage}

pub record User : Type 0 where
  pub id : Text
  pub email : Text
  pub hashed_password : Text
  pub role : Text
  pub status : Text
  pub last_login_at : Option ℕ
  pub created_at : ℕ
  pub updated_at : ℕ

pub record UserIdentity : Type 0 where
  pub id : Text
  pub user_id : Text
  pub provider : Text
  pub provider_user_id : Text
  pub provider_login : Option Text
  pub avatar_url : Option Text
  pub created_at : ℕ
  pub updated_at : ℕ

pub record Prompt : Type 0 where
  pub id : Text
  pub name : Text
  pub description : Option Text
  pub tags : RawMessage
  pub active_version_id : Option Text
  pub body : Option Text
  pub created_by : Option Text
  pub status : Text
  pub deleted_at : Option ℕ
  pub created_at : ℕ
  pub updated_at : ℕ

pub record PromptVersion : Type 0 where
  pub id : Text
  pub prompt_id : Text
  pub version_number : ℕ
  pub body : Text
  pub variables_schema : RawMessage
  pub status : Text
  pub metadata : RawMessage
  pub created_by : Option Text
  pub created_at : ℕ

pub record PromptExecutionLog : Type 0 where
  pub id : Text
  pub prompt_id : Text
  pub prompt_version_id : Text
  pub user_id : Option Text
  pub status : Text
  pub duration_ms : ℤ
  pub request_payload : RawMessage
  pub response_metadata : RawMessage
  pub created_at : ℕ

-- An average, as the sum and the number of the values that it is taken of.
pub record Average : Type 0 where
  pub sum : ℤ
  pub count : ℕ

-- `day` is the number of a day, and `average_millis` is 0 where it is none
pub record PromptExecutionAggregate : Type 0 where
  pub day : ℕ
  pub total_calls : ℕ
  pub success_calls : ℕ
  pub average_millis : Option Average

pub record PromptAuditLog : Type 0 where
  pub id : Text
  pub prompt_id : Text
  pub action : Text
  pub payload : RawMessage
  pub created_by : Option Text
  pub created_at : ℕ

pub record PromptListOptions : Type 0 where
  pub limit : ℤ
  pub offset : ℤ
  pub search : Text
  pub include_deleted : Bool

pub record PromptUpdateParams : Type 0 where
  pub name : Option Text
  pub description : Option Text
  pub tags : RawMessage
  pub has_name : Bool
  pub has_description : Bool
  pub has_tags : Bool

pub record PromptRestoreParams : Type 0 where
  pub description : Option Text
  pub tags : RawMessage
  pub created_by : Option Text
  pub body : Option Text
  pub has_description : Bool
  pub has_tags : Bool
  pub has_created_by : Bool
  pub has_body : Bool
