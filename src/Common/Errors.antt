-- ===== src/Common/Errors.antt =====
-- src/common/errors/app.exception.ts and src/common/constants/error-codes.ts. Messages are left out.
use idea_project.Base.{ℕ}
use idea_project.Schema.{UserRole}

pub data ErrorCode : Type 0 where
  auth_invalid_credentials auth_unauthorized auth_forbidden auth_email_taken : ErrorCode
  auth_email_not_verified auth_account_suspended auth_invalid_token auth_token_expired : ErrorCode
  auth_google_token_invalid auth_google_account_mismatch : ErrorCode
  validation_error not_found_error rate_limited conflict_error internal_error : ErrorCode
  business_not_found business_access_denied business_invalid_state_transition : ErrorCode
  listing_not_found listing_incomplete : ErrorCode
  offer_not_found offer_not_allowed offer_invalid_state_transition offer_already_accepted :
      ErrorCode
  deal_not_found deal_access_denied deal_invalid_state_transition : ErrorCode
  document_not_found document_access_denied document_invalid_file : ErrorCode
  conversation_not_found conversation_access_denied : ErrorCode
  ai_analysis_unavailable ai_rate_limited ai_insufficient_data : ErrorCode
  webhook_invalid_signature : ErrorCode

pub data HttpStatus : Type 0 where
  bad_request unauthorized forbidden not_found conflict too_many_requests : HttpStatus

-- `failure` is a plain `Error` (an invalid transition), `record_not_found`,
-- `unique_violation` and `foreign_key_violation` are what the database client throws.
pub data Error : Type 0 where
  app : ErrorCode → HttpStatus → Error
  failure : Error
  record_not_found : Error
  unique_violation : Error
  foreign_key_violation : Error

abbrev pub not_found_exception : ErrorCode → Error
not_found_exception code = app code HttpStatus.not_found

abbrev pub forbidden_exception : ErrorCode → Error
forbidden_exception code = app code HttpStatus.forbidden

abbrev pub conflict_exception : ErrorCode → Error
conflict_exception code = app code HttpStatus.conflict

abbrev pub unauthorized_exception : ErrorCode → Error
unauthorized_exception code = app code HttpStatus.unauthorized

-- src/auth/types/authenticated-user.type.ts
pub record AuthenticatedUser : Type 0 where
  pub id : ℕ
  pub email : ℕ
  pub role : UserRole
