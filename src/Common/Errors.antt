-- ===== src/Common/Errors.antt =====
-- src/common/exceptions and src/common/enums/error-codes.enum.ts, and the exceptions that the
-- application meets: its own, Nest's `HttpException`, and any other.
use nestjs_hexagonal_templat.Prelude.{ℕ, String, Option, none}
use nestjs_hexagonal_templat.Common.Json.{Json}

pub data ErrorCode : Type 0 where
  internal_error validation_error resource_not_found forbidden conflict : ErrorCode
  rate_limit_exceeded : ErrorCode
  auth_insufficient_role auth_session_expired auth_invalid_credentials : ErrorCode
  auth_account_disabled auth_no_session auth_reset_token_invalid : ErrorCode
  tenant_not_found tenant_context_missing tenant_document_already_exists : ErrorCode
  tenant_required tenant_inactive : ErrorCode
  user_not_found user_email_already_exists user_last_admin user_inactive : ErrorCode
  user_cannot_deactivate_self user_cannot_change_own_role user_cannot_delete_self : ErrorCode
  user_password_policy_violated user_password_update_failed : ErrorCode
  storage_upload_failed storage_file_not_found storage_invalid_key : ErrorCode
  anti_bot_form_token_invalid anti_bot_form_expired anti_bot_challenge_incorrect : ErrorCode
  anti_bot_captcha_failed : ErrorCode
  queue_unavailable feature_disabled sample_not_found : ErrorCode

-- The enum's values.
unfoldable pub code_text : ErrorCode → String
code_text internal_error = "INTERNAL_ERROR"
code_text validation_error = "VALIDATION_ERROR"
code_text resource_not_found = "RESOURCE_NOT_FOUND"
code_text forbidden = "FORBIDDEN"
code_text conflict = "CONFLICT"
code_text rate_limit_exceeded = "RATE_LIMIT_EXCEEDED"
code_text auth_insufficient_role = "AUTH_INSUFFICIENT_ROLE"
code_text auth_session_expired = "AUTH_SESSION_EXPIRED"
code_text auth_invalid_credentials = "AUTH_INVALID_CREDENTIALS"
code_text auth_account_disabled = "AUTH_ACCOUNT_DISABLED"
code_text auth_no_session = "AUTH_NO_SESSION"
code_text auth_reset_token_invalid = "AUTH_RESET_TOKEN_INVALID"
code_text tenant_not_found = "TENANT_NOT_FOUND"
code_text tenant_context_missing = "TENANT_CONTEXT_MISSING"
code_text tenant_document_already_exists = "TENANT_DOCUMENT_ALREADY_EXISTS"
code_text tenant_required = "TENANT_REQUIRED"
code_text tenant_inactive = "TENANT_INACTIVE"
code_text user_not_found = "USER_NOT_FOUND"
code_text user_email_already_exists = "USER_EMAIL_ALREADY_EXISTS"
code_text user_last_admin = "USER_LAST_ADMIN"
code_text user_inactive = "USER_INACTIVE"
code_text user_cannot_deactivate_self = "USER_CANNOT_DEACTIVATE_SELF"
code_text user_cannot_change_own_role = "USER_CANNOT_CHANGE_OWN_ROLE"
code_text user_cannot_delete_self = "USER_CANNOT_DELETE_SELF"
code_text user_password_policy_violated = "USER_PASSWORD_POLICY_VIOLATED"
code_text user_password_update_failed = "USER_PASSWORD_UPDATE_FAILED"
code_text storage_upload_failed = "STORAGE_UPLOAD_FAILED"
code_text storage_file_not_found = "STORAGE_FILE_NOT_FOUND"
code_text storage_invalid_key = "STORAGE_INVALID_KEY"
code_text anti_bot_form_token_invalid = "ANTI_BOT_FORM_TOKEN_INVALID"
code_text anti_bot_form_expired = "ANTI_BOT_FORM_EXPIRED"
code_text anti_bot_challenge_incorrect = "ANTI_BOT_CHALLENGE_INCORRECT"
code_text anti_bot_captcha_failed = "ANTI_BOT_CAPTCHA_FAILED"
code_text queue_unavailable = "QUEUE_UNAVAILABLE"
code_text feature_disabled = "FEATURE_DISABLED"
code_text sample_not_found = "SAMPLE_NOT_FOUND"

pub record DomainException : Type 0 where
  pub code : String
  pub message : String
  pub http_status : ℕ
  pub details : Option Json

-- What `HttpException.getResponse()` returns: a text, an object with the fields that the filter
-- reads (none is `undefined`), or another value.
pub data HttpResponse : Type 0 where
  text : String → HttpResponse
  object : Option Json → Option Json → Option Json → HttpResponse
  other_value : HttpResponse

pub record HttpException : Type 0 where
  pub status : ℕ
  pub response : HttpResponse
  pub message : String

pub data Exception : Type 0 where
  domain : DomainException → Exception
  http : HttpException → Exception
  unknown : String → Exception

-- HttpStatus, as far as it is used.
abbrev pub bad_request : ℕ
bad_request = 400

abbrev pub http_forbidden : ℕ
http_forbidden = 403

abbrev pub not_found : ℕ
not_found = 404

abbrev pub http_conflict : ℕ
http_conflict = 409

abbrev pub service_unavailable : ℕ
service_unavailable = 503

abbrev pub internal_server_error : ℕ
internal_server_error = 500

-- `new DomainException(code, message, status)`
abbrev pub domain_error : ErrorCode → String → ℕ → Exception
domain_error code message status =
    domain
      (record { code = code_text code; message = message; http_status = status; details = none })
