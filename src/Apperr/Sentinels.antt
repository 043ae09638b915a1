-- ===== src/Apperr/Sentinels.antt =====
-- The codes of internal/apperr/apperr.go, and the table of internal/apperr/sentinels.go.
use clean_arch_go_gin.Base.{String}

pub data Code : Type 0 where
  invalid_input unauthorized forbidden not_found conflict : Code
  too_many_requests timeout unavailable internal : Code

pub data Sentinel : Type 0 where
  err_internal err_timeout err_canceled err_validation err_bad_request err_rate_limit : Sentinel
  err_invalid_credentials err_user_already_exists err_user_not_found : Sentinel
  err_invalid_user_id err_unauthorized : Sentinel
  err_missing_access_token err_invalid_access_token err_missing_refresh_token : Sentinel
  err_invalid_refresh_token err_refresh_token_revoked err_refresh_token_expired : Sentinel
  err_missing_csrf_token err_invalid_csrf_token err_unhealthy : Sentinel

abbrev pub code_of : Sentinel → Code
code_of err_internal = Code.internal
code_of err_timeout = Code.timeout
code_of err_canceled = Code.timeout
code_of err_validation = Code.invalid_input
code_of err_bad_request = Code.invalid_input
code_of err_rate_limit = Code.too_many_requests
code_of err_invalid_credentials = Code.unauthorized
code_of err_user_already_exists = Code.conflict
code_of err_user_not_found = Code.not_found
code_of err_invalid_user_id = Code.invalid_input
code_of err_unauthorized = Code.unauthorized
code_of err_missing_access_token = Code.unauthorized
code_of err_invalid_access_token = Code.unauthorized
code_of err_missing_refresh_token = Code.unauthorized
code_of err_invalid_refresh_token = Code.unauthorized
code_of err_refresh_token_revoked = Code.unauthorized
code_of err_refresh_token_expired = Code.unauthorized
code_of err_missing_csrf_token = Code.forbidden
code_of err_invalid_csrf_token = Code.forbidden
code_of err_unhealthy = Code.unavailable

abbrev pub message_of : Sentinel → String
message_of err_internal = "Internal server error"
message_of err_timeout = "Request timed out"
message_of err_canceled = "Request was canceled"
message_of err_validation = "Validation failed"
message_of err_bad_request = "Invalid request body"
message_of err_rate_limit = "Too many requests"
message_of err_invalid_credentials = "Invalid email or password"
message_of err_user_already_exists = "Email is already registered"
message_of err_user_not_found = "User not found"
message_of err_invalid_user_id = "Invalid user id"
message_of err_unauthorized = "Unauthorized"
message_of err_missing_access_token = "Missing authentication token"
message_of err_invalid_access_token = "Invalid or expired token"
message_of err_missing_refresh_token = "Missing refresh token"
message_of err_invalid_refresh_token = "Invalid refresh token"
message_of err_refresh_token_revoked = "Refresh token has been revoked"
message_of err_refresh_token_expired = "Refresh token has expired"
message_of err_missing_csrf_token = "Missing CSRF token"
message_of err_invalid_csrf_token = "Invalid CSRF token"
message_of err_unhealthy = "Service is not ready"
