-- ===== src/Middleware/Auth.antt =====
-- internal/api/middleware/auth.go. Of a request the model keeps what the middleware reads; a
-- response that aborts the request is a status and a message.
pub mod Laws
pub mod Issued
use clean_arch_go_gin.Base.{
  ℕ, String, Bool, true, false, ◌||◌, Option, none, some, str_eq, if◌then◌else◌,
}
use clean_arch_go_gin.Base.Effect.{Result, ok, err}
use clean_arch_go_gin.Apperr.{Error, Sentinel, failure, message_of, to_error, sentinel, with_cause}
use clean_arch_go_gin.Outside.{Outside}
use clean_arch_go_gin.Service.Token.Claims.{TokenClaims}
use clean_arch_go_gin.Service.Token.{TokenConfig, validate_access_token}

-- The values of the three keys of gin's context; the user id and the email are texts there.
pub record AuthContext : Type 0 where
  pub user_id : Option String
  pub user_email : Option String
  pub claims : Option TokenClaims

pub data Next : Type 0 where
  passed : AuthContext → Next
  aborted : ℕ → String → Next

module _ (o : Outside) where
  open o use {World, uuid_string, parse_uuid}

  unfoldable pub set_auth_context : TokenClaims → AuthContext
  set_auth_context claims = record {
    user_id = some (uuid_string claims.user_id);
    user_email = some claims.email;
    claims = some claims;
  }

  -- What either middleware does with the outcome of the validation.
  abbrev pub admit : Next → Result Error TokenClaims × World → Next × World
  admit refused (ok claims, w) = (Next.passed (set_auth_context claims), w)
  admit refused (err _, w) = (refused, w)

  -- `AuthMiddleware`: the cookie, if the request has it.
  unfoldable pub auth_middleware : TokenConfig → Option String → World → Next × World
  auth_middleware config none w =
      (Next.aborted 401 (message_of Sentinel.err_missing_access_token), w)
  auth_middleware config (some token) w =
      admit (Next.aborted 401 (message_of Sentinel.err_invalid_access_token))
        (validate_access_token o config token w)

  unfoldable pub optional_auth_middleware :
      TokenConfig → AuthContext → Option String → World → Next × World
  optional_auth_middleware config before none w = (Next.passed before, w)
  optional_auth_middleware config before (some token) w =
      admit (Next.passed before) (validate_access_token o config token w)

  -- `GetUserIDFromContext`. No other code sets the key, so that its value is a text.
  unfoldable pub get_user_id_from_context : AuthContext → Result Error ℕ
  get_user_id_from_context ctx = elim ctx.user_id [
    | none ↦ err (Error.plain "user not found in context")
    | some raw ↦ elim (parse_uuid raw) [
      | ok id ↦ ok id
      | err e ↦ err (to_error (with_cause (sentinel Sentinel.err_invalid_user_id) e))
    ]
  ]

abbrev pub get_email_from_context : AuthContext → String
get_email_from_context ctx = elim ctx.user_email [ some email ↦ email | none ↦ "" ]

abbrev pub get_claims_from_context : AuthContext → Option TokenClaims
get_claims_from_context ctx = ctx.claims

-- The methods that change state.
abbrev pub is_unsafe : String → Bool
is_unsafe method =
    str_eq method "POST" || str_eq method "PUT" || str_eq method "PATCH" || str_eq method "DELETE"

-- `CSRFMiddleware`, with the validation of the CSRF service: the header is "" when it is missing.
unfoldable pub csrf_middleware : (String → Bool) → String → String → AuthContext → Next
csrf_middleware validate_token method header ctx =
    if is_unsafe method
    then if str_eq header ""
      then Next.aborted 403 (message_of Sentinel.err_missing_csrf_token)
      else if validate_token header
      then Next.passed ctx
      else Next.aborted 403 (message_of Sentinel.err_invalid_csrf_token)
    else Next.passed ctx
