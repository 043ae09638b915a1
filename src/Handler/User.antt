-- ===== src/Handler/User.antt =====
-- internal/api/handler/user.go. A handler takes what it reads of the request: the outcome of
-- decoding the body, the values of the auth context and the refresh cookie. A request's own context
-- carries no transaction.
pub mod Laws
pub mod Cookies
use clean_arch_go_gin.Base.{
  ℕ, ◌-◌, ◌/◌, ◌^◌, ◌==◌, if◌then◌else◌, suc, String, Bool, true, false, Option, none, some, List,
  [], ◌∷◌,
}
use clean_arch_go_gin.Base.Int.{ℤ, pos, negsuc}
use clean_arch_go_gin.Base.Effect.{Result, ok, err, M}
use clean_arch_go_gin.Apperr.{Error, Sentinel, to_error, sentinel, with_cause}
use clean_arch_go_gin.Outside.{Outside}
use clean_arch_go_gin.Repository.Context.{Context}
use clean_arch_go_gin.Request.{RegisterUserRequest, LoginRequest, ChangePasswordRequest, Pagination}
use clean_arch_go_gin.Service.User.Tokens.{UserService, revoke_refresh_tokens}
use clean_arch_go_gin.Service.User.Credentials.{register, login}
use clean_arch_go_gin.Service.User.Session.{refresh, get_user, list_sessions}
use clean_arch_go_gin.Service.User.Account.{change_password, delete_account}
use clean_arch_go_gin.Middleware.Auth.{AuthContext, get_user_id_from_context}
use clean_arch_go_gin.Handler.Respond.{Payload, Cookie, Reply, ok_reply, fail, binding_error}

pub record CookieConfig : Type 0 where
  pub access_ttl : ℤ
  pub refresh_ttl : ℤ
  pub secure : Bool

-- `int(d.Seconds())` is the whole seconds, towards 0.
abbrev pub seconds : ℤ → ℤ
seconds (pos n) = pos (n / 10 ^ 9)
seconds (negsuc n) = if suc n / 10 ^ 9 == 0 then pos 0 else negsuc (suc n / 10 ^ 9 - 1)

abbrev pub set_auth_cookies : CookieConfig → String → String → List Cookie
set_auth_cookies h access_token refresh_token =
    record {
      name = "access_token";
      value = access_token;
      max_age = seconds h.access_ttl;
      secure = h.secure;
    }
    ∷ record {
      name = "refresh_token";
      value = refresh_token;
      max_age = seconds h.refresh_ttl;
      secure = h.secure;
    }
    ∷ []

abbrev pub clear_auth_cookies : CookieConfig → List Cookie
clear_auth_cookies h =
    record { name = "access_token"; value = ""; max_age = negsuc 0; secure = h.secure }
    ∷ record { name = "refresh_token"; value = ""; max_age = negsuc 0; secure = h.secure }
    ∷ []

abbrev pub request_context : Context
request_context = record { transaction = none }

-- `if err != nil { Fail(c, err); return }`, and the answer else.
unfoldable pub answer : {W A : Type 0} → (A → Reply) → Result Error A × W → Reply × W
answer good (ok a, w) = (good a, w)
answer good (err e, w) = (fail e, w)

-- The guard on a body that does not decode.
unfoldable pub bound : {W A : Type 0} → Result Error A → (A → W → Reply × W) → W → Reply × W
bound (ok req) run w = run req w
bound (err e) run w = (fail (binding_error e), w)

-- The guard on a request that is not authenticated.
unfoldable pub identified : {W : Type 0} → Result Error ℕ → (ℕ → W → Reply × W) → W → Reply × W
identified (ok id) run w = run id w
identified (err e) run w = (fail (to_error (with_cause (sentinel Sentinel.err_unauthorized) e)), w)

module _ (o : Outside) (s : UserService) (h : CookieConfig) where
  open o use {World}

  pub handle_register : Result Error RegisterUserRequest → World → Reply × World
  handle_register body = bound body (λ req w.
      answer
        (λ resp.
          ok_reply 201 "Registration successful" (Payload.registered resp)
            (set_auth_cookies h resp.access_token resp.refresh_token))
        (register o s req request_context w))

  pub handle_login : Result Error LoginRequest → World → Reply × World
  handle_login body = bound body (λ req w.
      answer
        (λ resp.
          ok_reply 200 "Login successful" (Payload.logged_in resp)
            (set_auth_cookies h resp.access_token resp.refresh_token))
        (login o s req request_context w))

  -- The error of a missing cookie is net/http's `ErrNoCookie`.
  pub handle_refresh : Option String → World → Reply × World
  handle_refresh none w = (
    fail (
        to_error (
          with_cause (sentinel Sentinel.err_missing_refresh_token)
            (Error.plain "http: named cookie not present"))),
    w,
  )
  handle_refresh (some token) w =
      answer
        (λ resp.
          ok_reply 200 "Token refreshed" Payload.no_data
            (set_auth_cookies h resp.access_token resp.refresh_token))
        (refresh o s token request_context w)

  -- A failed revocation is only logged.
  pub handle_logout : AuthContext → World → Reply × World
  handle_logout auth w = (
    ok_reply 200 "Logged out successfully" Payload.no_data (clear_auth_cookies h),
    elim (get_user_id_from_context o auth) [
      | ok id ↦ (revoke_refresh_tokens o s request_context id w).1
      | err _ ↦ w
    ],
  )

  pub handle_get_me : AuthContext → World → Reply × World
  handle_get_me auth = identified (get_user_id_from_context o auth) (λ id w.
      answer (λ user. ok_reply 200 "User retrieved" (Payload.user user) [])
        (get_user o s (o.uuid_string id) request_context w))

  pub handle_change_password :
      AuthContext → Result Error ChangePasswordRequest → World → Reply × World
  handle_change_password auth body = identified (get_user_id_from_context o auth) (λ id.
      bound body (λ req w.
        answer
          (λ resp.
            ok_reply 200 "Password changed" Payload.no_data
              (set_auth_cookies h resp.access_token resp.refresh_token))
          (change_password o s id req request_context w)))

  pub handle_delete_account : AuthContext → World → Reply × World
  handle_delete_account auth = identified (get_user_id_from_context o auth) (λ id w.
      answer (λ _. ok_reply 200 "Account deleted" Payload.no_data (clear_auth_cookies h))
        (delete_account o s id request_context w))
