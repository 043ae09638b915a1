-- ===== src/Examples/Handlers.antt =====
-- The handlers on requests to the database of the examples.
use clean_arch_go_gin.Base.{true, none, some, ◌≡◌}
use clean_arch_go_gin.Base.Int.{pos}
use clean_arch_go_gin.Base.Effect.{Result, ok}
use clean_arch_go_gin.Apperr.{Error}
use clean_arch_go_gin.Outside.Memory.{in_memory}
use clean_arch_go_gin.Outside.Memory.Laws.{in_memory-Laws}
use clean_arch_go_gin.Request.{RegisterUserRequest, LoginRequest, ChangePasswordRequest}
use clean_arch_go_gin.Middleware.Auth.{AuthContext, get_user_id_from_context}
use clean_arch_go_gin.Handler.User.{
  CookieConfig, handle_register, handle_login, handle_change_password, handle_delete_account,
}
use clean_arch_go_gin.Handler.Respond.{Payload, ok_reply}
use clean_arch_go_gin.Handler.User.Cookies.{
  Refreshed, LoggedOut, handle_refresh-Refreshed, handle_logout-LoggedOut,
}
use clean_arch_go_gin.Handler.User.{handle_refresh, handle_logout, clear_auth_cookies}
use clean_arch_go_gin.Handler.User.Laws.{
  Handled, Registered, LoggedIn, PasswordChanged, AccountDeleted, handle_register-Handled,
  handle_login-Handled, handle_change_password-Handled, handle_delete_account-Handled,
}
use clean_arch_go_gin.Examples.Data.{service, tables, world, new_account, credentials, change}

abbrev cookies : CookieConfig
cookies = record { access_ttl = pos 900000000000; refresh_ttl = pos 604800000000000; secure = true }

-- The id 7 as a text of the world in memory.
abbrev as_alice : AuthContext
as_alice = record { user_id = some "iiiiiii"; user_email = some "alice@example.org"; claims = none }

abbrev registration : Result Error RegisterUserRequest
registration = ok new_account

abbrev sign_in : Result Error LoginRequest
sign_in = ok credentials

abbrev renewal : Result Error ChangePasswordRequest
renewal = ok change

handle_register-Handled_example :
    Handled in_memory
      (Registered in_memory service cookies registration tables)
      tables
      (handle_register in_memory service cookies registration world)
handle_register-Handled_example =
    handle_register-Handled in_memory in_memory-Laws service cookies registration world

handle_login-Handled_example :
    Handled in_memory
      (LoggedIn in_memory service cookies sign_in tables)
      tables
      (handle_login in_memory service cookies sign_in world)
handle_login-Handled_example =
    handle_login-Handled in_memory in_memory-Laws service cookies sign_in world

handle_change_password-Handled_example :
    Handled in_memory
      (PasswordChanged in_memory service cookies as_alice renewal tables)
      tables
      (handle_change_password in_memory service cookies as_alice renewal world)
handle_change_password-Handled_example =
    handle_change_password-Handled in_memory in_memory-Laws service cookies as_alice renewal world

handle_delete_account-Handled_example :
    Handled in_memory
      (AccountDeleted in_memory service cookies as_alice tables)
      tables
      (handle_delete_account in_memory service cookies as_alice world)
handle_delete_account-Handled_example =
    handle_delete_account-Handled in_memory in_memory-Laws service cookies as_alice world

handle_refresh-Refreshed_example :
    Refreshed in_memory service cookies
      (some "t")
      world
      (handle_refresh in_memory service cookies (some "t") world).0
      (in_memory.views (handle_refresh in_memory service cookies (some "t") world).1).committed
handle_refresh-Refreshed_example =
    handle_refresh-Refreshed in_memory in_memory-Laws service cookies (some "t") world

handle_logout-LoggedOut_example :
    ((handle_logout in_memory service cookies as_alice world).0
      ≡ ok_reply 200 "Logged out successfully" Payload.no_data (clear_auth_cookies cookies))
    × LoggedOut in_memory service world
        (get_user_id_from_context in_memory as_alice)
        tables
        (in_memory.views (handle_logout in_memory service cookies as_alice world).1).committed
handle_logout-LoggedOut_example =
    handle_logout-LoggedOut in_memory in_memory-Laws service cookies as_alice world
