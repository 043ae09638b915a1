-- ===== src/Examples.antt =====
-- The theorems applied to a small database in memory.
mod Csrf
mod Migrations
mod Service
mod Database
mod Chain
mod Issued
mod Data
mod Deployment
mod Handlers
mod Requests
mod Runs
use clean_arch_go_gin.Examples.Data.{
  service, outside_tx, alice, bob, session, claims, tables, world, new_account, credentials, change,
  second_page,
}
use clean_arch_go_gin.Base.{◌≡◌, ◌≤◌, ◌<◌, ◌*◌, refl, true, none, some, [], ◌∷◌, arith}
use clean_arch_go_gin.Base.Int.{pos}
use clean_arch_go_gin.Apperr.{
  Error, Sentinel, AppError, to_error, sentinel, with_cause, with_fields, internal, is, http_status,
  status_for_code, code_of, client_message, fields,
}
use clean_arch_go_gin.Apperr.Laws.{
  origin, caused, detailed, Derived-is, with_cause_hidden, internal_opaque,
}
use clean_arch_go_gin.Entity.{UserEntity, RefreshTokenEntity}
use clean_arch_go_gin.Database.{Tables}
use clean_arch_go_gin.Outside.Laws.{Answers, Writes}
use clean_arch_go_gin.Outside.Memory.{Memory, in_memory, hash_of}
use clean_arch_go_gin.Outside.Memory.Laws.{in_memory-Laws}
use clean_arch_go_gin.Repository.Context.{Context, select_done}
use clean_arch_go_gin.Repository.Tx.Laws.{Commits}
use clean_arch_go_gin.Request.{
  RegisterUserRequest, LoginRequest, ChangePasswordRequest, Pagination, normalized, offset,
}
use clean_arch_go_gin.Request.Window.{IsWindow, offset_exact}
use clean_arch_go_gin.Service.Token.Claims.{TokenClaims}
use clean_arch_go_gin.Service.User.Tokens.{UserService, purge_expired_refresh_tokens}
use clean_arch_go_gin.Service.User.Credentials.{register, login}
use clean_arch_go_gin.Service.User.Credentials.Laws.{
  IsRegistered, IsLoggedIn, register-atomic, login-authenticates,
}
use clean_arch_go_gin.Service.User.Session.{refresh, list_sessions}
use clean_arch_go_gin.Service.User.Session.Laws.{checked_at, Ends, refresh-rotates}
use clean_arch_go_gin.Service.User.Session.Listing.{
  IsListing, IsPurged, list_sessions-lists, purge_expired_refresh_tokens-purges,
}
use clean_arch_go_gin.Service.User.Account.{change_password, delete_account}
use clean_arch_go_gin.Service.User.Account.Laws.{
  IsRemoved, IsReplaced, change_password-atomic, delete_account-atomic,
}

register-atomic_example :
    Commits in_memory
      (λ resp t'. IsRegistered in_memory service new_account resp tables t')
      tables
      (register in_memory service new_account outside_tx world)
register-atomic_example =
    register-atomic in_memory in_memory-Laws service new_account outside_tx refl world

login-authenticates_example :
    Writes in_memory
      (λ resp v'. IsLoggedIn in_memory service credentials resp tables v'.committed)
      world.views
      (login in_memory service credentials outside_tx world)
login-authenticates_example =
    login-authenticates in_memory in_memory-Laws service credentials outside_tx refl world

refresh-rotates_example :
    Ends in_memory in_memory-Laws service "t"
      (checked_at in_memory service "t" outside_tx world)
      tables
      (refresh in_memory service "t" outside_tx world)
refresh-rotates_example = refresh-rotates in_memory in_memory-Laws service "t" outside_tx refl world

change_password-atomic_example :
    Commits in_memory
      (λ resp t'.
        IsReplaced in_memory service 7 change.current_password "new password"
          (resp.access_token, resp.refresh_token)
          tables
          t')
      tables
      (change_password in_memory service 7 change outside_tx world)
change_password-atomic_example =
    change_password-atomic in_memory in_memory-Laws service 7 change outside_tx refl world

delete_account-atomic_example :
    Commits in_memory
      (λ _ t'. IsRemoved 7 tables t')
      tables
      (delete_account in_memory service 7 outside_tx world)
delete_account-atomic_example =
    delete_account-atomic in_memory in_memory-Laws service 7 outside_tx world refl

list_sessions-lists_example :
    Answers in_memory
      (IsListing in_memory (pos world.clock) 7 "t" second_page tables.tokens)
      (λ _. Unit {0})
      world.views
      (list_sessions in_memory service 7 "t" second_page outside_tx world)
unfolding select_done
list_sessions-lists_example =
    list_sessions-lists in_memory in_memory-Laws service outside_tx world 7 "t" second_page
      (omega arith)

purge_expired_refresh_tokens-purges_example :
    Writes in_memory
      (λ n v'. IsPurged (pos world.clock) n tables.tokens v'.committed.tokens)
      world.views
      (purge_expired_refresh_tokens in_memory service outside_tx world)
unfolding select_done
purge_expired_refresh_tokens-purges_example =
    purge_expired_refresh_tokens-purges in_memory in_memory-Laws service outside_tx world refl

offset_exact_example :
    (h : IsWindow (normalized second_page)) × (offset second_page ≡ pos (h.skipped * h.size))
offset_exact_example = offset_exact second_page (omega arith)

abbrev refusal : AppError
refusal =
    with_fields (with_cause (sentinel Sentinel.err_unauthorized) Error.canceled) (("a", "b") ∷ [])

Derived-is_example :
    (is (to_error refusal) Sentinel.err_unauthorized ≡ true)
    × (is (Error.wrap "call" (to_error refusal)) Sentinel.err_unauthorized ≡ true)
    × (http_status (Error.wrap "call" (to_error refusal))
        ≡ status_for_code (code_of Sentinel.err_unauthorized))
Derived-is_example =
    Derived-is Sentinel.err_unauthorized refusal "call"
      (detailed (caused origin Error.canceled) (("a", "b") ∷ []))

with_cause_hidden_example :
    (http_status (Error.wrap "call" (to_error (with_cause refusal Error.canceled)))
      ≡ http_status (to_error refusal))
    × (client_message (Error.wrap "call" (to_error (with_cause refusal Error.canceled)))
        ≡ client_message (to_error refusal))
    × (fields (Error.wrap "call" (to_error (with_cause refusal Error.canceled)))
        ≡ fields (to_error refusal))
with_cause_hidden_example = with_cause_hidden refusal Error.canceled "call"

internal_opaque_example :
    (http_status (internal Error.deadline_exceeded) ≡ 500)
    × (client_message (internal Error.deadline_exceeded) ≡ "Internal server error")
    × (is (internal Error.deadline_exceeded) Sentinel.err_internal ≡ true)
internal_opaque_example = internal_opaque Error.deadline_exceeded
