-- ===== src/Service/User/Session.antt =====
-- refresh.service.go and list_sessions.service.go of internal/service/user. What is only logged is
-- left out.
pub mod Laws
pub mod Listing
use clean_arch_go_gin.Base.{
  ℕ, String, Bool, true, false, ◌&&◌, not, Option, none, some, List, map, str_eq, if◌then◌else◌,
}
use clean_arch_go_gin.Base.Int.{ℤ, ltb_ℤ}
use clean_arch_go_gin.Base.Effect.{Result, ok, err, M, pure, raise, ◌>>=◌, ◌>>◌, map_err, attempt}
use clean_arch_go_gin.Apperr.{Error, Sentinel, to_error, sentinel, with_cause, failure}
use clean_arch_go_gin.Entity.{UserEntity, RefreshTokenEntity}
use clean_arch_go_gin.Outside.{Outside}
use clean_arch_go_gin.Repository.Context.{Context, select_done}
use clean_arch_go_gin.Repository.User
use clean_arch_go_gin.Repository.RefreshToken
use clean_arch_go_gin.Repository.Tx.{within_tx}
use clean_arch_go_gin.Request.{Pagination, normalized, offset}
use clean_arch_go_gin.Response.{GetUser, RefreshResponse, Session, SessionList}
use clean_arch_go_gin.Service.Token.Claims.{TokenClaims}
use clean_arch_go_gin.Service.Token.{validate_refresh_token, hash, lift}
use clean_arch_go_gin.Service.User.Tokens.{
  UserService, internally, issue_tokens, revoke_refresh_tokens,
}

-- `apperr.ErrX.WithCause(err)`
abbrev pub caused_by : Sentinel → Error → Error
caused_by s e = to_error (with_cause (sentinel s) e)

-- "" when the request carries no refresh cookie.
abbrev pub current_hash : Outside → String → String
current_hash o token = if str_eq token "" then "" else hash o token

abbrev pub to_session : String → RefreshTokenEntity → Session
to_session current row = record {
  id = row.id;
  current = not (str_eq current "") && str_eq row.token_hash current;
  created_at = row.created_at;
  expires_at = row.expires_at;
}

module _ (o : Outside) (s : UserService) where
  open o use {World}

  -- The error that `handleReuse` returns is raised; a failed revocation is only logged.
  pub handle_reuse : {A : Type 0} → ℕ → Context → M World Error A
  handle_reuse user_id ctx = do
    attempt (revoke_refresh_tokens o s ctx user_id)
    raise (failure Sentinel.err_refresh_token_revoked)

  -- A failed deletion of the expired row is only logged.
  pub drop_expired : {A : Type 0} → String → Context → M World Error A
  drop_expired token_hash ctx = do
    attempt (RefreshToken.delete_by_token_hash o ctx token_hash)
    raise (failure Sentinel.err_refresh_token_expired)

  -- The work that `Refresh` does in its transaction.
  unfoldable pub rotate : String → TokenClaims → Context → M World Error (String × String)
  rotate token_hash claims ctx = do
    map_err (internally "rotating refresh token")
        (RefreshToken.delete_by_token_hash o ctx token_hash)
    issue_tokens o s ctx (record { id = claims.user_id; email = claims.email; name = claims.name })

  unfoldable pub exchange : String → TokenClaims → Context → M World Error RefreshResponse
  exchange token_hash claims ctx = do
    tokens ← within_tx o ctx (rotate token_hash claims)
    pure (record { access_token = tokens.0; refresh_token = tokens.1 })

  -- What follows once the stored row is known.
  unfoldable pub check_stored :
      String → TokenClaims → Option RefreshTokenEntity → Context → M World Error RefreshResponse
  check_stored token_hash claims none ctx = handle_reuse claims.user_id ctx
  check_stored token_hash claims (some stored) ctx = do
    now ← lift o o.now
    if ltb_ℤ stored.expires_at now
        then drop_expired token_hash ctx
        else exchange token_hash claims ctx

  unfoldable pub refresh : String → Context → M World Error RefreshResponse
  refresh refresh_token ctx = do
    select_done o
    claims ←
        map_err (caused_by Sentinel.err_invalid_refresh_token)
          (validate_refresh_token o s.token_service refresh_token)
    let token_hash : String = hash o refresh_token
    stored ←
        map_err (internally "verifying refresh token")
          (RefreshToken.find_by_token_hash o ctx token_hash)
    check_stored token_hash claims stored ctx

  pub get_user : String → Context → M World Error GetUser
  get_user user_id ctx = do
    select_done o
    id ← λ w. (
      elim (o.parse_uuid user_id) [
        | ok id ↦ ok id
        | err e ↦ err (caused_by Sentinel.err_invalid_user_id e)
      ],
      w,
    )
    found ← map_err (internally "finding user by id") (User.find_by_id o ctx id)
    elim found [
      | none ↦ raise (failure Sentinel.err_user_not_found)
      | some user ↦ pure (record { id = user.id; email = user.email; name = user.name })
    ]

  pub list_sessions : ℕ → String → Pagination → Context → M World Error SessionList
  list_sessions user_id current_refresh_token page ctx = do
    select_done o
    let window : Pagination = normalized page
    now ← lift o o.now
    total ←
        map_err (internally "counting active sessions")
          (RefreshToken.count_active_by_user_id o ctx user_id now)
    rows ←
        map_err (internally "listing active sessions")
          (RefreshToken.list_active_by_user_id o ctx user_id now window.limit (offset window))
    pure (record {
      sessions = map (to_session (current_hash o current_refresh_token)) rows;
      meta = record { page = window.page; limit = window.limit; total = total };
    })
