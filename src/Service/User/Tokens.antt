-- ===== src/Service/User/Tokens.antt =====
-- user.service.go, store_refresh_token.service.go, revoke_refresh_tokens.service.go and
-- purge_expired_refresh_tokens.service.go of internal/service/user.
pub mod Laws
use clean_arch_go_gin.Base.{ℕ, String}
use clean_arch_go_gin.Base.Int.{ℤ, pos, ◌+ℤ◌}
use clean_arch_go_gin.Base.Effect.{Result, ok, M, pure, ◌>>=◌, ◌>>◌, map_err}
use clean_arch_go_gin.Apperr.{Error, internal}
use clean_arch_go_gin.Entity.{RefreshTokenEntity}
use clean_arch_go_gin.Outside.{Outside}
use clean_arch_go_gin.Repository.Context.{Context, select_done}
use clean_arch_go_gin.Repository.RefreshToken
use clean_arch_go_gin.Response.{GetUser}
use clean_arch_go_gin.Service.Token.{
  TokenConfig, generate_access_token, generate_refresh_token, hash, lift,
}

-- `userService`. Its repositories and its transaction manager hold the pooled handle, its token
-- service holds the configuration, and its clock is `time.Now`.
pub record UserService : Type 0 where
  pub token_service : TokenConfig
  pub refresh_token_ttl : ℤ

-- `apperr.Internal(fmt.Errorf("…: %w", err))`
abbrev pub internally : String → Error → Error
internally context e = internal (Error.wrap context e)

module _ (o : Outside) (s : UserService) (ctx : Context) where
  open o use {World}

  unfoldable pub store_refresh_token : ℕ → String → ℤ → M World Error (Unit {0})
  store_refresh_token user_id token expires_at = do
    select_done o
    id ← lift o o.new_uuid
    map_err (internally "storing refresh token") (
        RefreshToken.create o ctx (record {
          id = id;
          user_id = user_id;
          token_hash = hash o token;
          expires_at = expires_at;
          created_at = pos 0;
          updated_at = pos 0;
        }))

  unfoldable pub revoke_refresh_tokens : ℕ → M World Error (Unit {0})
  revoke_refresh_tokens user_id = do
    select_done o
    map_err (internally "revoking refresh tokens") (RefreshToken.delete_by_user_id o ctx user_id)

  pub purge_expired_refresh_tokens : M World Error ℕ
  purge_expired_refresh_tokens = do
    select_done o
    now ← lift o o.now
    map_err (internally "purging expired refresh tokens") (RefreshToken.delete_expired o ctx now)

  -- The access token and the refresh token.
  unfoldable pub issue_tokens : GetUser → M World Error (String × String)
  issue_tokens user = do
    access_token ←
        map_err (internally "generating access token")
          (generate_access_token o s.token_service user.id user.email user.name)
    refresh_token ←
        map_err (internally "generating refresh token")
          (generate_refresh_token o s.token_service user.id)
    now ← lift o o.now
    store_refresh_token user.id refresh_token (now +ℤ s.refresh_token_ttl)
    pure (access_token, refresh_token)
