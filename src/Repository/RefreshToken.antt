-- ===== src/Repository/RefreshToken.antt =====
-- internal/repository/implementations/refresh_token.
pub mod Laws
use Prim.Native.String.{◌++◌}
use clean_arch_go_gin.Base.{ℕ, String, Bool, ◌&&◌, ◌||◌, Option, List, ◌==◌, ltb, str_eq}
use clean_arch_go_gin.Base.Int.{ℤ, ltb_ℤ, eqb_ℤ}
use clean_arch_go_gin.Base.Effect.{Result, ok, err, M, pure, ◌>>=◌, ◌>>◌, map_err, attempt}
use clean_arch_go_gin.Apperr.{Error}
use clean_arch_go_gin.Entity.{RefreshTokenEntity}
use clean_arch_go_gin.Database.{pool}
use clean_arch_go_gin.Outside.{Outside}
use clean_arch_go_gin.Repository.Context.{Context, conn, select_done}
use clean_arch_go_gin.Repository.User.{missing_is_nil}

-- The `Where` conditions: `user_id = ?`, `token_hash = ?`, `user_id = ? AND expires_at > ?` and
-- `expires_at < ?`.
abbrev pub owned_by : ℕ → RefreshTokenEntity → Bool
owned_by user_id r = r.user_id == user_id

abbrev pub has_hash : String → RefreshTokenEntity → Bool
has_hash hash r = str_eq r.token_hash hash

abbrev pub active_for : ℕ → ℤ → RefreshTokenEntity → Bool
active_for user_id now r = r.user_id == user_id && ltb_ℤ now r.expires_at

abbrev pub expired_before : ℤ → RefreshTokenEntity → Bool
expired_before t r = ltb_ℤ r.expires_at t

-- `created_at DESC, id DESC`
abbrev pub newest_first : RefreshTokenEntity → RefreshTokenEntity → Bool
newest_first a b =
    ltb_ℤ b.created_at a.created_at || (eqb_ℤ b.created_at a.created_at && ltb b.id a.id)

-- `fmt.Errorf("… for user %s: %w", userID, err)`
abbrev pub for_user : Outside → String → ℕ → Error → Error
for_user o text user_id = Error.wrap (text ++ " for user " ++ o.uuid_string user_id)

module _ (o : Outside) (ctx : Context) where
  open o use {World}

  unfoldable pub create : RefreshTokenEntity → M World Error (Unit {0})
  create token = do
    select_done o
    map_err (Error.wrap "creating refresh token") (o.create_token (conn ctx pool) token)
    pure tt

  unfoldable pub find_by_token_hash : String → M World Error (Option RefreshTokenEntity)
  find_by_token_hash token_hash = do
    select_done o
    found ← attempt (o.first_token (conn ctx pool) (has_hash token_hash))
    missing_is_nil (Error.wrap "finding refresh token") found

  pub list_active_by_user_id : ℕ → ℤ → ℤ → ℤ → M World Error (List RefreshTokenEntity)
  list_active_by_user_id user_id now limit offset = do
    select_done o
    map_err (for_user o "listing active refresh tokens" user_id)
        (o.find_token (conn ctx pool) (active_for user_id now) newest_first limit offset)

  pub count_active_by_user_id : ℕ → ℤ → M World Error ℕ
  count_active_by_user_id user_id now = do
    select_done o
    map_err (for_user o "counting active refresh tokens" user_id)
        (o.count_token (conn ctx pool) (active_for user_id now))

  unfoldable pub delete_by_user_id : ℕ → M World Error (Unit {0})
  delete_by_user_id user_id = do
    select_done o
    map_err (for_user o "deleting refresh tokens" user_id)
        (o.delete_token (conn ctx pool) (owned_by user_id))
    pure tt

  unfoldable pub delete_by_token_hash : String → M World Error (Unit {0})
  delete_by_token_hash token_hash = do
    select_done o
    map_err (Error.wrap "deleting refresh token")
        (o.delete_token (conn ctx pool) (has_hash token_hash))
    pure tt

  -- The number of rows that went.
  pub delete_expired : ℤ → M World Error ℕ
  delete_expired before = do
    select_done o
    map_err (Error.wrap "deleting expired refresh tokens")
        (o.delete_token (conn ctx pool) (expired_before before))
