-- ===== src/Service/User/Account.antt =====
-- change_password.service.go and delete_account.service.go of internal/service/user.
pub mod Rows
pub mod Laws
use clean_arch_go_gin.Base.{ℕ, String, Bool, true, false, Option, none, some, List, if◌then◌else◌}
use clean_arch_go_gin.Base.Int.{pos}
use clean_arch_go_gin.Base.Effect.{Result, ok, err, M, pure, raise, ◌>>=◌, ◌>>◌, map_err}
use clean_arch_go_gin.Apperr.{Error, Sentinel, failure}
use clean_arch_go_gin.Entity.{UserEntity}
use clean_arch_go_gin.Outside.{Outside}
use clean_arch_go_gin.Repository.Context.{Context, select_done}
use clean_arch_go_gin.Repository.User
use clean_arch_go_gin.Repository.Tx.{within_tx}
use clean_arch_go_gin.Request.{ChangePasswordRequest}
use clean_arch_go_gin.Response.{ChangePasswordResponse}
use clean_arch_go_gin.Service.User.Tokens.{
  UserService, internally, issue_tokens, revoke_refresh_tokens,
}
use clean_arch_go_gin.Service.User.Credentials.{profile}

-- `entity.UserEntity{Password: hashed}`
abbrev pub only_password : List ℕ → UserEntity
only_password hashed = record {
  id = 0;
  email = "";
  password = hashed;
  name = "";
  created_at = pos 0;
  updated_at = pos 0;
  deleted_at = none;
}

module _ (o : Outside) (s : UserService) where
  open o use {World}

  -- The work that `ChangePassword` does in its transaction, for the user as it was found.
  unfoldable pub replace_password :
      ℕ → UserEntity → List ℕ → Context → M World Error (String × String)
  replace_password user_id user hashed ctx = do
    map_err (internally "updating password") (User.update o ctx user_id (only_password hashed))
    revoke_refresh_tokens o s ctx user_id
    issue_tokens o s ctx (profile user)

  unfoldable pub change_verified :
      ℕ → UserEntity → ChangePasswordRequest → Context → M World Error ChangePasswordResponse
  change_verified user_id user req ctx = do
    hashed ← map_err (internally "hashing new password") (o.generate_password req.new_password)
    tokens ← within_tx o ctx (replace_password user_id user hashed)
    pure (record { access_token = tokens.0; refresh_token = tokens.1 })

  unfoldable pub change_password :
      ℕ → ChangePasswordRequest → Context → M World Error ChangePasswordResponse
  change_password user_id req ctx = do
    select_done o
    found ← map_err (internally "finding user by id") (User.find_by_id o ctx user_id)
    elim found [
      | none ↦ raise (failure Sentinel.err_invalid_credentials)
      | some user ↦
          if o.compare_password user.password req.current_password
          then change_verified user_id user req ctx
          else raise (failure Sentinel.err_invalid_credentials)
    ]

  -- The work that `DeleteAccount` does in its transaction.
  unfoldable pub remove_account : ℕ → Context → M World Error (Unit {0})
  remove_account user_id ctx = do
    revoke_refresh_tokens o s ctx user_id
    map_err (internally "deleting user") (User.delete o ctx user_id)

  unfoldable pub delete_account : ℕ → Context → M World Error (Unit {0})
  delete_account user_id ctx = do
    select_done o
    found ← map_err (internally "finding user by id") (User.find_by_id o ctx user_id)
    elim found [
      | none ↦ raise (failure Sentinel.err_user_not_found)
      | some _ ↦ within_tx o ctx (remove_account user_id)
    ]
