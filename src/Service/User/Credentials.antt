-- ===== src/Service/User/Credentials.antt =====
-- register.service.go and login.service.go of internal/service/user.
pub mod Laws
use clean_arch_go_gin.Base.{ℕ, String, List, Bool, true, false, Option, none, some, if◌then◌else◌}
use clean_arch_go_gin.Base.Int.{pos}
use clean_arch_go_gin.Base.Effect.{Result, ok, err, M, pure, raise, ◌>>=◌, ◌>>◌, map_err, rename}
use clean_arch_go_gin.Apperr.{Error, Sentinel, failure, is_duplicated_key}
use clean_arch_go_gin.Entity.{UserEntity}
use clean_arch_go_gin.Outside.{Outside}
use clean_arch_go_gin.Repository.Context.{Context, select_done}
use clean_arch_go_gin.Repository.User
use clean_arch_go_gin.Repository.Tx.{within_tx}
use clean_arch_go_gin.Request.{RegisterUserRequest, LoginRequest}
use clean_arch_go_gin.Response.{GetUser, LoginResponse, RegisterResponse}
use clean_arch_go_gin.Service.Token.{lift}
use clean_arch_go_gin.Service.User.Tokens.{UserService, internally, issue_tokens}

-- The error of `userRepository.Create`, inside the transaction of `Register`.
abbrev pub create_error : Error → Error
create_error e =
    if is_duplicated_key e
    then failure Sentinel.err_user_already_exists
    else internally "creating user" e

abbrev pub profile : UserEntity → GetUser
profile u = record { id = u.id; email = u.email; name = u.name }

-- The `entity.UserEntity` that `Register` creates.
abbrev pub new_user : RegisterUserRequest → ℕ → List ℕ → UserEntity
new_user req id hashed = record {
  id = id;
  email = req.email;
  password = hashed;
  name = req.name;
  created_at = pos 0;
  updated_at = pos 0;
  deleted_at = none;
}

module _ (o : Outside) (s : UserService) where
  open o use {World}

  -- The work that `Register` does in its transaction.
  unfoldable pub create_account : UserEntity → Context → M World Error (String × String)
  create_account user ctx = do
    map_err create_error (User.create o ctx user)
    issue_tokens o s ctx (profile user)

  unfoldable pub register_new : RegisterUserRequest → Context → M World Error RegisterResponse
  register_new req ctx = do
    hashed ← map_err (internally "hashing password") (o.generate_password req.password)
    id ← lift o o.new_uuid
    let user : UserEntity = new_user req id hashed
    tokens ← within_tx o ctx (create_account user)
    pure (record { user = profile user; access_token = tokens.0; refresh_token = tokens.1 })

  unfoldable pub register : RegisterUserRequest → Context → M World Error RegisterResponse
  unfolding register_new
  register req ctx = do
    select_done o
    existing ← map_err (internally "checking existing user") (User.find_by_email o ctx req.email)
    elim existing [
      | some _ ↦ raise (failure Sentinel.err_user_already_exists)
      | none ↦ register_new req ctx
    ]

  unfoldable pub login_as : UserEntity → Context → M World Error LoginResponse
  login_as user ctx = do
    tokens ← issue_tokens o s ctx (profile user)
    pure (record { user = profile user; access_token = tokens.0; refresh_token = tokens.1 })

  -- An unknown email is compared with a dummy hash, whose only effect is the time that it takes.
  unfoldable pub login : LoginRequest → Context → M World Error LoginResponse
  unfolding login_as
  login req ctx = do
    select_done o
    found ← map_err (internally "finding user by email") (User.find_by_email o ctx req.email)
    elim found [
      | none ↦ raise (failure Sentinel.err_invalid_credentials)
      | some user ↦
          if o.compare_password user.password req.password
          then login_as user ctx
          else raise (failure Sentinel.err_invalid_credentials)
    ]
