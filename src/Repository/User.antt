-- ===== src/Repository/User.antt =====
-- internal/repository/implementations/user. A repository is constructed with the pooled handle.
pub mod Laws
use clean_arch_go_gin.Base.{ℕ, String, Option, none, some, ◌==◌, str_eq, if◌then◌else◌}
use clean_arch_go_gin.Base.Effect.{Result, ok, err, M, pure, raise, ◌>>=◌, ◌>>◌, map_err, attempt}
use clean_arch_go_gin.Apperr.{Error, is_record_not_found}
use clean_arch_go_gin.Entity.{UserEntity}
use clean_arch_go_gin.Database.{pool}
use clean_arch_go_gin.Outside.{Outside}
use clean_arch_go_gin.Repository.Context.{Context, conn, select_done}

-- `errors.Is(err, gorm.ErrRecordNotFound)` is `nil, nil`; any other error is returned, as `g` wraps
-- it.
abbrev pub missing_is_nil :
    {W Row : Type 0} → (Error → Error) → Result Error Row → M W Error (Option Row)
missing_is_nil g (ok row) = pure (some row)
missing_is_nil g (err e) = if is_record_not_found e then pure none else raise (g e)

module _ (o : Outside) (ctx : Context) where
  open o use {World}

  -- `Create`: the new row's id.
  unfoldable pub create : UserEntity → M World Error ℕ
  create user = do select_done o; row ← o.create_user (conn ctx pool) user; pure row.id

  unfoldable pub find_by_email : String → M World Error (Option UserEntity)
  find_by_email email = do
    select_done o
    found ← attempt (o.first_user (conn ctx pool) (λ u. str_eq u.email email))
    missing_is_nil (λ e. e) found

  unfoldable pub find_by_id : ℕ → M World Error (Option UserEntity)
  find_by_id id = do
    select_done o
    found ← attempt (o.first_user (conn ctx pool) (λ u. u.id == id))
    missing_is_nil (Error.wrap "finding user by id") found

  unfoldable pub update : ℕ → UserEntity → M World Error (Unit {0})
  update id user = do select_done o; o.updates_user (conn ctx pool) (λ u. u.id == id) user

  unfoldable pub delete : ℕ → M World Error (Unit {0})
  delete id = do select_done o; o.delete_user (conn ctx pool) (λ u. u.id == id); pure tt
