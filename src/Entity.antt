-- ===== src/Entity.antt =====
-- internal/model/entity: the rows of the four tables. A `uuid.UUID` is the number that its 16 bytes
-- spell, a `time.Time` its nanoseconds since its zero value, and a `gorm.DeletedAt` is an optional
-- time.
use clean_arch_go_gin.Base.{ℕ, String, Bool, true, false, Option, none, some, List}
use clean_arch_go_gin.Base.Int.{ℤ}

pub record UserEntity : Type 0 where
  pub id : ℕ
  pub email : String
  pub password : List ℕ
  pub name : String
  pub created_at : ℤ
  pub updated_at : ℤ
  pub deleted_at : Option ℤ

pub record RefreshTokenEntity : Type 0 where
  pub id : ℕ
  pub user_id : ℕ
  pub token_hash : String
  pub expires_at : ℤ
  pub created_at : ℤ
  pub updated_at : ℤ

pub record CounterEntity : Type 0 where
  pub id : ℕ
  pub value : ℤ
  pub created_at : ℤ
  pub updated_at : ℤ

pub record MessageEntity : Type 0 where
  pub id : ℕ
  pub key : String
  pub value : String
  pub created_at : ℤ
  pub updated_at : ℤ

-- The rows that a query over `UserEntity` sees: those not soft-deleted.
abbrev pub is_live : UserEntity → Bool
is_live u = elim u.deleted_at [ none ↦ true | some _ ↦ false ]
