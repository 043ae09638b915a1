-- ===== src/Outside.antt =====
-- The libraries and the surroundings that internal/ calls and that are not part of the repository:
-- GORM and its database, the request's context and the clock, google/uuid, bcrypt, golang-jwt and
-- SHA-256. They are parameters of the model. A call runs in a `World` and leaves another behind;
-- `views` is what can be observed of the database.
-- A GORM statement takes the handle that it runs on and the predicate that its `Where` denotes.
pub mod Laws
pub mod Memory
use clean_arch_go_gin.Base.{ℕ, String, Bool, Option, List}
use clean_arch_go_gin.Base.Int.{ℤ}
use clean_arch_go_gin.Base.Effect.{Result, M}
use clean_arch_go_gin.Apperr.{Error}
use clean_arch_go_gin.Entity.{UserEntity, RefreshTokenEntity, CounterEntity, MessageEntity}
use clean_arch_go_gin.Database.{Views, Handle}
use clean_arch_go_gin.Service.Token.Claims.{TokenClaims}

pub record Outside : Type 1 where
  pub World : Type 0
  pub views : World → Views
  -- `ctx.Err()` at this moment, `time.Now()`, `uuid.New()`.
  pub ctx_err : World → Option Error × World
  pub now : World → ℤ × World
  pub new_uuid : World → ℕ × World
  pub uuid_string : ℕ → String
  pub parse_uuid : String → Result Error ℕ
  -- `First`, `Create`, `Updates` and `Delete` on the table of users.
  pub first_user : Handle → (UserEntity → Bool) → M World Error UserEntity
  pub create_user : Handle → UserEntity → M World Error UserEntity
  pub updates_user : Handle → (UserEntity → Bool) → UserEntity → M World Error (Unit {0})
  pub delete_user : Handle → (UserEntity → Bool) → M World Error ℕ
  -- `First`, `Create`, `Delete`, `Count` and `Find` on the table of refresh tokens. The last takes
  -- the order, as a test whether one row comes before another, the limit and the offset.
  pub first_token : Handle → (RefreshTokenEntity → Bool) → M World Error RefreshTokenEntity
  pub create_token : Handle → RefreshTokenEntity → M World Error RefreshTokenEntity
  pub delete_token : Handle → (RefreshTokenEntity → Bool) → M World Error ℕ
  pub count_token : Handle → (RefreshTokenEntity → Bool) → M World Error ℕ
  pub find_token :
      Handle
      → (RefreshTokenEntity → Bool)
      → (RefreshTokenEntity → RefreshTokenEntity → Bool)
      → ℤ
      → ℤ
      → M World Error (List RefreshTokenEntity)
  -- `First` and `Save` on the counters, `First` on the messages.
  pub first_counter : Handle → M World Error CounterEntity
  pub save_counter : Handle → CounterEntity → M World Error (Unit {0})
  pub first_message : Handle → (MessageEntity → Bool) → M World Error MessageEntity
  -- `db.Transaction(fn)`
  pub transaction : (A : Type 0) → Handle → (Handle → M World Error A) → M World Error A
  -- `bcrypt.GenerateFromPassword`, and whether `bcrypt.CompareHashAndPassword` returns nil.
  pub generate_password : String → M World Error (List ℕ)
  pub compare_password : List ℕ → String → Bool
  -- `SignedString` with HS256 and a key; `jwt.ParseWithClaims` with the key function, which is told
  -- whether the token's method is an HMAC; `jwt.NewNumericDate`.
  pub sign : String → TokenClaims → Result Error String
  pub parse_with_claims : String → (Bool → Result Error String) → M World Error TokenClaims
  pub numeric_date : ℤ → ℤ
  -- `sha256.Sum256`
  pub sum256 : String → List ℕ
