-- ===== src/Service/Token/Claims.antt =====
-- The claims of internal/service/token/token.service.go, with the fields of
-- `jwt.RegisteredClaims` that the code sets.
use clean_arch_go_gin.Base.{ℕ, String}
use clean_arch_go_gin.Base.Int.{ℤ}

pub record TokenClaims : Type 0 where
  pub user_id : ℕ
  pub email : String
  pub name : String
  pub jti : String
  pub expires_at : ℤ
  pub issued_at : ℤ
  pub issuer : String
