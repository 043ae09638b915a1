-- ===== src/Apperr/Values.antt =====
-- Go's `error` values, as far as the code tells them apart: the errors of `context`, GORM,
-- `net/http` and the validator that it tests for, `errors.New`, `fmt.Errorf` with `%w`, and the
-- `*Error` of internal/apperr/apperr.go with its client-safe part and its cause.
use clean_arch_go_gin.Base.{Bool, String, Option, List}
use clean_arch_go_gin.Apperr.Sentinels.{Code, Sentinel}

-- The fields of `Error` but `cause`.
pub record Header : Type 0 where
  pub self : Option Sentinel
  pub code : Code
  pub message : String
  pub fields : List (String × String)
  pub base : Option Sentinel

-- What the code asks of a `validator.FieldError`.
pub record FieldError : Type 0 where
  pub field : String
  pub tag : String
  pub param : String
  pub is_string : Bool

pub data Error : Type 0 where
  canceled deadline_exceeded : Error
  record_not_found duplicated_key : Error
  max_bytes : Error
  validation : List FieldError → Error
  plain : String → Error
  wrap : String → Error → Error
  app : Header → Error
  app_caused : Header → Error → Error
