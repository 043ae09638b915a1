-- ===== src/Response.antt =====
-- internal/model/response: what the services return.
use clean_arch_go_gin.Base.{ℕ, String, Bool, List}
use clean_arch_go_gin.Base.Int.{ℤ}

pub record GetUser : Type 0 where
  pub id : ℕ
  pub email : String
  pub name : String

pub record LoginResponse : Type 0 where
  pub user : GetUser
  pub access_token : String
  pub refresh_token : String

pub record RegisterResponse : Type 0 where
  pub user : GetUser
  pub access_token : String
  pub refresh_token : String

pub record RefreshResponse : Type 0 where
  pub access_token : String
  pub refresh_token : String

pub record ChangePasswordResponse : Type 0 where
  pub access_token : String
  pub refresh_token : String

pub record Session : Type 0 where
  pub id : ℕ
  pub current : Bool
  pub created_at : ℤ
  pub expires_at : ℤ

pub record Meta : Type 0 where
  pub page : ℤ
  pub limit : ℤ
  pub total : ℕ

pub record SessionList : Type 0 where
  pub sessions : List Session
  pub meta : Meta

pub record GetCounter : Type 0 where
  pub value : ℤ

pub record GetMessage : Type 0 where
  pub content : String
