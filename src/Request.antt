-- ===== src/Request.antt =====
-- internal/model/request. An `int` is a signed 64-bit number, and a product of two wraps around.
pub mod Window
use clean_arch_go_gin.Base.{String, Bool, if◌then◌else◌}
use clean_arch_go_gin.Base.Int.{ℤ, pos, ◌-ℤ◌, ◌*ℤ◌, ltb_ℤ, wrap_int64}

pub record RegisterUserRequest : Type 0 where
  pub email : String
  pub password : String
  pub name : String

pub record LoginRequest : Type 0 where
  pub email : String
  pub password : String

pub record ChangePasswordRequest : Type 0 where
  pub current_password : String
  pub new_password : String

abbrev pub default_page : ℤ
default_page = pos 1

abbrev pub default_limit : ℤ
default_limit = pos 20

abbrev pub max_limit : ℤ
max_limit = pos 100

pub record Pagination : Type 0 where
  pub page : ℤ
  pub limit : ℤ

-- The three assignments of `Normalized`, in order.
unfoldable pub normalized : Pagination → Pagination
normalized p =
    let page = if ltb_ℤ p.page default_page then default_page else p.page in
    let floor = if ltb_ℤ p.limit (pos 1) then default_limit else p.limit in
    let limit = if ltb_ℤ max_limit floor then max_limit else floor in
    record { page = page; limit = limit }

unfoldable pub offset : Pagination → ℤ
unfolding normalized ◌-ℤ◌ ◌*ℤ◌ wrap_int64
offset p = let n = normalized p in wrap_int64 ((n.page -ℤ pos 1) *ℤ n.limit)
