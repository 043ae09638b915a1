-- ===== src/Apperr.antt =====
-- internal/apperr/apperr.go and internal/apperr/sentinels.go, with Go's error values.
-- Pointer comparisons in the code are with package-level sentinels only, so an `*Error` records
-- which sentinel it is (`self`) and which one it was copied from (`base`), and nothing else of its
-- address.
mod Sentinels
mod Values
pub use Sentinels.{Code, Sentinel, code_of, message_of}
pub use Values.{Error, Header, FieldError}
pub mod Laws
use mathlib.Core.Logic.{ite}
use clean_arch_go_gin.Base.{
  ℕ, String, Bool, true, false, ◌||◌, Option, none, some, List, [], if◌then◌else◌,
}

-- An `*Error`: the header, and the cause if there is one.
pub record AppError : Type 0 where
  pub head : Header
  pub cause : Option Error

-- An `*Error` as an `error`.
abbrev pub to_error : AppError → Error
to_error e = elim e.cause [ none ↦ Error.app e.head | some c ↦ Error.app_caused e.head c ]

pub Sentinel-discrete : Discrete Sentinel
Sentinel-discrete = hlevel

-- Equality of a pointer with that of a package-level sentinel.
is_at : Option Sentinel → Sentinel → Bool
is_at none t = false
is_at (some s) t = ite (Sentinel-discrete s t) true false

-- `New`: an address of its own, no cause and no base.
unfoldable pub new : Code → String → AppError
new code message = record {
  head = record { self = none; code = code; message = message; fields = []; base = none };
  cause = none;
}

-- The package-level variables of sentinels.go.
unfoldable pub sentinel : Sentinel → AppError
unfolding new
sentinel s =
    let e = new (code_of s) (message_of s) in record e { head = record (e.head) { self = some s } }

-- The base is the receiver's, or the receiver. A receiver that is no sentinel has an address that
-- no target of `errors.Is` equals.
clone : AppError → AppError
clone e =
    let base : Option Sentinel = elim e.head.base [ none ↦ e.head.self | some b ↦ some b ] in
    record e { head = record (e.head) { self = none; base = base } }

unfoldable pub with_cause : AppError → Error → AppError
unfolding clone
with_cause e cause = record (clone e) { cause = some cause }

unfoldable pub with_fields : AppError → List (String × String) → AppError
unfolding clone
with_fields e fields = let c = clone e in record c { head = record (c.head) { fields = fields } }

unfoldable pub with_message : AppError → String → AppError
unfolding clone
with_message e message =
    let c = clone e in record c { head = record (c.head) { message = message } }

-- `Internal`.
unfoldable pub internal : Error → Error
unfolding with_cause sentinel
internal cause = to_error (with_cause (sentinel Sentinel.err_internal) cause)

-- The sentinel itself, returned as an `error`.
unfoldable pub failure : Sentinel → Error
unfolding sentinel
failure s = to_error (sentinel s)

-- The method `Is`, at a sentinel.
is_method : Header → Sentinel → Bool
unfolding is_at
is_method h t = is_at h.self t || is_at h.base t

-- `errors.Is` at a sentinel: the chain is walked through `Unwrap`.
unfoldable pub is : Error → Sentinel → Bool
unfolding is_method
is (Error.wrap _ e) t = is e t
is (Error.app h) t = is_method h t
is (Error.app_caused h e) t = is_method h t || is e t
is _ t = false

-- `errors.Is` at one of the errors of `context` and GORM.
unfoldable pub is_deadline_exceeded : Error → Bool
is_deadline_exceeded Error.deadline_exceeded = true
is_deadline_exceeded (Error.wrap _ e) = is_deadline_exceeded e
is_deadline_exceeded (Error.app_caused _ e) = is_deadline_exceeded e
is_deadline_exceeded _ = false

unfoldable pub is_canceled : Error → Bool
is_canceled Error.canceled = true
is_canceled (Error.wrap _ e) = is_canceled e
is_canceled (Error.app_caused _ e) = is_canceled e
is_canceled _ = false

unfoldable pub is_record_not_found : Error → Bool
is_record_not_found Error.record_not_found = true
is_record_not_found (Error.wrap _ e) = is_record_not_found e
is_record_not_found (Error.app_caused _ e) = is_record_not_found e
is_record_not_found _ = false

unfoldable pub is_duplicated_key : Error → Bool
is_duplicated_key Error.duplicated_key = true
is_duplicated_key (Error.wrap _ e) = is_duplicated_key e
is_duplicated_key (Error.app_caused _ e) = is_duplicated_key e
is_duplicated_key _ = false

-- `From`: the first `*Error` of the chain.
unfoldable pub from : Error → Option AppError
from (Error.wrap _ e) = from e
from (Error.app h) = some (record { head = h; cause = none })
from (Error.app_caused h e) = some (record { head = h; cause = some e })
from _ = none

unfoldable pub status_for_code : Code → ℕ
status_for_code Code.invalid_input = 400
status_for_code Code.unauthorized = 401
status_for_code Code.forbidden = 403
status_for_code Code.not_found = 404
status_for_code Code.conflict = 409
status_for_code Code.too_many_requests = 429
status_for_code Code.timeout = 504
status_for_code Code.unavailable = 503
status_for_code Code.internal = 500

unfoldable pub http_status : Error → ℕ
unfolding from status_for_code is_deadline_exceeded is_canceled
http_status err = elim (from err) [
  | some e ↦ status_for_code e.head.code
  | none ↦ if is_deadline_exceeded err then 504 else if is_canceled err then 408 else 500
]

unfoldable pub client_message : Error → String
unfolding from is_deadline_exceeded is_canceled
client_message err = elim (from err) [
  | some e ↦ e.head.message
  | none ↦
      if is_deadline_exceeded err
      then message_of Sentinel.err_timeout
      else if is_canceled err
      then message_of Sentinel.err_canceled
      else message_of Sentinel.err_internal
]

unfoldable pub fields : Error → List (String × String)
unfolding from
fields err = elim (from err) [ some e ↦ e.head.fields | none ↦ [] ]
