-- ===== src/Apperr/Laws.antt =====
-- What internal/apperr promises: derived copies match their sentinel, a cause stays hidden from
-- the client, and every error has a client status.
use mathlib.Core.Logic.{if_pos}
use clean_arch_go_gin.Base.{
  String, ◌≡◌, refl, ◌≤◌, ◌<◌, ◌⊎◌, inl, inr, true, false, none, some, List, arith, Option-cases,
}
use clean_arch_go_gin.Apperr.{
  Sentinel, code_of, message_of, Error, AppError, to_error, Sentinel-discrete, is_at, sentinel,
  with_cause, with_fields, with_message, internal, is, is_method, from, status_for_code,
  http_status, client_message, fields,
}

-- The copies that the three `With…` methods make, one after another, of a sentinel.
pub data Derived (s : Sentinel) : AppError → Type 0 where
  origin : Derived s (sentinel s)
  caused : {e : AppError} → Derived s e → (c : Error) → Derived s (with_cause e c)
  detailed :
      {e : AppError} → Derived s e → (f : List (String × String)) → Derived s (with_fields e f)
  reworded : {e : AppError} → Derived s e → (m : String) → Derived s (with_message e m)

-- What all of them have in common.
record Comes (s : Sentinel) (e : AppError) : Type 0 where
  identity : ((e.head.self ≡ some s) × (e.head.base ≡ none)) ⊎ (e.head.base ≡ some s)
  code : e.head.code ≡ code_of s

Derived-Comes : {s : Sentinel} {e : AppError} → Derived s e → Comes s e
unfolding sentinel with_cause with_fields with_message
Derived-Comes origin = record { identity = inl (refl, refl); code = refl }
Derived-Comes (caused d c) = let h = Derived-Comes d in ground arith
Derived-Comes (detailed d f) = let h = Derived-Comes d in ground arith
Derived-Comes (reworded d m) = let h = Derived-Comes d in ground arith

is_at_self : (s : Sentinel) → is_at (some s) s ≡ true
unfolding is_at
is_at_self s = if_pos (Sentinel-discrete s s) refl true false

Comes-is : {s : Sentinel} (e : AppError) → Comes s e → is (to_error e) s ≡ true
unfolding is is_method
Comes-is {s} e h = elim (Option-cases e.cause) [
  | inl unknown ↦ ground (arith, is_at_self s)
  | inr (c, known) ↦ ground (arith, is_at_self s)
]

-- An error obtained from a sentinel by any sequence of `WithCause`, `WithFields` and
-- `WithMessage` matches that sentinel under `errors.Is`, also when it is wrapped again, and gives
-- the client the status of the sentinel's code.
pub Derived-is :
    (s : Sentinel) (e : AppError) (prefix : String)
    → Derived s e
    → (is (to_error e) s ≡ true)
      × (is (Error.wrap prefix (to_error e)) s ≡ true)
      × (http_status (Error.wrap prefix (to_error e)) ≡ status_for_code (code_of s))
unfolding is http_status from
Derived-is s e prefix d = let h = Derived-Comes d in (Comes-is e h, Comes-is e h, ground arith)

-- The cause decides nothing that the client sees: neither status, nor message, nor field detail.
pub with_cause_hidden :
    (e : AppError) (cause : Error) (prefix : String)
    → (http_status (Error.wrap prefix (to_error (with_cause e cause))) ≡ http_status (to_error e))
      × (client_message (Error.wrap prefix (to_error (with_cause e cause)))
          ≡ client_message (to_error e))
      × (fields (Error.wrap prefix (to_error (with_cause e cause))) ≡ fields (to_error e))
unfolding http_status client_message fields from with_cause
with_cause_hidden e cause prefix = (ground arith, ground arith, ground arith)

-- Whatever is handed to `Internal`, a context error included, comes out as a 500 with the generic
-- message, and matches `ErrInternal`.
pub internal_opaque :
    (cause : Error)
    → (http_status (internal cause) ≡ 500)
      × (client_message (internal cause) ≡ "Internal server error")
      × (is (internal cause) Sentinel.err_internal ≡ true)
unfolding internal http_status client_message from
internal_opaque cause =
    (refl, refl, (Derived-is Sentinel.err_internal _ "" (caused origin cause)).0)

-- Every error, of whatever chain, is answered with a client or server error status.
pub http_status_range : (err : Error) → (400 ≤ http_status err) × (http_status err < 600)
unfolding http_status status_for_code
http_status_range err = elim (Option-cases (from err)) [
  | inl unknown ↦ ground arith
  | inr (e, known) ↦ ground arith
]

-- Errors with no `*Error` in the chain are opaque: the client sees one of the three generic
-- messages, whatever text the error carries.
pub client_message_opaque :
    (err : Error)
    → from err ≡ none
    → (client_message err ≡ message_of Sentinel.err_internal)
      ⊎ (client_message err ≡ message_of Sentinel.err_timeout)
      ⊎ (client_message err ≡ message_of Sentinel.err_canceled)
unfolding client_message
client_message_opaque err h = ground arith
