-- ===== src/Middleware/RequestId.antt =====
-- internal/api/middleware/request_id.go, without the logger that it attaches. The trace id is that
-- of the request's span, or "".
pub mod Laws
use Prim.Native.Char.{Char, code}
use Prim.Native.String.{String, [], ◌∷◌, len}
use clean_arch_go_gin.Base.{
  ℕ, Bool, true, false, not, ◌&&◌, ◌||◌, ◌==◌, leb, ltb, Option, none, some, str_eq, if◌then◌else◌,
}
use clean_arch_go_gin.Outside.{Outside}

abbrev pub max_request_id_length : ℕ
max_request_id_length = 128

abbrev is_id_code : ℕ → Bool
is_id_code r =
    (leb 97 r && leb r 122)
    || (leb 65 r && leb r 90)
    || (leb 48 r && leb r 57)
    || r == 45
    || r == 95
    || r == 46

-- The loop of `sanitizeRequestID`.
unfoldable pub is_clean : String → Bool
is_clean [] = true
is_clean (c ∷ s) = is_id_code (code c) && is_clean s

-- `sanitizeRequestID`; `len` counts bytes.
unfoldable pub sanitize_request_id : String → String
unfolding is_clean
sanitize_request_id id =
    if str_eq id "" || ltb max_request_id_length (len id)
    then ""
    else if is_clean id
    then id
    else ""

-- The two keys of gin's context.
pub record RequestIds : Type 0 where
  pub request_id : Option String
  pub trace_id : Option String

abbrev string_from_context : Option String → String
string_from_context value = elim value [ none ↦ "" | some s ↦ s ]

abbrev pub get_request_id : RequestIds → String
get_request_id c = string_from_context c.request_id

abbrev pub get_trace_id : RequestIds → String
get_trace_id c = string_from_context c.trace_id

module _ (o : Outside) where
  open o use {World}

  -- `resolveRequestID`: the header is "" when it is missing.
  unfoldable pub resolve_request_id : String → String → World → String × World
  unfolding sanitize_request_id
  resolve_request_id header trace_id w =
      let id = sanitize_request_id header in
      let (fresh, w') = o.new_uuid w in
      if not (str_eq id "")
      then (id, w)
      else if not (str_eq trace_id "")
      then (trace_id, w)
      else (o.uuid_string fresh, w')

  -- `RequestID`: what it sets, and the response header, which is the request id.
  unfoldable pub assign_request_id : String → String → World → (RequestIds × String) × World
  unfolding resolve_request_id
  assign_request_id header trace_id w =
      let (id, w') = resolve_request_id header trace_id w in
      (
        (
          record {
            request_id = some id;
            trace_id = if str_eq trace_id "" then none else some trace_id;
          },
          id,
        ),
        w',
      )
