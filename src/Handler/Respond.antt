-- ===== src/Handler/Respond.antt =====
-- internal/api/handler/respond.go: how an error becomes a response. A response is its status, its
-- envelope (internal/model/response/wrapper.go) and the cookies that it sets; the identifiers of the
-- request in an error's envelope, the log and the span are left out.
use clean_arch_go_gin.Base.{
  ℕ, String, Bool, true, false, Option, none, some, List, [], map, str_eq, if◌then◌else◌, ◌||◌,
}
use clean_arch_go_gin.Base.Int.{ℤ}
use Prim.Native.String.{◌++◌}
use clean_arch_go_gin.Apperr.{
  Error, FieldError, Code, Sentinel, to_error, new, sentinel, with_cause, with_fields, http_status,
  client_message, fields,
}
use clean_arch_go_gin.Response.{
  GetUser, LoginResponse, RegisterResponse, Session, Meta, GetCounter, GetMessage,
}

pub data Payload : Type 0 where
  no_data : Payload
  registered : RegisterResponse → Payload
  logged_in : LoginResponse → Payload
  user : GetUser → Payload
  sessions : List Session → Payload
  token : String → Payload
  counted : GetCounter → Payload
  content : Option GetMessage → Payload

pub record ApiResponse : Type 0 where
  pub success : Bool
  pub message : String
  pub data_ : Payload
  pub meta : Option Meta
  pub errors : List (String × String)

-- `SetCookie` with the path "/" and HttpOnly.
pub record Cookie : Type 0 where
  pub name : String
  pub value : String
  pub max_age : ℤ
  pub secure : Bool

pub record Reply : Type 0 where
  pub status : ℕ
  pub body : ApiResponse
  pub cookies : List Cookie

-- `OK`.
abbrev pub ok_reply : ℕ → String → Payload → List Cookie → Reply
ok_reply status message payload cookies = record {
  status = status;
  body = record { success = true; message = message; data_ = payload; meta = none; errors = [] };
  cookies = cookies;
}

-- `OKWithMeta`.
abbrev pub ok_with_meta : ℕ → String → Payload → Meta → Reply
ok_with_meta status message payload meta = record {
  status = status;
  body = record {
    success = true;
    message = message;
    data_ = payload;
    meta = some meta;
    errors = [];
  };
  cookies = [];
}

-- `Fail`. With no fields the envelope has no errors either.
abbrev pub fail : Error → Reply
fail e = record {
  status = http_status e;
  body = record {
    success = false;
    message = client_message e;
    data_ = Payload.no_data;
    meta = none;
    errors = fields e;
  };
  cookies = [];
}

-- `errors.As` for an `*http.MaxBytesError` and for `validator.ValidationErrors`.
abbrev pub is_max_bytes : Error → Bool
is_max_bytes Error.max_bytes = true
is_max_bytes (Error.wrap _ e) = is_max_bytes e
is_max_bytes (Error.app_caused _ e) = is_max_bytes e
is_max_bytes _ = false

abbrev pub validation_errors : Error → Option (List FieldError)
validation_errors (Error.validation errs) = some errs
validation_errors (Error.wrap _ e) = validation_errors e
validation_errors (Error.app_caused _ e) = validation_errors e
validation_errors _ = none

-- `strings.ReplaceAll(s, " ", ", ")`
abbrev pub spaces_to_commas : String → String
spaces_to_commas String.[] = ""
spaces_to_commas (String.◌∷◌ c s) =
    (if str_eq (String.◌∷◌ c "") " " then ", " else String.◌∷◌ c "") ++ spaces_to_commas s

-- `%q` of a tag, which is made of letters, is the tag in quotes.
abbrev pub validation_message : FieldError → String
validation_message fe =
    if str_eq fe.tag "required"
    then "This field is required"
    else if str_eq fe.tag "email"
    then "Must be a valid email address"
    else if str_eq fe.tag "min"
    then "Must be at least " ++ fe.param ++ (if fe.is_string then " characters" else "")
    else if str_eq fe.tag "max"
    then "Must be at most " ++ fe.param ++ (if fe.is_string then " characters" else "")
    else if str_eq fe.tag "len"
    then "Must be exactly " ++ fe.param ++ " characters"
    else if str_eq fe.tag "oneof"
    then "Must be one of: " ++ spaces_to_commas fe.param
    else if str_eq fe.tag "uuid" || str_eq fe.tag "uuid4"
    then "Must be a valid UUID"
    else if str_eq fe.tag "url"
    then "Must be a valid URL"
    else if str_eq fe.tag "eqfield"
    then "Must match " ++ fe.param
    else "Failed the \"" ++ fe.tag ++ "\" rule"

-- The map from fields to messages, as the list of its assignments.
abbrev pub validation_fields : List FieldError → List (String × String)
validation_fields errs = map (λ fe. (fe.field, validation_message fe)) errs

-- The error that `BindJSON` answers with when `ShouldBindJSON` returns `e`.
abbrev pub binding_error : Error → Error
binding_error e =
    if is_max_bytes e
    then to_error (with_cause (new Code.invalid_input "Request body is too large") e)
    else elim (validation_errors e) [
      | some errs ↦
          to_error
            (with_cause (with_fields (sentinel Sentinel.err_validation) (validation_fields errs)) e)
      | none ↦ to_error (with_cause (sentinel Sentinel.err_bad_request) e)
    ]
