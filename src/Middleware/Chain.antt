-- ===== src/Middleware/Chain.antt =====
-- The middleware that newRouter chains around a handler: recovery.go, access_log.go,
-- security_headers.go, body_limit.go, timeout.go, RateLimit of rate_limit.go, and the middleware of
-- internal/observability/metrics.go. A request is what the layers read and write of gin's context.
-- gin-contrib/cors and otelgin are parameters.
pub mod Forwards
pub mod Laws
use clean_arch_go_gin.Base.{
  ℕ, String, Bool, true, false, Option, none, some, List, [], ◌∷◌, ◌++◌, if◌then◌else◌, leb,
}
use clean_arch_go_gin.Base.Int.{ℤ, pos, leb_ℤ}
use clean_arch_go_gin.Apperr.{Sentinel, message_of}
use clean_arch_go_gin.Di.Wiring.{Layer}

pub data Severity : Type 0 where
  logged_info logged_warn logged_error : Severity

-- The status is that of the first write, and later bodies are appended; `logged` and `counted` are
-- the lines of the access log and the samples of the request counter, the last one first.
pub record Exchange : Type 0 where
  pub status : Option ℕ
  pub bodies : List String
  pub headers : List (String × String)
  pub max_bytes : Option ℤ
  pub timeout : Option ℤ
  pub logged : List (Severity × ℕ)
  pub counted : List ℕ

-- How a handler ends.
pub data Ended : Type 0 where
  completed panicked : Exchange → Ended

abbrev pub Handler : Type 0
Handler = Exchange → Ended

-- `c.Writer.Status()` before anything is written is 200.
abbrev pub status_of : Exchange → ℕ
status_of x = elim x.status [ none ↦ 200 | some s ↦ s ]

-- `abortWithError`; once written, the status stays.
abbrev pub abort_with_error : ℕ → String → Exchange → Exchange
abort_with_error status message x = record x {
  status = some (elim x.status [ none ↦ status | some s ↦ s ]);
  bodies = x.bodies ++ message ∷ [];
}

abbrev pub recovery : Handler → Handler
recovery next x = elim (next x) [
  | completed y ↦ completed y
  | panicked y ↦ completed (abort_with_error 500 (message_of Sentinel.err_internal) y)
]

abbrev pub severity : ℕ → Severity
severity status =
    if leb 500 status
    then Severity.logged_error
    else if leb 400 status
    then Severity.logged_warn
    else Severity.logged_info

-- What follows `c.Next()` is not deferred: a panic passes it by.
abbrev pub access_log : Handler → Handler
access_log next x = elim (next x) [
  | completed y ↦ completed (record y { logged = (severity (status_of y), status_of y) ∷ y.logged })
  | panicked y ↦ panicked y
]

abbrev pub metrics : Handler → Handler
metrics next x = elim (next x) [
  | completed y ↦ completed (record y { counted = status_of y ∷ y.counted })
  | panicked y ↦ panicked y
]

abbrev default_headers : List (String × String)
default_headers =
    ("X-Content-Type-Options", "nosniff")
    ∷ ("X-Frame-Options", "DENY")
    ∷ ("Referrer-Policy", "no-referrer")
    ∷ ("Cross-Origin-Opener-Policy", "same-origin")
    ∷ ("Cross-Origin-Resource-Policy", "same-site")
    ∷ ("Content-Security-Policy", "default-src 'none'; frame-ancestors 'none'")
    ∷ ("Permissions-Policy", "geolocation=(), microphone=(), camera=()")
    ∷ []

-- The headers are set on an answer that has none of them yet.
abbrev pub security_headers : Bool → Handler → Handler
security_headers dev_mode next x = next (record x {
  headers =
      x.headers
      ++ default_headers
      ++ (if dev_mode
          then []
          else ("Strict-Transport-Security", "max-age=31536000; includeSubDomains") ∷ []);
})

-- A request always has a body on a server: an empty one is http.NoBody.
abbrev pub body_limit : ℤ → Handler → Handler
body_limit max_bytes next x =
    next (if leb_ℤ max_bytes (pos 0) then x else record x { max_bytes = some max_bytes })

abbrev pub timeout : ℤ → Handler → Handler
timeout d next x = next (if leb_ℤ d (pos 0) then x else record x { timeout = some d })

-- `RateLimit`, with what Allow answers.
abbrev pub rate_limit_layer : Bool → Handler → Handler
rate_limit_layer allowed next x =
    if allowed
    then next x
    else completed (abort_with_error 429 (message_of Sentinel.err_rate_limit) x)

-- The settings of the layers, the middleware of other packages, and the id of the request.
pub record Layers : Type 0 where
  pub dev_mode : Bool
  pub max_bytes : ℤ
  pub timeout : ℤ
  pub allowed : Bool
  pub request_id : String
  pub otelgin : Handler → Handler
  pub cors : Handler → Handler

module _ (s : Layers) where
  abbrev pub run_layer : Layer → Handler → Handler
  run_layer Layer.otelgin = s.otelgin
  run_layer Layer.request_id =
      λ next x. next (record x { headers = ("X-Request-ID", s.request_id) ∷ x.headers })
  run_layer Layer.recovery = recovery
  run_layer Layer.metrics = metrics
  run_layer Layer.access_log = access_log
  run_layer Layer.security_headers = security_headers s.dev_mode
  run_layer Layer.cors = s.cors
  run_layer Layer.body_limit = body_limit s.max_bytes
  run_layer Layer.rate_limit = rate_limit_layer s.allowed
  run_layer Layer.timeout = timeout s.timeout

  -- gin runs the layers from the first on, each around the rest.
  abbrev pub run_chain : List Layer → Handler → Handler
  run_chain [] h = h
  run_chain (layer ∷ layers) h = run_layer layer (run_chain layers h)
