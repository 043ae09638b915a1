-- ===== src/Di/Wiring.antt =====
-- What `NewContainer` passes to the services, handlers and middleware.
pub mod Laws
use clean_arch_go_gin.Base.{
  String, Bool, true, false, not, Option, List, [], ◌∷◌, ◌++◌, str_eq, if◌then◌else◌,
}
use clean_arch_go_gin.Base.Int.{ℤ}
use clean_arch_go_gin.Platform.Config.{Process, Config}
use clean_arch_go_gin.Service.Token.{TokenConfig}
use clean_arch_go_gin.Service.User.Tokens.{UserService}
use clean_arch_go_gin.Service.Csrf.{CsrfService}
use clean_arch_go_gin.Handler.User.{CookieConfig}
use clean_arch_go_gin.Observability.{AdminConfig, AdminServer, new_admin_server}

abbrev pub dev_access_secret : String
dev_access_secret = "dev-access-secret-DO-NOT-USE-IN-PRODUCTION"

abbrev pub dev_refresh_secret : String
dev_refresh_secret = "dev-refresh-secret-DO-NOT-USE-IN-PRODUCTION"

abbrev pub dev_csrf_secret : String
dev_csrf_secret = "dev-csrf-secret-DO-NOT-USE-IN-PRODUCTION"

abbrev pub or_default : String → String → String
or_default value fallback = if str_eq value "" then fallback else value

-- The layers of `newRouter`, the outermost first.
pub data Layer : Type 0 where
  otelgin request_id recovery metrics access_log security_headers cors body_limit rate_limit
        timeout :
      Layer

abbrev only_if : Bool → Layer → List Layer
only_if b layer = if b then layer ∷ [] else []

module _ (p : Process) (c : Config p) where
  abbrev pub token_config : TokenConfig
  token_config = record {
    access_token_secret = or_default c.auth.jwt_access_secret dev_access_secret;
    access_token_expiry = c.auth.access_token_ttl;
    refresh_token_secret = or_default c.auth.jwt_refresh_secret dev_refresh_secret;
    refresh_token_expiry = c.auth.refresh_token_ttl;
  }

  abbrev pub user_service : UserService
  user_service = record {
    token_service = token_config;
    refresh_token_ttl = c.auth.refresh_token_ttl;
  }

  abbrev pub csrf_service : CsrfService
  csrf_service = record {
    secret = or_default c.auth.csrf_secret dev_csrf_secret;
    ttl = c.auth.csrf_token_ttl;
  }

  abbrev pub cookie_config : CookieConfig
  cookie_config = record {
    access_ttl = c.auth.access_token_ttl;
    refresh_ttl = c.auth.refresh_token_ttl;
    secure = not c.auth.dev_mode;
  }

  abbrev pub admin_config : AdminConfig
  admin_config = record {
    metrics_enabled = c.observability.metrics_enabled;
    pprof_enabled = c.observability.pprof_enabled;
    host = c.observability.admin_host;
    port = c.observability.admin_port;
    read_timeout = c.server.read_timeout;
    write_timeout = c.server.write_timeout;
    idle_timeout = c.server.idle_timeout;
  }

  -- The registry exists if metrics are enabled.
  abbrev pub admin_server : Option AdminServer
  admin_server = new_admin_server admin_config c.observability.metrics_enabled

  -- `newRouter`; the metrics' middleware is there if the registry is.
  abbrev pub new_router : List Layer
  new_router =
      only_if c.tracing.enabled Layer.otelgin
      ++ (Layer.request_id ∷ Layer.recovery ∷ [])
      ++ only_if c.observability.metrics_enabled Layer.metrics
      ++ (Layer.access_log ∷ Layer.security_headers ∷ Layer.cors ∷ Layer.body_limit ∷ [])
      ++ only_if c.security.rate_limit_enabled Layer.rate_limit
      ++ (Layer.timeout ∷ [])

  -- `authRateLimiter`: the limiter is asked only if rate limiting is on.
  abbrev pub auth_rate_limiter : {W : Type 0} → (W → Bool × W) → W → Bool × W
  auth_rate_limiter allow w = if c.security.rate_limit_enabled then allow w else (true, w)
