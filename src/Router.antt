-- ===== src/Router.antt =====
-- internal/api/router.go: the routes with the middleware in front of their handlers, and how a
-- request runs through them. A route is matched by its method and path, which have no parameters;
-- gin answers another method of a known path as an unknown route, since the engine does not ask for
-- anything else. The limiter of the credential endpoints and the CSRF service are parameters here.
pub mod Guards
pub mod Access
use clean_arch_go_gin.Base.{
  ℕ, String, Bool, true, false, ◌&&◌, Option, none, some, List, [], ◌∷◌, ◌++◌, str_eq,
  if◌then◌else◌,
}
use clean_arch_go_gin.Apperr.{Sentinel, message_of}
use clean_arch_go_gin.Outside.{Outside}
use clean_arch_go_gin.Service.Token.{TokenConfig}
use clean_arch_go_gin.Middleware.Auth.{AuthContext, Next, auth_middleware, csrf_middleware}

-- The handlers, by the names of their methods.
pub data Endpoint : Type 0 where
  get_message register login refresh get_csrf_token get_me list_sessions logout : Endpoint
  change_password delete_account get_counter increment_counter : Endpoint
  check ready : Endpoint

pub data Guard : Type 0 where
  auth_limiter csrf auth : Guard

pub record Route : Type 0 where
  pub method : String
  pub path : String
  pub guards : List Guard
  pub endpoint : Endpoint

abbrev route : String → String → List Guard → Endpoint → Route
route method path guards endpoint = record {
  method = method;
  path = path;
  guards = guards;
  endpoint = endpoint;
}

-- A route of the group `protected`, whose middleware comes before the route's own.
abbrev protected : String → String → List Guard → Endpoint → Route
protected method path guards endpoint = route method path (Guard.auth ∷ guards) endpoint

-- `SetupRoutes`, in the order of the registrations.
abbrev pub setup_routes : List Route
setup_routes =
    route "GET" "/api/v1/message" [] Endpoint.get_message
    ∷ route "POST" "/api/v1/auth/register" (Guard.auth_limiter ∷ []) Endpoint.register
    ∷ route "POST" "/api/v1/auth/login" (Guard.auth_limiter ∷ []) Endpoint.login
    ∷ route "POST" "/api/v1/auth/refresh" (Guard.auth_limiter ∷ Guard.csrf ∷ []) Endpoint.refresh
    ∷ route "GET" "/api/v1/csrf" [] Endpoint.get_csrf_token
    ∷ protected "GET" "/api/v1/auth/me" [] Endpoint.get_me
    ∷ protected "GET" "/api/v1/auth/sessions" [] Endpoint.list_sessions
    ∷ protected "POST" "/api/v1/auth/logout" (Guard.csrf ∷ []) Endpoint.logout
    ∷ protected "PATCH" "/api/v1/auth/password" (Guard.csrf ∷ []) Endpoint.change_password
    ∷ protected "DELETE" "/api/v1/auth/me" (Guard.csrf ∷ []) Endpoint.delete_account
    ∷ protected "GET" "/api/v1/counter" [] Endpoint.get_counter
    ∷ protected "POST" "/api/v1/counter" (Guard.csrf ∷ []) Endpoint.increment_counter
    ∷ []

abbrev pub setup_health_routes : List Route
setup_health_routes =
    route "GET" "/api/health" [] Endpoint.ready
    ∷ route "GET" "/api/health/live" [] Endpoint.check
    ∷ route "GET" "/api/health/ready" [] Endpoint.ready
    ∷ []

abbrev pub routes : List Route
routes = setup_routes ++ setup_health_routes

-- What the routing and the guards read of a request.
pub record Request : Type 0 where
  pub method : String
  pub path : String
  pub access_token : Option String
  pub csrf_header : String

unfoldable pub find_route : Request → List Route → Option Route
find_route q [] = none
find_route q (r ∷ rs) =
    if str_eq q.method r.method && str_eq q.path r.path then some r else find_route q rs

-- How far a request gets: to a handler, which reads the context, or to an error.
pub data Served : Type 0 where
  handled : Endpoint → AuthContext → Served
  refused : ℕ → String → Served

abbrev no_context : AuthContext
no_context = record { user_id = none; user_email = none; claims = none }

-- `SetupFallbacks`, the handler for no route.
abbrev pub route_not_found : Served
route_not_found = Served.refused 404 "Route not found"

module _ (o : Outside) where
  open o use {World}

  -- The limiter of the credential endpoints, asked for this client, and `ValidateToken`.
  pub record Guarding : Type 0 where
    pub allow : World → Bool × World
    pub validate_csrf : World → String → Bool
    pub token_config : TokenConfig

  module _ (g : Guarding) where
    -- `RateLimit`
    abbrev rate_limit : AuthContext → World → Next × World
    rate_limit ctx w =
        let (allowed, w') = g.allow w in
        (
          if allowed
              then Next.passed ctx
              else Next.aborted 429 (message_of Sentinel.err_rate_limit),
          w',
        )

    abbrev pub run_guard : Guard → Request → AuthContext → World → Next × World
    run_guard Guard.auth_limiter q ctx w = rate_limit ctx w
    run_guard Guard.csrf q ctx w =
        (csrf_middleware (g.validate_csrf w) q.method q.csrf_header ctx, w)
    run_guard Guard.auth q ctx w = auth_middleware o g.token_config q.access_token w

    -- What follows a guard, from its outcome.
    unfoldable pub after : (AuthContext → World → Next × World) → Next × World → Next × World
    after rest (Next.passed ctx, w) = rest ctx w
    after rest (Next.aborted status message, w) = (Next.aborted status message, w)

    -- The chain: the first guard that aborts ends the request.
    unfoldable pub run_guards : List Guard → Request → AuthContext → World → Next × World
    unfolding after
    run_guards [] q ctx w = (Next.passed ctx, w)
    run_guards (s ∷ ss) q ctx w = after (run_guards ss q) (run_guard s q ctx w)

    abbrev served : Endpoint → Next × World → Served × World
    served endpoint (Next.passed ctx, w) = (Served.handled endpoint ctx, w)
    served endpoint (Next.aborted status message, w) = (Served.refused status message, w)

    unfoldable pub serve : Request → World → Served × World
    unfolding find_route run_guards
    serve q w = elim (find_route q routes) [
      | none ↦ (route_not_found, w)
      | some r ↦ served r.endpoint (run_guards r.guards q no_context w)
    ]
