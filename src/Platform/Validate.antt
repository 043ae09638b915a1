-- ===== src/Platform/Validate.antt =====
-- internal/platform/config_validate.go. A problem is a constructor in place of its text, with the
-- variable that it names where one rule serves several. Whether there is any does not depend on the
-- order of the three secrets, which the code takes from a Go map.
pub mod Laws
use Prim.Native.Char.{Char, code}
use Prim.Native.String.{len}
use clean_arch_go_gin.Base.{
  ℕ, String, Bool, true, false, not, ◌&&◌, ◌||◌, Option, none, some, List, [], ◌∷◌, ◌++◌, ◌==◌,
  str_eq, ltb, if◌then◌else◌,
}
use clean_arch_go_gin.Base.Int.{ℤ, pos, ltb_ℤ, leb_ℤ, eqb_ℤ}
use clean_arch_go_gin.Platform.Config.{Process, AuthConfig, Config}

pub data Problem : Type 0 where
  not_an_integer not_a_duration not_a_number outside_ports not_positive not_set too_short :
      String → Problem
  database_type_not_supported dsn_empty no_open_conns idle_exceeds_open : Problem
  refresh_not_longer same_jwt_secrets any_origin : Problem
  log_level_not_supported log_format_not_supported : Problem
  exporter_not_supported endpoint_not_set ratio_outside_unit service_name_empty insecure_remote :
      Problem
  purge_interval_negative admin_port_is_server_port admin_host_empty pprof_not_loopback : Problem

-- `if … { problems = append(problems, …) }`
unfoldable pub when : Bool → Problem → List Problem
when b p = if b then p ∷ [] else []

abbrev pub min_secret_length : ℕ
min_secret_length = 32

abbrev pub starts_with : String → String → Bool
starts_with _ String.[] = true
starts_with String.[] (String.◌∷◌ _ _) = false
starts_with (String.◌∷◌ a s) (String.◌∷◌ b t) = (code a == code b) && starts_with s t

-- `strings.Contains`
abbrev pub contains : String → String → Bool
contains String.[] t = str_eq t ""
contains (String.◌∷◌ a s) t = starts_with (String.◌∷◌ a s) t || contains s t

abbrev pub is_loopback_endpoint : String → Bool
is_loopback_endpoint endpoint =
    contains endpoint "localhost" || contains endpoint "127.0.0.1" || contains endpoint "[::1]"

abbrev pub int_vars : List String
int_vars =
    "SERVER_PORT" ∷ "DATABASE_MAX_OPEN_CONNS" ∷ "DATABASE_MAX_IDLE_CONNS" ∷ "RATE_LIMIT_BURST"
    ∷ "MAX_REQUEST_BODY_BYTES" ∷ "ADMIN_PORT" ∷ []

abbrev pub duration_vars : List String
duration_vars =
    "SERVER_READ_TIMEOUT" ∷ "SERVER_WRITE_TIMEOUT" ∷ "SERVER_IDLE_TIMEOUT"
    ∷ "SERVER_SHUTDOWN_TIMEOUT" ∷ "SERVER_REQUEST_TIMEOUT" ∷ "DATABASE_CONN_MAX_LIFETIME"
    ∷ "JWT_ACCESS_TTL" ∷ "JWT_REFRESH_TTL" ∷ "CSRF_TOKEN_TTL" ∷ "REFRESH_TOKEN_PURGE_INTERVAL" ∷ []

abbrev pub validate_secret : String → String → List Problem
validate_secret name value =
    if str_eq value ""
    then Problem.not_set name ∷ []
    else when (ltb (len value) min_secret_length) (Problem.too_short name)

abbrev pub validate_origins : List String → List Problem
validate_origins [] = []
validate_origins (origin ∷ origins) =
    when (str_eq origin "*") Problem.any_origin ++ validate_origins origins

module _ (p : Process) where
  open p use {getenv, atoi, parse_duration, parse_float, constant, less, is_loopback_ip}

  abbrev pub is_loopback_host : String → Bool
  is_loopback_host host =
      str_eq host "localhost"
      || str_eq host "127.0.0.1"
      || str_eq host "::1"
      || str_eq host "[::1]"
      || is_loopback_ip host

  abbrev pub rejects : {A : Type 0} → (String → Option A) → String → Bool
  rejects parse raw = not (str_eq raw "") && elim (parse raw) [ none ↦ true | some _ ↦ false ]

  -- The loop over variables of one kind.
  abbrev pub unreadable :
      {A : Type 0} → (String → Option A) → (String → Problem) → List String → List Problem
  unreadable parse problem [] = []
  unreadable parse problem (key ∷ keys) =
      when (rejects parse (getenv key)) (problem key) ++ unreadable parse problem keys

  abbrev pub validate_parsing : List Problem
  validate_parsing =
      unreadable atoi Problem.not_an_integer int_vars
      ++ unreadable parse_duration Problem.not_a_duration duration_vars
      ++ when (rejects parse_float (getenv "RATE_LIMIT_RPS"))
          (Problem.not_a_number "RATE_LIMIT_RPS")

  module _ (c : Config p) where
    abbrev pub validate_server : List Problem
    validate_server =
        when (ltb_ℤ c.server.port (pos 1) || ltb_ℤ (pos 65535) c.server.port)
          (Problem.outside_ports "SERVER_PORT")
        ++ when (leb_ℤ c.server.shutdown_timeout (pos 0))
            (Problem.not_positive "SERVER_SHUTDOWN_TIMEOUT")

    abbrev pub validate_database : List Problem
    validate_database =
        when (not (str_eq c.database.type_name "sqlite" || str_eq c.database.type_name "postgres"))
          Problem.database_type_not_supported
        ++ when (str_eq c.database.dsn "") Problem.dsn_empty
        ++ when (ltb_ℤ c.database.max_open_conns (pos 1)) Problem.no_open_conns
        ++ when (ltb_ℤ c.database.max_open_conns c.database.max_idle_conns)
            Problem.idle_exceeds_open

    abbrev pub validate_deployment : List Problem
    validate_deployment =
        validate_secret "JWT_ACCESS_SECRET" c.auth.jwt_access_secret
        ++ validate_secret "JWT_REFRESH_SECRET" c.auth.jwt_refresh_secret
        ++ validate_secret "CSRF_SECRET" c.auth.csrf_secret
        ++ when
            (not (str_eq c.auth.jwt_access_secret "")
              && str_eq c.auth.jwt_access_secret c.auth.jwt_refresh_secret)
            Problem.same_jwt_secrets
        ++ validate_origins c.auth.allowed_origins

    abbrev pub validate_auth : List Problem
    validate_auth =
        when (leb_ℤ c.auth.access_token_ttl (pos 0)) (Problem.not_positive "JWT_ACCESS_TTL")
        ++ when (leb_ℤ c.auth.refresh_token_ttl c.auth.access_token_ttl) Problem.refresh_not_longer
        ++ (if c.auth.dev_mode then [] else validate_deployment)

    abbrev pub validate_log : List Problem
    validate_log =
        when
          (not (
            str_eq c.log.level "debug"
            || str_eq c.log.level "info"
            || str_eq c.log.level "warn"
            || str_eq c.log.level "warning"
            || str_eq c.log.level "error"))
          Problem.log_level_not_supported
        ++ when (not (str_eq c.log.format "json" || str_eq c.log.format "text"))
            Problem.log_format_not_supported

    abbrev pub validate_tracing : List Problem
    validate_tracing =
        if not c.tracing.enabled
        then []
        else when
            (not (
              str_eq c.tracing.exporter "otlp"
              || str_eq c.tracing.exporter "console"
              || str_eq c.tracing.exporter "stdout"))
            Problem.exporter_not_supported
          ++ when (str_eq c.tracing.exporter "otlp" && str_eq c.tracing.endpoint "")
              Problem.endpoint_not_set
          ++ when
              (less c.tracing.sample_ratio (constant "0")
                || less (constant "1") c.tracing.sample_ratio)
              Problem.ratio_outside_unit
          ++ when (str_eq c.tracing.service_name "") Problem.service_name_empty
          ++ when
              (not c.auth.dev_mode
                && c.tracing.insecure
                && str_eq c.tracing.exporter "otlp"
                && not (is_loopback_endpoint c.tracing.endpoint))
              Problem.insecure_remote

    abbrev pub validate_token_lifetimes : List Problem
    validate_token_lifetimes =
        when (leb_ℤ c.auth.csrf_token_ttl (pos 0)) (Problem.not_positive "CSRF_TOKEN_TTL")
        ++ when (ltb_ℤ c.auth.refresh_token_purge_interval (pos 0)) Problem.purge_interval_negative

    abbrev pub validate_observability : List Problem
    validate_observability =
        if not c.observability.metrics_enabled && not c.observability.pprof_enabled
        then []
        else when
            (ltb_ℤ c.observability.admin_port (pos 1)
              || ltb_ℤ (pos 65535) c.observability.admin_port)
            (Problem.outside_ports "ADMIN_PORT")
          ++ when (eqb_ℤ c.observability.admin_port c.server.port) Problem.admin_port_is_server_port
          ++ when (str_eq c.observability.admin_host "") Problem.admin_host_empty
          ++ when
              (not c.auth.dev_mode
                && c.observability.pprof_enabled
                && not (is_loopback_host c.observability.admin_host))
              Problem.pprof_not_loopback

    -- `Validate` returns nil when this list is empty.
    unfoldable pub validate : List Problem
    validate =
        validate_parsing ++ validate_server ++ validate_database ++ validate_auth ++ validate_log
        ++ validate_tracing ++ validate_observability ++ validate_token_lifetimes
