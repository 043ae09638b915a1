-- ===== src/Platform/Config.antt =====
-- internal/platform/config.go. The environment and the parsers of the standard library are
-- parameters, since all that matters of them is which texts they accept. Go's `float64` is theirs.
use clean_arch_go_gin.Base.{
  ℕ, ◌*◌, ◌^◌, String, Bool, true, false, ◌||◌, Option, none, some, List, [], ◌∷◌, map, str_eq,
  if◌then◌else◌,
}
use clean_arch_go_gin.Base.Int.{ℤ, pos}

pub record Process : Type 1 where
  -- `os.Getenv`, "" for a variable that is not set.
  pub getenv : String → String
  -- `strconv.Atoi`, `time.ParseDuration`.
  pub atoi : String → Option ℤ
  pub parse_duration : String → Option ℤ
  -- `strconv.ParseFloat`, the value of a constant, and `<`.
  pub Float : Type 0
  pub parse_float : String → Option Float
  pub constant : String → Float
  pub less : Float → Float → Bool
  -- `strings.ToLower`, `strings.Split` at a comma, `strings.TrimSpace`.
  pub to_lower : String → String
  pub split_comma : String → List String
  pub trim_space : String → String
  -- Whether `net.ParseIP(strings.Trim(host, "[]"))` is an address that is a loopback one.
  pub is_loopback_ip : String → Bool

pub record AuthConfig : Type 0 where
  pub jwt_access_secret : String
  pub jwt_refresh_secret : String
  pub csrf_secret : String
  pub dev_mode : Bool
  pub allowed_origins : List String
  pub access_token_ttl : ℤ
  pub refresh_token_ttl : ℤ
  pub csrf_token_ttl : ℤ
  pub refresh_token_purge_interval : ℤ

pub record ServerConfig : Type 0 where
  pub port : ℤ
  pub host : String
  pub read_timeout : ℤ
  pub write_timeout : ℤ
  pub idle_timeout : ℤ
  pub shutdown_timeout : ℤ
  pub request_timeout : ℤ

-- Without the open handle, which is nil until the database is opened.
pub record DatabaseConfig : Type 0 where
  pub type_name : String
  pub dsn : String
  pub max_open_conns : ℤ
  pub max_idle_conns : ℤ
  pub conn_max_lifetime : ℤ
  pub log_level : String
  pub auto_migrate : Bool

pub record LogConfig : Type 0 where
  pub level : String
  pub format : String

pub record ObservabilityConfig : Type 0 where
  pub metrics_enabled : Bool
  pub pprof_enabled : Bool
  pub admin_host : String
  pub admin_port : ℤ

abbrev pub second : ℕ
second = 10 ^ 9

abbrev pub minute : ℕ
minute = 60 * second

abbrev pub hour : ℕ
hour = 60 * minute

module _ (p : Process) where
  open p use {
    getenv, atoi, parse_duration, Float, parse_float, constant, to_lower, split_comma, trim_space,
  }

  pub record TracingConfig : Type 0 where
    pub enabled : Bool
    pub service_name : String
    pub service_version : String
    pub environment : String
    pub exporter : String
    pub endpoint : String
    pub insecure : Bool
    pub sample_ratio : Float

  pub record SecurityConfig : Type 0 where
    pub rate_limit_enabled : Bool
    pub rate_limit_rps : Float
    pub rate_limit_burst : ℤ
    pub auth_rate_limit_rps : Float
    pub auth_rate_limit_burst : ℤ
    pub max_request_body : ℤ
    pub trusted_proxies : List String

  pub record Config : Type 0 where
    pub server : ServerConfig
    pub database : DatabaseConfig
    pub auth : AuthConfig
    pub log : LogConfig
    pub security : SecurityConfig
    pub tracing : TracingConfig
    pub observability : ObservabilityConfig

  abbrev pub get_env : String → String → String
  get_env key default_value = if str_eq (getenv key) "" then default_value else getenv key

  -- What `getEnvInt`, `getEnvFloat` and `getEnvDuration` share: a value that does not parse is the
  -- default.
  abbrev pub get_parsed : {A : Type 0} → (String → Option A) → String → A → A
  get_parsed parse key default_value =
      if str_eq (getenv key) ""
      then default_value
      else elim (parse (getenv key)) [ some value ↦ value | none ↦ default_value ]

  abbrev pub get_env_int : String → ℤ → ℤ
  get_env_int = get_parsed atoi

  abbrev pub get_env_float : String → Float → Float
  get_env_float = get_parsed parse_float

  abbrev pub get_env_duration : String → ℕ → ℤ
  get_env_duration key default_value = get_parsed parse_duration key (pos default_value)

  abbrev pub get_env_bool : String → Bool → Bool
  get_env_bool key default_value =
      let value = getenv key in
      if str_eq value ""
      then default_value
      else str_eq value "true" || str_eq value "1" || str_eq value "yes"

  abbrev pub parse_csv_env : String → String → List String
  parse_csv_env key default_value =
      if str_eq (getenv key) ""
      then (if str_eq default_value "" then [] else default_value ∷ [])
      else map trim_space (split_comma (getenv key))

  abbrev pub default_log_level : Bool → String
  default_log_level dev_mode = if dev_mode then "debug" else "info"

  abbrev pub default_log_format : Bool → String
  default_log_format dev_mode = if dev_mode then "text" else "json"

  abbrev pub default_environment : Bool → String
  default_environment dev_mode = if dev_mode then "development" else "production"

  abbrev pub default_database_log_level : Bool → String
  default_database_log_level dev_mode = if dev_mode then "info" else "warn"

  unfoldable pub new_config : Config
  new_config =
      let dev_mode = get_env_bool "DEV_MODE" false in
      record {
        server = record {
          port = get_env_int "SERVER_PORT" (pos 8080);
          host = get_env "SERVER_HOST" "";
          read_timeout = get_env_duration "SERVER_READ_TIMEOUT" (15 * second);
          write_timeout = get_env_duration "SERVER_WRITE_TIMEOUT" (15 * second);
          idle_timeout = get_env_duration "SERVER_IDLE_TIMEOUT" (60 * second);
          shutdown_timeout = get_env_duration "SERVER_SHUTDOWN_TIMEOUT" (10 * second);
          request_timeout = get_env_duration "SERVER_REQUEST_TIMEOUT" (10 * second);
        };
        database = record {
          dsn = get_env "DATABASE_DSN" "dev.db";
          type_name = get_env "DATABASE_TYPE" "sqlite";
          max_open_conns = get_env_int "DATABASE_MAX_OPEN_CONNS" (pos 25);
          max_idle_conns = get_env_int "DATABASE_MAX_IDLE_CONNS" (pos 5);
          conn_max_lifetime = get_env_duration "DATABASE_CONN_MAX_LIFETIME" (5 * minute);
          log_level = get_env "DATABASE_LOG_LEVEL" (default_database_log_level dev_mode);
          auto_migrate = get_env_bool "DATABASE_AUTO_MIGRATE" true;
        };
        auth = record {
          jwt_access_secret = getenv "JWT_ACCESS_SECRET";
          jwt_refresh_secret = getenv "JWT_REFRESH_SECRET";
          csrf_secret = getenv "CSRF_SECRET";
          dev_mode = dev_mode;
          allowed_origins = parse_csv_env "ALLOWED_ORIGINS" "http://localhost:5173";
          access_token_ttl = get_env_duration "JWT_ACCESS_TTL" (15 * minute);
          refresh_token_ttl = get_env_duration "JWT_REFRESH_TTL" (7 * 24 * hour);
          csrf_token_ttl = get_env_duration "CSRF_TOKEN_TTL" (12 * hour);
          refresh_token_purge_interval = get_env_duration "REFRESH_TOKEN_PURGE_INTERVAL" hour;
        };
        log = record {
          level = to_lower (get_env "LOG_LEVEL" (default_log_level dev_mode));
          format = to_lower (get_env "LOG_FORMAT" (default_log_format dev_mode));
        };
        security = record {
          rate_limit_enabled = get_env_bool "RATE_LIMIT_ENABLED" true;
          rate_limit_rps = get_env_float "RATE_LIMIT_RPS" (constant "20");
          rate_limit_burst = get_env_int "RATE_LIMIT_BURST" (pos 40);
          auth_rate_limit_rps = get_env_float "AUTH_RATE_LIMIT_RPS" (constant "0.2");
          auth_rate_limit_burst = get_env_int "AUTH_RATE_LIMIT_BURST" (pos 5);
          max_request_body = get_env_int "MAX_REQUEST_BODY_BYTES" (pos (2 ^ 20));
          trusted_proxies = parse_csv_env "TRUSTED_PROXIES" "";
        };
        observability = record {
          metrics_enabled = get_env_bool "METRICS_ENABLED" false;
          pprof_enabled = get_env_bool "PPROF_ENABLED" false;
          admin_host = get_env "ADMIN_HOST" "127.0.0.1";
          admin_port = get_env_int "ADMIN_PORT" (pos 9090);
        };
        tracing = record {
          enabled = get_env_bool "OTEL_ENABLED" false;
          service_name = get_env "OTEL_SERVICE_NAME" "clean-arch-go-gin";
          service_version = get_env "OTEL_SERVICE_VERSION" "dev";
          environment = get_env "OTEL_ENVIRONMENT" (default_environment dev_mode);
          exporter = to_lower (get_env "OTEL_TRACES_EXPORTER" "otlp");
          endpoint = get_env "OTEL_EXPORTER_OTLP_ENDPOINT" "http://localhost:4318";
          insecure = get_env_bool "OTEL_EXPORTER_OTLP_INSECURE" true;
          sample_ratio = get_env_float "OTEL_TRACES_SAMPLER_ARG" (constant "1.0");
        };
      }
