-- ===== src/Examples/Deployment.antt =====
-- A configuration for production that `Validate` accepts.
use clean_arch_go_gin.Base.{ℕ, ◌≡◌, refl, true, false, none, [], ◌∷◌, ltb}
use clean_arch_go_gin.Base.Int.{pos}
use clean_arch_go_gin.Platform.Config.{Process, Config}
use clean_arch_go_gin.Platform.Validate.{when, validate}
use clean_arch_go_gin.Platform.Validate.Laws.{IsSound, IsDeployable, validate-IsSound}
use clean_arch_go_gin.Di.Wiring.Laws.{IsSecure, wiring-IsSecure}

-- An empty environment.
abbrev pub process : Process
process = record {
  getenv = λ _. "";
  atoi = λ _. none;
  parse_duration = λ _. none;
  Float = ℕ;
  parse_float = λ _. none;
  constant = λ _. 1;
  less = ltb;
  to_lower = λ s. s;
  split_comma = λ s. s ∷ [];
  trim_space = λ s. s;
  is_loopback_ip = λ _. false;
}

abbrev pub production : Config process
production = record {
  server = record {
    port = pos 8080;
    host = "";
    read_timeout = pos 15;
    write_timeout = pos 15;
    idle_timeout = pos 60;
    shutdown_timeout = pos 10;
    request_timeout = pos 10;
  };
  database = record {
    type_name = "postgres";
    dsn = "host=db";
    max_open_conns = pos 25;
    max_idle_conns = pos 5;
    conn_max_lifetime = pos 300;
    log_level = "warn";
    auto_migrate = false;
  };
  auth = record {
    jwt_access_secret = "0123456789abcdef0123456789abcdef";
    jwt_refresh_secret = "fedcba9876543210fedcba9876543210";
    csrf_secret = "00000000111111112222222233333333";
    dev_mode = false;
    allowed_origins = "https://example.org" ∷ [];
    access_token_ttl = pos 900;
    refresh_token_ttl = pos 604800;
    csrf_token_ttl = pos 43200;
    refresh_token_purge_interval = pos 3600;
  };
  log = record { level = "info"; format = "json" };
  security = record {
    rate_limit_enabled = true;
    rate_limit_rps = 20;
    rate_limit_burst = pos 40;
    auth_rate_limit_rps = 1;
    auth_rate_limit_burst = pos 5;
    max_request_body = pos 1048576;
    trusted_proxies = [];
  };
  tracing = record {
    enabled = false;
    service_name = "clean-arch-go-gin";
    service_version = "1";
    environment = "production";
    exporter = "otlp";
    endpoint = "";
    insecure = false;
    sample_ratio = 1;
  };
  observability = record {
    metrics_enabled = true;
    pprof_enabled = true;
    admin_host = "127.0.0.1";
    admin_port = pos 9090;
  };
}

accepted : validate process production ≡ []
unfolding validate when
accepted = refl

validate-IsSound_example :
    IsSound process production
    × (production.auth.dev_mode ≡ false → IsDeployable process production)
validate-IsSound_example = validate-IsSound process production accepted

wiring-IsSecure_example : IsSecure process production
wiring-IsSecure_example = wiring-IsSecure process production accepted refl
