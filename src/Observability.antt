-- ===== src/Observability.antt =====
-- internal/observability/server.go and pprof.go: the admin listener. An address is its host and
-- port; `net.JoinHostPort` only spells it.
pub mod Laws
use clean_arch_go_gin.Base.{
  String, Bool, true, false, ◌&&◌, ◌||◌, not, Option, none, some, List, [], ◌∷◌, ◌++◌, str_eq,
  if◌then◌else◌, ◌*◌,
}
use clean_arch_go_gin.Base.Int.{ℤ, pos, ltb_ℤ, leb_ℤ, eqb_ℤ}
use clean_arch_go_gin.Platform.Config.{second}

pub record AdminConfig : Type 0 where
  pub metrics_enabled : Bool
  pub pprof_enabled : Bool
  pub host : String
  pub port : ℤ
  pub read_timeout : ℤ
  pub write_timeout : ℤ
  pub idle_timeout : ℤ

abbrev pub default_host : String
default_host = "127.0.0.1"

abbrev pub default_port : ℤ
default_port = pos 9090

abbrev pub default_read_timeout : ℤ
default_read_timeout = pos (15 * second)

abbrev pub default_write_timeout : ℤ
default_write_timeout = pos (15 * second)

abbrev pub default_idle_timeout : ℤ
default_idle_timeout = pos (60 * second)

abbrev pub pprof_min_write_timeout : ℤ
pprof_min_write_timeout = pos (35 * second)

-- `Addr`
abbrev pub addr : AdminConfig → String × ℤ
addr c = (
  if str_eq c.host "" then default_host else c.host,
  if eqb_ℤ c.port (pos 0) then default_port else c.port,
)

-- `Enabled`
abbrev pub enabled : AdminConfig → Bool
enabled c = c.metrics_enabled || c.pprof_enabled

-- `RegisterPprof`
abbrev pub pprof_paths : List String
pprof_paths =
    "/debug/pprof/" ∷ "/debug/pprof/cmdline" ∷ "/debug/pprof/profile" ∷ "/debug/pprof/symbol"
    ∷ "/debug/pprof/trace" ∷ []

-- `NewAdminMux`: the paths that are registered; the second argument tells whether `metrics` is not
-- nil.
unfoldable pub new_admin_mux : AdminConfig → Bool → List String
new_admin_mux c has_metrics =
    ("/healthz" ∷ [])
    ++ (if c.metrics_enabled && has_metrics then "/metrics" ∷ [] else [])
    ++ (if c.pprof_enabled then pprof_paths else [])

pub record AdminServer : Type 0 where
  pub address : String × ℤ
  pub paths : List String
  pub read_timeout : ℤ
  pub write_timeout : ℤ
  pub idle_timeout : ℤ

-- `if d <= 0 { d = fallback }`
abbrev or_timeout : ℤ → ℤ → ℤ
or_timeout d fallback = if leb_ℤ d (pos 0) then fallback else d

abbrev pub admin_write_timeout : AdminConfig → ℤ
admin_write_timeout c =
    let write = or_timeout c.write_timeout default_write_timeout in
    if c.pprof_enabled && ltb_ℤ write pprof_min_write_timeout
    then pprof_min_write_timeout
    else write

-- `NewAdminServer`
unfoldable pub new_admin_server : AdminConfig → Bool → Option AdminServer
unfolding new_admin_mux
new_admin_server c has_metrics =
    if not (enabled c)
    then none
    else some (record {
      address = addr c;
      paths = new_admin_mux c has_metrics;
      read_timeout = or_timeout c.read_timeout default_read_timeout;
      write_timeout = admin_write_timeout c;
      idle_timeout = or_timeout c.idle_timeout default_idle_timeout;
    })
