-- ===== src/Observability/Laws.antt =====
-- When the admin listener exists, and what it serves.
use clean_arch_go_gin.Base.{
  String, ◌≡◌, ◌≢◌, ◌⊎◌, inl, inr, refl, Bool, true, false, ◌&&◌, ◌||◌, Option, none, some, List,
  [], ◌∷◌, ◌++◌, str_eq, str_eq_iff, Bool-cases, if◌then◌else◌, arith,
}
use clean_arch_go_gin.Base.Int.{pos, ◌≤ℤ◌, ◌<ℤ◌}
use clean_arch_go_gin.Observability.{
  AdminConfig, AdminServer, enabled, new_admin_mux, new_admin_server, pprof_min_write_timeout,
  default_host, pprof_paths,
}

abbrev pub serves : String → List String → Bool
serves path [] = false
serves path (p ∷ ps) = str_eq path p || serves path ps

-- The paths of net/http/pprof that RegisterPprof claims.
abbrev pub is_profile : String → Bool
is_profile path =
    str_eq path "/debug/pprof/"
    || str_eq path "/debug/pprof/cmdline"
    || str_eq path "/debug/pprof/profile"
    || str_eq path "/debug/pprof/symbol"
    || str_eq path "/debug/pprof/trace"

pub record IsServing (c : AdminConfig) (has_metrics : Bool) (s : AdminServer) : Type 0 where
  pub exactly :
      (path : String)
      → serves path s.paths ≡ (
          str_eq path "/healthz"
          || (c.metrics_enabled && has_metrics && str_eq path "/metrics")
          || (c.pprof_enabled && is_profile path))
  pub profile_completes : c.pprof_enabled ≡ true → pprof_min_write_timeout ≤ℤ s.write_timeout
  pub bounded : (pos 0 <ℤ s.read_timeout) × (pos 0 <ℤ s.write_timeout) × (pos 0 <ℤ s.idle_timeout)
  pub host :
      ((c.host ≡ "") × (s.address.0 ≡ default_host)) ⊎ ((c.host ≢ "") × (s.address.0 ≡ c.host))
  pub port : s.address.1 ≢ pos 0

-- A path of profiling that the health check and the metrics do not use.
pub IsServing-profile :
    {c : AdminConfig} {has_metrics : Bool} {s : AdminServer}
    → IsServing c has_metrics s
    → serves "/debug/pprof/profile" s.paths ≡ c.pprof_enabled
IsServing-profile s = ground (arith, s.exactly "/debug/pprof/profile")

pub data Listening (c : AdminConfig) (has_metrics : Bool) : Option AdminServer → Type 0 where
  absent : enabled c ≡ false → Listening c has_metrics none
  present :
      {s : AdminServer}
      → enabled c ≡ true
      → IsServing c has_metrics s
      → Listening c has_metrics (some s)

serves-++ :
    (path : String) (ps qs : List String)
    → serves path (ps ++ qs) ≡ (serves path ps || serves path qs)
serves-++ path [] qs = refl
serves-++ path (p ∷ ps) qs = ground (arith, serves-++ path ps qs)

serves-optional :
    (path : String) (b : Bool) (ps : List String)
    → serves path (if b then ps else []) ≡ (b && serves path ps)
serves-optional path true ps = refl
serves-optional path false ps = refl

mux_paths :
    (c : AdminConfig) (has_metrics : Bool) (path : String)
    → serves path (new_admin_mux c has_metrics) ≡ (
        str_eq path "/healthz"
        || (c.metrics_enabled && has_metrics && str_eq path "/metrics")
        || (c.pprof_enabled && is_profile path))
unfolding new_admin_mux
mux_paths c has_metrics path =
    let counted = c.metrics_enabled && has_metrics in
    ground (
      arith,
      serves-++ path (if counted then "/metrics" ∷ [] else [])
          (if c.pprof_enabled then pprof_paths else []),
      serves-optional path counted ("/metrics" ∷ []),
      serves-optional path c.pprof_enabled pprof_paths,
    )

-- The admin listener exists just when metrics or profiling is enabled. It serves exactly: /healthz,
-- the metrics if they are enabled and there is a registry, and the five paths of profiling if that
-- is enabled, with time enough to write a profile of 30 seconds; its timeouts are positive, it binds
-- the host of the configuration, or loopback if that is empty, and its port is not 0.
pub new_admin_server-Listening :
    (c : AdminConfig) (has_metrics : Bool)
    → Listening c has_metrics (new_admin_server c has_metrics)
unfolding new_admin_server new_admin_mux
new_admin_server-Listening c has_metrics = elim (Bool-cases (enabled c)) [
  | inr idle ↦ rw idle (absent idle)
  | inl busy ↦ rw busy (
      present busy (record {
        exactly = mux_paths c has_metrics;
        profile_completes = λ p. ground (arith, p);
        bounded = (ground arith, ground arith, ground arith);
        host = elim (Bool-cases (str_eq c.host "")) [
          | inl blank ↦ inl ((str_eq_iff c.host "").0 blank, rw blank refl)
          | inr named ↦ inr (λ h. ground (arith, named, (str_eq_iff c.host "").1 h), rw named refl)
        ];
        port = λ h. ground (arith, h);
      }))
]
