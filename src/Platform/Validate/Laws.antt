-- ===== src/Platform/Validate/Laws.antt =====
-- What a configuration that passes `Validate` guarantees.
use Prim.Native.String.{len}
use mathlib.Core.List.{append-eq-nil_iff}
use clean_arch_go_gin.Base.{
  String, ◌≡◌, ◌≢◌, ◌≤◌, ◌⊎◌, inl, inr, ap, true, false, not, ◌&&◌, ◌||◌, List, [], ◌∷◌, ◌++◌, All,
  str_eq, str_eq_iff, Bool-cases, arith,
}
use clean_arch_go_gin.Base.Int.{ℤ, pos, ◌≤ℤ◌, ◌<ℤ◌, eqb_ℤ}
use clean_arch_go_gin.Platform.Config.{Process, Config}
use clean_arch_go_gin.Platform.Validate.{
  Problem, when, is_loopback_host, validate_parsing, validate_server, validate_database,
  validate_secret, validate_origins, validate_deployment, validate_auth, validate_log,
  validate_tracing, validate_token_lifetimes, validate_observability, validate,
}

-- What every configuration that is accepted has, and what an accepted deployment has besides.
pub record IsSound (p : Process) (c : Config p) : Type 0 where
  pub port : (pos 1 ≤ℤ c.server.port) × (c.server.port ≤ℤ pos 65535)
  pub database : (c.database.type_name ≡ "sqlite") ⊎ (c.database.type_name ≡ "postgres")
  pub connections :
      (pos 1 ≤ℤ c.database.max_open_conns)
      × (c.database.max_idle_conns ≤ℤ c.database.max_open_conns)
  pub lifetimes :
      (pos 0 <ℤ c.auth.access_token_ttl) × (c.auth.access_token_ttl <ℤ c.auth.refresh_token_ttl)
  pub csrf_lifetime : pos 0 <ℤ c.auth.csrf_token_ttl
  pub admin_port :
      (c.observability.metrics_enabled || c.observability.pprof_enabled) ≡ true
      → (pos 1 ≤ℤ c.observability.admin_port) × (c.observability.admin_port ≤ℤ pos 65535)
  pub separate_ports :
      (c.observability.metrics_enabled || c.observability.pprof_enabled) ≡ true
      → c.observability.admin_port ≢ c.server.port

pub record IsDeployable (p : Process) (c : Config p) : Type 0 where
  pub secrets :
      (32 ≤ len c.auth.jwt_access_secret)
      × (32 ≤ len c.auth.jwt_refresh_secret)
      × (32 ≤ len c.auth.csrf_secret)
  pub different : c.auth.jwt_access_secret ≢ c.auth.jwt_refresh_secret
  pub origins : All (λ origin. origin ≢ "*") c.auth.allowed_origins
  pub profiling :
      c.observability.pprof_enabled ≡ true → is_loopback_host p c.observability.admin_host ≡ true

left : (xs ys : List Problem) → xs ++ ys ≡ [] → xs ≡ []
left xs ys e = (append-eq-nil_iff.0 e).0

right : (xs ys : List Problem) → xs ++ ys ≡ [] → ys ≡ []
right xs ys e = (append-eq-nil_iff.0 e).1

five_parts :
    (a b c d e : List Problem)
    → a ++ b ++ c ++ d ++ e ≡ []
    → (a ≡ []) × (b ≡ []) × (c ≡ []) × (d ≡ []) × (e ≡ [])
five_parts a b c d e h =
    let h₁ = left (a ++ b ++ c ++ d) e h in
    let h₂ = left (a ++ b ++ c) d h₁ in
    let h₃ = left (a ++ b) c h₂ in
    (
      left a b h₃,
      right a b h₃,
      right (a ++ b) c h₂,
      right (a ++ b ++ c) d h₁,
      right (a ++ b ++ c ++ d) e h,
    )

-- Those of the eight groups of rules that the theorem is about.
eight_parts :
    (a b c d e f g i : List Problem)
    → a ++ b ++ c ++ d ++ e ++ f ++ g ++ i ≡ []
    → (a ≡ []) × (b ≡ []) × (c ≡ []) × (d ≡ []) × (g ≡ []) × (i ≡ [])
eight_parts a b c d e f g i h =
    let h₁ = left (a ++ b ++ c ++ d ++ e ++ f ++ g) i h in
    let k =
      five_parts a b c d e
        (left (a ++ b ++ c ++ d ++ e) f (left (a ++ b ++ c ++ d ++ e ++ f) g h₁)) in
    (
      k.0,
      k.1,
      k.2,
      k.3,
      right (a ++ b ++ c ++ d ++ e ++ f) g h₁,
      right (a ++ b ++ c ++ d ++ e ++ f ++ g) i h,
    )

long_enough : (name value : String) → validate_secret name value ≡ [] → 32 ≤ len value
unfolding when
long_enough name value e = ground arith

no_wildcard : (origins : List String) → validate_origins origins ≡ [] → All (λ o. o ≢ "*") origins
unfolding when
no_wildcard [] e = tt
no_wildcard (o ∷ origins) e =
    (λ k. ground (arith, (str_eq_iff o "*").1 k), no_wildcard origins (ground arith))

eqb_ℤ_refl : (x : ℤ) → eqb_ℤ x x ≡ true
eqb_ℤ_refl x = ground arith

blank_short : (s : String) → s ≡ "" → 32 ≤ len s → ⊥
blank_short s e h = omega (arith, ap len e)

nonblank : (s : String) → 32 ≤ len s → str_eq s "" ≡ false
nonblank s h = elim (Bool-cases (str_eq s "")) [
  | inl e ↦ absurd (blank_short s ((str_eq_iff s "").0 e) h)
  | inr e ↦ e
]

module _ (p : Process) (c : Config p) where
  server_sound : validate_server p c ≡ [] → (pos 1 ≤ℤ c.server.port) × (c.server.port ≤ℤ pos 65535)
  unfolding when
  server_sound e = (ground arith, ground arith)

  database_sound :
      validate_database p c ≡ []
      → ((c.database.type_name ≡ "sqlite") ⊎ (c.database.type_name ≡ "postgres"))
        × (pos 1 ≤ℤ c.database.max_open_conns)
        × (c.database.max_idle_conns ≤ℤ c.database.max_open_conns)
  unfolding when
  database_sound e = (
    ground (
      arith,
      (str_eq_iff c.database.type_name "sqlite").0,
      (str_eq_iff c.database.type_name "postgres").0,
    ),
    ground arith,
    ground arith,
  )

  auth_sound :
      validate_auth p c ≡ []
      → (pos 0 <ℤ c.auth.access_token_ttl) × (c.auth.access_token_ttl <ℤ c.auth.refresh_token_ttl)
  unfolding when
  auth_sound e = (ground arith, ground arith)

  lifetimes_sound : validate_token_lifetimes p c ≡ [] → pos 0 <ℤ c.auth.csrf_token_ttl
  unfolding when
  lifetimes_sound e = ground arith

  admin_port_sound :
      validate_observability p c ≡ []
      → (c.observability.metrics_enabled || c.observability.pprof_enabled) ≡ true
      → (pos 1 ≤ℤ c.observability.admin_port) × (c.observability.admin_port ≤ℤ pos 65535)
  unfolding when
  admin_port_sound e enabled = (ground (arith, enabled), ground (arith, enabled))

  ports_sound :
      validate_observability p c ≡ []
      → (c.observability.metrics_enabled || c.observability.pprof_enabled) ≡ true
      → c.observability.admin_port ≢ c.server.port
  unfolding when
  ports_sound e enabled same =
      ground (arith, ap (λ x. eqb_ℤ x c.server.port) same, eqb_ℤ_refl c.server.port)

  profiling_sound :
      validate_observability p c ≡ []
      → c.auth.dev_mode ≡ false
      → c.observability.pprof_enabled ≡ true
      → is_loopback_host p c.observability.admin_host ≡ true
  unfolding when
  profiling_sound e deployed enabled = ground arith

  module _ (e : validate_auth p c ≡ []) (deployed : c.auth.dev_mode ≡ false) where
    deployment : validate_deployment p c ≡ []
    unfolding when
    deployment = ground arith

    abbrev same : List Problem
    same =
        when
          (not (str_eq c.auth.jwt_access_secret "")
            && str_eq c.auth.jwt_access_secret c.auth.jwt_refresh_secret)
          Problem.same_jwt_secrets

    secrets_differ :
        32 ≤ len c.auth.jwt_access_secret
        → same ≡ []
        → c.auth.jwt_access_secret ≢ c.auth.jwt_refresh_secret
    unfolding when
    secrets_differ long h k = ground (
      arith,
      (str_eq_iff c.auth.jwt_access_secret c.auth.jwt_refresh_secret).1 k,
      nonblank c.auth.jwt_access_secret long,
    )

    deployable : validate_observability p c ≡ [] → IsDeployable p c
    deployable k =
        let parts =
          five_parts (validate_secret "JWT_ACCESS_SECRET" c.auth.jwt_access_secret)
            (validate_secret "JWT_REFRESH_SECRET" c.auth.jwt_refresh_secret)
            (validate_secret "CSRF_SECRET" c.auth.csrf_secret) same
            (validate_origins c.auth.allowed_origins) deployment in
        record {
          secrets = (long_enough _ _ parts.0, long_enough _ _ parts.1, long_enough _ _ parts.2);
          different = secrets_differ (long_enough _ _ parts.0) parts.3;
          origins = no_wildcard _ parts.4;
          profiling = profiling_sound k deployed;
        }

  -- A configuration that `Validate` accepts has its server port in range, a database it can open,
  -- consistent connection limits, a refresh token that outlives the access token, and, if metrics or
  -- profiling is enabled, an admin port in range and apart from the server's. Outside of development mode its three secrets have at least
  -- 32 bytes, the two token secrets differ, no origin is "*", and profiling is served to the
  -- machine itself only.
  pub validate-IsSound :
      validate p c ≡ [] → IsSound p c × (c.auth.dev_mode ≡ false → IsDeployable p c)
  unfolding validate
  validate-IsSound e =
      let parts =
        eight_parts (validate_parsing p) (validate_server p c) (validate_database p c)
          (validate_auth p c) (validate_log p c) (validate_tracing p c) (validate_observability p c)
          (validate_token_lifetimes p c) e in
      (
        record {
          port = server_sound parts.1;
          database = (database_sound parts.2).0;
          connections = ((database_sound parts.2).1, (database_sound parts.2).2);
          lifetimes = auth_sound parts.3;
          csrf_lifetime = lifetimes_sound parts.5;
          admin_port = admin_port_sound parts.4;
          separate_ports = ports_sound parts.4;
        },
        λ deployed. deployable parts.3 deployed parts.4,
      )
