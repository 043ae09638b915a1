-- ===== src/Di/Lifecycle.antt =====
-- `NewContainer` as far as it opens resources, `Close`, and the ping of internal/platform/database.go
-- that opening waits for.
pub mod Laws
use clean_arch_go_gin.Base.{
  ℕ, zero, suc, ◌+◌, ◌*◌, String, Bool, true, false, Option, none, some, List, [], ◌∷◌, ◌++◌,
  if◌then◌else◌,
}
use clean_arch_go_gin.Base.Effect.{Result, ok, err, M, map_err, pure, raise, ◌>>=◌, ◌>>◌}
use clean_arch_go_gin.Apperr.{Error}
use clean_arch_go_gin.Platform.Config.{second}

abbrev pub ping_attempts : ℕ
ping_attempts = 5

-- 500 ms
abbrev pub ping_backoff : ℕ
ping_backoff = 500000000

module _ {W : Type 0} (ping : W → Option Error × W) (sleep : ℕ → W → W) where
  -- The loop, with `remaining` rounds after this one. The sleep is left out in the last round.
  unfoldable pub ping_loop : ℕ → ℕ → ℕ → M W Error (Unit {0})
  ping_loop zero attempt backoff w =
      let (answer, w') = ping w in
      elim answer [
        | none ↦ (ok tt, w')
        | some last ↦ (err (Error.wrap "database unreachable" last), w')
      ]
  ping_loop (suc remaining) attempt backoff w =
      let (answer, w') = ping w in
      elim answer [
        | none ↦ (ok tt, w')
        | some _ ↦ ping_loop remaining (suc attempt) backoff (sleep (attempt * backoff) w')
      ]

  -- `pingWithRetry` with a positive number of attempts: that many and one more.
  unfoldable pub ping_with_retry : ℕ → ℕ → M W Error (Unit {0})
  unfolding ping_loop
  ping_with_retry more backoff = ping_loop more 1 backoff

-- What opening and closing call: `tracing.Init`, `InitializeDatabase`, `Migrate`, and the three
-- ways to release.
pub record Resources : Type 1 where
  pub World : Type 0
  pub init_tracing : M World Error (Unit {0})
  pub initialize_database : M World Error (Unit {0})
  pub migrate : M World Error (Unit {0})
  pub shutdown_admin : M World Error (Unit {0})
  pub shutdown_tracer : M World Error (Unit {0})
  pub close_database : M World Error (Unit {0})

-- What the container holds: the admin listener, the tracer's shutdown and the database that is its
-- own.
pub record Container : Type 0 where
  pub admin_server : Bool
  pub tracer_shutdown : Bool
  pub owns_db : Bool

module _ (r : Resources) where
  open r use {World}

  -- `NewContainer`: whether the configuration has an open database, wants migrations, and has an
  -- admin listener. The configuration has been validated.
  unfoldable pub open_container : Bool → Bool → Bool → M World Error Container
  open_container injected auto_migrate admin = do
    map_err (Error.wrap "initializing tracing") r.init_tracing
    (if injected
        then pure tt
        else map_err (Error.wrap "initializing database") r.initialize_database)
    (if auto_migrate then map_err (Error.wrap "migrating database") r.migrate else pure tt)
    pure (record {
      admin_server = admin;
      tracer_shutdown = true;
      owns_db = if injected then false else true;
    })

  -- One of the three steps of `Close`, which appends its error.
  abbrev collect : String → Result Error (Unit {0}) × World → List Error → List Error × World
  collect context (ok _, w) errs = (errs, w)
  collect context (err e, w) errs = (errs ++ Error.wrap context e ∷ [], w)

  unfoldable pub release :
      Bool → String → M World Error (Unit {0}) → List Error × World → List Error × World
  release held context step (errs, w) = if held then collect context (step w) errs else (errs, w)

  -- `Close`: the errors that are joined, and the container with nothing left to release.
  unfoldable pub close : Container → World → List Error × Container × World
  unfolding release
  close c w =
      let (e₁, w₁) =
        release c.admin_server "shutting down the admin listener" r.shutdown_admin ([], w) in
      let (e₂, w₂) = release c.tracer_shutdown "shutting down tracing" r.shutdown_tracer (e₁, w₁) in
      let (e₃, w₃) = release c.owns_db "closing database" r.close_database (e₂, w₂) in
      (e₃, record { admin_server = false; tracer_shutdown = false; owns_db = false }, w₃)
