-- ===== src/Platform/Database.antt =====
-- internal/platform/database.go: opening, closing and probing the pool. gorm and its drivers are a
-- record of operations.
pub mod Pool
pub mod Laws
use clean_arch_go_gin.Base.{
  ℕ, String, Bool, true, false, ◌||◌, Option, none, some, str_eq, if◌then◌else◌,
}
use clean_arch_go_gin.Base.Int.{ℤ}
use clean_arch_go_gin.Base.Effect.{Result, ok, err, M, map_err, pure, raise, ◌>>=◌, ◌>>◌}
use clean_arch_go_gin.Apperr.{Error}
use clean_arch_go_gin.Platform.Config.{DatabaseConfig}
use clean_arch_go_gin.Di.Lifecycle.{ping_with_retry, ping_backoff}

pub data Dialect : Type 0 where
  postgres sqlite : Dialect

-- The levels of gorm's logger.
pub data LogLevel : Type 0 where
  silent error warn info : LogLevel

unfoldable pub gorm_log_level : String → LogLevel
gorm_log_level level =
    if str_eq level "silent" || str_eq level "none" || str_eq level "off"
    then LogLevel.silent
    else if str_eq level "info" || str_eq level "debug"
    then LogLevel.info
    else if str_eq level "error"
    then LogLevel.error
    else LogLevel.warn

-- The switch over DATABASE_TYPE.
unfoldable pub dialector : String → Option Dialect
dialector type_name =
    if str_eq type_name "postgres"
    then some Dialect.postgres
    else if str_eq type_name "sqlite" || str_eq type_name ""
    then some Dialect.sqlite
    else none

-- `gorm.Open`, `db.DB`, the setters of the pool, `db.Use`, `PingContext`, `time.Sleep` and `Close`.
pub record Driver : Type 1 where
  pub World : Type 0
  pub Gorm : Type 0
  pub Pool : Type 0
  pub open_gorm : Dialect → String → LogLevel → M World Error Gorm
  pub sql_db : Gorm → Result Error Pool
  pub set_max_open_conns : Pool → ℤ → World → World
  pub set_max_idle_conns : Pool → ℤ → World → World
  pub set_conn_max_lifetime : Pool → ℤ → World → World
  pub use_tracing : Gorm → M World Error (Unit {0})
  pub ping : Pool → World → Option Error × World
  pub sleep : ℕ → World → World
  pub close_pool : Pool → M World Error (Unit {0})

module _ (d : Driver) where
  open d use {World, Gorm, Pool}

  abbrev pub handle : Gorm → M World Error Pool
  handle db = map_err (Error.wrap "failed to get underlying sql.DB") (λ w. (d.sql_db db, w))

  unfoldable pub close_database : Option Gorm → M World Error (Unit {0})
  close_database none = pure tt
  close_database (some db) = handle db >>= d.close_pool

  abbrev probe : Pool → M World Error (Unit {0})
  probe pool w =
      let (answer, w') = d.ping pool w in (elim answer [ none ↦ ok tt | some e ↦ err e ], w')

  -- `PingCheck`
  unfoldable pub ping_check : Option Gorm → M World Error (Unit {0})
  ping_check none = raise (Error.plain "database is not initialized")
  ping_check (some db) = handle db >>= probe

  -- `_ = CloseDatabase(db)` before the error of a step is returned.
  unfoldable pub settle :
      Gorm → (Error → Error) → Result Error (Unit {0}) × World → Result Error (Unit {0}) × World
  unfolding close_database
  settle db g (ok _, w) = (ok tt, w)
  settle db g (err e, w) = (err (g e), (close_database (some db) w).1)

  abbrev pub or_close : Gorm → (Error → Error) → M World Error (Unit {0}) → M World Error (Unit {0})
  or_close db g step w = settle db g (step w)

  -- Five attempts: four after the first.
  abbrev pub await : Gorm → M World Error (Unit {0})
  await db = handle db >>= λ pool. ping_with_retry (d.ping pool) d.sleep 4 ping_backoff

  abbrev pub set_limits : DatabaseConfig → Pool → World → World
  set_limits c pool w =
      d.set_conn_max_lifetime pool c.conn_max_lifetime
        (d.set_max_idle_conns pool c.max_idle_conns (d.set_max_open_conns pool c.max_open_conns w))

  abbrev pub install : Gorm → Bool → M World Error (Unit {0})
  install db tracing =
      if tracing
      then or_close db (Error.wrap "installing database tracing") (d.use_tracing db)
      else pure tt

  -- What follows the limits.
  abbrev pub make_ready : Gorm → Bool → M World Error Gorm
  make_ready db tracing = do install db tracing; or_close db (λ e. e) (await db); pure db

  abbrev pub open_dialect : DatabaseConfig → Bool → Dialect → M World Error Gorm
  open_dialect c tracing dialect = do
    db ←
        map_err (Error.wrap "failed to connect database")
          (d.open_gorm dialect c.dsn (gorm_log_level c.log_level))
    pool ← handle db
    λ w. make_ready db tracing (set_limits c pool w)

  unfoldable pub initialize_database : DatabaseConfig → Bool → M World Error Gorm
  unfolding dialector settle gorm_log_level
  initialize_database c tracing = elim (dialector c.type_name) [
    | none ↦ raise (Error.plain "unsupported DATABASE_TYPE")
    | some dialect ↦ open_dialect c tracing dialect
  ]
