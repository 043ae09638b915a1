-- ===== src/Examples/Database.antt =====
-- A pool that answers its third ping, opened and closed in memory.
use clean_arch_go_gin.Base.{
  ℕ, suc, ltb, ◌≡◌, refl, sym, ap, Bool, true, false, none, some, if◌then◌else◌, arith,
}
use clean_arch_go_gin.Base.Int.{pos}
use clean_arch_go_gin.Base.Effect.{Result, ok, Returns}
use clean_arch_go_gin.Apperr.{Error}
use clean_arch_go_gin.Platform.Config.{DatabaseConfig}
use clean_arch_go_gin.Platform.Database.{Dialect, dialector, Driver, initialize_database}
use clean_arch_go_gin.Platform.Database.Pool.{Limits, Pooled}
use clean_arch_go_gin.Platform.Database.Laws.{Connected, Stopped, initialize_database-Returns}

abbrev postgres_config : DatabaseConfig
postgres_config = record {
  type_name = "postgres";
  dsn = "host=localhost";
  max_open_conns = pos 25;
  max_idle_conns = pos 5;
  conn_max_lifetime = pos 300;
  log_level = "warn";
  auto_migrate = true;
}

record Server : Type 0 where
  pub up : Bool
  pub limits : Limits
  pub pings : ℕ

abbrev down : Server
down = record {
  up = false;
  limits = record { max_open = pos 0; max_idle = pos 2; lifetime = pos 0 };
  pings = 0;
}

abbrev driver : Driver
driver = record {
  World = Server;
  Gorm = Unit {0};
  Pool = Unit {0};
  open_gorm = λ dialect dsn level w. (ok tt, record w { up = true });
  sql_db = λ db. ok tt;
  set_max_open_conns = λ p n w. record w { limits = record (w.limits) { max_open = n } };
  set_max_idle_conns = λ p n w. record w { limits = record (w.limits) { max_idle = n } };
  set_conn_max_lifetime = λ p n w. record w { limits = record (w.limits) { lifetime = n } };
  use_tracing = λ db w. (ok tt, w);
  ping = λ p w. (
    if ltb w.pings 2 then some (Error.plain "connection refused") else none,
    record w { pings = suc w.pings },
  );
  sleep = λ n w. w;
  close_pool = λ p w. (ok tt, record w { up = false });
}

driver-Pooled : Pooled driver (λ p w. w.up) (λ p w. w.limits)
driver-Pooled = record {
  opens = λ dialect dsn level w w' db p opened e.
      ap (λ (r : Result Error (Unit {0}) × Server). r.1.up) (sym opened);
  sets_open = λ p n w. refl;
  sets_idle = λ p n w low high. (refl, refl);
  sets_lifetime = λ p n w. refl;
  set_open_keeps = λ p n w. refl;
  set_idle_keeps = λ p n w. refl;
  set_lifetime_keeps = λ p n w. refl;
  tracing_keeps = λ p db w. (refl, refl);
  ping_keeps = λ p w. (refl, refl);
  sleep_keeps = λ p n w. (refl, refl);
  closes = λ p w. refl;
}

initialize_database-Returns_example :
    Returns
      (λ db w'.
        (dialect : Dialect) × (dialector "postgres" ≡ some dialect)
        × Connected driver (λ p w. w.up) (λ p w. w.limits) postgres_config dialect down db w')
      (λ _ w'. Stopped driver (λ p w. w.up) (λ p w. w.limits) postgres_config down w')
      (initialize_database driver postgres_config true down)
initialize_database-Returns_example =
    initialize_database-Returns driver (λ p w. w.up) (λ p w. w.limits) postgres_config driver-Pooled
      true down (omega arith) (omega arith)
