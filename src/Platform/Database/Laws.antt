-- ===== src/Platform/Database/Laws.antt =====
-- What InitializeDatabase leaves behind.
use clean_arch_go_gin.Base.{
  ◌≡◌, refl, sym, ap, ◌∙◌, subst, Bool, true, false, none, some, ◌⊎◌, Option-cases, inl, inr,
}
use clean_arch_go_gin.Base.Int.{ℤ, pos, ◌≤ℤ◌}
use clean_arch_go_gin.Base.Effect.{
  Result, ok, continue, rename, Returns, returned, failed, continue-Returns, rename-same,
  Returns-mono,
}
use clean_arch_go_gin.Apperr.{Error}
use clean_arch_go_gin.Platform.Config.{DatabaseConfig}
use clean_arch_go_gin.Di.Lifecycle.{ping_with_retry, ping_backoff}
use clean_arch_go_gin.Platform.Database.{
  Dialect, gorm_log_level, dialector, Driver, close_database, settle, install, await, set_limits,
  make_ready, open_dialect, initialize_database,
}
use clean_arch_go_gin.Platform.Database.Pool.{
  Answered, ping_loop-keeps, either_way, opening-Returns, Limits, limits_of, Pooled, NotOpened,
  handle-Returns,
}

module _ (d : Driver) where
  open d use {World, Gorm, Pool}

  module _ (is_open : Pool → World → Bool) (limits : Pool → World → Limits)
      (c : DatabaseConfig) where
    -- An open pool with the limits of the configuration.
    pub record IsReady (p : Pool) (w : World) : Type 0 where
      pub is_up : is_open p w ≡ true
      pub limited : limits p w ≡ limits_of c

    -- What gorm opens for the configuration, begun in the world `w`, and its pool.
    abbrev pub Opened : Dialect → World → Gorm → Pool → Type 0
    Opened dialect w db p =
        ((d.open_gorm dialect c.dsn (gorm_log_level c.log_level) w).0 ≡ ok db)
        × (d.sql_db db ≡ ok p)

    -- A connection that gorm opened, whose pool is ready and has just answered a ping.
    pub record Connected (dialect : Dialect) (w : World) (db : Gorm) (w' : World) : Type 0 where
      pub pool : Pool
      pub opened : Opened dialect w db pool
      pub answered : Answered (d.ping pool) d.sleep (IsReady pool) w'

    -- The pool of the connection that gorm opened is closed.
    pub record IsClosed (dialect : Dialect) (w w' : World) : Type 0 where
      pub db : Gorm
      pub pool : Pool
      pub opened : Opened dialect w db pool
      pub closed : is_open pool w' ≡ false

    -- What an error leaves: nothing was called for a type that is not supported, gorm gave no
    -- connection or no pool, or the pool that was opened is closed.
    abbrev pub Stopped : World → World → Type 0
    Stopped w w' =
        ((dialector c.type_name ≡ none) × (w' ≡ w))
        ⊎ ((dialect : Dialect) × (dialector c.type_name ≡ some dialect)
            × (NotOpened d c dialect w w' ⊎ IsClosed dialect w w'))

    module _ (h : Pooled d is_open limits) where
      keep-IsReady :
          (p : Pool) (w w' : World)
          → (is_open p w' ≡ is_open p w) × (limits p w' ≡ limits p w)
          → IsReady p w
          → IsReady p w'
      keep-IsReady p w w' (same_open, same_limits) r = record {
        is_up = same_open ∙ r.is_up;
        limited = same_limits ∙ r.limited;
      }

      set_limits-IsReady :
          (p : Pool) (w : World)
          → pos 0 ≤ℤ c.max_idle_conns
          → c.max_idle_conns ≤ℤ c.max_open_conns
          → is_open p w ≡ true
          → IsReady p (set_limits d c p w)
      set_limits-IsReady p w low high up =
          let v = d.set_max_open_conns p c.max_open_conns w in
          let u = d.set_max_idle_conns p c.max_idle_conns v in
          let idle = h.sets_idle p c.max_idle_conns v low (
            subst (λ (n : ℤ). c.max_idle_conns ≤ℤ n) (sym (h.sets_open p c.max_open_conns w))
              high) in
          record {
            is_up =
                h.set_lifetime_keeps p c.conn_max_lifetime u
                ∙ h.set_idle_keeps p c.max_idle_conns v
                ∙ h.set_open_keeps p c.max_open_conns w
                ∙ up;
            limited = h.sets_lifetime p c.conn_max_lifetime u ∙ λ i. record {
              max_open = (idle.0 ∙ h.sets_open p c.max_open_conns w) i;
              max_idle = idle.1 i;
              lifetime = c.conn_max_lifetime;
            };
          }

      close_database-closes :
          (db : Gorm) (p : Pool) (w : World)
          → d.sql_db db ≡ ok p
          → is_open p (close_database d (some db) w).1 ≡ false
      unfolding close_database continue rename
      close_database-closes db p w e = rw e (h.closes p w)

      -- A step after which the pool is ready, and closed if the step failed.
      settle-Returns :
          {P : World → Type 0} (db : Gorm) (p : Pool) (g : Error → Error)
          {r : Result Error (Unit {0}) × World}
          → d.sql_db db ≡ ok p
          → Returns (λ _ w'. P w') (λ _ w'. IsReady p w') r
          → Returns (λ _ w'. P w') (λ _ w'. is_open p w' ≡ false) (settle d db g r)
      unfolding settle
      settle-Returns db p g e (returned i) = returned i
      settle-Returns db p g e (failed i) = failed (close_database-closes db p _ e)

      await-Returns :
          (db : Gorm) (p : Pool) (w : World)
          → d.sql_db db ≡ ok p
          → IsReady p w
          → Returns
              (λ _ w'. Answered (d.ping p) d.sleep (IsReady p) w')
              (λ _ w'. IsReady p w')
              (await d db w)
      unfolding ping_with_retry continue rename
      await-Returns db p w e ready = rw e (
          ping_loop-keeps (d.ping p) d.sleep (IsReady p) 4 1 ping_backoff w
            (λ v r. keep-IsReady p v (d.ping p v).1 (h.ping_keeps p v) r)
            (λ n v r. keep-IsReady p v (d.sleep n v) (h.sleep_keeps p n v) r) ready)

      install-Returns :
          (tracing : Bool) (db : Gorm) (p : Pool) (w : World)
          → d.sql_db db ≡ ok p
          → IsReady p w
          → Returns (λ _ w'. IsReady p w') (λ _ w'. is_open p w' ≡ false) (install d db tracing w)
      unfolding settle
      install-Returns false db p w e ready = returned ready
      install-Returns true db p w e ready =
          settle-Returns db p (Error.wrap "installing database tracing") e (
            either_way (d.use_tracing db w)
              (keep-IsReady p w (d.use_tracing db w).1 (h.tracing_keeps p db w) ready))

      make_ready-Returns :
          (tracing : Bool) (db : Gorm) (p : Pool) (w : World)
          → d.sql_db db ≡ ok p
          → IsReady p w
          → Returns
              (λ db' w'. (db' ≡ db) × Answered (d.ping p) d.sleep (IsReady p) w')
              (λ _ w'. is_open p w' ≡ false)
              (make_ready d db tracing w)
      make_ready-Returns tracing db p w e ready =
          continue-Returns (install-Returns tracing db p w e ready)
            (λ _ w₁ r₁.
              continue-Returns (settle-Returns db p (λ x. x) e (await-Returns db p w₁ e r₁))
                (λ _ w₂ r₂. returned (refl, r₂)) (λ _ _ q. q))
            (λ _ _ q. q)

      finish :
          (tracing : Bool) (dialect : Dialect) (w w' : World) (db : Gorm)
          → pos 0 ≤ℤ c.max_idle_conns
          → c.max_idle_conns ≤ℤ c.max_open_conns
          → d.open_gorm dialect c.dsn (gorm_log_level c.log_level) w ≡ (ok db, w')
          → (p : Pool) → d.sql_db db ≡ ok p
          → Returns
              (λ db' w''. Connected dialect w db' w'')
              (λ _ w''. IsClosed dialect w w'')
              (make_ready d db tracing (set_limits d c p w'))
      finish tracing dialect w w' db low high opened p e =
          let gave = ap (λ (r : Result Error Gorm × World). r.0) opened in
          Returns-mono
            (make_ready-Returns tracing db p (set_limits d c p w') e (
              set_limits-IsReady p w' low high
                (h.opens dialect c.dsn (gorm_log_level c.log_level) w w' db p opened e)))
            (λ db' w'' r. record {
              pool = p;
              opened = (gave ∙ ap ok (sym r.0), ap d.sql_db r.0 ∙ e);
              answered = r.1;
            })
            (λ _ w'' shut. record { db = db; pool = p; opened = (gave, e); closed = shut })

      open_dialect-Returns :
          (tracing : Bool) (dialect : Dialect) (w : World)
          → pos 0 ≤ℤ c.max_idle_conns
          → c.max_idle_conns ≤ℤ c.max_open_conns
          → Returns
              (λ db w'. Connected dialect w db w')
              (λ _ w'. NotOpened d c dialect w w' ⊎ IsClosed dialect w w')
              (open_dialect d c tracing dialect w)
      open_dialect-Returns tracing dialect w low high =
          continue-Returns
            (rename-same (Error.wrap "failed to connect database")
              (opening-Returns (d.open_gorm dialect c.dsn (gorm_log_level c.log_level) w)))
            (λ db w₁ opened.
              continue-Returns (handle-Returns d db w₁ opened)
                (λ p w₂ (o, e).
                  Returns-mono (finish tracing dialect w w₂ db low high o p e) (λ _ _ r. r)
                    (λ _ _ q. inr q))
                (λ _ w₂ (o, e, none_there). inl (
                  ap (λ (r : Result Error Gorm × World). r.1) (sym o),
                  inr (db, e, ap (λ (r : Result Error Gorm × World). r.0) o, none_there),
                )))
            (λ _ w₁ (same, e, bad). inl (same, inl (e, bad)))

      -- For an idle limit from 0 to the open one and a pool as documented, InitializeDatabase returns the
      -- connection that gorm opened with the dialect of the configuration, whose pool is open, has
      -- the limits of the configuration and has just answered a ping; or an error, and then it has
      -- called nothing (for an unsupported type), or gorm gave no connection or pool, or the pool of
      -- the connection that gorm opened is closed again.
      pub initialize_database-Returns :
          (tracing : Bool) (w : World)
          → pos 0 ≤ℤ c.max_idle_conns
          → c.max_idle_conns ≤ℤ c.max_open_conns
          → Returns
              (λ db w'.
                (dialect : Dialect) × (dialector c.type_name ≡ some dialect)
                × Connected dialect w db w')
              (λ _ w'. Stopped w w')
              (initialize_database d c tracing w)
      unfolding initialize_database
      initialize_database-Returns tracing w low high = elim (Option-cases (dialector c.type_name)) [
        | inl unsupported ↦ rw (unsupported, initialize_database) (failed (inl (refl, refl)))
        | inr (dialect, known) ↦
            rw (known, initialize_database)
              (Returns-mono (open_dialect-Returns tracing dialect w low high)
                (λ _ _ r. (dialect, refl, r)) (λ _ _ q. inr (dialect, refl, q)))
      ]
