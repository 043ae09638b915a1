-- ===== src/Platform/Database/Pool.antt =====
-- What database/sql documents of a pool, and what the wait for its first answer keeps.
use clean_arch_go_gin.Base.{
  ℕ, zero, suc, ◌*◌, String, ◌≡◌, refl, Bool, true, false, Option, none, ◌⊎◌, Option-cases, inl,
  inr,
}
use clean_arch_go_gin.Base.Int.{ℤ, pos, ◌≤ℤ◌}
use clean_arch_go_gin.Base.Effect.{Result, ok, err, rename, Returns, returned, failed, Result-cases}
use clean_arch_go_gin.Apperr.{Error}
use clean_arch_go_gin.Platform.Config.{DatabaseConfig}
use clean_arch_go_gin.Di.Lifecycle.{ping_loop}
use clean_arch_go_gin.Platform.Database.{Dialect, LogLevel, gorm_log_level, Driver, handle}

module _ {W : Type 0} (ping : W → Option Error × W) (sleep : ℕ → W → W) where
  -- What pings and sleeps keep, and the ping that answered.
  pub record Answered (I : W → Type 0) (w' : W) : Type 0 where
    pub kept : I w'
    pub before : W
    pub answers : ping before ≡ (none, w')

  pub ping_loop-keeps :
      (I : W → Type 0) (more attempt backoff : ℕ) (w : W)
      → ((v : W) → I v → I (ping v).1)
      → ((n : ℕ) (v : W) → I v → I (sleep n v))
      → I w
      → Returns (λ _ w'. Answered I w') (λ _ w'. I w') (ping_loop ping sleep more attempt backoff w)
  unfolding ping_loop
  ping_loop-keeps I zero attempt backoff w p s i = elim (Option-cases (ping w).0) [
    | inl up ↦
        rw (up, ping_loop)
          (returned (record { kept = p w i; before = w; answers = λ k. (up k, (ping w).1) }))
    | inr (e, down) ↦ rw (down, ping_loop) (failed (p w i))
  ]
  ping_loop-keeps I (suc more) attempt backoff w p s i = elim (Option-cases (ping w).0) [
    | inl up ↦
        rw (up, ping_loop)
          (returned (record { kept = p w i; before = w; answers = λ k. (up k, (ping w).1) }))
    | inr (e, down) ↦
        rw (down, ping_loop)
          (ping_loop-keeps I more (suc attempt) backoff (sleep (attempt * backoff) (ping w).1) p s
            (s (attempt * backoff) (ping w).1 (p w i)))
  ]

pub either_way :
    {W E A : Type 0} {P : W → Type 0} (r : Result E A × W)
    → P r.1
    → Returns (λ _ w'. P w') (λ _ w'. P w') r
either_way (ok a, w) p = returned p
either_way (err e, w) p = failed p

pub opening-Returns :
    {W E A : Type 0} (r : Result E A × W)
    → Returns (λ a w'. r ≡ (ok a, w')) (λ _ w'. (w' ≡ r.1) × (e : E) × (r.0 ≡ err e)) r
opening-Returns (ok a, w) = returned refl
opening-Returns (err e, w) = failed (refl, e, refl)

pub record Limits : Type 0 where
  pub max_open : ℤ
  pub max_idle : ℤ
  pub lifetime : ℤ

-- The limits that the configuration asks for.
abbrev pub limits_of : DatabaseConfig → Limits
limits_of c = record {
  max_open = c.max_open_conns;
  max_idle = c.max_idle_conns;
  lifetime = c.conn_max_lifetime;
}

module _ (d : Driver) where
  open d use {World, Gorm, Pool}

  -- What database/sql documents, for the state of a pool: gorm.Open opens it; a setter replaces its
  -- limit (an idle limit that is not above the open one); nothing else touches the limits; and only
  -- Close ends it, even with an error.
  pub record Pooled (is_open : Pool → World → Bool) (limits : Pool → World → Limits) : Type 0 where
    pub opens :
        (dialect : Dialect) (dsn : String) (level : LogLevel) (w w' : World) (db : Gorm) (p : Pool)
        → d.open_gorm dialect dsn level w ≡ (ok db, w')
        → d.sql_db db ≡ ok p
        → is_open p w' ≡ true
    pub sets_open :
        (p : Pool) (n : ℤ) (w : World) → (limits p (d.set_max_open_conns p n w)).max_open ≡ n
    pub sets_idle :
        (p : Pool) (n : ℤ) (w : World)
        → pos 0 ≤ℤ n
        → n ≤ℤ (limits p w).max_open
        → ((limits p (d.set_max_idle_conns p n w)).max_open ≡ (limits p w).max_open)
          × ((limits p (d.set_max_idle_conns p n w)).max_idle ≡ n)
    pub sets_lifetime :
        (p : Pool) (n : ℤ) (w : World)
        → limits p (d.set_conn_max_lifetime p n w) ≡ record (limits p w) { lifetime = n }
    pub set_open_keeps :
        (p : Pool) (n : ℤ) (w : World) → is_open p (d.set_max_open_conns p n w) ≡ is_open p w
    pub set_idle_keeps :
        (p : Pool) (n : ℤ) (w : World) → is_open p (d.set_max_idle_conns p n w) ≡ is_open p w
    pub set_lifetime_keeps :
        (p : Pool) (n : ℤ) (w : World) → is_open p (d.set_conn_max_lifetime p n w) ≡ is_open p w
    pub tracing_keeps :
        (p : Pool) (db : Gorm) (w : World)
        → (is_open p (d.use_tracing db w).1 ≡ is_open p w)
          × (limits p (d.use_tracing db w).1 ≡ limits p w)
    pub ping_keeps :
        (p : Pool) (w : World)
        → (is_open p (d.ping p w).1 ≡ is_open p w) × (limits p (d.ping p w).1 ≡ limits p w)
    pub sleep_keeps :
        (p : Pool) (n : ℕ) (w : World)
        → (is_open p (d.sleep n w) ≡ is_open p w) × (limits p (d.sleep n w) ≡ limits p w)
    pub closes : (p : Pool) (w : World) → is_open p (d.close_pool p w).1 ≡ false

  -- `gorm.Open` failed, or what it opened has no pool.
  abbrev pub NotOpened : DatabaseConfig → Dialect → World → World → Type 0
  NotOpened c dialect w w' =
      let opening = d.open_gorm dialect c.dsn (gorm_log_level c.log_level) w in
      (w' ≡ opening.1)
      × (((e : Error) × (opening.0 ≡ err e))
          ⊎ ((db : Gorm) × (e : Error) × (opening.0 ≡ ok db) × (d.sql_db db ≡ err e)))

  pub handle-Returns :
      {I : World → Type 0} (db : Gorm) (w : World)
      → I w
      → Returns
          (λ p w'. I w' × (d.sql_db db ≡ ok p))
          (λ _ w'. I w' × (e : Error) × (d.sql_db db ≡ err e))
          (handle d db w)
  unfolding rename
  handle-Returns db w i = elim (Result-cases (d.sql_db db)) [
    | inl (p, e) ↦ rw e (returned (i, refl))
    | inr (x, e) ↦ rw e (failed (i, x, refl))
  ]
