-- ===== src/Di/Lifecycle/Laws.antt =====
-- How long the start waits for the database, and what closing releases.
use clean_arch_go_gin.Base.{
  ℕ, zero, suc, ◌+◌, ◌*◌, ◌≤◌, String, ◌≡◌, refl, ap, Bool, true, false, Option, none, some, List,
  [], if◌then◌else◌, Option-cases, inl, inr, arith,
}
use clean_arch_go_gin.Base.Effect.{Result, ok, err, Returns, returned, failed, Returns-mono}
use clean_arch_go_gin.Apperr.{Error}
use clean_arch_go_gin.Di.Lifecycle.{
  ping_loop, ping_with_retry, Resources, Container, release, collect, close,
}

module _ {W : Type 0} (ping : W → Option Error × W) (sleep : ℕ → W → W) where
  -- Pings that failed one after the other, each but the last of the wait followed by its sleep: from
  -- a world and the number of an attempt to the world in which the next attempt is made.
  pub data Failed (backoff : ℕ) : ℕ → ℕ → W → W → Type 0 where
    none_yet : {attempt : ℕ} {w : W} → Failed backoff 0 attempt w w
    one_more :
        {k attempt : ℕ} {e : Error} {w w₁ w' : W}
        → ping w ≡ (some e, w₁)
        → Failed backoff k (suc attempt) (sleep (attempt * backoff) w₁) w'
        → Failed backoff (suc k) attempt w w'

  -- Counters of the pings and of the time slept.
  pub record Counted (pings slept : W → ℕ) : Type 0 where
    pub ping_pings : (w : W) → pings (ping w).1 ≡ suc (pings w)
    pub ping_slept : (w : W) → slept (ping w).1 ≡ slept w
    pub sleep_pings : (d : ℕ) (w : W) → pings (sleep d w) ≡ pings w
    pub sleep_slept : (d : ℕ) (w : W) → slept (sleep d w) ≡ slept w + d

  -- The sleeps before the attempts up to the `k`-th after this one.
  abbrev pub waits : ℕ → ℕ → ℕ → ℕ
  waits zero attempt backoff = 0
  waits (suc k) attempt backoff = attempt * backoff + waits k (suc attempt) backoff

  module _ (pings slept : W → ℕ) (c : Counted pings slept) where
    -- One ping more than the `k` that failed, with the sleeps between.
    pub record Tried (k attempt backoff : ℕ) (w w' : W) : Type 0 where
      pub pinged : pings w' ≡ pings w + suc k
      pub rested : slept w' ≡ slept w + waits k attempt backoff

    -- So many pings failed before the one with the answer given.
    pub record Pinged (answer : Option Error) (k attempt backoff : ℕ) (w w' : W) : Type 0 where
      pub last : W
      pub failed_before : Failed backoff k attempt w last
      pub answered : ping last ≡ (answer, w')
      pub tried : Tried k attempt backoff w w'

    abbrev pub Reached : ℕ → ℕ → ℕ → W → W → Type 0
    Reached more attempt backoff w w' = (k : ℕ) × (k ≤ more) × Pinged none k attempt backoff w w'

    abbrev pub Unreachable : ℕ → ℕ → ℕ → W → Error → W → Type 0
    Unreachable more attempt backoff w e w' =
        (reason : Error) × (e ≡ Error.wrap "database unreachable" reason)
        × Pinged (some reason) more attempt backoff w w'

    at_once :
        (attempt backoff : ℕ) (w : W) (answer : Option Error)
        → (ping w).0 ≡ answer
        → Pinged answer 0 attempt backoff w (ping w).1
    at_once attempt backoff w answer e = record {
      last = w;
      failed_before = none_yet;
      answered = λ i. (e i, (ping w).1);
      tried = record {
        pinged = omega (arith, c.ping_pings w);
        rested = omega (arith, c.ping_slept w);
      };
    }

    Pinged-later :
        {answer : Option Error} {e : Error} (k attempt backoff : ℕ) (w w' : W)
        → (ping w).0 ≡ some e
        → Pinged answer k (suc attempt) backoff (sleep (attempt * backoff) (ping w).1) w'
        → Pinged answer (suc k) attempt backoff w w'
    Pinged-later k attempt backoff w w' down r =
        let slept_pings = c.sleep_pings (attempt * backoff) (ping w).1 in
        let slept_time = c.sleep_slept (attempt * backoff) (ping w).1 in
        record {
          last = r.last;
          failed_before = one_more (λ i. (down i, (ping w).1)) r.failed_before;
          answered = r.answered;
          tried = record {
            pinged = omega (arith, r.tried.pinged, c.ping_pings w, slept_pings);
            rested = omega (arith, r.tried.rested, slept_time, c.ping_slept w);
          };
        }

    ping_loop-Pinged :
        (more attempt backoff : ℕ) (w : W)
        → Returns
            (λ _ w'. Reached more attempt backoff w w')
            (λ e w'. Unreachable more attempt backoff w e w')
            (ping_loop ping sleep more attempt backoff w)
    unfolding ping_loop
    ping_loop-Pinged zero attempt backoff w = elim (Option-cases (ping w).0) [
      | inl up ↦ rw (up, ping_loop) (returned (0, omega arith, at_once attempt backoff w none up))
      | inr (e, down) ↦
          rw (down, ping_loop) (failed (e, refl, at_once attempt backoff w (some e) down))
    ]
    ping_loop-Pinged (suc more) attempt backoff w = elim (Option-cases (ping w).0) [
      | inl up ↦ rw (up, ping_loop) (returned (0, omega arith, at_once attempt backoff w none up))
      | inr (e, down) ↦
          rw (down, ping_loop)
            (Returns-mono
              (ping_loop-Pinged more (suc attempt) backoff (sleep (attempt * backoff) (ping w).1))
              (λ _ w' p.
                (suc p.0, omega (arith, p.1), Pinged-later p.0 attempt backoff w w' down p.2))
              (λ _ w' q. (q.0, q.1, Pinged-later more attempt backoff w w' down q.2)))
    ]

    -- Whether a ping answers depends on how many there were before.
    ping_loop-ok :
        (n more attempt backoff : ℕ) (w : W)
        → ((v : W) → n ≤ pings v → (ping v).0 ≡ none)
        → n ≤ pings w + more
        → (w' : W) × (ping_loop ping sleep more attempt backoff w ≡ (ok tt, w'))
    unfolding ping_loop
    ping_loop-ok n zero attempt backoff w up h = rw (up w (omega (arith, h)), ping_loop) (_, refl)
    ping_loop-ok n (suc more) attempt backoff w up h = elim (Option-cases (ping w).0) [
      | inl now ↦ rw (now, ping_loop) (_, refl)
      | inr (e, down) ↦
          let v = sleep (attempt * backoff) (ping w).1 in
          rw (down, ping_loop)
            (ping_loop-ok n more (suc attempt) backoff v up
              (omega (arith, h, c.sleep_pings (attempt * backoff) (ping w).1, c.ping_pings w)))
    ]

    -- `pingWithRetry` ends after at most its attempts. It returns no error just after the first ping
    -- that answers, all before it having failed; and an error that wraps the last one after all its
    -- attempts have failed. It has slept the linear backoff between the attempts and nothing more.
    pub ping_with_retry-Tried :
        (more backoff : ℕ) (w : W)
        → Returns
            (λ _ w'. Reached more 1 backoff w w')
            (λ e w'. Unreachable more 1 backoff w e w')
            (ping_with_retry ping sleep more backoff w)
    unfolding ping_with_retry
    ping_with_retry-Tried more backoff w = ping_loop-Pinged more 1 backoff w

    -- If the database answers from some ping within the attempts on, `pingWithRetry` returns no
    -- error.
    pub ping_with_retry-succeeds :
        (n more backoff : ℕ) (w : W)
        → ((v : W) → n ≤ pings v → (ping v).0 ≡ none)
        → n ≤ pings w + more
        → (w' : W) × (ping_with_retry ping sleep more backoff w ≡ (ok tt, w'))
    unfolding ping_with_retry
    ping_with_retry-succeeds n more backoff w up h = ping_loop-ok n more 1 backoff w up h

abbrev pub once : Bool → ℕ
once held = if held then 1 else 0

module _ (r : Resources) where
  open r use {World}

  -- Counters of the releases: a step counts for its own resource only, whether it fails or not.
  pub record Tally : Type 0 where
    pub admin : World → ℕ
    pub tracer : World → ℕ
    pub database : World → ℕ
    pub admin_step :
        (w : World)
        → (admin (r.shutdown_admin w).1 ≡ suc (admin w))
          × (tracer (r.shutdown_admin w).1 ≡ tracer w)
          × (database (r.shutdown_admin w).1 ≡ database w)
    pub tracer_step :
        (w : World)
        → (admin (r.shutdown_tracer w).1 ≡ admin w)
          × (tracer (r.shutdown_tracer w).1 ≡ suc (tracer w))
          × (database (r.shutdown_tracer w).1 ≡ database w)
    pub database_step :
        (w : World)
        → (admin (r.close_database w).1 ≡ admin w)
          × (tracer (r.close_database w).1 ≡ tracer w)
          × (database (r.close_database w).1 ≡ suc (database w))

  collect-world :
      (context : String) (x : Result Error (Unit {0}) × World) (errs : List Error)
      → (collect r context x errs).1 ≡ x.1
  collect-world context (ok _, w) errs = refl
  collect-world context (err _, w) errs = refl

  release-counts :
      (count : World → ℕ) (own : ℕ) (step : World → Result Error (Unit {0}) × World)
      → ((v : World) → count (step v).1 ≡ count v + own)
      → (held : Bool) (context : String) (x : List Error × World)
      → count (release r held context step x).1 ≡ count x.1 + own * once held
  unfolding release
  release-counts count own step h false context (errs, w) = omega arith
  release-counts count own step h true context (errs, w) =
      omega (arith, ap count (collect-world context (step w) errs), h w)

  -- The three steps in a row.
  close-counts :
      (count : World → ℕ) (a b d : ℕ) (c : Container) (w : World)
      → ((v : World) → count (r.shutdown_admin v).1 ≡ count v + a)
      → ((v : World) → count (r.shutdown_tracer v).1 ≡ count v + b)
      → ((v : World) → count (r.close_database v).1 ≡ count v + d)
      → count (close r c w).2
        ≡ count w + a * once c.admin_server + b * once c.tracer_shutdown + d * once c.owns_db
  unfolding close
  close-counts count a b d c w ha hb hd =
      let x =
        release r c.admin_server "shutting down the admin listener" r.shutdown_admin ([], w) in
      let y = release r c.tracer_shutdown "shutting down tracing" r.shutdown_tracer x in
      omega (
        arith,
        release-counts count a r.shutdown_admin ha c.admin_server _ ([], w),
        release-counts count b r.shutdown_tracer hb c.tracer_shutdown _ x,
        release-counts count d r.close_database hd c.owns_db _ y,
      )

  module _ (t : Tally) where
    pub record Released (c : Container) (w w' : World) : Type 0 where
      pub admin_released : t.admin w' ≡ t.admin w + once c.admin_server
      pub tracer_released : t.tracer w' ≡ t.tracer w + once c.tracer_shutdown
      pub database_released : t.database w' ≡ t.database w + once c.owns_db

    -- `Close` releases what the container holds, each once, whatever fails, and a database that was
    -- injected not at all; after it, another `Close` does nothing and reports nothing.
    pub close-Released :
        (c : Container) (w v : World)
        → Released c w (close r c w).2 × (close r (close r c w).1 v ≡ ([], (close r c w).1, v))
    unfolding close release
    close-Released c w v = (
      record {
        admin_released = omega (
          arith,
          close-counts t.admin 1 0 0 c w (λ u. omega (arith, (t.admin_step u).0))
              (λ u. omega (arith, (t.tracer_step u).0)) (λ u. omega (arith, (t.database_step u).0)),
        );
        tracer_released = omega (
          arith,
          close-counts t.tracer 0 1 0 c w (λ u. omega (arith, (t.admin_step u).1))
              (λ u. omega (arith, (t.tracer_step u).1)) (λ u. omega (arith, (t.database_step u).1)),
        );
        database_released = omega (
          arith,
          close-counts t.database 0 0 1 c w (λ u. omega (arith, (t.admin_step u).2))
              (λ u. omega (arith, (t.tracer_step u).2)) (λ u. omega (arith, (t.database_step u).2)),
        );
      },
      refl,
    )
