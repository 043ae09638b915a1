-- ===== src/Examples/Service.antt =====
-- The container, the router, the janitor and the checks of health, each at a concrete input.
use clean_arch_go_gin.Base.{
  ℕ, suc, ◌+◌, ◌≤◌, ◌≡◌, ◌⊎◌, inl, refl, eq_iff, true, false, Option, none, some, [], ◌∷◌, ltb,
  if◌then◌else◌, arith,
}
use clean_arch_go_gin.Base.Int.{pos, leb_ℤ}
use clean_arch_go_gin.Base.Effect.{ok, err, Returns}
use clean_arch_go_gin.Apperr.{Error}
use clean_arch_go_gin.Outside.Memory.{in_memory}
use clean_arch_go_gin.Outside.Memory.Laws.{in_memory-Laws}
use clean_arch_go_gin.Service.Token.{validate_access_token}
use clean_arch_go_gin.Middleware.Auth.{csrf_middleware, auth_middleware, set_auth_context}
use clean_arch_go_gin.Middleware.RequestId.{is_clean, assign_request_id}
use clean_arch_go_gin.Middleware.RequestId.Laws.{IsSafe, IsAssigned, assign_request_id-IsAssigned}
use clean_arch_go_gin.Service.Health.{Checks}
use clean_arch_go_gin.Handler.Health.{handle_ready}
use clean_arch_go_gin.Handler.Health.Laws.{Readiness, handle_ready-Readiness}
use clean_arch_go_gin.Router.{
  Request, Guarding, Served, Endpoint, find_route, after, run_guards, serve,
}
use clean_arch_go_gin.Router.Access.{Reaches, serve-Reaches}
use clean_arch_go_gin.Observability.{AdminConfig, new_admin_server}
use clean_arch_go_gin.Observability.Laws.{Listening, new_admin_server-Listening}
use clean_arch_go_gin.Di.Lifecycle.{ping_with_retry, Resources, Container, close}
use clean_arch_go_gin.Di.Lifecycle.Laws.{
  Counted, Reached, Unreachable, ping_with_retry-Tried, ping_with_retry-succeeds, Tally, Released,
  close-Released,
}
use clean_arch_go_gin.Di.Janitor.{Wake, sweeps, start_janitor, Swept, start_janitor-Swept}
use clean_arch_go_gin.Examples.Data.{service, world}
use clean_arch_go_gin.Examples.Requests.{claims, config, world as requested}

abbrev guarding : Guarding in_memory
guarding = record {
  allow = λ w. (true, w);
  validate_csrf = λ _ header. is_clean header;
  token_config = config;
}

abbrev increment : Request
increment = record {
  method = "POST";
  path = "/api/v1/counter";
  access_token = some "token";
  csrf_header = "signed";
}

serve-Reaches_example :
    Reaches in_memory guarding increment (serve in_memory guarding increment requested)
serve-Reaches_example = serve-Reaches in_memory guarding increment in_memory-Laws requested

-- The owner of the token reaches the counter.
reaches_counter :
    (serve in_memory guarding increment requested).0
    ≡ Served.handled Endpoint.increment_counter (record {
      user_id = some (in_memory.uuid_string 7);
      user_email = some "alice@example.org";
      claims = some claims;
    })
unfolding serve find_route run_guards after validate_access_token csrf_middleware auth_middleware
    set_auth_context is_clean
reaches_counter = refl

-- A database that answers the third ping; a world is the pings so far and the time slept.
abbrev ping : ℕ × ℕ → Option Error × (ℕ × ℕ)
ping (n, t) = (if ltb n 2 then some (Error.plain "connection refused") else none, (suc n, t))

abbrev sleep : ℕ → ℕ × ℕ → ℕ × ℕ
sleep d (n, t) = (n, t + d)

ping-Counted : Counted ping sleep (λ w. w.0) (λ w. w.1)
ping-Counted = record {
  ping_pings = λ w. refl;
  ping_slept = λ w. refl;
  sleep_pings = λ d w. refl;
  sleep_slept = λ d w. refl;
}

ping_with_retry-Tried_example :
    Returns
      (λ _ w'. Reached ping sleep (λ w. w.0) (λ w. w.1) ping-Counted 4 1 500 (0, 0) w')
      (λ e w'. Unreachable ping sleep (λ w. w.0) (λ w. w.1) ping-Counted 4 1 500 (0, 0) e w')
      (ping_with_retry ping sleep 4 500 (0, 0))
ping_with_retry-Tried_example =
    ping_with_retry-Tried ping sleep (λ w. w.0) (λ w. w.1) ping-Counted 4 500 (0, 0)

answers_in_time : (v : ℕ × ℕ) → 2 ≤ v.0 → (ping v).0 ≡ none
answers_in_time v h = ground (arith, h)

ping_with_retry-succeeds_example :
    (w' : ℕ × ℕ) × (ping_with_retry ping sleep 4 500 (0, 0) ≡ (ok tt, w'))
ping_with_retry-succeeds_example =
    ping_with_retry-succeeds ping sleep (λ w. w.0) (λ w. w.1) ping-Counted 2 4 500 (0, 0)
      answers_in_time (omega arith)

-- How often the three resources have been released.
pub record Tallies : Type 0 where
  pub admin : ℕ
  pub tracer : ℕ
  pub database : ℕ

abbrev resources : Resources
resources = record {
  World = Tallies;
  init_tracing = λ w. (ok tt, w);
  initialize_database = λ w. (ok tt, w);
  migrate = λ w. (ok tt, w);
  shutdown_admin = λ w. (err Error.deadline_exceeded, record w { admin = suc w.admin });
  shutdown_tracer = λ w. (ok tt, record w { tracer = suc w.tracer });
  close_database = λ w. (ok tt, record w { database = suc w.database });
}

abbrev tally : Tally resources
tally = record {
  admin = λ w. w.admin;
  tracer = λ w. w.tracer;
  database = λ w. w.database;
  admin_step = λ w. (refl, refl, refl);
  tracer_step = λ w. (refl, refl, refl);
  database_step = λ w. (refl, refl, refl);
}

abbrev container : Container
container = record { admin_server = true; tracer_shutdown = true; owns_db = true }

abbrev nothing_released : Tallies
nothing_released = record { admin = 0; tracer = 0; database = 0 }

close-Released_example :
    Released resources tally container nothing_released
      (close resources container nothing_released).2
    × (close resources (close resources container nothing_released).1 nothing_released
        ≡ ([], (close resources container nothing_released).1, nothing_released))
close-Released_example = close-Released resources tally container nothing_released nothing_released

start_janitor-Swept_example :
    ((leb_ℤ (pos 60) (pos 0) ≡ true)
      × (start_janitor in_memory service (pos 60) (Wake.tick ∷ Wake.done ∷ []) world ≡ world))
    ⊎ ((leb_ℤ (pos 60) (pos 0) ≡ false)
        × Swept in_memory service
            (sweeps in_memory service (Wake.tick ∷ Wake.done ∷ []))
            world
            (start_janitor in_memory service (pos 60) (Wake.tick ∷ Wake.done ∷ []) world))
start_janitor-Swept_example =
    start_janitor-Swept in_memory in_memory-Laws service (pos 60) (Wake.tick ∷ Wake.done ∷ []) world

uuid-IsSafe : IsSafe (in_memory.uuid_string (in_memory.new_uuid (record world { serial = 3 })).0)
unfolding is_clean
uuid-IsSafe = record {
  given = λ e. ground (arith, (eq_iff "iii" "").1 e);
  short = omega arith;
  clean = refl;
}

assign_request_id-IsAssigned_example :
    IsAssigned in_memory "bad id" ""
      (assign_request_id in_memory "bad id" "" (record world { serial = 3 })).0.0
      (assign_request_id in_memory "bad id" "" (record world { serial = 3 })).0.1
assign_request_id-IsAssigned_example =
    assign_request_id-IsAssigned in_memory "bad id" "" (record world { serial = 3 }) uuid-IsSafe
      (inl refl)

abbrev checks : Checks in_memory
checks = ("database", λ w. (none, w)) ∷ ("cache", λ w. (some Error.deadline_exceeded, w)) ∷ []

handle_ready-Readiness_example :
    Readiness in_memory checks world (handle_ready in_memory checks world).0
handle_ready-Readiness_example = handle_ready-Readiness in_memory checks world

abbrev admin : AdminConfig
admin = record {
  metrics_enabled = false;
  pprof_enabled = true;
  host = "";
  port = pos 0;
  read_timeout = pos 0;
  write_timeout = pos 0;
  idle_timeout = pos 0;
}

new_admin_server-Listening_example : Listening admin false (new_admin_server admin false)
new_admin_server-Listening_example = new_admin_server-Listening admin false
