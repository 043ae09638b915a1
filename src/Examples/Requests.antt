-- ===== src/Examples/Requests.antt =====
-- The middleware and the counter on concrete requests.
use clean_arch_go_gin.Base.{ℕ, refl, true, false, none, some, [], ◌∷◌, str_eq, if◌then◌else◌}
use clean_arch_go_gin.Base.Int.{pos}
use clean_arch_go_gin.Database.{Tables}
use clean_arch_go_gin.Outside.Memory.{Memory, in_memory}
use clean_arch_go_gin.Outside.Memory.Laws.{in_memory-Laws}
use clean_arch_go_gin.Repository.Context.{Context}
use clean_arch_go_gin.Repository.Counter.{increment_counter}
use clean_arch_go_gin.Repository.Counter.Laws.{IsIncremented, increment_counter-increments}
use clean_arch_go_gin.Repository.Tx.Laws.{Commits}
use clean_arch_go_gin.Service.Token.{TokenConfig}
use clean_arch_go_gin.Service.Token.Claims.{TokenClaims}
use clean_arch_go_gin.Middleware.Auth.{AuthContext, auth_middleware}
use clean_arch_go_gin.Middleware.Auth.Laws.{Decided, auth_middleware-decides}
use clean_arch_go_gin.Middleware.RateLimit.{Rate, IpRateLimiter, allow}
use clean_arch_go_gin.Middleware.RateLimit.Laws.{IsSpent, allow-isolates}

abbrev pub config : TokenConfig
config = record {
  access_token_secret = "access";
  access_token_expiry = pos 900;
  refresh_token_secret = "refresh";
  refresh_token_expiry = pos 604800;
}

abbrev tables : Tables
tables = record {
  users = [];
  tokens = [];
  counters = record { id = 1; value = pos 41; created_at = pos 0; updated_at = pos 0 } ∷ [];
  messages = [];
}

abbrev pub claims : TokenClaims
claims = record {
  user_id = 7;
  email = "alice@example.org";
  name = "Alice";
  jti = "";
  expires_at = pos 900;
  issued_at = pos 0;
  issuer = "go-vite-react";
}

abbrev pub world : Memory
world = record {
  views = record { committed = tables; pending = tables };
  clock = 1000;
  serial = 500;
  circulating = ("token", "access", claims) ∷ [];
}

abbrev outside_tx : Context
outside_tx = record { transaction = none }

abbrev anonymous : AuthContext
anonymous = record { user_id = none; user_email = none; claims = none }

-- A limiter that counts down.
abbrev countdown : Rate
countdown = record {
  Limit = ℕ;
  Limiter = ℕ;
  new_limiter = λ _ _. 5;
  allow = λ n. elim n [ ℕ.zero ↦ (false, 0) | ℕ.suc m ↦ (true, m) ];
}

abbrev limiter : IpRateLimiter countdown
limiter = record {
  buckets =
      λ key. if str_eq key "10.0.0.1" then some (record { limiter = 2; seen = pos 100 }) else none;
  rps = 1;
  burst = pos 5;
  ttl = pos 50;
  last_gc = pos 0;
}

increment_counter-increments_example :
    Commits in_memory
      (λ n t'. IsIncremented n tables t')
      tables
      (increment_counter in_memory outside_tx world)
increment_counter-increments_example =
    increment_counter-increments in_memory in_memory-Laws outside_tx world refl

auth_middleware-decides_example :
    Decided in_memory config
      (some "token")
      world
      (auth_middleware in_memory config (some "token") world).0
auth_middleware-decides_example =
    auth_middleware-decides in_memory in_memory-Laws config world (some "token")

allow-isolates_example :
    IsSpent countdown limiter "10.0.0.2"
      (pos 200)
      (allow countdown limiter "10.0.0.2" (pos 200)).0
      (allow countdown limiter "10.0.0.2" (pos 200)).1
allow-isolates_example = allow-isolates countdown limiter "10.0.0.2" (pos 200)
