-- ===== src/Middleware/RateLimit.antt =====
-- internal/api/middleware/rate_limit.go, but for the response with 429. The limiters of
-- golang.org/x/time/rate are a parameter. The Go map is a function from keys; a method, which holds
-- the mutex, takes the state and returns the state after it.
pub mod Laws
use clean_arch_go_gin.Base.{
  ℕ, ◌*◌, ◌^◌, ◌-◌, String, Bool, true, false, Option, none, some, str_eq, if◌then◌else◌,
}
use clean_arch_go_gin.Base.Int.{ℤ, pos, negsuc, ◌-ℤ◌, ltb_ℤ, leb_ℤ}
use clean_arch_go_gin.Platform.Config.{minute}

-- `rate.NewLimiter` for a rate and a burst, and `Limiter.Allow`, which spends a token if it can.
pub record Rate : Type 1 where
  pub Limit : Type 0
  pub Limiter : Type 0
  pub new_limiter : Limit → ℤ → Limiter
  pub allow : Limiter → Bool × Limiter

-- `Time.Sub` stops at the ends of a 64-bit duration.
unfoldable pub since : ℤ → ℤ → ℤ
unfolding ◌-ℤ◌
since now past =
    let d = now -ℤ past in
    if ltb_ℤ (pos (2 ^ 63 - 1)) d
    then pos (2 ^ 63 - 1)
    else if ltb_ℤ d (negsuc (2 ^ 63 - 1))
    then negsuc (2 ^ 63 - 1)
    else d

module _ (r : Rate) where
  open r use {Limit, Limiter, new_limiter}

  pub record RateLimitConfig : Type 0 where
    pub rps : Limit
    pub burst : ℤ
    pub ttl : ℤ

  pub record Bucket : Type 0 where
    pub limiter : Limiter
    pub seen : ℤ

  -- Without the mutex and the clock.
  pub record IpRateLimiter : Type 0 where
    pub buckets : String → Option Bucket
    pub rps : Limit
    pub burst : ℤ
    pub ttl : ℤ
    pub last_gc : ℤ

  unfoldable pub new_ip_rate_limiter : RateLimitConfig → IpRateLimiter
  new_ip_rate_limiter cfg = record {
    buckets = λ _. none;
    rps = cfg.rps;
    burst = cfg.burst;
    ttl = if leb_ℤ cfg.ttl (pos 0) then pos (10 * minute) else cfg.ttl;
    last_gc = pos 0;
  }

  -- A bucket that the sweep deletes is gone.
  abbrev pub keep : ℤ → ℤ → Option Bucket → Option Bucket
  keep ttl now none = none
  keep ttl now (some b) = if ltb_ℤ ttl (since now b.seen) then none else some b

  unfoldable pub gc_locked : IpRateLimiter → ℤ → IpRateLimiter
  gc_locked l now =
      if ltb_ℤ (since now l.last_gc) l.ttl
      then l
      else record l { last_gc = now; buckets = λ key. keep l.ttl now (l.buckets key) }

  abbrev pub limiter_of : IpRateLimiter → String → Limiter
  limiter_of l key = elim (l.buckets key) [ some b ↦ b.limiter | none ↦ new_limiter l.rps l.burst ]

  -- `Allow`, at the time that the limiter's clock shows.
  unfoldable pub allow : IpRateLimiter → String → ℤ → Bool × IpRateLimiter
  allow l key now =
      let swept = gc_locked l now in
      let (allowed, spent) = r.allow (limiter_of swept key) in
      (
        allowed,
        record swept {
          buckets = λ k.
              if str_eq k key
              then some (record { limiter = spent; seen = now })
              else swept.buckets k;
        },
      )
