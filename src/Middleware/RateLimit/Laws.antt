-- ===== src/Middleware/RateLimit/Laws.antt =====
-- A request spends from the bucket of its own client, and a sweep drops idle buckets only.
use clean_arch_go_gin.Base.{
  String, ◌≡◌, ◌≢◌, inl, inr, refl, Bool, true, false, Option, none, some, str_eq, str_eq_iff,
  Bool-cases,
}
use clean_arch_go_gin.Base.Int.{ℤ, ltb_ℤ}
use clean_arch_go_gin.Middleware.RateLimit.{
  Rate, since, Bucket, IpRateLimiter, keep, gc_locked, limiter_of, allow,
}

module _ (r : Rate) where
  -- What became of another client's bucket.
  pub data Kept (ttl now : ℤ) : Option (Bucket r) → Option (Bucket r) → Type 0 where
    same : {b : Option (Bucket r)} → Kept ttl now b b
    swept : {b : Bucket r} → ltb_ℤ ttl (since now b.seen) ≡ true → Kept ttl now (some b) none

  -- The decision is that of the client's own limiter, or of a fresh one where it has none or has
  -- been idle for too long, and its bucket has the state after the decision.
  pub record IsSpent (l : IpRateLimiter r) (key : String) (now : ℤ) (allowed : Bool)
      (l' : IpRateLimiter r) : Type 0 where
    pub before : Option (Bucket r)
    pub kept : Kept l.ttl now (l.buckets key) before
    pub limiter : r.Limiter
    pub chosen : limiter ≡ (elim before [ some b ↦ b.limiter | none ↦ r.new_limiter l.rps l.burst ])
    pub decided : allowed ≡ (r.allow limiter).0
    pub mine : l'.buckets key ≡ some (record { limiter = (r.allow limiter).1; seen = now })
    pub others :
        (other : String) → other ≢ key → Kept l.ttl now (l.buckets other) (l'.buckets other)
    pub same_policy : (l'.rps ≡ l.rps) × (l'.burst ≡ l.burst) × (l'.ttl ≡ l.ttl)

  keep-Kept : (ttl now : ℤ) (b : Option (Bucket r)) → Kept ttl now b (keep r ttl now b)
  keep-Kept ttl now none = same
  keep-Kept ttl now (some b) = elim (Bool-cases (ltb_ℤ ttl (since now b.seen))) [
    | inl h ↦ rw h (swept h)
    | inr h ↦ rw h same
  ]

  gc_locked-Kept :
      (l : IpRateLimiter r) (now : ℤ) (key : String)
      → Kept l.ttl now (l.buckets key) ((gc_locked r l now).buckets key)
  unfolding gc_locked
  gc_locked-Kept l now key = elim (Bool-cases (ltb_ℤ (since now l.last_gc) l.ttl)) [
    | inl h ↦ rw h same
    | inr h ↦ rw h (keep-Kept l.ttl now (l.buckets key))
  ]

  gc_locked-policy :
      (l : IpRateLimiter r) (now : ℤ)
      → ((gc_locked r l now).rps ≡ l.rps)
        × ((gc_locked r l now).burst ≡ l.burst)
        × ((gc_locked r l now).ttl ≡ l.ttl)
  unfolding gc_locked
  gc_locked-policy l now = elim (Bool-cases (ltb_ℤ (since now l.last_gc) l.ttl)) [
    | inl h ↦ rw h (refl, refl, refl)
    | inr h ↦ rw h (refl, refl, refl)
  ]

  gc_locked-limiter :
      (l : IpRateLimiter r) (now : ℤ) (key : String)
      → limiter_of r (gc_locked r l now) key ≡ (elim ((gc_locked r l now).buckets key) [
        | some b ↦ b.limiter
        | none ↦ r.new_limiter l.rps l.burst
      ])
  gc_locked-limiter l now key =
      rw ((gc_locked-policy l now).0) (rw ((gc_locked-policy l now).1) refl)

  str_eq_refl : (s : String) → str_eq s s ≡ true
  str_eq_refl s = (str_eq_iff s s).1 refl

  str_eq_differ : (s t : String) → s ≢ t → str_eq s t ≡ false
  str_eq_differ s t d = elim (Bool-cases (str_eq s t)) [
    | inl h ↦ absurd (d ((str_eq_iff s t).0 h))
    | inr h ↦ h
  ]

  -- A call of `Allow` decides with the limiter of the client alone and leaves the other clients'
  -- buckets as they are, but for those that a sweep drops because they were idle for longer than
  -- the time to live.
  pub allow-isolates :
      (l : IpRateLimiter r) (key : String) (now : ℤ)
      → IsSpent l key now (allow r l key now).0 (allow r l key now).1
  unfolding allow
  allow-isolates l key now = record {
    before = (gc_locked r l now).buckets key;
    kept = gc_locked-Kept l now key;
    limiter = limiter_of r (gc_locked r l now) key;
    chosen = gc_locked-limiter l now key;
    decided = refl;
    mine = rw (str_eq_refl key) refl;
    others = λ other d. rw (str_eq_differ other key d) (gc_locked-Kept l now other);
    same_policy = gc_locked-policy l now;
  }
