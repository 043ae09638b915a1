-- ===== src/Router/Access.antt =====
-- What a request has shown when it reaches a handler, by the table of the routes.
use clean_arch_go_gin.Base.{
  ◌≡◌, inl, inr, refl, ap, ◌∙◌, subst, Bool, true, false, not, ◌&&◌, ◌||◌, some, List, [], ◌∷◌, All,
  str_eq, str_eq_iff, Bool-cases, Option-cases, arith,
}
use clean_arch_go_gin.Outside.{Outside}
use clean_arch_go_gin.Outside.Laws.{Laws}
use clean_arch_go_gin.Middleware.Auth.{AuthContext, Next, is_unsafe}
use clean_arch_go_gin.Router.{
  Endpoint, Guard, Route, routes, Request, find_route, Served, Guarding, run_guards, serve, served,
  no_context,
}
use clean_arch_go_gin.Router.Guards.{
  Authenticated, CsrfChecked, Allowed, Holds, Upon, Told, run_guards-Told,
}

-- The endpoints that act for an authenticated user, and those that take credentials.
abbrev pub is_protected : Endpoint → Bool
is_protected Endpoint.get_me = true
is_protected Endpoint.list_sessions = true
is_protected Endpoint.logout = true
is_protected Endpoint.change_password = true
is_protected Endpoint.delete_account = true
is_protected Endpoint.get_counter = true
is_protected Endpoint.increment_counter = true
is_protected _ = false

abbrev pub takes_credentials : Endpoint → Bool
takes_credentials Endpoint.register = true
takes_credentials Endpoint.login = true
takes_credentials Endpoint.refresh = true
takes_credentials _ = false

-- The endpoints that create a session from credentials in the body, with no session to ride on.
abbrev pub starts_session : Endpoint → Bool
starts_session Endpoint.register = true
starts_session Endpoint.login = true
starts_session _ = false

abbrev same_guard : Guard → Guard → Bool
same_guard Guard.auth_limiter Guard.auth_limiter = true
same_guard Guard.csrf Guard.csrf = true
same_guard Guard.auth Guard.auth = true
same_guard _ _ = false

abbrev has : Guard → List Guard → Bool
has s [] = false
has s (t ∷ ts) = same_guard s t || has s ts

-- The guards that an endpoint asks for stand in front of it.
abbrev is_covered : Route → Bool
is_covered r =
    (not (is_protected r.endpoint) || has Guard.auth r.guards)
    && (not (takes_credentials r.endpoint) || has Guard.auth_limiter r.guards)
    && (starts_session r.endpoint || has Guard.csrf r.guards || not (is_unsafe r.method))

abbrev Covered : List Route → Type 0
Covered = All (λ r. is_covered r ≡ true)

routes-Covered : Covered routes
routes-Covered = (
  refl,
  (
    refl,
    (
      refl,
      (
        refl,
        (refl, (refl, (refl, (refl, (refl, (refl, (refl, (refl, (refl, (refl, (refl, tt))))))))))),
      ),
    ),
  ),
)

find_route-Covered :
    (q : Request) (rs : List Route) (r : Route)
    → Covered rs
    → find_route q rs ≡ some r
    → (is_covered r ≡ true) × (q.method ≡ r.method)
unfolding find_route
find_route-Covered q [] r _ e = absurd (ground (arith, e))
find_route-Covered q (x ∷ rs) r (c, cs) e =
    elim (Bool-cases (str_eq q.method x.method && str_eq q.path x.path)) [
      | inl here ↦
          let same : x ≡ r = ground (arith, e, here) in
          subst (λ y. (is_covered y ≡ true) × (q.method ≡ y.method)) same
            (c, (str_eq_iff q.method x.method).0 (ground (arith, here)))
      | inr there ↦ find_route-Covered q rs r cs (ground (arith, e, there))
    ]

module _ (o : Outside) (g : Guarding o) (q : Request) where
  open o use {World}

  has-Holds :
      (s : Guard) (ss : List Guard) (ctx : AuthContext)
      → has s ss ≡ true
      → All (λ t. Holds o g q t ctx) ss
      → Holds o g q s ctx
  has-Holds s [] ctx e _ = absurd (ground (arith, e))
  has-Holds Guard.auth_limiter (Guard.auth_limiter ∷ ts) ctx e (h, hs) = h
  has-Holds Guard.csrf (Guard.csrf ∷ ts) ctx e (h, hs) = h
  has-Holds Guard.auth (Guard.auth ∷ ts) ctx e (h, hs) = h
  has-Holds Guard.auth_limiter (Guard.csrf ∷ ts) ctx e (h, hs) = has-Holds _ ts ctx e hs
  has-Holds Guard.auth_limiter (Guard.auth ∷ ts) ctx e (h, hs) = has-Holds _ ts ctx e hs
  has-Holds Guard.csrf (Guard.auth_limiter ∷ ts) ctx e (h, hs) = has-Holds _ ts ctx e hs
  has-Holds Guard.csrf (Guard.auth ∷ ts) ctx e (h, hs) = has-Holds _ ts ctx e hs
  has-Holds Guard.auth (Guard.auth_limiter ∷ ts) ctx e (h, hs) = has-Holds _ ts ctx e hs
  has-Holds Guard.auth (Guard.csrf ∷ ts) ctx e (h, hs) = has-Holds _ ts ctx e hs

  -- What is known once the handler of an endpoint runs.
  pub record Admitted (endpoint : Endpoint) (ctx : AuthContext) : Type 0 where
    pub by_token : is_protected endpoint ≡ true → Authenticated o g q ctx
    pub by_limiter : takes_credentials endpoint ≡ true → Allowed o g q
    pub by_csrf : starts_session endpoint ≡ false → CsrfChecked o g q

  Told-Admitted :
      (r : Route) (ctx ctx' : AuthContext)
      → is_covered r ≡ true
      → q.method ≡ r.method
      → All (λ t. Holds o g q t ctx') r.guards
      → Admitted r.endpoint ctx'
  unfolding Holds
  Told-Admitted r ctx ctx' c same hs = record {
    by_token = λ p. has-Holds Guard.auth r.guards ctx' (ground (arith, c, p)) hs;
    by_limiter = λ p. has-Holds Guard.auth_limiter r.guards ctx' (ground (arith, c, p)) hs;
    by_csrf = λ p. elim (Bool-cases (is_unsafe r.method)) [
      | inl unsafe ↦ has-Holds Guard.csrf r.guards ctx' (ground (arith, c, p, unsafe)) hs
      | inr safe ↦ inl (ap is_unsafe same ∙ safe)
    ];
  }

  abbrev pub Reaches : Served × World → Type 0
  Reaches (Served.handled endpoint ctx, w) = Admitted endpoint ctx
  Reaches (Served.refused _ _, w) = Unit

  module _ (l : Laws o) where
    served-Reaches :
        (r : Route) (n : Next × World)
        → is_covered r ≡ true
        → q.method ≡ r.method
        → Upon o g q l (Told o g q l r.guards no_context) n
        → Reaches (served o g r.endpoint n)
    served-Reaches r (Next.passed ctx, w) c same h = Told-Admitted r no_context ctx c same h.0
    served-Reaches r (Next.aborted _ _, w) c same h = tt

    -- A request that reaches the handler of an endpoint for users carries an access token that
    -- validates and is the one the handler's context was filled from; one that reaches register,
    -- login or refresh was let through by their limiter; and one that reaches any handler but
    -- register and login has a safe method or a CSRF token that was accepted.
    pub serve-Reaches : (w : World) → Reaches (serve o g q w)
    unfolding serve
    serve-Reaches w = elim (Option-cases (find_route q routes)) [
      | inl unknown ↦ rw (unknown, serve) tt
      | inr (r, known) ↦
          let (c, same) = find_route-Covered q routes r routes-Covered known in
          rw (known, serve)
            (served-Reaches r (run_guards o g r.guards q no_context w) c same
              (run_guards-Told o g q l r.guards no_context w))
    ]
