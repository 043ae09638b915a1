-- ===== src/Router/Guards.antt =====
-- What a request has shown when it has passed a chain of guards.
use clean_arch_go_gin.Base.{◌≡◌, ◌⊎◌, inl, inr, true, false, List, [], ◌∷◌, All, Bool-cases}
use clean_arch_go_gin.Outside.{Outside}
use clean_arch_go_gin.Outside.Laws.{Laws}
use clean_arch_go_gin.Middleware.Auth.{AuthContext, Next, auth_middleware, is_unsafe}
use clean_arch_go_gin.Middleware.Auth.Laws.{
  IsAuthenticated, Decided, authenticated, auth_middleware-decides, csrf_middleware-guards,
}
use clean_arch_go_gin.Router.{Guard, Request, Guarding, run_guard, after, run_guards}

module _ (o : Outside) (g : Guarding o) (q : Request) where
  open o use {World}

  -- What each guard has asked, at some point of the request.
  pub record Authenticated (ctx : AuthContext) : Type 0 where
    pub asked : World
    pub decided : IsAuthenticated o g.token_config q.access_token asked ctx

  abbrev pub CsrfChecked : Type 0
  CsrfChecked =
      (is_unsafe q.method ≡ false) ⊎ ((w : World) × (g.validate_csrf w q.csrf_header ≡ true))

  abbrev pub Allowed : Type 0
  Allowed = (w : World) × ((g.allow w).0 ≡ true)

  unfoldable pub Holds : Guard → AuthContext → Type 0
  Holds Guard.auth_limiter ctx = Allowed
  Holds Guard.csrf ctx = CsrfChecked
  Holds Guard.auth ctx = Authenticated ctx

  module _ (l : Laws o) where
    abbrev pub Upon : (AuthContext → Type 0) → Next × World → Type 0
    Upon P (Next.passed ctx, w) = P ctx
    Upon P (Next.aborted _ _, w) = Unit

    Decided-Upon :
        (w w' : World) (n : Next)
        → Decided o g.token_config q.access_token w n
        → Upon Authenticated (n, w')
    Decided-Upon w w' (Next.passed ctx) (authenticated d) = record { asked = w; decided = d }
    Decided-Upon w w' (Next.aborted _ _) d = tt

    Upon-mono :
        {P Q : AuthContext → Type 0} (r : Next × World)
        → Upon P r
        → ((ctx : AuthContext) → P ctx → Q ctx)
        → Upon Q r
    Upon-mono (Next.passed ctx, w) p f = f ctx p
    Upon-mono (Next.aborted _ _, w) p f = tt

    -- What the guards that passed have asked, and that an authenticated context stays one.
    abbrev pub Told : List Guard → AuthContext → AuthContext → Type 0
    Told ss ctx ctx' = All (λ s. Holds s ctx') ss × (Authenticated ctx → Authenticated ctx')

    run_guard-Holds :
        (s : Guard) (ctx : AuthContext) (w : World)
        → Upon
            (λ ctx'. Holds s ctx' × (Authenticated ctx → Authenticated ctx'))
            (run_guard o g s q ctx w)
    unfolding Holds
    run_guard-Holds Guard.auth_limiter ctx w = elim (Bool-cases ((g.allow w).0)) [
      | inl allowed ↦ rw allowed ((w, allowed), λ a. a)
      | inr spent ↦ rw spent tt
    ]
    run_guard-Holds Guard.csrf ctx w =
        elim (csrf_middleware-guards (g.validate_csrf w) q.method q.csrf_header ctx) [
          | inl (passes, inl safe) ↦ rw passes (inl safe, λ a. a)
          | inl (passes, inr (_, valid)) ↦ rw passes (inr (w, valid), λ a. a)
          | inr (_, _, inl missing) ↦ rw missing tt
          | inr (_, _, inr bad) ↦ rw bad tt
        ]
    run_guard-Holds Guard.auth ctx w =
        let r = auth_middleware o g.token_config q.access_token w in
        Upon-mono r
          (Decided-Upon w r.1 r.0 (auth_middleware-decides o l g.token_config w q.access_token))
          (λ ctx' a. (a, λ _. a))

    Holds-kept :
        (s : Guard) (ctx ctx' : AuthContext)
        → (Authenticated ctx → Authenticated ctx')
        → Holds s ctx
        → Holds s ctx'
    unfolding Holds
    Holds-kept Guard.auth_limiter ctx ctx' f h = h
    Holds-kept Guard.csrf ctx ctx' f h = h
    Holds-kept Guard.auth ctx ctx' f h = f h

    after-Upon :
        {P : AuthContext → Type 0} (Q : AuthContext → Type 0)
        (rest : AuthContext → World → Next × World) (r : Next × World)
        → Upon P r
        → ((ctx : AuthContext) (w : World) → P ctx → Upon Q (rest ctx w))
        → Upon Q (after o g rest r)
    unfolding after
    after-Upon Q rest (Next.passed ctx, w) p f = f ctx w p
    after-Upon Q rest (Next.aborted _ _, w) p f = tt

    pub run_guards-Told :
        (ss : List Guard) (ctx : AuthContext) (w : World)
        → Upon (Told ss ctx) (run_guards o g ss q ctx w)
    unfolding run_guards
    run_guards-Told [] ctx w = (tt, λ a. a)
    run_guards-Told (s ∷ ss) ctx w =
        after-Upon (Told (s ∷ ss) ctx) (run_guards o g ss q) (run_guard o g s q ctx w)
          (run_guard-Holds s ctx w)
          (λ ctx₁ w₁ h.
            Upon-mono (run_guards o g ss q ctx₁ w₁) (run_guards-Told ss ctx₁ w₁)
              (λ ctx₂ k. ((Holds-kept s ctx₁ ctx₂ k.1 h.0, k.0), λ a. k.1 (h.1 a))))
