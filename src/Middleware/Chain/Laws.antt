-- ===== src/Middleware/Chain/Laws.antt =====
-- What of a request the access log and the counter see.
use clean_arch_go_gin.Base.{
  ◌≡◌, refl, sym, ap, ◌∙◌, subst, Bool, true, false, List, [], ◌∷◌, ◌++◌, ◌⊎◌, inl, inr,
  if◌then◌else◌,
}
use clean_arch_go_gin.Apperr.{Sentinel, message_of}
use clean_arch_go_gin.Di.Wiring.{Layer, new_router}
use clean_arch_go_gin.Platform.Config.{Process, Config}
use clean_arch_go_gin.Middleware.Chain.{
  Exchange, Ended, completed, panicked, Handler, status_of, abort_with_error, recovery, severity,
  access_log, metrics, Layers, run_chain,
}
use clean_arch_go_gin.Middleware.Chain.Forwards.{
  exchange_of, IsQuiet, IsQuiet-trans, Forwards, Spans, setting, body_limit-Forwards,
  timeout-Forwards, rate_limit-Forwards,
}

-- A panic is one of the handler.
abbrev pub Blames : Handler → Ended → Type 0
Blames h (completed y) = Unit {0}
Blames h (panicked z) = (v : Exchange) × (h v ≡ panicked z)

module _ (h : Handler) (h_quiet : (v : Exchange) → IsQuiet v (exchange_of (h v))) where
  pub record IsInner (next : Handler) : Type 0 where
    pub keeps : (x : Exchange) → IsQuiet x (exchange_of (next x))
    pub blames : (x : Exchange) → Blames h (next x)

  blame : (e : Ended) (x : Exchange) → h x ≡ e → Blames h e
  blame (completed y) x eq = tt
  blame (panicked z) x eq = (x, eq)

  handler-IsInner : IsInner h
  handler-IsInner = record { keeps = h_quiet; blames = λ x. blame (h x) x refl }

  forward : {m : Handler → Handler} {next : Handler} → Forwards m → IsInner next → IsInner (m next)
  forward {m = m} {next = next} f i = record {
    keeps = λ x. elim (f.passes next x) [
      | inl on ↦
          subst (λ (e : Ended). IsQuiet x (exchange_of e)) (sym on)
            (IsQuiet-trans (f.quiet x) (i.keeps (f.prepare x)))
      | inr stop ↦ subst (λ (e : Ended). IsQuiet x (exchange_of e)) (sym stop) (f.quiet x)
    ];
    blames = λ x. elim (f.passes next x) [
      | inl on ↦ subst (Blames h) (sym on) (i.blames (f.prepare x))
      | inr stop ↦ subst (Blames h) (sym stop) tt
    ];
  }

  -- One line in the access log and, if requests are counted, one sample, both with the status of
  -- the answer.
  pub record IsRecorded (counting : Bool) (x y : Exchange) : Type 0 where
    pub line : y.logged ≡ (severity (status_of y), status_of y) ∷ x.logged
    pub sample : y.counted ≡ (if counting then status_of y ∷ x.counted else x.counted)

  -- The handler panicked: the answer is the 500 of Recovery, unless a status was written, and there
  -- is no line and no sample.
  pub record IsLost (x y : Exchange) : Type 0 where
    pub at : Exchange
    pub left : Exchange
    pub panics : h at ≡ panicked left
    pub answer : y ≡ abort_with_error 500 (message_of Sentinel.err_internal) left
    pub unseen : IsQuiet x y

  abbrev pub Told : Bool → Exchange → Ended → Type 0
  Told counting x e = (y : Exchange) × (e ≡ completed y) × (IsRecorded counting x y ⊎ IsLost x y)

  lost :
      {x z : Exchange}
      → IsQuiet x z
      → Blames h (panicked z)
      → IsLost x (abort_with_error 500 (message_of Sentinel.err_internal) z)
  lost q (v, hv) = record {
    at = v;
    left = _;
    panics = hv;
    answer = refl;
    unseen = record { logs = q.logs; counts = q.counts };
  }

  line_of :
      {x y : Exchange}
      → IsQuiet x y
      → (severity (status_of y), status_of y) ∷ y.logged
        ≡ (severity (status_of y), status_of y) ∷ x.logged
  line_of {y = y} q = ap (λ l. (severity (status_of y), status_of y) ∷ l) q.logs

  core :
      (counting : Bool) (next : Handler) (x : Exchange) (e : Ended)
      → next x ≡ e
      → IsQuiet x (exchange_of e)
      → Blames h e
      → Told counting x
          (recovery (if counting then metrics (access_log next) else access_log next) x)
  core true next x (completed y) eq q b =
      rw (eq, recovery, metrics, access_log)
        (_, refl, inl (record { line = line_of q; sample = ap (λ l. status_of y ∷ l) q.counts }))
  core false next x (completed y) eq q b =
      rw (eq, recovery, access_log) (_, refl, inl (record { line = line_of q; sample = q.counts }))
  core true next x (panicked z) eq q b =
      rw (eq, recovery, metrics, access_log) (_, refl, inr (lost q b))
  core false next x (panicked z) eq q b = rw (eq, recovery, access_log) (_, refl, inr (lost q b))

  earlier :
      (counting : Bool) {x x' : Exchange} {e : Ended}
      → IsQuiet x x'
      → Told counting x' e
      → Told counting x e
  earlier counting q (y, ends, inl r) = (
    y,
    ends,
    inl (record {
      line = r.line ∙ ap (λ l. (severity (status_of y), status_of y) ∷ l) q.logs;
      sample = r.sample ∙ ap (λ l. if counting then status_of y ∷ l else l) q.counts;
    }),
  )
  earlier counting q (y, ends, inr l) = (
    y,
    ends,
    inr (record {
      at = l.at;
      left = l.left;
      panics = l.panics;
      answer = l.answer;
      unseen = IsQuiet-trans q l.unseen;
    }),
  )

  module _ (s : Layers) (cors : Forwards s.cors) (otelgin : Spans s.otelgin) where
    abbrev below : Bool → List Layer
    below limited =
        (Layer.security_headers ∷ Layer.cors ∷ Layer.body_limit ∷ [])
        ++ (if limited then Layer.rate_limit ∷ [] else [])
        ++ (Layer.timeout ∷ [])

    below-IsInner : (limited : Bool) → IsInner (run_chain s (below limited) h)
    below-IsInner limited =
        forward (setting _ (λ x. record { logs = refl; counts = refl }))
          (forward cors (forward (body_limit-Forwards s.max_bytes) (limits limited)))
      where
        limits :
            (b : Bool)
            → IsInner
                (run_chain s ((if b then Layer.rate_limit ∷ [] else []) ++ (Layer.timeout ∷ [])) h)
        limits true =
            forward (rate_limit-Forwards s.allowed)
              (forward (timeout-Forwards s.timeout) handler-IsInner)
        limits false = forward (timeout-Forwards s.timeout) handler-IsInner

    guarded :
        (counting limited : Bool) (x : Exchange)
        → Told counting x (
            run_chain s
              (Layer.recovery ∷ (if counting then Layer.metrics ∷ [] else [])
                ++ (Layer.access_log ∷ below limited))
              h
              x)
    guarded true limited x =
        let next = run_chain s (below limited) h in
        let i = below-IsInner limited in core true next x (next x) refl (i.keeps x) (i.blames x)
    guarded false limited x =
        let next = run_chain s (below limited) h in
        let i = below-IsInner limited in core false next x (next x) refl (i.keeps x) (i.blames x)

    abbrev with_id : Exchange → Exchange
    with_id x = record x { headers = ("X-Request-ID", s.request_id) ∷ x.headers }

    abbrev identified : Bool → Bool → List Layer
    identified counting limited =
        (Layer.request_id ∷ Layer.recovery ∷ [])
        ++ (if counting then Layer.metrics ∷ [] else [])
        ++ (Layer.access_log ∷ Layer.security_headers ∷ Layer.cors ∷ Layer.body_limit ∷ [])
        ++ (if limited then Layer.rate_limit ∷ [] else [])
        ++ (Layer.timeout ∷ [])

    identified-Told :
        (counting limited : Bool) (x : Exchange)
        → Told counting x (run_chain s (identified counting limited) h x)
    identified-Told true true x =
        earlier true {x = x} {x' = with_id x} (record { logs = refl; counts = refl })
          (guarded true true (with_id x))
    identified-Told true false x =
        earlier true {x = x} {x' = with_id x} (record { logs = refl; counts = refl })
          (guarded true false (with_id x))
    identified-Told false true x =
        earlier false {x = x} {x' = with_id x} (record { logs = refl; counts = refl })
          (guarded false true (with_id x))
    identified-Told false false x =
        earlier false {x = x} {x' = with_id x} (record { logs = refl; counts = refl })
          (guarded false false (with_id x))

    spanned-Told :
        (counting limited : Bool) (x : Exchange)
        → Told counting x (run_chain s (Layer.otelgin ∷ identified counting limited) h x)
    spanned-Told counting limited x =
        let y = otelgin.prepare x in
        subst (Told counting x) (sym (otelgin.passes _ x))
          (earlier counting {x = x} {x' = y} (otelgin.quiet x) (identified-Told counting limited y))

    chained :
        (traced counting limited : Bool) (x : Exchange)
        → Told counting x (
            run_chain s
              ((if traced then Layer.otelgin ∷ [] else [])
                ++ (Layer.request_id ∷ Layer.recovery ∷ [])
                ++ (if counting then Layer.metrics ∷ [] else [])
                ++ (Layer.access_log ∷ Layer.security_headers ∷ Layer.cors ∷ Layer.body_limit ∷ [])
                ++ (if limited then Layer.rate_limit ∷ [] else [])
                ++ (Layer.timeout ∷ []))
              h
              x)
    chained true true true x = spanned-Told true true x
    chained true true false x = spanned-Told true false x
    chained true false true x = spanned-Told false true x
    chained true false false x = spanned-Told false false x
    chained false true true x = identified-Told true true x
    chained false true false x = identified-Told true false x
    chained false false true x = identified-Told false true x
    chained false false false x = identified-Told false false x

    -- For a handler and a middleware of gin-contrib/cors that write neither the access log nor the
    -- counter: the chain of newRouter never panics, and a request either is recorded, with one line
    -- in the access log and one sample of the counter (if metrics are enabled), both of the status
    -- that it is answered with, or its handler panicked: then it is answered with the 500 of
    -- Recovery, unless a status was written before, and it has no line and no sample.
    pub new_router-Told :
        (p : Process) (c : Config p) (x : Exchange)
        → Told c.observability.metrics_enabled x (run_chain s (new_router p c) h x)
    new_router-Told p c x =
        chained c.tracing.enabled c.observability.metrics_enabled c.security.rate_limit_enabled x
