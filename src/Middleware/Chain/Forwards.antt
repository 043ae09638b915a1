-- ===== src/Middleware/Chain/Forwards.antt =====
-- Middleware that neither logs nor counts.
use clean_arch_go_gin.Base.{◌≡◌, refl, ◌∙◌, Bool, true, false, some, ◌⊎◌, inl, inr, if◌then◌else◌}
use clean_arch_go_gin.Base.Int.{ℤ, pos, leb_ℤ}
use clean_arch_go_gin.Apperr.{Sentinel, message_of}
use clean_arch_go_gin.Middleware.Chain.{
  Exchange, Ended, completed, panicked, Handler, abort_with_error, body_limit, timeout,
  rate_limit_layer,
}

abbrev pub exchange_of : Ended → Exchange
exchange_of (completed y) = y
exchange_of (panicked y) = y

-- Nothing is logged or counted from one to the other.
pub record IsQuiet (x y : Exchange) : Type 0 where
  pub logs : y.logged ≡ x.logged
  pub counts : y.counted ≡ x.counted

pub IsQuiet-trans : {x y z : Exchange} → IsQuiet x y → IsQuiet y z → IsQuiet x z
IsQuiet-trans a b = record { logs = b.logs ∙ a.logs; counts = b.counts ∙ a.counts }

-- Of a middleware: it sets something and passes the request on, or answers it.
pub record Forwards (m : Handler → Handler) : Type 0 where
  pub prepare : Exchange → Exchange
  pub quiet : (x : Exchange) → IsQuiet x (prepare x)
  pub passes :
      (next : Handler) (x : Exchange)
      → (m next x ≡ next (prepare x)) ⊎ (m next x ≡ completed (prepare x))

-- Of the middleware of otelgin: it puts a span into the context of every request that it passes on.
pub record Spans (m : Handler → Handler) : Type 0 where
  pub prepare : Exchange → Exchange
  pub quiet : (x : Exchange) → IsQuiet x (prepare x)
  pub passes : (next : Handler) (x : Exchange) → m next x ≡ next (prepare x)

pub setting :
    (f : Exchange → Exchange) → ((x : Exchange) → IsQuiet x (f x)) → Forwards (λ next x. next (f x))
setting f q = record { prepare = f; quiet = q; passes = λ next x. inl refl }

unless : (b : Bool) {x y : Exchange} → IsQuiet x y → IsQuiet x (if b then x else y)
unless true q = record { logs = refl; counts = refl }
unless false q = q

pub body_limit-Forwards : (n : ℤ) → Forwards (body_limit n)
body_limit-Forwards n =
    setting (λ x. if leb_ℤ n (pos 0) then x else record x { max_bytes = some n })
      (λ x. unless (leb_ℤ n (pos 0)) (record { logs = refl; counts = refl }))

pub timeout-Forwards : (d : ℤ) → Forwards (timeout d)
timeout-Forwards d =
    setting (λ x. if leb_ℤ d (pos 0) then x else record x { timeout = some d })
      (λ x. unless (leb_ℤ d (pos 0)) (record { logs = refl; counts = refl }))

pub rate_limit-Forwards : (allowed : Bool) → Forwards (rate_limit_layer allowed)
rate_limit-Forwards true = setting (λ x. x) (λ x. record { logs = refl; counts = refl })
rate_limit-Forwards false = record {
  prepare = abort_with_error 429 (message_of Sentinel.err_rate_limit);
  quiet = λ x. record { logs = refl; counts = refl };
  passes = λ next x. inr refl;
}
