-- ===== src/Handler/Health/Laws.antt =====
-- When an instance is ready.
use clean_arch_go_gin.Base.{◌≡◌, inl, inr, true, false, All, str_eq, str_eq_iff, Bool-cases, arith}
use clean_arch_go_gin.Base.Effect.{Result, err, Returns, returned, failed}
use clean_arch_go_gin.Apperr.{Error}
use clean_arch_go_gin.Outside.{Outside}
use clean_arch_go_gin.Repository.Context.{select_done}
use clean_arch_go_gin.Service.Health.{HealthStatus, Checks}
use clean_arch_go_gin.Service.Health.Laws.{
  IsHealthy, Outcomes, IsVerdict, check_with_dependencies-IsVerdict,
}
use clean_arch_go_gin.Handler.Respond.{fail}
use clean_arch_go_gin.Handler.Health.{HealthReply, readiness, health_answer, handle_ready}

module _ (o : Outside) (checks : Checks o) (w : o.World) where
  open o use {World}

  pub data Readiness : HealthReply → Type 0 where
    up :
        {s : HealthStatus}
        → Outcomes o checks (select_done o w).1 s.details
        → All IsHealthy s.details
        → Readiness (HealthReply.reported 200 true s)
    degraded :
        {s : HealthStatus}
        → Outcomes o checks (select_done o w).1 s.details
        → (¬ All IsHealthy s.details)
        → Readiness (HealthReply.reported 503 false s)
    canceled :
        {e : Error} {w' : World}
        → select_done o w ≡ (err e, w')
        → Readiness (HealthReply.declined (fail e))

  readiness-Readiness :
      (s : HealthStatus) → IsVerdict o checks (select_done o w).1 s → Readiness (readiness s)
  readiness-Readiness s v = elim (Bool-cases (str_eq s.status "ok")) [
    | inl fine ↦ rw fine (up v.every (v.verdict.0 ((str_eq_iff s.status "ok").0 fine)))
    | inr bad ↦
        rw bad (
          degraded v.every (λ h. ground (arith, bad, (str_eq_iff s.status "ok").1 (v.verdict.1 h))))
  ]

  answer-Readiness :
      {r : Result Error HealthStatus × World}
      → Returns
          (λ s _. IsVerdict o checks (select_done o w).1 s)
          (λ e w'. select_done o w ≡ (err e, w'))
          r
      → Readiness (health_answer o readiness r).0
  answer-Readiness (returned v) = readiness-Readiness _ v
  answer-Readiness (failed h) = canceled h

-- The readiness endpoint runs every check that it was given and reports what each returned: with 200
-- just when all passed, and with 503 when one failed. Only when the request is over does it answer
-- an error, and then it has run no check.
pub handle_ready-Readiness :
    (o : Outside) (checks : Checks o) (w : o.World)
    → Readiness o checks w (handle_ready o checks w).0
unfolding handle_ready
handle_ready-Readiness o checks w =
    answer-Readiness o checks w (check_with_dependencies-IsVerdict o checks w)
