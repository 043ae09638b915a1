-- ===== src/Handler/Health.antt =====
-- internal/api/handler/health.go. A reply carries the status of the service, or is that of `Fail`.
pub mod Laws
use clean_arch_go_gin.Base.{ℕ, Bool, true, false, str_eq, if◌then◌else◌}
use clean_arch_go_gin.Base.Effect.{Result, ok, err}
use clean_arch_go_gin.Apperr.{Error}
use clean_arch_go_gin.Outside.{Outside}
use clean_arch_go_gin.Service.Health.{HealthStatus, Checks}
use clean_arch_go_gin.Service.Health
use clean_arch_go_gin.Handler.Respond.{Reply, fail}

-- The status code, `success` and the data; the message is the status's own or a constant.
pub data HealthReply : Type 0 where
  reported : ℕ → Bool → HealthStatus → HealthReply
  declined : Reply → HealthReply

abbrev pub readiness : HealthStatus → HealthReply
readiness s =
    if str_eq s.status "ok"
    then HealthReply.reported 200 true s
    else HealthReply.reported 503 false s

module _ (o : Outside) where
  open o use {World}

  abbrev pub health_answer :
      (HealthStatus → HealthReply) → Result Error HealthStatus × World → HealthReply × World
  health_answer good (ok s, w) = (good s, w)
  health_answer good (err e, w) = (HealthReply.declined (fail e), w)

  -- GET /api/health/live
  unfoldable pub handle_check : World → HealthReply × World
  handle_check w = health_answer (HealthReply.reported 200 true) (Health.check o w)

  -- GET /api/health and GET /api/health/ready
  unfoldable pub handle_ready : Checks o → World → HealthReply × World
  handle_ready checks w = health_answer readiness (Health.check_with_dependencies o checks w)
