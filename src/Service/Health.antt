-- ===== src/Service/Health.antt =====
-- internal/service/health. The detail of a dependency keeps the error in place of its text, and the
-- message is a constructor; the checks stand in the order in which the code happens to visit its map.
pub mod Laws
use clean_arch_go_gin.Base.{
  ℕ, zero, suc, String, Option, none, some, List, [], ◌∷◌, ◌==◌, if◌then◌else◌,
}
use clean_arch_go_gin.Base.Effect.{M, ok, pure, ◌>>=◌, ◌>>◌}
use clean_arch_go_gin.Apperr.{Error}
use clean_arch_go_gin.Outside.{Outside}
use clean_arch_go_gin.Repository.Context.{select_done}

pub data HealthMessage : Type 0 where
  service_is_healthy all_dependencies_healthy : HealthMessage
  checks_failed : ℕ → HealthMessage

pub record HealthStatus : Type 0 where
  pub status : String
  pub message : HealthMessage
  pub details : List (String × Option Error)

-- The failures among the outcomes.
abbrev pub unhealthy_count : List (String × Option Error) → ℕ
unhealthy_count [] = 0
unhealthy_count ((_, none) ∷ ds) = unhealthy_count ds
unhealthy_count ((_, some _) ∷ ds) = suc (unhealthy_count ds)

module _ (o : Outside) where
  open o use {World}

  abbrev pub Checks : Type 0
  Checks = List (String × (World → Option Error × World))

  -- The loop over the checks.
  unfoldable pub run_checks : Checks → World → List (String × Option Error) × World
  run_checks [] w = ([], w)
  run_checks ((name, check) ∷ checks) w =
      let (outcome, w₁) = check w in
      let (details, w₂) = run_checks checks w₁ in ((name, outcome) ∷ details, w₂)

  abbrev pub summary : List (String × Option Error) → HealthStatus
  summary details =
      if unhealthy_count details == 0
      then record {
        status = "ok";
        message = HealthMessage.all_dependencies_healthy;
        details = details;
      }
      else record {
        status = "degraded";
        message = HealthMessage.checks_failed (unhealthy_count details);
        details = details;
      }

  -- `Check`, without the time that it reports.
  unfoldable pub check : M World Error HealthStatus
  check = do
    select_done o
    pure (record { status = "ok"; message = HealthMessage.service_is_healthy; details = [] })

  unfoldable pub check_with_dependencies : Checks → M World Error HealthStatus
  unfolding run_checks
  check_with_dependencies checks = do
    select_done o
    λ w. let (details, w') = run_checks checks w in (ok (summary details), w')
