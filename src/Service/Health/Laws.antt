-- ===== src/Service/Health/Laws.antt =====
-- The verdict of the health checks.
use clean_arch_go_gin.Base.{
  String, ◌≡◌, refl, eq_iff, Option, none, some, List, [], ◌∷◌, ◌==◌, arith, ◌↔◌, ◌⊎◌, Bool-cases,
  inl, inr, All,
}
use clean_arch_go_gin.Base.Effect.{err, Returns, returned, failed, continue, outcome-cases}
use clean_arch_go_gin.Apperr.{Error}
use clean_arch_go_gin.Outside.{Outside}
use clean_arch_go_gin.Repository.Context.{select_done}
use clean_arch_go_gin.Service.Health.{
  HealthStatus, unhealthy_count, Checks, run_checks, summary, check_with_dependencies,
}

-- The dependencies with an error.
abbrev pub IsHealthy : String × Option Error → Type 0
IsHealthy (_, none) = Unit
IsHealthy (_, some _) = ⊥

none_failed : (ds : List (String × Option Error)) → (unhealthy_count ds ≡ 0) ↔ All IsHealthy ds
none_failed [] = (λ _. tt, λ _. refl)
none_failed ((_, none) ∷ ds) = (λ e. (tt, (none_failed ds).0 e), λ h. (none_failed ds).1 h.1)
none_failed ((_, some _) ∷ ds) = (λ e. absurd (omega (arith, e)), λ h. absurd h.0)

module _ (o : Outside) where
  open o use {World}

  -- The outcomes of the checks, each with the name of its own and run in the world that the one
  -- before has left.
  pub data Outcomes : Checks o → World → List (String × Option Error) → Type 0 where
    no_more : {w : World} → Outcomes [] w []
    with_outcome :
        {name : String} {check : World → Option Error × World} {checks : Checks o}
        {outcome : Option Error} {ds : List (String × Option Error)} {w w' : World}
        → check w ≡ (outcome, w')
        → Outcomes checks w' ds
        → Outcomes ((name, check) ∷ checks) w ((name, outcome) ∷ ds)

  -- Every check has its outcome, and the status is "ok" just when none failed.
  pub record IsVerdict (checks : Checks o) (w : World) (s : HealthStatus) : Type 0 where
    pub every : Outcomes checks w s.details
    pub verdict : (s.status ≡ "ok") ↔ All IsHealthy s.details
    pub otherwise : (s.status ≡ "ok") ⊎ (s.status ≡ "degraded")

  run_checks-Outcomes :
      (checks : Checks o) (w : World) → Outcomes checks w (run_checks o checks w).0
  unfolding run_checks
  run_checks-Outcomes [] w = no_more
  run_checks-Outcomes ((name, check) ∷ checks) w =
      with_outcome refl (run_checks-Outcomes checks (check w).1)

  summary-IsVerdict :
      (checks : Checks o) (w : World) (ds : List (String × Option Error))
      → Outcomes checks w ds
      → IsVerdict checks w (summary o ds)
  summary-IsVerdict checks w ds e = elim (Bool-cases (unhealthy_count ds == 0)) [
    | inl up ↦
        let healthy = (none_failed ds).0 (ground (arith, up)) in
        rw up (record { every = e; verdict = (λ _. healthy, λ _. refl); otherwise = inl refl })
    | inr down ↦ rw down (record {
      every = e;
      verdict = (
        λ same. absurd (ground (arith, (eq_iff "degraded" "ok").1 same)),
        λ h. absurd (ground (arith, down, (none_failed ds).1 h)),
      );
      otherwise = inr refl;
    })
  ]

  -- The service runs every check after the look at the context, and returns the outcomes with their
  -- verdict, or an error and no check has run.
  pub check_with_dependencies-IsVerdict :
      (checks : Checks o) (w : World)
      → Returns
          (λ s _. IsVerdict checks (select_done o w).1 s)
          (λ e w'. select_done o w ≡ (err e, w'))
          (check_with_dependencies o checks w)
  unfolding check_with_dependencies continue
  check_with_dependencies-IsVerdict checks w = elim (outcome-cases (select_done o w)) [
    | inl (_, w₁, going) ↦
        rw going (returned (summary-IsVerdict checks w₁ _ (run_checks-Outcomes checks w₁)))
    | inr (e, w₁, halted) ↦ rw halted (failed refl)
  ]
