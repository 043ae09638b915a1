-- ===== src/Platform/Migrate/Ends.antt =====
-- `Migrate` comes to its end on such a database.
use clean_arch_go_gin.Base.{
  ◌≡◌, refl, sym, ap, ◌∙◌, subst, true, List, [], ◌∷◌, All, ◌==◌, Bool-cases, inl, inr, arith,
}
use clean_arch_go_gin.Base.Int.{pos}
use clean_arch_go_gin.Base.Effect.{ok, Post, Returns-Post, continue, rename, rename-same}
use clean_arch_go_gin.Apperr.{Error}
use clean_arch_go_gin.Platform.Migrate.{
  SchemaMigration, Migration, Schema, Store, is_applied, migrate_with, migrations, migrate, seed,
  seed_counter, seed_message, drop_legacy_refresh_token_column, has_column,
}
use clean_arch_go_gin.Platform.Migrate.Order.{Ascends, validate_migrations-Ascends}
use clean_arch_go_gin.Platform.Migrate.Laws.{Documented}
use clean_arch_go_gin.Platform.Migrate.Ledger.{LeavesLedger}
use clean_arch_go_gin.Platform.Migrate.Steps.{migrations-LeavesLedger, migrate_idem}
use clean_arch_go_gin.Platform.Migrate.Reliable.{
  Succeeds, Reliable, continue-Succeeds, rename-Succeeds, UpRuns, Fresh, apply_pending-Succeeds,
}

module _ (o : Store) (l : Documented o) (live : Reliable o) where
  open o use {World, schema}

  seed-Succeeds : (w : World) → Succeeds o (seed o w)
  unfolding seed seed_counter seed_message continue
  seed-Succeeds w =
      continue-Succeeds o
        (continue-Succeeds o (rename-Succeeds o _ (live.counters_run w)) (λ n w₁ _.
          elim (Bool-cases (n == 0)) [
            | inl none_yet ↦ rw none_yet (rename-Succeeds o _ (live.counter_runs _ _))
            | inr some_there ↦ rw some_there (tt, w₁, refl)
          ]))
        (λ _ w₂ _. continue-Succeeds o (rename-Succeeds o _ (live.messages_run w₂)) (λ n w₃ _.
          elim (Bool-cases (n == 0)) [
            | inl none_yet ↦ rw none_yet (rename-Succeeds o _ (live.message_runs _ _))
            | inr some_there ↦ rw some_there (tt, w₃, refl)
          ]))

  drop_legacy-Succeeds : (w : World) → Succeeds o (drop_legacy_refresh_token_column o w)
  unfolding drop_legacy_refresh_token_column has_column continue
  drop_legacy-Succeeds w =
      continue-Succeeds o
        (continue-Succeeds o (rename-Succeeds o _ (live.columns_run w)) (λ _ w₁ _. (_, w₁, refl)))
        (λ present w₁ _. elim (Bool-cases present) [
          | inl here ↦ rw here (rename-Succeeds o _ (live.drop_runs "token" w₁))
          | inr gone ↦ rw gone (tt, w₁, refl)
        ])

  migrations-UpRuns : All (UpRuns o l live) (migrations o)
  unfolding migrations
  migrations-UpRuns = (live.entities_run, (seed-Succeeds, (drop_legacy-Succeeds, tt)))

  migrations-Ascends : Ascends (pos 0) (migrations o)
  unfolding migrations
  migrations-Ascends = (omega arith, tt, (omega arith, tt, (omega arith, tt, tt)))

  Fresh-at_start : (w : World) (ms : List (Migration World)) → Fresh o l live (schema w).ledger w ms
  Fresh-at_start w [] = tt
  Fresh-at_start w (m ∷ ms) = (λ lacked. lacked, Fresh-at_start w ms)

  found :
      (rows : List SchemaMigration) (w w' : World)
      → rename (Error.wrap "reading migration ledger") (o.find_ledger w) ≡ (ok rows, w')
      → (rows ≡ (schema w).ledger) × (schema w' ≡ schema w)
  found rows w w' e =
      subst (Post (λ b v. (b ≡ (schema w).ledger) × (schema v ≡ schema w)) _) e
        (Returns-Post (rename-same _ (l.find_law w)))

  migrate_with-Succeeds :
      (ms : List (Migration World)) (w : World)
      → Ascends (pos 0) ms
      → All (UpRuns o l live) ms
      → All (LeavesLedger o l) ms
      → Succeeds o (migrate_with o ms w)
  unfolding migrate_with
  migrate_with-Succeeds ms w rising runs leaves =
      rw ((validate_migrations-Ascends ms).1 rising, migrate_with)
        (continue-Succeeds o (rename-Succeeds o _ (live.ledger_runs w)) (λ _ w₁ _.
          continue-Succeeds o (rename-Succeeds o _ (live.find_runs w₁)) (λ rows w₂ e.
            let read = found rows w₁ w₂ e in
            let fresh =
              subst (λ rs. Fresh o l live rs w₂ ms)
                (ap (λ (s : Schema). s.ledger) read.1 ∙ sym read.0) (Fresh-at_start w₂ ms) in
            apply_pending-Succeeds o l live rows ms w₂ (pos 0) rising runs leaves fresh)))

  -- `Migrate` returns no error on a database whose statements succeed, from whatever ledger it
  -- starts, and then the ledger has every version of the list.
  pub migrate-succeeds :
      (w : World)
      → (w' : World) × (migrate o w ≡ (ok tt, w'))
        × All (λ m. is_applied (schema w').ledger m.version ≡ true) (migrations o)
  unfolding migrate
  migrate-succeeds w =
      let (_, w', e) =
        migrate_with-Succeeds (migrations o) w migrations-Ascends migrations-UpRuns
          (migrations-LeavesLedger o l) in
      (w', e, (migrate_idem o l w w' w' e refl).0)
