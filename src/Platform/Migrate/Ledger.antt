-- ===== src/Platform/Migrate/Ledger.antt =====
-- The loop of `Migrate` and the ledger that it keeps.
use clean_arch_go_gin.Base.{
  ◌≡◌, refl, sym, ap, ◌∙◌, subst, ◌⊎◌, inl, inr, true, List, [], ◌∷◌, ◌++◌, All, ◌||◌, Bool-cases,
  arith,
}
use clean_arch_go_gin.Base.Int.{ℤ, eqb_ℤ}
use clean_arch_go_gin.Base.Effect.{
  Result, ok, Returns, returned, failed, Post, Returns-Post, continue, outcome-cases, Result-cases,
  continue-Returns, rename-same, Returns-mono,
}
use clean_arch_go_gin.Apperr.{Error}
use clean_arch_go_gin.Platform.Migrate.{
  SchemaMigration, Migration, Schema, Store, is_applied, run_up, up_and_record, apply_migration,
  apply_pending, migrate_with, validate_migrations,
}
use clean_arch_go_gin.Platform.Migrate.Laws.{
  is_applied-append, Keeps, Leads, Documented, Transacted, committed, rolled_back, Ran, Applied,
  finished, skipped, ran, Stopped, refused, skipped_first, ran_first,
}

module _ (o : Store) (l : Documented o) where
  open o use {World, schema}

  up_and_record-Ran :
      (m : Migration World) (w : World)
      → Returns (λ _ w'. Ran o m (schema w) (schema w')) (λ _ _. Unit {0}) (up_and_record o m w)
  unfolding up_and_record continue
  up_and_record-Ran m w = elim (outcome-cases (run_up o m.up w)) [
    | inr (e, w₁, halted) ↦ rw halted (failed tt)
    | inl (_, w₁, worked) ↦
        let (t, w₂) = o.now w₁ in
        rw worked (
          Returns-mono
            (l.record_law (record { version = m.version; name = m.name; applied_at = t }) w₂)
            (λ _ w' p. record {
              before = w;
              after = w₁;
              applied_at = t;
              begins = refl;
              succeeds = worked;
              recorded =
                  p
                  ∙ ap
                      (λ (s : Schema). record s {
                        ledger =
                            s.ledger
                            ++ record { version = m.version; name = m.name; applied_at = t } ∷ [];
                      })
                      (l.now_law w₁);
            })
            (λ _ _ _. tt))
  ]

  Transacted-Leads :
      (m : Migration World) (w : World) {r : Result Error (Unit {0}) × World}
      → Transacted o (up_and_record o m) w r
      → Leads o (Ran o m (schema w)) (schema w) r
  Transacted-Leads m w (committed {w₀} {w₁} {w'} began worked seen) = returned (
      subst (Ran o m (schema w)) (sym seen) (
        subst (λ s. Ran o m s (schema w₁)) began
          (subst (Post _ _) worked (Returns-Post (up_and_record-Ran m w₀)))))
  Transacted-Leads m w (rolled_back seen) = failed seen

  pub apply_migration-Ran :
      (m : Migration World) (w : World)
      → Leads o (Ran o m (schema w)) (schema w) (apply_migration o m w)
  unfolding apply_migration
  apply_migration-Ran m w =
      rename-same _ (Transacted-Leads m w (l.transaction_law (up_and_record o m) w))

  abbrev Proceeds :
      List SchemaMigration
      → List (Migration World)
      → Schema
      → Result Error (Unit {0}) × World
      → Type 0
  Proceeds rows ms s =
      Returns (λ _ w'. Applied o rows ms s (schema w')) (λ _ w'. Stopped o rows ms s (schema w'))

  apply_pending-Proceeds :
      (rows : List SchemaMigration) (ms : List (Migration World)) (w : World)
      → Proceeds rows ms (schema w) (apply_pending o rows ms w)
  unfolding apply_pending
  apply_pending-Proceeds rows [] w = returned finished
  apply_pending-Proceeds rows (m ∷ ms) w = elim (Bool-cases (is_applied rows m.version)) [
    | inl done ↦ rw done (
        Returns-mono (apply_pending-Proceeds rows ms w) (λ _ _ p. skipped done p)
          (λ _ _ q. skipped_first done q))
    | inr fresh ↦ rw fresh (
        continue-Returns (apply_migration-Ran m w)
          (λ _ w₁ p.
            Returns-mono (apply_pending-Proceeds rows ms w₁) (λ _ _ q. ran fresh p q)
              (λ _ _ q. ran_first fresh p q))
          (λ _ w' same. subst (Stopped o rows (m ∷ ms) (schema w)) (sym same) (refused fresh)))
  ]

  -- The work of a migration leaves the ledger to `applyMigration`.
  abbrev pub LeavesLedger : Migration World → Type 0
  LeavesLedger m =
      (w w' : World) → run_up o m.up w ≡ (ok tt, w') → (schema w').ledger ≡ (schema w).ledger

  pub Ran-ledger :
      (m : Migration World) (s s' : Schema) (v : ℤ)
      → LeavesLedger m
      → Ran o m s s'
      → is_applied s'.ledger v ≡ (eqb_ℤ m.version v || is_applied s.ledger v)
  Ran-ledger m s s' v leaves r =
      ap (λ (t : Schema). is_applied t.ledger v) r.recorded
      ∙ is_applied-append _ _ v
      ∙ ap (λ rows. eqb_ℤ m.version v || is_applied rows v)
          (leaves r.before r.after r.succeeds ∙ ap (λ (t : Schema). t.ledger) r.begins)

  module _ {rows : List SchemaMigration} where
    -- A version that is recorded stays recorded.
    Applied-grows :
        {ms : List (Migration World)} {s s' : Schema} (v : ℤ)
        → All LeavesLedger ms
        → Applied o rows ms s s'
        → is_applied s.ledger v ≡ true
        → is_applied s'.ledger v ≡ true
    Applied-grows v leaves finished h = h
    Applied-grows v leaves (skipped _ p) h = Applied-grows v leaves.1 p h
    Applied-grows v leaves (ran {m} {s} {s₁} _ r p) h =
        Applied-grows v leaves.1 p (ground (arith, h, Ran-ledger m s s₁ v leaves.0 r))

    -- In the end every version of the list is.
    Applied-records :
        {ms : List (Migration World)} {s s' : Schema}
        → All LeavesLedger ms
        → Applied o rows ms s s'
        → ((v : ℤ) → is_applied rows v ≡ true → is_applied s.ledger v ≡ true)
        → All (λ m. is_applied s'.ledger m.version ≡ true) ms
    Applied-records leaves finished h = tt
    Applied-records leaves (skipped {m} done p) h =
        (Applied-grows m.version leaves.1 p (h m.version done), Applied-records leaves.1 p h)
    Applied-records leaves (ran {m} {s} {s₁} _ r p) h = (
      Applied-grows m.version leaves.1 p (ground (arith, Ran-ledger m s s₁ m.version leaves.0 r)),
      Applied-records leaves.1 p
          (λ v known. ground (arith, h v known, Ran-ledger m s s₁ v leaves.0 r)),
    )

  -- What is recorded already is not run again.
  apply_pending_all_applied :
      (rows : List SchemaMigration) (ms : List (Migration World)) (w : World)
      → All (λ m. is_applied rows m.version ≡ true) ms
      → apply_pending o rows ms w ≡ (ok tt, w)
  unfolding apply_pending
  apply_pending_all_applied rows [] w _ = refl
  apply_pending_all_applied rows (m ∷ ms) w (done, more) =
      rw done (apply_pending_all_applied rows ms w more)

  -- How a run of `Migrate` on a list may end.
  abbrev pub Migrated : List (Migration World) → Schema → Result Error (Unit {0}) × World → Type 0
  Migrated ms s =
      Returns (λ _ w'. Applied o s.ledger ms s (schema w'))
        (λ _ w'. (schema w' ≡ s) ⊎ Stopped o s.ledger ms s (schema w'))

  -- From the rows that were read to the ledger, and from the worlds between to the first.
  at_rows :
      (w w₁ w₂ : World) (rows : List SchemaMigration) {ms : List (Migration World)}
      {r : Result Error (Unit {0}) × World}
      → schema w₁ ≡ schema w
      → (rows ≡ (schema w₁).ledger) × (schema w₂ ≡ schema w₁)
      → Proceeds rows ms (schema w₂) r
      → Migrated ms (schema w) r
  at_rows w w₁ w₂ rows {ms} {r} same (read, kept) p =
      let there =
        subst (λ s. Proceeds s.ledger ms s r) same
          (subst (λ s. Proceeds (schema w₁).ledger ms s r) kept
            (subst (λ rs. Proceeds rs ms (schema w₂) r) read p)) in
      Returns-mono there (λ _ _ q. q) (λ _ _ q. inr q)

  pub migrate_with-Migrated :
      (ms : List (Migration World)) (w : World) → Migrated ms (schema w) (migrate_with o ms w)
  unfolding migrate_with
  migrate_with-Migrated ms w = elim (Result-cases (validate_migrations ms)) [
    | inr (problem, e) ↦ rw (e, migrate_with) (failed (inl refl))
    | inl (_, e) ↦
        rw (e, migrate_with)
          (continue-Returns (rename-same _ (l.ledger_law w))
            (λ _ w₁ same.
              continue-Returns (rename-same _ (l.find_law w₁))
                (λ rows w₂ p. at_rows w w₁ w₂ rows same p (apply_pending-Proceeds rows ms w₂))
                (λ _ _ q. inl (q ∙ same)))
            (λ _ _ q. inl q))
  ]

  -- A run that returns no error has every migration of the list in the ledger.
  pub migrate_with-records :
      (ms : List (Migration World)) (w w' : World)
      → All LeavesLedger ms
      → migrate_with o ms w ≡ (ok tt, w')
      → All (λ m. is_applied (schema w').ledger m.version ≡ true) ms
  migrate_with-records ms w w' leaves e =
      Applied-records leaves (subst (Post _ _) e (Returns-Post (migrate_with-Migrated ms w)))
        (λ _ known. known)

  -- After a run that returned no error, running the list again changes nothing, whatever it
  -- returns, if nobody else wrote in between.
  pub migrate_with_again :
      (ms : List (Migration World)) (w w' v : World)
      → All LeavesLedger ms
      → migrate_with o ms w ≡ (ok tt, w')
      → schema v ≡ schema w'
      → Keeps o (schema w') (migrate_with o ms v)
  unfolding migrate_with
  migrate_with_again ms w w' v leaves e same = elim (Result-cases (validate_migrations ms)) [
    | inr (problem, f) ↦ rw (f, migrate_with) (failed same)
    | inl (_, f) ↦
        rw (f, migrate_with)
          (continue-Returns (rename-same _ (l.ledger_law v))
            (λ _ v₁ same₁.
              continue-Returns (rename-same _ (l.find_law v₁))
                (λ rows v₂ p.
                  let read = p.0 ∙ ap (λ (s : Schema). s.ledger) (same₁ ∙ same) in
                  let known =
                    subst (λ rs. All (λ m. is_applied rs m.version ≡ true) ms) (sym read)
                      (migrate_with-records ms w w' leaves e) in
                  rw (apply_pending_all_applied rows ms v₂ known) (returned (p.1 ∙ same₁ ∙ same)))
                (λ _ _ q. q ∙ same₁ ∙ same))
            (λ _ _ q. q ∙ same))
  ]
