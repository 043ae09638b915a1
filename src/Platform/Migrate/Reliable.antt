-- ===== src/Platform/Migrate/Reliable.antt =====
-- The loop of `Migrate` comes to its end on a database whose statements succeed.
use clean_arch_go_gin.Base.{
  String, ◌≡◌, refl, ap, ◌∙◌, subst, false, List, [], ◌∷◌, All, Bool-cases, inl, inr, arith,
}
use clean_arch_go_gin.Base.Int.{ℤ, ◌≤ℤ◌}
use clean_arch_go_gin.Base.Effect.{Result, ok, M, Post, Returns-Post, continue, rename}
use clean_arch_go_gin.Apperr.{Error}
use clean_arch_go_gin.Entity.{CounterEntity, MessageEntity}
use clean_arch_go_gin.Platform.Migrate.{
  SchemaMigration, Migration, Schema, Store, is_applied, run_up, up_and_record, apply_migration,
  apply_pending,
}
use clean_arch_go_gin.Platform.Migrate.Order.{Ascends}
use clean_arch_go_gin.Platform.Migrate.Laws.{Documented, Ran}
use clean_arch_go_gin.Platform.Migrate.Ledger.{LeavesLedger, Ran-ledger, apply_migration-Ran}

module _ (o : Store) where
  open o use {World, schema}

  abbrev pub Succeeds : {A : Type 0} → Result Error A × World → Type 0
  Succeeds {A} r = (a : A) × (w' : World) × (r ≡ (ok a, w'))

  -- Every statement succeeds, the ledger's insert if the version is not recorded, and a transaction
  -- if its work does.
  pub record Reliable : Type 1 where
    pub ledger_runs : (w : World) → Succeeds (o.auto_migrate_ledger w)
    pub find_runs : (w : World) → Succeeds (o.find_ledger w)
    pub record_runs :
        (row : SchemaMigration) (w : World)
        → is_applied (schema w).ledger row.version ≡ false
        → Succeeds (o.create_ledger_row row w)
    pub transaction_runs :
        (fn : M World Error (Unit {0})) (w : World)
        → ((w₀ : World) → schema w₀ ≡ schema w → Succeeds (fn w₀))
        → Succeeds (o.transaction fn w)
    pub entities_run : (w : World) → Succeeds (o.auto_migrate_entities w)
    pub counters_run : (w : World) → Succeeds (o.count_counters w)
    pub counter_runs : (c : CounterEntity) (w : World) → Succeeds (o.create_counter c w)
    pub messages_run : (w : World) → Succeeds (o.count_messages w)
    pub message_runs : (c : MessageEntity) (w : World) → Succeeds (o.create_message c w)
    pub columns_run : (w : World) → Succeeds (o.column_types w)
    pub drop_runs :
        (column : String) (w : World) → Succeeds (o.drop_column "refresh_token_entities" column w)

  pub continue-Succeeds :
      {A B : Type 0} {f : A → M World Error B} {r : Result Error A × World}
      → Succeeds r
      → ((a : A) (w : World) → r ≡ (ok a, w) → Succeeds (f a w))
      → Succeeds (continue f r)
  unfolding continue
  continue-Succeeds (a, w, e) good = rw e (good a w e)

  pub rename-Succeeds :
      {A : Type 0} (g : Error → Error) {r : Result Error A × World}
      → Succeeds r
      → Succeeds (rename g r)
  unfolding rename
  rename-Succeeds g (a, w, e) = rw e (a, w, refl)

  module _ (l : Documented o) (live : Reliable) where
    abbrev pub UpRuns : Migration World → Type 0
    UpRuns m = (w : World) → Succeeds (run_up o m.up w)

    up_and_record-Succeeds :
        (m : Migration World) (w : World)
        → UpRuns m
        → LeavesLedger o l m
        → is_applied (schema w).ledger m.version ≡ false
        → Succeeds (up_and_record o m w)
    unfolding up_and_record continue
    up_and_record-Succeeds m w runs leaves fresh = continue-Succeeds (runs w) (λ _ w₁ e.
        live.record_runs _ (o.now w₁).1 (
          ap (λ (s : Schema). is_applied s.ledger m.version) (l.now_law w₁)
          ∙ ap (λ rows. is_applied rows m.version) (leaves w w₁ e)
          ∙ fresh))

    apply_migration-Succeeds :
        (m : Migration World) (w : World)
        → UpRuns m
        → LeavesLedger o l m
        → is_applied (schema w).ledger m.version ≡ false
        → Succeeds (apply_migration o m w)
    unfolding apply_migration
    apply_migration-Succeeds m w runs leaves fresh = rename-Succeeds _ (
        live.transaction_runs _ w (λ w₀ same.
          up_and_record-Succeeds m w₀ runs leaves
            (ap (λ (s : Schema). is_applied s.ledger m.version) same ∙ fresh)))

    -- What the rows lacked when they were read, the ledger lacks still.
    abbrev pub Fresh : List SchemaMigration → World → List (Migration World) → Type 0
    Fresh rows w =
        All
          (λ m. is_applied rows m.version ≡ false → is_applied (schema w).ledger m.version ≡ false)

    Fresh-Ran :
        (rows : List SchemaMigration) (m : Migration World) (w w₁ : World) (low : ℤ)
        (ms : List (Migration World))
        → LeavesLedger o l m
        → Ran o m (schema w) (schema w₁)
        → m.version ≤ℤ low
        → Ascends low ms
        → Fresh rows w ms
        → Fresh rows w₁ ms
    Fresh-Ran rows m w w₁ low [] leaves r below _ _ = tt
    Fresh-Ran rows m w w₁ low (n ∷ ns) leaves r below (a, _, more) (f, fs) = (
      λ lacked.
          let lacks = f lacked in
          ground (arith, lacks, below, a, Ran-ledger o l m _ _ n.version leaves r),
      Fresh-Ran rows m w w₁ n.version ns leaves r (omega (arith, below, a)) more fs,
    )

    pub apply_pending-Succeeds :
        (rows : List SchemaMigration) (ms : List (Migration World)) (w : World) (low : ℤ)
        → Ascends low ms
        → All UpRuns ms
        → All (LeavesLedger o l) ms
        → Fresh rows w ms
        → Succeeds (apply_pending o rows ms w)
    unfolding apply_pending
    apply_pending-Succeeds rows [] w low _ _ _ _ = (tt, w, refl)
    apply_pending-Succeeds rows (m ∷ ms) w low (_, _, rising) (run, runs) (leave, leaves) (f, fs) =
        elim (Bool-cases (is_applied rows m.version)) [
          | inl done ↦ rw done (apply_pending-Succeeds rows ms w m.version rising runs leaves fs)
          | inr lacked ↦ rw lacked (
              continue-Succeeds (apply_migration-Succeeds m w run leave (f lacked)) (λ _ w₁ e.
                let ran =
                  subst (Post (λ _ w'. Ran o m (schema w) (schema w')) _) e
                    (Returns-Post (apply_migration-Ran o l m w)) in
                apply_pending-Succeeds rows ms w₁ m.version rising runs leaves
                  (Fresh-Ran rows m w w₁ m.version ms leave ran (omega arith) rising fs)))
        ]
