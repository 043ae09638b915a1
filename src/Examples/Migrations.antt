-- ===== src/Examples/Migrations.antt =====
-- The migrations on databases in memory: an empty one and one from before the ledger.
use clean_arch_go_gin.Base.{◌≡◌, refl, true, some, List, [], ◌∷◌, All, ◌↔◌}
use clean_arch_go_gin.Base.Int.{pos}
use clean_arch_go_gin.Base.Effect.{Result, ok, Returns, continue, rename}
use clean_arch_go_gin.Apperr.{Error}
use clean_arch_go_gin.Platform.Migrate.{
  Migration, Schema, is_applied, insert, sort, check, validate_migrations, seed, seed_counter,
  seed_message, any_fold, has_column, drop_legacy_refresh_token_column, up_and_record,
  apply_migration, apply_pending, migrations, migrate_with, migrate,
}
use clean_arch_go_gin.Platform.Migrate.Order.{Ascends, validate_migrations-Ascends}
use clean_arch_go_gin.Platform.Migrate.Laws.{Keeps}
use clean_arch_go_gin.Platform.Migrate.Ledger.{Migrated}
use clean_arch_go_gin.Platform.Migrate.Steps.{Seeded, seed-Seeded, migrate-Migrated, migrate_idem}
use clean_arch_go_gin.Platform.Migrate.Ends.{migrate-succeeds}
use clean_arch_go_gin.Platform.Migrate.Memory.{Disk, disk, disk-Documented, disk-Reliable}

abbrev empty : Schema
empty = record { ledger = []; counters = []; messages = []; columns = [] }

abbrev legacy : Disk
legacy = record {
  schema = record empty {
    counters = record { id = 9; value = pos 41; created_at = pos 0; updated_at = pos 0 } ∷ [];
    columns = "id" ∷ "token" ∷ "token_hash" ∷ [];
  };
  clock = 100;
}

abbrev outcome : Result Error (Unit {0}) × Disk
outcome = migrate disk legacy

abbrev migrated : Disk
migrated = outcome.1

-- The old column is gone, the counter is kept, and the second migration has added the message.
runs_on_legacy :
    (migrated.schema.columns ≡ "id" ∷ "token_hash" ∷ [])
    × (migrated.schema.counters ≡ legacy.schema.counters)
    × (outcome ≡ (ok tt, migrated))
unfolding migrate migrate_with migrations validate_migrations sort insert check apply_pending
    apply_migration up_and_record is_applied seed seed_counter seed_message has_column any_fold
    drop_legacy_refresh_token_column continue rename
runs_on_legacy = (refl, refl, refl)

-- Two branches that both added version 2.
abbrev merged : List (Migration Disk)
merged =
    record { version = pos 1; name = "first"; up = some (λ d. (ok tt, d)) }
    ∷ record { version = pos 2; name = "ours"; up = some (λ d. (ok tt, d)) }
    ∷ record { version = pos 2; name = "theirs"; up = some (λ d. (ok tt, d)) }
    ∷ []

validate_migrations-Ascends_example : (validate_migrations merged ≡ ok tt) ↔ Ascends (pos 0) merged
validate_migrations-Ascends_example = validate_migrations-Ascends merged

seed-Seeded_example :
    Returns (λ _ d. Seeded legacy.schema d.schema) (λ _ d. d.schema.ledger ≡ []) (seed disk legacy)
seed-Seeded_example = seed-Seeded disk disk-Documented legacy

migrate-Migrated_example :
    Migrated disk disk-Documented (migrations disk) legacy.schema (migrate disk legacy)
migrate-Migrated_example = migrate-Migrated disk disk-Documented legacy

migrate_idem_example :
    All
      (λ (m : Migration Disk). is_applied migrated.schema.ledger m.version ≡ true)
      (migrations disk)
    × Keeps disk migrated.schema (migrate disk migrated)
migrate_idem_example =
    migrate_idem disk disk-Documented legacy migrated migrated runs_on_legacy.2 refl

migrate-succeeds_example :
    (d : Disk) × (migrate disk legacy ≡ (ok tt, d))
    × All (λ (m : Migration Disk). is_applied d.schema.ledger m.version ≡ true) (migrations disk)
migrate-succeeds_example = migrate-succeeds disk disk-Documented disk-Reliable legacy
