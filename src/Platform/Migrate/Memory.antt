-- ===== src/Platform/Migrate/Memory.antt =====
-- A database in memory for the migrations, and that it behaves as is documented.
use clean_arch_go_gin.Base.{
  ℕ, ◌≡◌, refl, ap, str_eq, [], ◌∷◌, ◌++◌, length, reject, if◌then◌else◌, Bool-cases, inl, inr, ◌+◌,
}
use clean_arch_go_gin.Base.Int.{pos}
use clean_arch_go_gin.Base.Effect.{Result, ok, err, M, returned, failed}
use clean_arch_go_gin.Apperr.{Error}
use clean_arch_go_gin.Platform.Migrate.{SchemaMigration, Schema, Store, is_applied}
use clean_arch_go_gin.Platform.Migrate.Laws.{Documented, Leads, Transacted, committed, rolled_back}
use clean_arch_go_gin.Platform.Migrate.Reliable.{Reliable, Succeeds}

pub record Disk : Type 0 where
  pub schema : Schema
  pub clock : ℕ

abbrev write_row : SchemaMigration → M Disk Error (Unit {0})
write_row row d =
    if is_applied d.schema.ledger row.version
    then (err Error.duplicated_key, d)
    else (ok tt, record d { schema = record (d.schema) { ledger = d.schema.ledger ++ row ∷ [] } })

-- What a transaction leaves, from the outcome of its work.
abbrev settle : Disk → Result Error (Unit {0}) × Disk → Result Error (Unit {0}) × Disk
settle d (ok _, d') = (ok tt, d')
settle d (err e, _) = (err e, d)

abbrev pub disk : Store
disk = record {
  World = Disk;
  schema = λ d. d.schema;
  auto_migrate_ledger = λ d. (ok tt, d);
  auto_migrate_entities = λ d. (ok tt, d);
  find_ledger = λ d. (ok d.schema.ledger, d);
  create_ledger_row = write_row;
  count_counters = λ d. (ok (length d.schema.counters), d);
  create_counter = λ c d.
      (ok tt, record d { schema = record (d.schema) { counters = d.schema.counters ++ c ∷ [] } });
  count_messages = λ d. (ok (length d.schema.messages), d);
  create_message = λ c d.
      (ok tt, record d { schema = record (d.schema) { messages = d.schema.messages ++ c ∷ [] } });
  column_types = λ d. (ok d.schema.columns, d);
  drop_column = λ table column d. (
    ok tt,
    record d {
      schema = record (d.schema) { columns = reject (λ name. str_eq name column) d.schema.columns };
    },
  );
  transaction = λ fn d. settle d (fn d);
  now = λ d. (pos d.clock, record d { clock = d.clock + 1 });
  new_uuid = λ d. (d.clock, record d { clock = d.clock + 1 });
  equal_fold = str_eq;
}

write_row-Leads :
    (row : SchemaMigration) (d : Disk)
    → Leads disk
        (λ s. s ≡ record (d.schema) { ledger = d.schema.ledger ++ row ∷ [] })
        d.schema
        (write_row row d)
write_row-Leads row d = elim (Bool-cases (is_applied d.schema.ledger row.version)) [
  | inl there ↦ rw there (failed refl)
  | inr fresh ↦ rw fresh (returned refl)
]

settle-Transacted :
    (fn : M Disk Error (Unit {0})) (d : Disk) (r : Result Error (Unit {0}) × Disk)
    → fn d ≡ r
    → Transacted disk fn d (settle d r)
settle-Transacted fn d (ok _, d') e = committed {w₀ = d} refl e refl
settle-Transacted fn d (err x, d') e = rolled_back refl

pub disk-Documented : Documented disk
disk-Documented = record {
  now_law = λ d. refl;
  new_uuid_law = λ d. refl;
  ledger_law = λ d. returned refl;
  find_law = λ d. returned (refl, refl);
  record_law = write_row-Leads;
  transaction_law = λ fn d. settle-Transacted fn d (fn d) refl;
  entities_law = λ d. returned (refl, refl, refl);
  count_counters_law = λ d. returned (refl, refl);
  create_counter_law = λ c d s e.
      returned (c, refl, ap (λ (t : Schema). record t { counters = t.counters ++ c ∷ [] }) e);
  count_messages_law = λ d. returned (refl, refl);
  create_message_law = λ c d s e.
      returned (c, refl, refl, ap (λ (t : Schema). record t { messages = t.messages ++ c ∷ [] }) e);
  columns_law = λ d. returned (refl, refl);
  drop_law = λ column d s e.
      returned (
        ap (λ (t : Schema). record t { columns = reject (λ name. str_eq name column) t.columns })
          e);
}

settle-Succeeds :
    (d : Disk) (r : Result Error (Unit {0}) × Disk) → Succeeds disk r → Succeeds disk (settle d r)
settle-Succeeds d r (a, w, e) = rw e (tt, w, refl)

pub disk-Reliable : Reliable disk
disk-Reliable = record {
  ledger_runs = λ d. (tt, d, refl);
  find_runs = λ d. (_, d, refl);
  record_runs = λ row d fresh. rw fresh (tt, _, refl);
  transaction_runs = λ fn d h. settle-Succeeds d (fn d) (h d refl);
  entities_run = λ d. (tt, d, refl);
  counters_run = λ d. (_, d, refl);
  counter_runs = λ c d. (tt, _, refl);
  messages_run = λ d. (_, d, refl);
  message_runs = λ c d. (tt, _, refl);
  columns_run = λ d. (_, d, refl);
  drop_runs = λ column d. (tt, _, refl);
}
