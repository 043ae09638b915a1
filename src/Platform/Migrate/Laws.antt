-- ===== src/Platform/Migrate/Laws.antt =====
-- What is documented of the database that the migrations run on, and what they do with its ledger.
use clean_arch_go_gin.Base.{
  String, ◌≡◌, refl, true, false, List, [], ◌∷◌, ◌++◌, length, reject, ◌||◌, arith,
}
use clean_arch_go_gin.Base.Int.{ℤ, eqb_ℤ}
use clean_arch_go_gin.Base.Effect.{Result, ok, err, M, Returns}
use clean_arch_go_gin.Apperr.{Error}
use clean_arch_go_gin.Entity.{CounterEntity, MessageEntity}
use clean_arch_go_gin.Platform.Migrate.{
  SchemaMigration, Migration, Schema, Store, is_applied, run_up,
}

pub is_applied-append :
    (rows : List SchemaMigration) (row : SchemaMigration) (v : ℤ)
    → is_applied (rows ++ row ∷ []) v ≡ (eqb_ℤ row.version v || is_applied rows v)
unfolding is_applied
is_applied-append [] row v = refl
is_applied-append (r ∷ rows) row v = ground (arith, is_applied-append rows row v)

module _ (o : Store) where
  open o use {World, schema}

  -- Whatever the outcome, nothing that can be observed has changed.
  abbrev pub Keeps : {A : Type 0} → Schema → Result Error A × World → Type 0
  Keeps s = Returns (λ _ w'. schema w' ≡ s) (λ _ w'. schema w' ≡ s)

  abbrev pub Reads : {A : Type 0} → A → Schema → Result Error A × World → Type 0
  Reads a s = Returns (λ b w'. (b ≡ a) × (schema w' ≡ s)) (λ _ w'. schema w' ≡ s)

  abbrev pub Leads : (Schema → Type 0) → Schema → Result Error (Unit {0}) × World → Type 0
  Leads P s = Returns (λ _ w'. P (schema w')) (λ _ w'. schema w' ≡ s)

  -- `db.Transaction(fn)`: what the work does becomes visible, or nothing does.
  pub data Transacted (fn : M World Error (Unit {0})) (w : World)
      : Result Error (Unit {0}) × World → Type 0 where
    committed :
        {w₀ w₁ w' : World}
        → schema w₀ ≡ schema w
        → fn w₀ ≡ (ok tt, w₁)
        → schema w' ≡ schema w₁
        → Transacted fn w (ok tt, w')
    rolled_back : {e : Error} {w' : World} → schema w' ≡ schema w → Transacted fn w (err e, w')

  pub record Documented : Type 1 where
    pub now_law : (w : World) → schema (o.now w).1 ≡ schema w
    pub new_uuid_law : (w : World) → schema (o.new_uuid w).1 ≡ schema w
    pub ledger_law : (w : World) → Keeps (schema w) (o.auto_migrate_ledger w)
    pub find_law : (w : World) → Reads (schema w).ledger (schema w) (o.find_ledger w)
    pub record_law :
        (row : SchemaMigration) (w : World)
        → Leads
            (λ s. s ≡ record (schema w) { ledger = (schema w).ledger ++ row ∷ [] })
            (schema w)
            (o.create_ledger_row row w)
    pub transaction_law :
        (fn : M World Error (Unit {0})) (w : World) → Transacted fn w (o.transaction fn w)
    -- `AutoMigrate` adds tables and columns, and keeps rows.
    pub entities_law :
        (w : World)
        → Leads
            (λ s.
              (s.ledger ≡ (schema w).ledger)
              × (s.counters ≡ (schema w).counters)
              × (s.messages ≡ (schema w).messages))
            (schema w)
            (o.auto_migrate_entities w)
    pub count_counters_law :
        (w : World) → Reads (length (schema w).counters) (schema w) (o.count_counters w)
    pub create_counter_law :
        (c : CounterEntity) (w : World) (s : Schema)
        → schema w ≡ s
        → Leads
            (λ s'.
              (c' : CounterEntity) × (c'.value ≡ c.value)
              × (s' ≡ record s { counters = s.counters ++ c' ∷ [] }))
            s
            (o.create_counter c w)
    pub count_messages_law :
        (w : World) → Reads (length (schema w).messages) (schema w) (o.count_messages w)
    pub create_message_law :
        (c : MessageEntity) (w : World) (s : Schema)
        → schema w ≡ s
        → Leads
            (λ s'.
              (c' : MessageEntity) × (c'.key ≡ c.key)
              × (c'.value ≡ c.value)
              × (s' ≡ record s { messages = s.messages ++ c' ∷ [] }))
            s
            (o.create_message c w)
    pub columns_law : (w : World) → Reads (schema w).columns (schema w) (o.column_types w)
    pub drop_law :
        (column : String) (w : World) (s : Schema)
        → schema w ≡ s
        → Leads
            (λ s'. s' ≡ record s { columns = reject (λ name. o.equal_fold name column) s.columns })
            s
            (o.drop_column "refresh_token_entities" column w)

  -- A migration that has run: its `Up` and the row of the ledger.
  pub record Ran (m : Migration World) (s s' : Schema) : Type 0 where
    pub before : World
    pub after : World
    pub applied_at : ℤ
    pub begins : schema before ≡ s
    pub succeeds : run_up o m.up before ≡ (ok tt, after)
    pub recorded : s' ≡ record (schema after) {
      ledger =
          (schema after).ledger
          ++ record { version = m.version; name = m.name; applied_at = applied_at } ∷ [];
    }

  -- Each migration has run in its turn or stands among the rows.
  pub data Applied (rows : List SchemaMigration)
      : List (Migration World) → Schema → Schema → Type 0 where
    finished : {s : Schema} → Applied rows [] s s
    skipped :
        {m : Migration World} {ms : List (Migration World)} {s s' : Schema}
        → is_applied rows m.version ≡ true
        → Applied rows ms s s'
        → Applied rows (m ∷ ms) s s'
    ran :
        {m : Migration World} {ms : List (Migration World)} {s s₁ s' : Schema}
        → is_applied rows m.version ≡ false
        → Ran m s s₁
        → Applied rows ms s₁ s'
        → Applied rows (m ∷ ms) s s'

  -- The same up to a migration that failed and left no trace.
  pub data Stopped (rows : List SchemaMigration)
      : List (Migration World) → Schema → Schema → Type 0 where
    refused :
        {m : Migration World} {ms : List (Migration World)} {s : Schema}
        → is_applied rows m.version ≡ false
        → Stopped rows (m ∷ ms) s s
    skipped_first :
        {m : Migration World} {ms : List (Migration World)} {s s' : Schema}
        → is_applied rows m.version ≡ true
        → Stopped rows ms s s'
        → Stopped rows (m ∷ ms) s s'
    ran_first :
        {m : Migration World} {ms : List (Migration World)} {s s₁ s' : Schema}
        → is_applied rows m.version ≡ false
        → Ran m s s₁
        → Stopped rows ms s₁ s'
        → Stopped rows (m ∷ ms) s s'
