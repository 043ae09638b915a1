-- ===== src/Platform/Migrate.antt =====
-- internal/platform/migrate.go. GORM's migrator and statements, the clock and google/uuid are
-- parameters; `schema` is what can be observed of the database. An error keeps the fixed words of
-- its text.
pub mod Order
pub mod Laws
pub mod Ledger
pub mod Steps
pub mod Reliable
pub mod Ends
pub mod Memory
use clean_arch_go_gin.Base.{
  ℕ, String, Bool, true, false, Option, none, some, List, [], ◌∷◌, not, ◌||◌, ◌==◌, if◌then◌else◌,
}
use clean_arch_go_gin.Base.Int.{ℤ, pos, ltb_ℤ, eqb_ℤ}
use clean_arch_go_gin.Base.Effect.{Result, ok, err, M, pure, raise, map_err, ◌>>=◌, ◌>>◌}
use clean_arch_go_gin.Apperr.{Error}
use clean_arch_go_gin.Entity.{CounterEntity, MessageEntity}

-- `schemaMigration`
pub record SchemaMigration : Type 0 where
  pub version : ℤ
  pub name : String
  pub applied_at : ℤ

-- `Migration`; an `Up` may be nil.
pub record Migration (W : Type 0) : Type 0 where
  pub version : ℤ
  pub name : String
  pub up : Option (M W Error (Unit {0}))

-- The ledger, the rows that are seeded, and the columns of the refresh tokens' table.
pub record Schema : Type 0 where
  pub ledger : List SchemaMigration
  pub counters : List CounterEntity
  pub messages : List MessageEntity
  pub columns : List String

pub record Store : Type 1 where
  pub World : Type 0
  pub schema : World → Schema
  -- `AutoMigrate` of the ledger's table and of `entities()`.
  pub auto_migrate_ledger : M World Error (Unit {0})
  pub auto_migrate_entities : M World Error (Unit {0})
  -- `Find` and `Create` on the ledger, `Count` and `Create` on the two seeded tables.
  pub find_ledger : M World Error (List SchemaMigration)
  pub create_ledger_row : SchemaMigration → M World Error (Unit {0})
  pub count_counters : M World Error ℕ
  pub create_counter : CounterEntity → M World Error (Unit {0})
  pub count_messages : M World Error ℕ
  pub create_message : MessageEntity → M World Error (Unit {0})
  -- `Migrator().ColumnTypes` of the refresh tokens, and `ALTER TABLE … DROP COLUMN …` on a table.
  pub column_types : M World Error (List String)
  pub drop_column : String → String → M World Error (Unit {0})
  -- `db.Transaction`; the work's statements run inside of it.
  pub transaction : M World Error (Unit {0}) → M World Error (Unit {0})
  pub now : World → ℤ × World
  pub new_uuid : World → ℕ × World
  -- `strings.EqualFold`
  pub equal_fold : String → String → Bool

-- What `validateMigrations` finds.
pub data Misnumbered : Type 0 where
  not_positive no_up out_of_order : ℤ → String → Misnumbered
  duplicate : ℤ → String → String → Misnumbered

abbrev pub text_of : Misnumbered → String
text_of (Misnumbered.not_positive _ _) = "versions start at 1"
text_of (Misnumbered.no_up _ _) = "migration has no Up function"
text_of (Misnumbered.out_of_order _ _) = "migrations are out of order; list them ascending"
text_of (Misnumbered.duplicate _ _ _) = "duplicate migration version"

module _ {W : Type 0} where
  -- `sort.Slice` by version. Which of two equal versions comes first does not matter: they are
  -- refused.
  unfoldable pub insert : Migration W → List (Migration W) → List (Migration W)
  insert m [] = m ∷ []
  insert m (n ∷ ns) = if ltb_ℤ n.version m.version then n ∷ insert m ns else m ∷ n ∷ ns

  unfoldable pub sort : List (Migration W) → List (Migration W)
  unfolding insert
  sort [] = []
  sort (m ∷ ms) = insert m (sort ms)

  -- `i > 0 && sorted[i-1].Version == migration.Version`
  abbrev pub repeats : Option (Migration W) → Migration W → Bool
  repeats none m = false
  repeats (some before) m = eqb_ℤ before.version m.version

  abbrev pub name_of : Option (Migration W) → String
  name_of none = ""
  name_of (some before) = before.name

  -- The loop: the entry before, the rest of `list`, and the rest of `sorted`.
  unfoldable pub check :
      Option (Migration W) → List (Migration W) → List (Migration W) → Result Misnumbered (Unit {0})
  check before (x ∷ xs) (m ∷ ms) =
      let rest = check (some m) xs ms in
      if not (ltb_ℤ (pos 0) m.version)
      then err (Misnumbered.not_positive m.version m.name)
      else elim m.up [
        | none ↦ err (Misnumbered.no_up m.version m.name)
        | some _ ↦
            if repeats before m
            then err (Misnumbered.duplicate m.version (name_of before) m.name)
            else if eqb_ℤ x.version m.version
            then rest
            else err (Misnumbered.out_of_order m.version m.name)
      ]
  check before _ _ = ok tt

  unfoldable pub validate_migrations : List (Migration W) → Result Misnumbered (Unit {0})
  unfolding sort check
  validate_migrations list = check none list (sort list)

-- `applied[version]`, of the map that `appliedVersions` makes of the rows.
unfoldable pub is_applied : List SchemaMigration → ℤ → Bool
is_applied [] version = false
is_applied (row ∷ rows) version = eqb_ℤ row.version version || is_applied rows version

module _ (o : Store) where
  open o use {World}

  abbrev pub lift : {A : Type 0} → (World → A × World) → M World Error A
  lift f w = let (a, w') = f w in (ok a, w')

  -- `seed`: the two inserts, the two halves, the whole.
  abbrev pub insert_counter : M World Error (Unit {0})
  insert_counter = do
    id ← lift o.new_uuid
    map_err (Error.wrap "seeding counter") (
        o.create_counter
          (record { id = id; value = pos 0; created_at = pos 0; updated_at = pos 0 }))

  abbrev pub insert_message : M World Error (Unit {0})
  insert_message = do
    id ← lift o.new_uuid
    map_err (Error.wrap "seeding message") (
        o.create_message (record {
          id = id;
          key = "default";
          value = "Welcome to Clean Go Vite React!";
          created_at = pos 0;
          updated_at = pos 0;
        }))

  unfoldable pub seed_counter : M World Error (Unit {0})
  seed_counter = do
    counters ← map_err (Error.wrap "counting counters") o.count_counters
    (if counters == 0 then insert_counter else pure tt)

  unfoldable pub seed_message : M World Error (Unit {0})
  seed_message = do
    messages ← map_err (Error.wrap "counting messages") o.count_messages
    (if messages == 0 then insert_message else pure tt)

  unfoldable pub seed : M World Error (Unit {0})
  unfolding seed_counter seed_message
  seed = seed_counter >> seed_message

  unfoldable pub any_fold : String → List String → Bool
  any_fold column [] = false
  any_fold column (name ∷ names) = o.equal_fold name column || any_fold column names

  unfoldable pub has_column : String → M World Error Bool
  unfolding any_fold
  has_column column = do
    types ← map_err (Error.wrap "reading columns") o.column_types
    pure (any_fold column types)

  unfoldable pub drop_legacy_refresh_token_column : M World Error (Unit {0})
  unfolding has_column
  drop_legacy_refresh_token_column = do
    present ← has_column "token"
    (if present
        then map_err (Error.wrap "dropping legacy") (o.drop_column "refresh_token_entities" "token")
        else pure tt)

  unfoldable pub migrations : List (Migration World)
  unfolding seed drop_legacy_refresh_token_column
  migrations =
      record { version = pos 1; name = "create initial schema"; up = some o.auto_migrate_entities }
      ∷ record { version = pos 2; name = "seed demo rows"; up = some seed }
      ∷ record {
        version = pos 3;
        name = "drop the plaintext refresh token column";
        up = some drop_legacy_refresh_token_column;
      }
      ∷ []

  -- `migration.Up(tx)`. A nil function panics; the list has been validated before.
  abbrev pub run_up : Option (M World Error (Unit {0})) → M World Error (Unit {0})
  run_up none = raise (Error.plain "invalid memory address or nil pointer dereference")
  run_up (some up) = up

  -- The function that `applyMigration` hands to the transaction.
  unfoldable pub up_and_record : Migration World → M World Error (Unit {0})
  up_and_record m = do
    run_up m.up
    applied_at ← lift o.now
    o.create_ledger_row (record { version = m.version; name = m.name; applied_at = applied_at })

  unfoldable pub apply_migration : Migration World → M World Error (Unit {0})
  unfolding up_and_record
  apply_migration m = map_err (Error.wrap "applying migration") (o.transaction (up_and_record m))

  -- The loop of `Migrate`.
  unfoldable pub apply_pending :
      List SchemaMigration → List (Migration World) → M World Error (Unit {0})
  unfolding apply_migration is_applied
  apply_pending rows [] = pure tt
  apply_pending rows (m ∷ ms) =
      let rest = apply_pending rows ms in
      if is_applied rows m.version then rest else apply_migration m >> rest

  -- `Migrate`, at a list of migrations.
  unfoldable pub migrate_with : List (Migration World) → M World Error (Unit {0})
  unfolding validate_migrations apply_pending
  migrate_with pending = elim (validate_migrations pending) [
    | err problem ↦ raise (Error.plain (text_of problem))
    | ok _ ↦ do
      map_err (Error.wrap "creating migration ledger") o.auto_migrate_ledger
      rows ← map_err (Error.wrap "reading migration ledger") o.find_ledger
      apply_pending rows pending
  ]

  unfoldable pub migrate : M World Error (Unit {0})
  unfolding migrate_with migrations
  migrate = migrate_with migrations
