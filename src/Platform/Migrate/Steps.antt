-- ===== src/Platform/Migrate/Steps.antt =====
-- What the three migrations do: seeding twice is seeding once, the legacy column goes, and each of
-- them leaves the ledger alone.
use clean_arch_go_gin.Base.{
  String, ◌≡◌, refl, sym, ap, ◌∙◌, subst, true, false, List, [], ◌∷◌, ◌++◌, All, length, reject,
  ◌==◌, Bool-cases, inl, inr, arith,
}
use clean_arch_go_gin.Base.Int.{pos}
use clean_arch_go_gin.Base.Effect.{
  Result, ok, Returns, returned, Post, Returns-Post, continue, continue-Returns, rename-same,
  Returns-mono,
}
use clean_arch_go_gin.Apperr.{Error}
use clean_arch_go_gin.Entity.{CounterEntity, MessageEntity}
use clean_arch_go_gin.Platform.Migrate.{
  Schema, Store, seed, seed_counter, seed_message, any_fold, has_column,
  drop_legacy_refresh_token_column, migrations, migrate, is_applied,
}
use clean_arch_go_gin.Platform.Migrate.Laws.{Keeps, Leads, Documented}
use clean_arch_go_gin.Platform.Migrate.Ledger.{
  LeavesLedger, Migrated, migrate_with-Migrated, migrate_with-records, migrate_with_again,
}

-- A table after `seed`: the rows that were there, or one.
pub data RowsSeeded {Row : Type 0} (P : Row → Type 0) : List Row → List Row → Type 0 where
  kept : {r : Row} {rs : List Row} → RowsSeeded P (r ∷ rs) (r ∷ rs)
  first : {r : Row} → P r → RowsSeeded P [] (r ∷ [])

module _ {Row : Type 0} (P : Row → Type 0) where
  RowsSeeded-when_empty :
      (rs : List Row) (r : Row) → length rs ≡ 0 → P r → RowsSeeded P rs (rs ++ r ∷ [])
  RowsSeeded-when_empty [] r _ p = first p
  RowsSeeded-when_empty (x ∷ rs) r e p = absurd (omega (arith, e))

  RowsSeeded-otherwise : (rs : List Row) → (length rs == 0) ≡ false → RowsSeeded P rs rs
  RowsSeeded-otherwise [] e = absurd (ground (arith, e))
  RowsSeeded-otherwise (r ∷ rs) _ = kept

abbrev pub SeedCounter : CounterEntity → Type 0
SeedCounter c = c.value ≡ pos 0

abbrev pub SeedMessage : MessageEntity → Type 0
SeedMessage c = (c.key ≡ "default") × (c.value ≡ "Welcome to Clean Go Vite React!")

abbrev CountersOnly : Schema → Schema → Type 0
CountersOnly s s' =
    (cs : List CounterEntity) × RowsSeeded SeedCounter s.counters cs
    × (s' ≡ record s { counters = cs })

abbrev MessagesOnly : Schema → Schema → Type 0
MessagesOnly s s' =
    (cs : List MessageEntity) × RowsSeeded SeedMessage s.messages cs
    × (s' ≡ record s { messages = cs })

-- Both tables seeded, and nothing else changed.
pub record Seeded (s s' : Schema) : Type 0 where
  pub counters : RowsSeeded SeedCounter s.counters s'.counters
  pub messages : RowsSeeded SeedMessage s.messages s'.messages
  pub same_ledger : s'.ledger ≡ s.ledger
  pub same_columns : s'.columns ≡ s.columns

-- The two halves make the whole.
halves-Seeded : (s s₁ s₂ : Schema) → CountersOnly s s₁ → MessagesOnly s₁ s₂ → Seeded s s₂
halves-Seeded s s₁ s₂ (cs, h, e₁) (ms, g, e₂) =
    let whole = e₂ ∙ ap (λ (t : Schema). record t { messages = ms }) e₁ in
    record {
      counters =
          subst (RowsSeeded SeedCounter s.counters) (sym (ap (λ (t : Schema). t.counters) whole)) h;
      messages =
          subst (RowsSeeded SeedMessage s.messages) (sym (ap (λ (t : Schema). t.messages) whole))
            (subst (λ rs. RowsSeeded SeedMessage rs ms) (ap (λ (t : Schema). t.messages) e₁) g);
      same_ledger = ap (λ (t : Schema). t.ledger) whole;
      same_columns = ap (λ (t : Schema). t.columns) whole;
    }

module _ {Row : Type 0} (P : Row → Type 0) where
  RowsSeeded-idem :
      (rs rs' rs'' : List Row) → RowsSeeded P rs rs' → RowsSeeded P rs' rs'' → rs'' ≡ rs'
  RowsSeeded-idem rs rs' rs'' kept kept = refl
  RowsSeeded-idem rs rs' rs'' (first p) kept = refl

-- Seeding what has been seeded changes nothing.
pub Seeded-idem : (s s₁ s₂ : Schema) → Seeded s s₁ → Seeded s₁ s₂ → s₂ ≡ s₁
Seeded-idem s s₁ s₂ h g = λ i. record {
  ledger = g.same_ledger i;
  counters = RowsSeeded-idem SeedCounter _ _ _ h.counters g.counters i;
  messages = RowsSeeded-idem SeedMessage _ _ _ h.messages g.messages i;
  columns = g.same_columns i;
}

module _ (o : Store) (l : Documented o) where
  open o use {World, schema}

  seed_counter-CountersOnly :
      (w : World) → Leads o (CountersOnly (schema w)) (schema w) (seed_counter o w)
  unfolding seed_counter continue
  seed_counter-CountersOnly w =
      continue-Returns (rename-same _ (l.count_counters_law w))
        (λ n w₁ p. elim (Bool-cases (n == 0)) [
          | inl none_yet ↦ rw none_yet (
              rename-same _ (
                Returns-mono (l.create_counter_law _ _ (schema w) (l.new_uuid_law w₁ ∙ p.1))
                  (λ _ _ q. (
                    _,
                    RowsSeeded-when_empty SeedCounter _ q.0 (ground (arith, p.0, none_yet)) q.1,
                    q.2,
                  ))
                  (λ _ _ q. q)))
          | inr some_there ↦ rw some_there (
              returned
                (_, RowsSeeded-otherwise SeedCounter _ (ground (arith, p.0, some_there)), p.1))
        ])
        (λ _ _ q. q)

  seed_message-MessagesOnly :
      (w : World) → Leads o (MessagesOnly (schema w)) (schema w) (seed_message o w)
  unfolding seed_message continue
  seed_message-MessagesOnly w =
      continue-Returns (rename-same _ (l.count_messages_law w))
        (λ n w₁ p. elim (Bool-cases (n == 0)) [
          | inl none_yet ↦ rw none_yet (
              rename-same _ (
                Returns-mono (l.create_message_law _ _ (schema w) (l.new_uuid_law w₁ ∙ p.1))
                  (λ _ _ q. (
                    _,
                    RowsSeeded-when_empty SeedMessage _ q.0 (ground (arith, p.0, none_yet))
                        (q.1, q.2),
                    q.3,
                  ))
                  (λ _ _ q. q)))
          | inr some_there ↦ rw some_there (
              returned
                (_, RowsSeeded-otherwise SeedMessage _ (ground (arith, p.0, some_there)), p.1))
        ])
        (λ _ _ q. q)

  -- `seed` adds the row of a table that has none, keeps the rows of one that has some, and touches
  -- nothing else.
  pub seed-Seeded :
      (w : World)
      → Returns
          (λ _ w'. Seeded (schema w) (schema w'))
          (λ _ w'. (schema w').ledger ≡ (schema w).ledger)
          (seed o w)
  unfolding seed
  seed-Seeded w =
      continue-Returns (seed_counter-CountersOnly w)
        (λ _ w₁ p.
          Returns-mono (seed_message-MessagesOnly w₁) (λ _ w₂ q. halves-Seeded _ _ _ p q)
            (λ _ _ q. ap (λ (s : Schema). s.ledger) (q ∙ p.2)))
        (λ _ _ q. ap (λ (s : Schema). s.ledger) q)

  reject-none :
      (column : String) (names : List String)
      → any_fold o column names ≡ false
      → reject (λ name. o.equal_fold name column) names ≡ names
  unfolding any_fold
  reject-none column [] _ = refl
  reject-none column (name ∷ names) e = ground (arith, e, reject-none column names)

  -- The table has no column of the name left, in any case of its letters, and the rest is as it was.
  abbrev pub Dropped : Schema → Schema → Type 0
  Dropped s s' = s' ≡ record s { columns = reject (λ name. o.equal_fold name "token") s.columns }

  drop_legacy-Dropped :
      (w : World) → Leads o (Dropped (schema w)) (schema w) (drop_legacy_refresh_token_column o w)
  unfolding drop_legacy_refresh_token_column has_column continue
  drop_legacy-Dropped w =
      continue-Returns
        {P = λ b w₁. (b ≡ any_fold o "token" (schema w).columns) × (schema w₁ ≡ schema w)}
        (continue-Returns (rename-same _ (l.columns_law w))
          (λ types w₁ p. returned (ap (any_fold o "token") p.0, p.1)) (λ _ _ q. q))
        (λ present w₁ p. elim (Bool-cases present) [
          | inl here ↦ rw here (rename-same _ (l.drop_law "token" w₁ (schema w) p.1))
          | inr gone ↦ rw gone (
              returned (
                p.1
                ∙ ap (λ names. record (schema w) { columns = names })
                    (sym (reject-none "token" (schema w).columns (sym p.0 ∙ gone)))))
        ])
        (λ _ _ q. q)

  -- From what a call leads to, to the world that it left.
  Leads-at :
      (P : Schema → Type 0) {Q : Error → World → Type 0} {r : Result Error (Unit {0}) × World}
      {w' : World}
      → Returns (λ _ v. P (schema v)) Q r
      → r ≡ (ok tt, w')
      → P (schema w')
  Leads-at P p e = subst (Post (λ _ v. P (schema v)) _) e (Returns-Post p)

  -- None of the three writes the ledger.
  pub migrations-LeavesLedger : All (LeavesLedger o l) (migrations o)
  unfolding migrations
  migrations-LeavesLedger = (
    λ w w' e.
        Leads-at (λ s. s.ledger ≡ (schema w).ledger)
          (Returns-mono (l.entities_law w) (λ _ _ p. p.0) (λ _ _ q. q)) e,
    (
      λ w w' e. (Leads-at (Seeded (schema w)) (seed-Seeded w) e).same_ledger,
      (
        λ w w' e.
            ap (λ (s : Schema). s.ledger) (Leads-at (Dropped (schema w)) (drop_legacy-Dropped w) e),
        tt,
      ),
    ),
  )

  -- `Migrate` ends with each migration either run in its turn, with a row of the ledger in the same
  -- transaction, or skipped because the ledger had it; a failure ends it after the last migration
  -- that ran as a whole, and changes nothing else.
  pub migrate-Migrated : (w : World) → Migrated o l (migrations o) (schema w) (migrate o w)
  unfolding migrate
  migrate-Migrated w = migrate_with-Migrated o l (migrations o) w

  -- After a run of `Migrate` that returned no error the ledger has every version, and another run
  -- changes nothing, whatever it returns, if nobody wrote in between.
  pub migrate_idem :
      (w w' v : World)
      → migrate o w ≡ (ok tt, w')
      → schema v ≡ schema w'
      → All (λ m. is_applied (schema w').ledger m.version ≡ true) (migrations o)
        × Keeps o (schema w') (migrate o v)
  unfolding migrate
  migrate_idem w w' v e same = (
    migrate_with-records o l (migrations o) w w' migrations-LeavesLedger e,
    migrate_with_again o l (migrations o) w w' v migrations-LeavesLedger e same,
  )
