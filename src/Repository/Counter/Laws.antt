-- ===== src/Repository/Counter/Laws.antt =====
-- The counter goes up by one, in a transaction of its own.
use mathlib.Core.List.{Memᴰ}
use clean_arch_go_gin.Base.{◌≡◌, refl, ap, subst, none}
use clean_arch_go_gin.Base.Int.{ℤ, pos, ◌+ℤ◌, wrap_int64}
use clean_arch_go_gin.Base.Effect.{returned, continue-Returns}
use clean_arch_go_gin.Entity.{CounterEntity}
use clean_arch_go_gin.Database.{Tables, Views, Handle, pool, tx, begin_tx}
use clean_arch_go_gin.Outside.{Outside}
use clean_arch_go_gin.Outside.Laws.{Laws, forget, save_row}
use clean_arch_go_gin.Repository.Context.{Context, conn, select_done-Answers}
use clean_arch_go_gin.Repository.Tx.Laws.{Works, Commits, published, Transacted-Commits}
use clean_arch_go_gin.Repository.Counter.{bump, increment_on, increment_counter}

-- The result is the incremented value of a row that was there, and that row has it now; nothing
-- else in the database has changed.
pub record IsIncremented (n : ℤ) (t t' : Tables) : Type 0 where
  pub counter : CounterEntity
  pub present : Memᴰ counter t.counters
  pub next : n ≡ wrap_int64 (counter.value +ℤ pos 1)
  pub saved_at : ℤ
  pub after : t' ≡ record t { counters = save_row saved_at (bump counter) t.counters }

module _ (o : Outside) (l : Laws o) where
  open o use {World, views}

  increment_on-Works :
      (w₀ : World) (v : Views)
      → views w₀ ≡ begin_tx v
      → Works o (λ c t'. IsIncremented c.value v.committed t') v.committed (increment_on o tx w₀)
  unfolding increment_on
  increment_on-Works w₀ v e =
      continue-Returns (forget o (l.first_counter_law tx w₀ (begin_tx v) e))
        (λ c w₁ p.
          continue-Returns (l.save_counter_law tx (bump c) w₁ (begin_tx v) p.0)
            (λ _ w₂ q. returned (
              published (λ t'. IsIncremented (bump c).value v.committed t') q.1
                (record { counter = c; present = p.1; next = refl; saved_at = q.0; after = refl })))
            (λ _ _ q. ap (λ (u : Views). u.committed) q))
        (λ _ _ p. ap (λ (u : Views). u.committed) p)

  transacted-Commits :
      (h : Handle) (w : World) (v : Views)
      → h ≡ pool
      → views w ≡ v
      → Commits o
          (λ c t'. IsIncremented c.value v.committed t')
          v.committed
          (o.transaction CounterEntity h (increment_on o) w)
  transacted-Commits h w v k e = rw k (
      subst
        (λ (u : Views).
          Commits o (λ c t'. IsIncremented c.value u.committed t') u.committed
            (o.transaction CounterEntity pool (increment_on o) w))
        e
        (Transacted-Commits o (λ c t'. IsIncremented c.value (views w).committed t')
          (increment_on o) w (λ w₀ began. increment_on-Works w₀ (views w) began)
          (l.transaction_law CounterEntity (increment_on o) w)))

  -- Incrementing the counter, called outside a transaction: if it succeeds, some row of the
  -- counters had the value before the result, it has the result now, and nothing else has changed;
  -- if it fails, the database is as before.
  pub increment_counter-increments :
      (ctx : Context) (w : World)
      → ctx.transaction ≡ none
      → Commits o
          (λ n t'. IsIncremented n (views w).committed t')
          (views w).committed
          (increment_counter o ctx w)
  unfolding increment_counter
  increment_counter-increments ctx w outermost =
      continue-Returns (select_done-Answers o l w _ refl)
        (λ _ w₁ p.
          continue-Returns (transacted-Commits (conn ctx pool) w₁ _ (rw outermost refl) p.0)
            (λ _ _ q. returned q) (λ _ _ q. q))
        (λ _ _ q. ap (λ (u : Views). u.committed) q.0)
