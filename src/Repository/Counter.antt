-- ===== src/Repository/Counter.antt =====
-- internal/repository/implementations/counter and internal/repository/implementations/message.
pub mod Laws
use clean_arch_go_gin.Base.{ℕ, ◌^◌, String, Option, none, some, map, str_eq, if◌then◌else◌}
use clean_arch_go_gin.Base.Int.{ℤ, pos, ◌+ℤ◌, wrap_int64}
use clean_arch_go_gin.Base.Effect.{Result, ok, err, M, pure, raise, ◌>>=◌, ◌>>◌, attempt}
use clean_arch_go_gin.Apperr.{Error}
use clean_arch_go_gin.Entity.{CounterEntity, MessageEntity}
use clean_arch_go_gin.Database.{Handle, pool}
use clean_arch_go_gin.Outside.{Outside}
use clean_arch_go_gin.Repository.Context.{Context, conn, select_done}
use clean_arch_go_gin.Repository.User.{missing_is_nil}

-- `counter.Value++`
abbrev pub bump : CounterEntity → CounterEntity
bump c = record c { value = wrap_int64 (c.value +ℤ pos 1) }

module _ (o : Outside) where
  open o use {World}

  -- The work of the transaction that `IncrementCounter` opens; the row that it has read is its
  -- result.
  pub increment_on : Handle → M World Error CounterEntity
  increment_on h = do
    counter ← o.first_counter h
    o.save_counter h (bump counter)
    pure (bump counter)

module _ (o : Outside) (ctx : Context) where
  open o use {World}

  pub get_counter : M World Error ℤ
  get_counter = do select_done o; counter ← o.first_counter (conn ctx pool); pure counter.value

  pub increment_counter : M World Error ℤ
  increment_counter = do
    select_done o
    counter ← o.transaction CounterEntity (conn ctx pool) (increment_on o)
    pure counter.value

  pub get_message : String → M World Error (Option String)
  get_message key = do
    select_done o
    found ← attempt (o.first_message (conn ctx pool) (λ m. str_eq m.key key))
    message ← missing_is_nil (Error.wrap "getting message") found
    pure (elim message [ none ↦ none | some m ↦ some m.value ])
