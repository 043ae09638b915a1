-- ===== src/Service/Counter.antt =====
-- internal/service/counter and internal/service/message.
use clean_arch_go_gin.Base.{Option, none, some}
use clean_arch_go_gin.Base.Effect.{M, ◌>>=◌, pure, map_err}
use clean_arch_go_gin.Apperr.{Error}
use clean_arch_go_gin.Outside.{Outside}
use clean_arch_go_gin.Repository.Context.{Context}
use clean_arch_go_gin.Repository.Counter
use clean_arch_go_gin.Response.{GetCounter, GetMessage}
use clean_arch_go_gin.Service.User.Tokens.{internally}

module _ (o : Outside) (ctx : Context) where
  open o use {World}

  pub get_counter : M World Error GetCounter
  get_counter = do
    value ← map_err (internally "reading counter") (Counter.get_counter o ctx)
    pure (record { value = value })

  pub increment_counter : M World Error GetCounter
  increment_counter = do
    value ← map_err (internally "incrementing counter") (Counter.increment_counter o ctx)
    pure (record { value = value })

  -- The message "default".
  pub get_message : M World Error (Option GetMessage)
  get_message = do
    message ← map_err (internally "reading message") (Counter.get_message o ctx "default")
    pure (elim message [ none ↦ none | some m ↦ some (record { content = m }) ])
