-- ===== src/Repository/Tx.antt =====
-- internal/repository/implementations/tx/tx.gorm.go.
pub mod Laws
use clean_arch_go_gin.Base.{Option, none, some}
use clean_arch_go_gin.Base.Effect.{M}
use clean_arch_go_gin.Apperr.{Error}
use clean_arch_go_gin.Database.{Handle, pool}
use clean_arch_go_gin.Outside.{Outside}
use clean_arch_go_gin.Repository.Context.{Context, into, from}

module _ (o : Outside) (ctx : Context) where
  open o use {World}

  -- `WithinTx`. What `fn` assigns to variables of its caller is its result.
  unfoldable pub within_tx : {A : Type 0} → (Context → M World Error A) → M World Error A
  within_tx {A} fn = elim (from ctx) [
    | some _ ↦ fn ctx
    | none ↦ o.transaction A pool (λ h. fn (into ctx h))
  ]
