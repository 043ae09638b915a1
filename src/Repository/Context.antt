-- ===== src/Repository/Context.antt =====
-- internal/repository/dbtx/dbtx.go, and the `select` on `ctx.Done()` that opens the methods.
-- Of a context the model keeps the transaction that it carries; whether it is done is asked of the
-- world, since the derived contexts share the request's cancellation.
use clean_arch_go_gin.Base.{◌≡◌, ◌∙◌, Option, none, some}
use clean_arch_go_gin.Base.Effect.{Result, ok, err, M, returned, failed}
use clean_arch_go_gin.Apperr.{Error}
use clean_arch_go_gin.Database.{Handle, Views}
use clean_arch_go_gin.Outside.{Outside}
use clean_arch_go_gin.Outside.Laws.{Laws, Answers}

pub record Context : Type 0 where
  pub transaction : Option Handle

-- `dbtx.Into`
abbrev pub into : Context → Handle → Context
into ctx h = record ctx { transaction = some h }

-- `dbtx.From`
abbrev pub from : Context → Option Handle
from ctx = ctx.transaction

-- `dbtx.Conn`
abbrev pub conn : Context → Handle → Handle
conn ctx fallback = elim (from ctx) [ some h ↦ h | none ↦ fallback ]

abbrev done_outcome : {W : Type 0} → Option Error × W → Result Error (Unit {0}) × W
done_outcome (none, w) = (ok tt, w)
done_outcome (some c, w) = (err c, w)

module _ (o : Outside) where
  open o use {World, views}

  -- `select { case <-ctx.Done(): return ctx.Err() default: }`
  unfoldable pub select_done : M World Error (Unit {0})
  select_done w = done_outcome (o.ctx_err w)

  done_outcome-Answers :
      (r : Option Error × World) (v : Views)
      → views r.1 ≡ v
      → Answers o (λ _. Unit {0}) (λ _. Unit {0}) v (done_outcome r)
  done_outcome-Answers (none, w) v e = returned (e, tt)
  done_outcome-Answers (some c, w) v e = failed (e, tt)

  pub select_done-Answers :
      (l : Laws o) (w : World) (v : Views)
      → views w ≡ v
      → Answers o (λ _. Unit {0}) (λ _. Unit {0}) v (select_done w)
  unfolding select_done
  select_done-Answers l w v e = done_outcome-Answers (o.ctx_err w) v (l.ctx_err_law w ∙ e)
