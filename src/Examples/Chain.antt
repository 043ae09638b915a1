-- ===== src/Examples/Chain.antt =====
-- A request whose handler panics, through the chain of the production configuration.
use clean_arch_go_gin.Base.{refl, inl, true, false, none, []}
use clean_arch_go_gin.Base.Int.{pos}
use clean_arch_go_gin.Di.Wiring.{new_router}
use clean_arch_go_gin.Middleware.Chain.{Exchange, Ended, Handler, Layers, run_chain}
use clean_arch_go_gin.Middleware.Chain.Forwards.{IsQuiet, Forwards, Spans}
use clean_arch_go_gin.Middleware.Chain.Laws.{Told, new_router-Told}
use clean_arch_go_gin.Examples.Deployment.{process, production}

abbrev panics : Handler
panics x = Ended.panicked x

abbrev layers : Layers
layers = record {
  dev_mode = false;
  max_bytes = pos 1024;
  timeout = pos 10;
  allowed = true;
  request_id = "r";
  otelgin = λ next. next;
  cors = λ next. next;
}

same-IsQuiet : (x : Exchange) → IsQuiet x x
same-IsQuiet x = record { logs = refl; counts = refl }

cors-Forwards : Forwards layers.cors
cors-Forwards = record { prepare = λ x. x; quiet = same-IsQuiet; passes = λ next x. inl refl }

otelgin-Spans : Spans layers.otelgin
otelgin-Spans = record { prepare = λ x. x; quiet = same-IsQuiet; passes = λ next x. refl }

abbrev fresh : Exchange
fresh = record {
  status = none;
  bodies = [];
  headers = [];
  max_bytes = none;
  timeout = none;
  logged = [];
  counted = [];
}

new_router-Told_example :
    Told panics same-IsQuiet production.observability.metrics_enabled fresh
      (run_chain layers (new_router process production) panics fresh)
new_router-Told_example =
    new_router-Told panics same-IsQuiet layers cors-Forwards otelgin-Spans process production fresh
