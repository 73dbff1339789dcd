-- ===== src/Log/Extractors.antt =====
-- Which loggers of pkg/log find fields in a context.
use public_pkg.Common.{List, [], Option, none, some, ◌≡◌, refl}
use public_pkg.Common.Int.{ℤ}
use public_pkg.Log.{Options, Zap, ZapLogger, new_logger, or_default, config_of, init, w}
use public_pkg.Log.Gorm.{log_mode, mode_options}

module _ (z : Zap) (Ctx : Type 0) where
  -- A logger without extractors finds nothing.
  w_bare : (l : ZapLogger z Ctx) (ctx : Ctx) → l.extractors ≡ [] → w z Ctx l ctx ≡ l
  unfolding w
  w_bare l ctx h = rw h refl

  new_logger_bare :
      (given : Option Options) (l : ZapLogger z Ctx)
      → new_logger z Ctx given [] ≡ some l
      → l.extractors ≡ []
  unfolding new_logger
  new_logger_bare given l h = built_bare (z.build (config_of z Ctx (or_default given)) 2) h
    where
      built_bare :
          (b : Option z.Logger)
          → (elim b as (λ _. Option (ZapLogger z Ctx)) [
            | none ↦ none
            | some logger ↦ some (record { zap = logger; opts = or_default given; extractors = [] })
          ])
            ≡ some l
          → l.extractors ≡ []
      built_bare none h = cc
      built_bare (some logger) h = cc

  -- After `Init` the global logger adds no field of any context, whatever options `Init` was given.
  pub init_forgets :
      (opts : Option Options) (options : List (ZapLogger z Ctx → ZapLogger z Ctx))
      (std : ZapLogger z Ctx) (ctx : Ctx)
      → init z Ctx opts options ≡ some std
      → w z Ctx std ctx ≡ std
  unfolding init
  init_forgets opts options std ctx h = w_bare std ctx (new_logger_bare opts std h)

  -- Nor does a logger that `LogMode` made, whatever the one before it found.
  log_mode_forgets :
      (before after : ZapLogger z Ctx) (level : ℤ) (ctx : Ctx)
      → log_mode z Ctx before level ≡ some after
      → w z Ctx after ctx ≡ after
  unfolding log_mode
  log_mode_forgets before after level ctx h =
      w_bare after ctx (new_logger_bare (some (mode_options before.opts level)) after h)
