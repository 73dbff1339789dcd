-- ===== src/Log/Examples.antt =====
-- A zap whose loggers are their fields, and statements of gorm.
use public_pkg.Common.{
  false, String, List, [], ◌∷◌, none, some, ◌≡◌, ◌≢◌, refl, ◌↔◌, insert, delete,
}
use mathlib.Core.Option
use public_pkg.Common.Int.{pos}
use public_pkg.Log.{Zap, ZapLogger, info, init, new_logger, w, with_context_extractor}
use public_pkg.Log.Extractors.{init_forgets}
use public_pkg.Log.Gorm.{Done, trace}
use public_pkg.Log.Gorm.Traces.{Wanted, trace_reports}

abbrev fields : Zap
fields = record {
  Logger = List (String × String);
  Arg = String;
  level_of_text = λ s. some info;
  build = λ c skip. some [];
  with_field = λ l k v. (k, v) ∷ l;
  skip_callers = λ l n. l;
  text = λ s. s;
}

-- An extractor that finds the context itself, and the global logger that was initialized with it.
abbrev by_request : ZapLogger fields String → ZapLogger fields String
unfolding with_context_extractor
by_request = with_context_extractor fields String (("request", λ ctx. ctx) ∷ [])

abbrev global : ZapLogger fields String
global = record {
  zap = [];
  opts = record {
    disable_caller = false;
    disable_stacktrace = false;
    enable_color = false;
    level = "info";
    format = "console";
    output_paths = "stdout" ∷ [];
  };
  extractors = [];
}

init_forgets_example : w fields String global "r1" ≡ global
unfolding init
init_forgets_example = init_forgets fields String none (by_request ∷ []) global "r1" refl

-- `NewLogger` itself applies its options.
finds :
    Option.map (λ l. (w fields String l "r1").zap) (new_logger fields String none (by_request ∷ []))
    ≡ some (("request", "r1") ∷ [])
unfolding new_logger w by_request insert delete
finds = refl

abbrev select : Done
select = record { sql = "SELECT 1"; rows = pos 1 }

trace_reports_example :
    (trace {F = String} "debug" 5 (some "gone") select ≢ none)
    ↔ Wanted {F = String} "debug" 5 (some "gone")
trace_reports_example = trace_reports 5 "debug" (some "gone") select
