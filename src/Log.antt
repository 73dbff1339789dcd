-- ===== src/Log.antt =====
-- pkg/log/log.go and pkg/log/options.go: the logger that wraps a logger of the package zap. zap is the
-- parameter `Zap`, and what a call writes is a list of entries that are handed to zap.
pub mod Gorm
pub mod Extractors
mod Examples
use public_pkg.Common.{
  ℕ, Bool, true, false, not, ◌&&◌, String, List, [], ◌∷◌, ◌++◌, Option, none, some, str_eq, insert,
  if◌then◌else◌,
}

pub record Options : Type 0 where
  pub disable_caller : Bool
  pub disable_stacktrace : Bool
  pub enable_color : Bool
  pub level : String
  pub format : String
  pub output_paths : List String

-- `NewOptions`
abbrev pub new_options : Options
new_options = record {
  disable_caller = false;
  disable_stacktrace = false;
  enable_color = false;
  level = "info";
  format = "console";
  output_paths = "stdout" ∷ [];
}

-- `zapcore.Level`
pub data Level : Type 0 where
  debug info warn error dpanic panic fatal : Level

-- `zap.Config`, as far as it differs from zap's production encoder with the keys `message` and `timestamp`.
pub record Config : Type 0 where
  pub disable_caller : Bool
  pub disable_stacktrace : Bool
  pub level : Level
  pub encoding : String
  pub color_level : Bool
  pub output_paths : List String
  pub error_output_paths : List String

-- `level_of_text` is `UnmarshalText`, and `build` the logger of a configuration, if it can be built.
pub record Zap : Type 1 where
  pub Logger : Type 0
  pub Arg : Type 0
  pub level_of_text : String → Option Level
  pub build : Config → ℕ → Option Logger
  pub with_field : Logger → String → String → Logger
  pub skip_callers : Logger → ℕ → Logger
  pub text : String → Arg

-- A call of zap's sugared logger: the arguments are keys and values, or those of a format.
pub data Entry (z : Zap) : Type 0 where
  pairs formatted : z.Logger → Level → String → List z.Arg → Entry z

abbrev pub or_info : Option Level → Level
or_info none = info
or_info (some level) = level

abbrev pub or_stdout : List String → List String
or_stdout [] = "stdout" ∷ []
or_stdout (p ∷ ps) = p ∷ ps

abbrev pub or_default : Option Options → Options
or_default none = new_options
or_default (some opts) = opts

module _ (z : Zap) (Ctx : Type 0) where
  open z use {Logger, Arg}

  -- The functions that find a field in a context, by the field's name.
  abbrev pub Extractors : Type 0
  Extractors = List (String × (Ctx → String))

  -- `zapLogger`
  pub record ZapLogger : Type 0 where
    pub zap : Logger
    pub opts : Options
    pub extractors : Extractors

  abbrev pub put_all : Extractors → Extractors → Extractors
  put_all [] known = known
  put_all ((k, v) ∷ added) known = put_all added (insert k v known)

  -- `WithContextExtractor`
  unfoldable pub with_context_extractor : Extractors → ZapLogger → ZapLogger
  with_context_extractor added l = record l { extractors = put_all added l.extractors }

  -- The configuration that `NewLogger` builds.
  unfoldable pub config_of : Options → Config
  config_of opts = record {
    disable_caller = opts.disable_caller;
    disable_stacktrace = opts.disable_stacktrace;
    level = or_info (z.level_of_text opts.level);
    encoding = opts.format;
    color_level = str_eq opts.format "console" && opts.enable_color;
    output_paths = or_stdout opts.output_paths;
    error_output_paths = "stderr" ∷ [];
  }

  -- The loop over the options.
  abbrev pub apply_all : List (ZapLogger → ZapLogger) → ZapLogger → ZapLogger
  apply_all [] l = l
  apply_all (opt ∷ options) l = apply_all options (opt l)

  -- `NewLogger`; nil options are `none`, and so is a panic.
  unfoldable pub new_logger : Option Options → List (ZapLogger → ZapLogger) → Option ZapLogger
  unfolding config_of
  new_logger given options =
      let opts = or_default given in
      elim (z.build (config_of opts) 2) [
        | none ↦ none
        | some logger ↦
            some (apply_all options (record { zap = logger; opts = opts; extractors = [] }))
      ]

  -- `Init`: the global logger after it.
  unfoldable pub init : Option Options → List (ZapLogger → ZapLogger) → Option ZapLogger
  unfolding new_logger
  init opts options = new_logger opts []

  -- `AddCallerSkip`
  unfoldable pub add_caller_skip : ZapLogger → ℕ → ZapLogger
  add_caller_skip l skip = record l { zap = z.skip_callers l.zap skip }

  -- The loop of `W` over the extractors.
  unfoldable pub with_fields : Extractors → Ctx → Logger → Logger
  with_fields [] ctx logger = logger
  with_fields ((field_name, extractor) ∷ rest) ctx logger =
      let val = extractor ctx in
      with_fields rest ctx (if str_eq val "" then logger else z.with_field logger field_name val)

  -- `W`
  unfoldable pub w : ZapLogger → Ctx → ZapLogger
  unfolding with_fields
  w l ctx = record l { zap = with_fields l.extractors ctx l.zap }

  -- `log`, which knows no level `dpanic`.
  unfoldable pub log : ZapLogger → Level → String → List Arg → List (Entry z)
  log l dpanic msg args = []
  log l debug msg args = pairs l.zap debug msg args ∷ []
  log l info msg args = pairs l.zap info msg args ∷ []
  log l warn msg args = pairs l.zap warn msg args ∷ []
  log l error msg args = pairs l.zap error msg args ∷ []
  log l panic msg args = pairs l.zap panic msg args ∷ []
  log l fatal msg args = pairs l.zap fatal msg args ∷ []

  -- The methods that take a message, or a format, and arguments.
  pub data Method : Type 0 where
    debugf debugw infof infow warnf warnw errorf panicf panicw fatalf fatalw : Method

  abbrev pub level_of : Method → Level
  level_of debugf = debug
  level_of debugw = debug
  level_of infof = info
  level_of infow = info
  level_of warnf = warn
  level_of warnw = warn
  level_of errorf = error
  level_of panicf = panic
  level_of panicw = panic
  level_of fatalf = fatal
  level_of fatalw = fatal

  unfoldable pub call : ZapLogger → Method → String → List Arg → List (Entry z)
  unfolding log
  call l m msg args = log l (level_of m) msg args

  -- `Errorw`
  unfoldable pub errorw : ZapLogger → Arg → String → List Arg → List (Entry z)
  unfolding log
  errorw l e msg keyvals = log l error msg (keyvals ++ z.text "err" ∷ e ∷ [])
