-- ===== src/App/Run.antt =====
-- runCommand and initializeLogger of pkg/app/app.go. viper, cobra and the runtime are the parameter `Host`, and
-- `W` is what they and the functions of the application can change.
use public_pkg.Common.{Bool, not, String, List, [], ◌∷◌, ◌++◌, Option, none, some, if◌then◌else◌}
use public_pkg.Text.{Bytes}
use public_pkg.Log.{
  Options, Zap, Entry, ZapLogger, new_options, init, with_context_extractor, call, infow, debugw,
}
use public_pkg.BuildVersion.{VersionValue, not_set, enabled, raw}
use public_pkg.App.{Pflags, Target, App}

-- viper's settings, by their keys.
pub record Settings : Type 0 where
  pub is_set : String → Bool
  pub get_bool : String → Bool
  pub get_string : String → String
  pub get_string_slice : String → List String

-- `write` hands entries to zap, and `print_flags` is the one of component-base.
pub record Host (z : Zap) (p : Pflags) (W E : Type 0) : Type 1 where
  pub bind_pflags : W → Option E × W
  pub unmarshal : (o : Target p W E) → o.Value → W → Option E × o.Value × W
  pub settings : W → Settings
  pub all_keys : W → List String
  pub setting_text : W → String → String
  pub environment : W → String → z.Arg
  pub version_json : z.Arg
  pub name_arg : Bytes → z.Arg
  pub write : List (Entry z) → W → W
  pub print_flags : W → W

-- How `runCommand` ends: the program ended after it printed the version, it panicked or it returned.
pub data Outcome (E W : Type 0) : Type 0 where
  printed_version : VersionValue → Outcome E W
  panicked : Outcome E W
  returned : Option E → W → Outcome E W

-- The options that `initializeLogger` reads from viper.
unfoldable pub log_options : Settings → Options
log_options v =
    let o = new_options in
    let o =
      if v.is_set "log.disable-caller"
      then record o { disable_caller = v.get_bool "log.disable-caller" }
      else o in
    let o =
      if v.is_set "log.disable-stacktrace"
      then record o { disable_stacktrace = v.get_bool "log.disable-stacktrace" }
      else o in
    let o = if v.is_set "log.level" then record o { level = v.get_string "log.level" } else o in
    let o = if v.is_set "log.format" then record o { format = v.get_string "log.format" } else o in
    if v.is_set "log.output-paths"
    then record o { output_paths = v.get_string_slice "log.output-paths" }
    else o

infixl 5 ◌>>=◌
-- An error ends the sequence, and is returned.
abbrev pub ◌>>=◌ : {E W : Type 0} → Option E × W → (W → Outcome E W) → Outcome E W
(none, world) >>= next = next world
(some e, world) >>= next = returned (some e) world

abbrev pub last : {E W : Type 0} → Option E × W → Outcome E W
last (e, world) = returned e world

module _ (z : Zap) (p : Pflags) (W E Ctx : Type 0) (host : Host z p W E) where
  -- `initializeLogger`: the global logger after it.
  unfoldable pub initialize_logger : App p W E Ctx → W → Option (ZapLogger z Ctx)
  unfolding log_options init with_context_extractor
  initialize_logger app world =
      init z Ctx (some (log_options (host.settings world)))
        (with_context_extractor z Ctx app.context_extractors ∷ [])

  abbrev pub config_entries : ZapLogger z Ctx → W → List String → List (Entry z)
  unfolding call
  config_entries std world [] = []
  config_entries std world (key ∷ keys) =
      call z Ctx std debugw (host.setting_text world key) [] ++ config_entries std world keys

  -- `PrintConfig`
  unfoldable pub print_config : ZapLogger z Ctx → W → W
  print_config std world = host.write (config_entries std world (host.all_keys world)) world

  -- What `runCommand` logs unless the application is silent.
  unfoldable pub announce : App p W E Ctx → ZapLogger z Ctx → W → W
  unfolding print_config call
  announce app std world =
      let text = z.text in
      let starting =
        call z Ctx std infow "Starting application"
          (text "name" ∷ host.name_arg app.name ∷ text "version" ∷ host.version_json ∷ []) in
      let golang = call z Ctx std infow "Golang settings" (
        text "GOGC"
        ∷ host.environment world "GOGC"
        ∷ text "GOMAXPROCS"
        ∷ host.environment world "GOMAXPROCS"
        ∷ text "GOTRACEBACK"
        ∷ host.environment world "GOTRACEBACK"
        ∷ []) in
      let world = host.write (starting ++ golang) world in
      if not app.no_config
      then print_config std world
      else elim app.options [ none ↦ world | some o ↦ host.print_flags world ]

  -- A method that the options may not have.
  abbrev pub complete_options : (o : Target p W E) → o.Value → W → Option E × o.Value × W
  complete_options o value world = elim o.complete [
    | none ↦ (none, value, world)
    | some f ↦ f value world
  ]

  abbrev pub validate_options : (o : Target p W E) → o.Value → W → Option E × W
  validate_options o value world = elim o.validate [ none ↦ (none, world) | some f ↦ f value world ]

  abbrev pub checked_options : (o : Target p W E) → Option E × o.Value × W → Option E × W
  checked_options o (some e, value, world) = (some e, world)
  checked_options o (none, value, world) = validate_options o value world

  abbrev pub completed_options : (o : Target p W E) → Option E × o.Value × W → Option E × W
  completed_options o (some e, value, world) = (some e, world)
  completed_options o (none, value, world) = checked_options o (complete_options o value world)

  -- The part of `runCommand` that is about the options.
  unfoldable pub load_options : Option (Target p W E) → W → Option E × W
  load_options none world = (none, world)
  load_options (some o) world = completed_options o (host.unmarshal o o.value world)

  abbrev pub check_health : App p W E Ctx → W → Option E × W
  check_health app world = elim app.health_check_func [ none ↦ (none, world) | some f ↦ f world ]

  unfoldable pub launch : App p W E Ctx → Option (ZapLogger z Ctx) → W → Outcome E W
  unfolding announce
  launch app none world = panicked
  launch app (some std) world =
      check_health app (if app.silence then world else announce app std world) >>= λ world.
      last (app.run world)

  -- `runCommand`, with the value of the flag of the version.
  unfoldable pub run_command : App p W E Ctx → VersionValue → W → Outcome E W
  unfolding load_options initialize_logger launch
  run_command app enabled world = printed_version enabled
  run_command app raw world = printed_version raw
  run_command app not_set world = do
    world ← host.bind_pflags world
    world ← load_options app.options world
    launch app (initialize_logger app world) world
