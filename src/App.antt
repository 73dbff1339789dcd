-- ===== src/App.antt =====
-- pkg/app/app.go and pkg/app/options.go: an application of the command line and its command. The flag sets of
-- pflag are the parameter `Pflags`. The command is modelled as `buildCommand` leaves it; when it is executed, cobra adds the
-- flags of the command line's own set, pflag.CommandLine, to the persistent ones of the root command.
pub mod Config
pub mod Run
pub mod Ready
mod Examples
use public_pkg.Common.{
  ℕ, Bool, true, false, not, String, List, [], ◌∷◌, Option, none, some, ◌≡◌, ◌||◌, str_eq, insert,
  if◌then◌else◌,
}
use mathlib.Core.Option
use public_pkg.Text.{Bytes, codes}
use public_pkg.Log.{Zap, Extractors}

-- `add_flag` is `AddFlag`, which panics, `none`, on a flag whose name the set has and on one with a shorthand that
-- another flag of the set has. `add_set` is `AddFlagSet`, which skips the flags whose name the set has, and panics on
-- such a shorthand too.
pub record Pflags : Type 1 where
  pub Set : Type 0
  pub empty : Set
  pub add_flag : Set → String → Option Set
  pub add_set : Set → Set → Option Set

-- The value that `WithOptions` was given: the methods that its type has, and for `Flags` the sets in the order
-- in which a range over the map finds them. What a method changes is the value and the world `W`.
pub record Target (p : Pflags) (W E : Type 0) : Type 1 where
  pub Value : Type 0
  pub value : Value
  pub flags : Option (List p.Set)
  pub add_flags : Option (p.Set → Option p.Set)
  pub complete : Option (Value → W → Option E × Value × W)
  pub validate : Option (Value → W → Option E × W)

-- `App` without its command; nil functions are `none`.
pub record App (p : Pflags) (W E Ctx : Type 0) : Type 1 where
  pub name : Bytes
  pub short_desc : Bytes
  pub description : Bytes
  pub run : W → Option E × W
  pub args : Option (List String → Option E)
  pub health_check_func : Option (W → Option E × W)
  pub options : Option (Target p W E)
  pub silence : Bool
  pub no_config : Bool
  pub watch : Bool
  pub context_extractors : List (String × (Ctx → String))

-- The part of cobra's command that `buildCommand` sets.
pub record Command (p : Pflags) (E : Type 0) : Type 0 where
  pub use_line : Bytes
  pub short : Bytes
  pub long : Bytes
  pub args : Option (List String → Option E)
  pub silence_usage : Bool
  pub silence_errors : Bool
  pub flags : p.Set
  pub persistent : p.Set

-- The function that `SetFlagErrorFunc` is given: the usage is printed again, and the error is kept.
unfoldable on_flag_error : {p : Pflags} {E : Type 0} → Command p E → E → E × Command p E
on_flag_error c e = (e, record c { silence_usage = false })

-- `formatBaseName`; `to_lower` and `trim_suffix` are those of strings.
unfoldable pub format_base_name : String → (Bytes → Bytes) → (Bytes → Bytes → Bytes) → Bytes → Bytes
format_base_name goos to_lower trim_suffix name =
    if str_eq goos "windows" then trim_suffix (to_lower name) (codes ".exe") else name

module _ (p : Pflags) (W E Ctx : Type 0) where
  open p use {Set}

  abbrev pub AppOption : Type 1
  AppOption = App p W E Ctx → App p W E Ctx

  unfoldable with_options : Option (Target p W E) → AppOption
  with_options opts app = record app { options = opts }

  unfoldable with_run_func : (W → Option E × W) → AppOption
  with_run_func run app = record app { run = run }

  unfoldable with_description : Bytes → AppOption
  with_description desc app = record app { description = desc }

  unfoldable with_health_check_func : Option (W → Option E × W) → AppOption
  with_health_check_func fn app = record app { health_check_func = fn }

  -- `serve` starts the server of the health options and does not wait for it.
  unfoldable with_default_health_check_func : (W → W) → AppOption
  unfolding with_health_check_func
  with_default_health_check_func serve =
      with_health_check_func (some (λ world. (none, serve world)))

  unfoldable with_silence : AppOption
  with_silence app = record app { silence = true }

  unfoldable with_no_config : AppOption
  with_no_config app = record app { no_config = true }

  unfoldable with_valid_args : Option (List String → Option E) → AppOption
  with_valid_args args app = record app { args = args }

  -- `no_args` is `cobra.NoArgs`.
  unfoldable with_default_valid_args : (List String → Option E) → AppOption
  with_default_valid_args no_args app = record app { args = some no_args }

  unfoldable with_watch_config : AppOption
  with_watch_config app = record app { watch = true }

  unfoldable with_logger_context_extractor : List (String × (Ctx → String)) → AppOption
  with_logger_context_extractor extractors app = record app { context_extractors = extractors }

  abbrev pub apply_all : List AppOption → App p W E Ctx → App p W E Ctx
  apply_all [] app = app
  apply_all (o ∷ opts) app = apply_all opts (o app)

  -- The application that `NewApp` builds its command from.
  unfoldable pub configured : Bytes → Bytes → List AppOption → App p W E Ctx
  configured name short_desc opts = apply_all opts (record {
    name = name;
    short_desc = short_desc;
    description = codes "";
    run = λ world. (none, world);
    args = none;
    health_check_func = none;
    options = none;
    silence = false;
    no_config = false;
    watch = false;
    context_extractors = [];
  })

  -- The set that the flags of this package and of the package version are added to: none, a new one that
  -- the command does not have, or the persistent flags of the command.
  pub data Place : Type 0 where
    nil_set detached persistent_set : Place

  -- The loop over the named sets.
  abbrev pub add_sets : Set → List Set → Option Set
  add_sets s [] = some s
  add_sets s (f ∷ fs) = elim (p.add_set s f) [ none ↦ none | some s ↦ add_sets s fs ]

  -- The type switch of `buildCommand`.
  unfoldable pub place_flags : Option (Target p W E) → Command p E → Option (Place × Command p E)
  place_flags none cmd = some (nil_set, cmd)
  place_flags (some o) cmd = elim o.flags [
    | some sets ↦ Option.map (λ s. (detached, record cmd { flags = s })) (add_sets cmd.flags sets)
    | none ↦ elim o.add_flags [
      | none ↦ some (nil_set, cmd)
      | some add ↦ elim (add cmd.persistent) [
        | none ↦ none
        | some s ↦ some (persistent_set, record cmd { persistent = s })
      ]
    ]
  ]

  -- `fs.AddFlag`, which panics on a nil set: the new set and the command after it.
  unfoldable pub add_flag_at : Place → String → Set × Command p E → Option (Set × Command p E)
  add_flag_at nil_set flag (own, cmd) = none
  add_flag_at detached flag (own, cmd) = Option.map (λ s. (s, cmd)) (p.add_flag own flag)
  add_flag_at persistent_set flag (own, cmd) =
      Option.map (λ s. (own, record cmd { persistent = s })) (p.add_flag cmd.persistent flag)

  -- The end of `buildCommand`: the flag of the package version, and the one of AddConfigFlag if it is wanted.
  unfoldable pub add_common_flags : Bool → Place → Set × Command p E → Option (Set × Command p E)
  unfolding add_flag_at
  add_common_flags no_config place sets = elim (add_flag_at place "version" sets) [
    | none ↦ none
    | some sets ↦ if no_config then some sets else add_flag_at place "config" sets
  ]

  -- The command that `buildCommand` starts with; `use_line` is the formatted name.
  unfoldable pub bare_command : Bytes → App p W E Ctx → Command p E
  bare_command use_line app = record {
    use_line = use_line;
    short = app.short_desc;
    long = app.description;
    args = app.args;
    silence_usage = true;
    silence_errors = true;
    flags = p.empty;
    persistent = p.empty;
  }

  -- `buildCommand`; `none` is a panic.
  unfoldable pub build_command : Bytes → App p W E Ctx → Option (Command p E)
  unfolding place_flags add_common_flags bare_command
  build_command use_line app = elim (place_flags app.options (bare_command use_line app)) [
    | none ↦ none
    | some (place, cmd) ↦
        Option.map (λ sets. sets.1) (add_common_flags app.no_config place (p.empty, cmd))
  ]

  -- `NewApp`: the application and its command.
  unfoldable pub new_app :
      (Bytes → Bytes) → Bytes → Bytes → List AppOption → Option (App p W E Ctx × Command p E)
  unfolding configured build_command
  new_app base_name name short_desc opts =
      let app = configured name short_desc opts in
      Option.map (λ cmd. (app, cmd)) (build_command (base_name app.name) app)
