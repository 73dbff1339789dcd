-- ===== src/App/Examples.antt =====
-- Applications with options of both kinds, where a set of flags is the list of their names.
use public_pkg.Common.{
  ℕ, suc, ◌+◌, ◌==◌, Bool, true, false, String, List, [], ◌∷◌, Option, none, some, ◌≡◌, refl, ◌||◌,
  ◌⊎◌, str_eq, if◌then◌else◌,
}
use mathlib.Core.Option
use public_pkg.Text.{codes}
use public_pkg.Log.{Zap, info, init, new_logger}
use public_pkg.BuildVersion.{not_set}
use public_pkg.App.{
  Pflags, Target, App, Command, build_command, place_flags, add_common_flags, add_flag_at,
  bare_command,
}
use public_pkg.App.Run.{Host, run_command, last, returned, initialize_logger, load_options, launch}
use public_pkg.App.Ready.{Ready, with_run, run_command-Ready}

abbrev has_name : List String → String → Bool
has_name [] n = false
has_name (m ∷ s) n = str_eq m n || has_name s n

abbrev merged : List String → List String → List String
merged s [] = s
merged s (m ∷ t) = let rest = merged s t in if has_name rest m then rest else m ∷ rest

abbrev joined : List String → String → Option (List String)
joined s m = if has_name s m then none else some (m ∷ s)

abbrev names : Pflags
names = record {
  Set = List String;
  empty = [];
  add_flag = joined;
  add_set = λ s t. some (merged s t);
}

abbrev small_zap : Zap
small_zap = record {
  Logger = String;
  Arg = String;
  level_of_text = λ s. some info;
  build = λ c skip. some "zap";
  with_field = λ l k v. l;
  skip_callers = λ l n. l;
  text = λ s. s;
}

-- The world counts what happened: the calls of the host, and the run of the application.
abbrev host : Host small_zap names ℕ String
host = record {
  bind_pflags = λ world. (none, suc world);
  unmarshal = λ o value world. (none, value, suc world);
  settings = λ world. record {
    is_set = λ key. false;
    get_bool = λ key. false;
    get_string = λ key. "";
    get_string_slice = λ key. [];
  };
  all_keys = λ world. [];
  setting_text = λ world key. key;
  environment = λ world name. name;
  version_json = "{}";
  name_arg = λ name. "name";
  write = λ entries world. suc world;
  print_flags = suc;
}

-- Options that have a flag `port`, and are valid if the port is not 0.
abbrev port_of : Option (List (List String)) → ℕ → Target names ℕ String
port_of flags port = record {
  Value = ℕ;
  value = port;
  flags = flags;
  add_flags = some (λ s. joined s "port");
  complete = none;
  validate = some (λ value world. if value == 0 then (some "no port", world) else (none, world));
}

abbrev serving : Target names ℕ String → App names ℕ String String
serving o = record {
  name = codes "serve";
  short_desc = codes "a server";
  description = [];
  run = λ world. (none, world + 100);
  args = none;
  health_check_func = none;
  options = some o;
  silence = true;
  no_config = false;
  watch = false;
  context_extractors = ("request", λ ctx. ctx) ∷ [];
}

abbrev sections : List (List String)
sections = ("port" ∷ "host" ∷ []) ∷ ("level" ∷ []) ∷ []

-- Options with named sets of flags: the flag of the version is not in a set of the command that is built.
sectioned :
    build_command names ℕ String String (codes "serve") (serving (port_of (some sections) 80))
    ≡ some
        (record (bare_command names ℕ String String (codes "serve") (serving (port_of none 80))) {
          flags = "level" ∷ "port" ∷ "host" ∷ [];
        })
unfolding build_command place_flags add_common_flags add_flag_at bare_command
sectioned = refl

plain_command :
    Option.map
      (λ (c : Command names String). c.persistent)
      (build_command names ℕ String String (codes "serve") (serving (port_of none 80)))
    ≡ some ("config" ∷ "version" ∷ "port" ∷ [])
unfolding build_command place_flags add_common_flags add_flag_at bare_command
plain_command = refl

abbrev with_port : App names ℕ String String
with_port = serving (port_of none 80)

served : run_command small_zap names ℕ String String host with_port not_set 0 ≡ returned none 102
unfolding run_command initialize_logger load_options launch init new_logger
served = refl

run_command-Ready_example :
    ((run : ℕ → Option String × ℕ)
      → run_command small_zap names ℕ String String host
          (with_run small_zap names ℕ String String host with_port run)
          not_set
          0
        ≡ run_command small_zap names ℕ String String host with_port not_set 0)
    ⊎ ((start : ℕ) × Ready small_zap names ℕ String String host with_port not_set 0 start
        × ((run : ℕ → Option String × ℕ)
            → run_command small_zap names ℕ String String host
                (with_run small_zap names ℕ String String host with_port run)
                not_set
                0
              ≡ last (run start)))
run_command-Ready_example =
    run_command-Ready small_zap names ℕ String String host with_port not_set 0
