-- ===== src/App/Config.antt =====
-- pkg/app/config.go: where viper looks for the configuration file and for environment variables. `upper` is
-- `strings.ToUpper`, and viper is the parameter.
use public_pkg.Common.{ℕ, Bool, List, [], ◌∷◌, ◌++◌, ◌==◌, if◌then◌else◌}
use public_pkg.Text.{Bytes, codes, is_empty}
use public_pkg.Text.Split.{split}
use public_pkg.Util.File.Path.{path_join}

-- `strings.ReplaceAll` for a byte by a byte
unfoldable pub replace_byte : ℕ → ℕ → Bytes → Bytes
replace_byte from into [] = []
replace_byte from into (c ∷ s) = (if c == from then into else c) ∷ replace_byte from into s

-- The prefix that `AddConfigFlag` sets.
unfoldable pub env_prefix : (Bytes → Bytes) → Bytes → Bytes
unfolding replace_byte
env_prefix upper name = replace_byte b'-' b'_' (upper name)

-- The replacer of periods and hyphens in a key.
unfoldable pub env_key : Bytes → Bytes
env_key [] = []
env_key (c ∷ s) = (if c == b'.' then b'_' else if c == b'-' then b'_' else c) ∷ env_key s

-- What `ReadInConfig` is to read: one file, or the file of a name in the first of some directories.
pub data Source : Type 0 where
  given_file : Bytes → Source
  search : List Bytes → Bytes → Source

abbrev pub home_paths : Bytes → List Bytes → List Bytes
home_paths home [] = []
home_paths home (first ∷ []) = []
home_paths home (first ∷ second ∷ more) =
    path_join home (b'.' ∷ first) ∷ path_join (codes "/etc") first ∷ []

-- The function that is given to `cobra.OnInitialize`, up to `ReadInConfig`.
unfoldable pub source_of : Bytes → Bytes → Bytes → Source
unfolding split path_join
source_of cfg_file home name =
    if is_empty cfg_file
    then search (codes "." ∷ home_paths home (split b'-' name)) name
    else given_file cfg_file

-- What the function does.
pub data Step : Type 0 where
  read : Source → Step
  log_failure : Step
  log_success : Step
  watch_file : Step

-- The whole function; the flag says that the configuration was read.
unfoldable pub initialize : Bytes → Bytes → Bytes → Bool → Bool → List Step
unfolding source_of
initialize cfg_file home name watch was_read =
    read (source_of cfg_file home name) ∷ (if was_read then [] else log_failure ∷ [])
    ++ log_success ∷ (if watch then watch_file ∷ [] else [])
