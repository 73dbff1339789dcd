-- ===== src/BuildVersion.antt =====
-- pkg/version: the version flag (flag.go), the version of the build (version.go) and the version that can be
-- set while the program runs (dynamic.go), which is parsed by pkg/util/version.
pub mod Dynamic
mod Examples
use public_pkg.Common.{
  ℕ, Bool, true, false, not, ◌&&◌, ◌||◌, String, Option, none, some, Result, ok, err, ◌==◌, str_eq,
  ◌≡◌, refl, if◌then◌else◌,
}
use public_pkg.Text.{Bytes, codes, is_empty, bytes_eq}
use public_pkg.Version.{Version}
use public_pkg.Version.Parse.{ParseError, parse_semantic}
use public_pkg.Version.Access.{major, minor, patch}

-- `versionValue`
pub data VersionValue : Type 0 where
  not_set enabled raw : VersionValue

-- `strconv.ParseBool`
abbrev parse_bool : String → Option Bool
parse_bool s =
    if str_eq s "1"
      || str_eq s "t"
      || str_eq s "T"
      || str_eq s "TRUE"
      || str_eq s "true"
      || str_eq s "True"
    then some true
    else if str_eq s "0"
        || str_eq s "f"
        || str_eq s "F"
        || str_eq s "FALSE"
        || str_eq s "false"
        || str_eq s "False"
    then some false
    else none

-- `String`
unfoldable to_text : VersionValue → String
to_text raw = "raw"
to_text enabled = "true"
to_text not_set = "false"

-- `Set`: whether it returns an error, and the value.
abbrev set_bool : Option Bool → Bool × VersionValue
set_bool none = (true, not_set)
set_bool (some true) = (false, enabled)
set_bool (some false) = (false, not_set)

unfoldable set_value : String → Bool × VersionValue
set_value s = if str_eq s "raw" then (false, raw) else set_bool (parse_bool s)

-- Setting the flag to its own text keeps it.
set_value-to_text : (v : VersionValue) → set_value (to_text v) ≡ (false, v)
unfolding set_value to_text
set_value-to_text raw = refl
set_value-to_text enabled = refl
set_value-to_text not_set = refl

-- `Info`
pub record Info : Type 0 where
  git_version : Bytes
  git_commit : Bytes
  git_tree_state : Bytes
  build_date : Bytes
  go_version : Bytes
  compiler : Bytes
  platform : Bytes

-- The variables that the linker sets, with the values that they have where it sets none.
pub record Build : Type 0 where
  git_version : Bytes
  build_date : Bytes
  git_commit : Bytes
  git_tree_state : Bytes

abbrev pub unset_build : Build
unset_build = record {
  git_version = codes "v0.0.0-master+$Format:%h$";
  build_date = codes "1970-01-01T00:00:00Z";
  git_commit = codes "$Format:%H$";
  git_tree_state = codes "";
}

-- `Get`
unfoldable get : Build → Bytes → Bytes → Bytes → Info
get b go_version compiler platform = record {
  git_version = b.git_version;
  git_commit = b.git_commit;
  git_tree_state = b.git_tree_state;
  build_date = b.build_date;
  go_version = go_version;
  compiler = compiler;
  platform = platform;
}

-- `PrintAndExitIfRequested`: what is printed before the program ends, if it ends; `text` is `Text`.
unfoldable print_and_exit : (Info → Bytes) → Info → VersionValue → Option Bytes
print_and_exit text i raw = some (text i)
print_and_exit text i enabled = some i.git_version
print_and_exit text i not_set = none

pub data DynamicError : Type 0 where
  empty_version : DynamicError
  unparsable : ParseError → DynamicError
  other_release : Bytes → Bytes → DynamicError

abbrev eq_option : Option ℕ → Option ℕ → Bool
eq_option none none = true
eq_option none (some n) = false
eq_option (some m) none = false
eq_option (some m) (some n) = m == n

-- The comparison at the end of `validateDynamicVersion`.
abbrev pub same_release : Version → Version → Bool
same_release v w =
    eq_option (major v) (major w) && eq_option (minor v) (minor w) && patch v == patch w

-- The text that stands for the default version when it is parsed.
abbrev pub parsed_default : Bytes → Bytes
parsed_default default =
    if bytes_eq default (codes "v0.0.0-master+$Format:%H$") then codes "v0.0.0-master" else default

abbrev pub compare_release :
    Bytes → Bytes → Result ParseError Version → Result ParseError Version → Option DynamicError
compare_release dynamic default (err e) r = some (unparsable e)
compare_release dynamic default (ok v) (err e) = some (unparsable e)
compare_release dynamic default (ok v) (ok w) =
    if same_release v w then none else some (other_release dynamic default)

-- `validateDynamicVersion`
unfoldable pub validate_dynamic_version : Bytes → Bytes → Option DynamicError
validate_dynamic_version dynamic default =
    if is_empty dynamic
    then some empty_version
    else if bytes_eq dynamic default
    then none
    else compare_release dynamic default (parse_semantic dynamic)
        (parse_semantic (parsed_default default))

-- `SetDynamicVersion`: the error and the stored version.
unfoldable pub set_dynamic_version : Bytes → Bytes → Bytes → Option DynamicError × Bytes
unfolding validate_dynamic_version
set_dynamic_version git_version dynamic stored =
    elim (validate_dynamic_version dynamic git_version) [
      | some e ↦ (some e, stored)
      | none ↦ (none, dynamic)
    ]
