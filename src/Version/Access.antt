-- ===== src/Version/Access.antt =====
-- The accessors and the copies with one part replaced, and `HighestSupportedVersion`. Where the Go
-- code reads a component that is not there, it panics: `none`.
pub mod Copies
pub mod Highest
use public_pkg.Common.{
  ℕ, suc, Bool, true, false, not, List, [], ◌∷◌, ◌++◌, Option, none, some, Result, ok, err, ◌==◌,
  ltb, ◌||◌, if◌then◌else◌, length, get_elem?, get_or,
}
use public_pkg.Text.{Bytes}
use public_pkg.Version.{Version}
use public_pkg.Version.Parse.{ParseError, parse_generic}
use public_pkg.Version.Compare.{less_than}

unfoldable pub major : Version → Option ℕ
major v = get_elem? v.components 0

unfoldable pub minor : Version → Option ℕ
minor v = get_elem? v.components 1

-- `Patch` tests the length first, so it cannot panic.
unfoldable pub patch : Version → ℕ
patch v = if ltb (length v.components) 3 then 0 else get_or v.components 2 0

unfoldable pub major_minor : ℕ → ℕ → Version
major_minor major minor = record {
  components = major ∷ minor ∷ [];
  semver = false;
  pre_release = [];
  build_metadata = [];
}

infixl 5 ◌>>=◌
abbrev ◌>>=◌ : {A B : Type 0} → Option A → (A → Option B) → Option B
none >>= f = none
some a >>= f = f a

unfoldable pub with_major : ℕ → Version → Option Version
with_major major v = do
  minor ← minor v
  some (record v { components = major ∷ minor ∷ patch v ∷ [] })

unfoldable pub with_minor : ℕ → Version → Option Version
with_minor minor v = do
  major ← major v
  some (record v { components = major ∷ minor ∷ patch v ∷ [] })

unfoldable pub with_patch : ℕ → Version → Option Version
with_patch patch v = do
  major ← major v
  minor ← minor v
  some (record v { components = major ∷ minor ∷ patch ∷ [] })

unfoldable pub with_pre_release : Bytes → Version → Option Version
with_pre_release pre v = do
  major ← major v
  minor ← minor v
  some (record v { components = major ∷ minor ∷ patch v ∷ []; pre_release = pre })

unfoldable pub with_build_metadata : Bytes → Version → Option Version
with_build_metadata build v = do
  major ← major v
  minor ← minor v
  some (record v { components = major ∷ minor ∷ patch v ∷ []; build_metadata = build })

-- The errors of `HighestSupportedVersion`; the second carries the error of the last string that could
-- not be parsed, if there was one.
pub data HighestError : Type 0 where
  empty_array : HighestError
  none_found : Option ParseError → HighestError
  not_v1 : Version → HighestError

-- The variables of the loop. `Major` cannot panic in it: a parsed version has two components.
pub record Search : Type 0 where
  pub highest : Option Version
  pub the_err : Option ParseError

abbrev pub improves : Option Version → Version → Bool
improves none v = true
improves (some h) v = less_than h v

abbrev pub above_one : Option ℕ → Bool
above_one none = false
above_one (some n) = ltb 1 n

-- One round, for the result of `ParseGeneric`.
abbrev pub consider : Search → Result ParseError Version → Search
consider s (err e) = record s { the_err = some e }
consider s (ok v) =
    if above_one (major v)
    then s
    else if improves s.highest v
    then record s { highest = some v }
    else s

-- The loop goes from the last string to the first.
unfoldable pub search_highest : List Bytes → Search
search_highest [] = record { highest = none; the_err = none }
search_highest (str ∷ strs) = consider (search_highest strs) (parse_generic str)

abbrev is_one : Option ℕ → Bool
is_one none = false
is_one (some n) = n == 1

abbrev conclude : Search → Option Version → Result HighestError Version
conclude s none = err (none_found s.the_err)
conclude s (some h) = if is_one (major h) then ok h else err (not_v1 h)

unfoldable pub highest_supported_version : List Bytes → Result HighestError Version
highest_supported_version [] = err empty_array
highest_supported_version (v ∷ vs) = let s = search_highest (v ∷ vs) in conclude s s.highest
