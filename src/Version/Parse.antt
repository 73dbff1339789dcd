-- ===== src/Version/Parse.antt =====
-- `parse`, and the two regular expressions that it applies, as matchers. In both, what a greedy
-- repetition leaves unread can start no later part of the expression, so there is no backtracking.
use public_pkg.Common.{
  ℕ, Bool, true, false, not, List, [], ◌∷◌, Option, none, some, Result, ok, err, ◌>>=◌, ◌==◌, ltb,
  leb, ◌&&◌, ◌||◌, if◌then◌else◌, length,
}
use public_pkg.Text.{Bytes, codes, is_empty, bytes_eq, is_digit, has_zero_prefix}
use public_pkg.Text.Decimal.{parse_uint}
use public_pkg.Text.Split.{split}
use public_pkg.Version.{Version}

-- The five messages of `parse`.
pub data ParseError : Type 0 where
  not_a_version illegal_version bad_extra : ParseError
  zero_prefixed non_numeric : Bytes → ParseError

-- `\s`
abbrev is_space : ℕ → Bool
is_space c = c == 9 || c == 10 || c == 12 || c == 13 || c == 32

-- `[0-9A-Za-z-]`
abbrev pub is_ident : ℕ → Bool
is_ident c = is_digit c || (leb b'A' c && leb c b'Z') || (leb b'a' c && leb c b'z') || c == b'-'

-- `\s*`
unfoldable pub skip_spaces : Bytes → Bytes
skip_spaces [] = []
skip_spaces (c ∷ s) = if is_space c then skip_spaces s else c ∷ s

-- `v?`
abbrev skip_v : Bytes → Bytes
skip_v [] = []
skip_v (c ∷ s) = if c == b'v' then s else c ∷ s

abbrev pub starts : (ℕ → Bool) → Bytes → Bool
starts p [] = false
starts p (c ∷ s) = p c

abbrev push : ℕ → Bytes × Bytes → Bytes × Bytes
push c r = (c ∷ r.0, r.1)

-- `X+(?:\.X+)*` for a class X of bytes, at a text that starts with an X: the match and the rest. A
-- dot belongs to the match where an X follows it.
unfoldable pub dotted : (ℕ → Bool) → Bytes → Bytes × Bytes
dotted p [] = ([], [])
dotted p (c ∷ s) =
    let rest = dotted p s in if p c || (c == b'.' && starts p s) then push c rest else ([], c ∷ s)

-- `(.*)*$`: the rest is a match where no byte of it is a line feed.
unfoldable pub has_line_feed : Bytes → Bool
has_line_feed [] = false
has_line_feed (c ∷ s) = c == 10 || has_line_feed s

-- `versionMatchRE`: the numbers and the extra part.
unfoldable pub version_match : Bytes → Option (Bytes × Bytes)
version_match str =
    let s = skip_v (skip_spaces str) in
    let (numbers, extra) = dotted is_digit s in
    if starts is_digit s && not (has_line_feed extra) then some (numbers, extra) else none

-- `(?:-(…))?` with `mark` for the hyphen.
unfoldable pub marked : ℕ → Bytes → Bytes × Bytes
marked mark [] = ([], [])
marked mark (c ∷ s) = if c == mark && starts is_ident s then dotted is_ident s else ([], c ∷ s)

-- `extraMatchRE`: the pre-release and the build metadata.
unfoldable pub extra_match : Bytes → Option (Bytes × Bytes)
extra_match s =
    let (pre, s) = marked b'-' s in
    let (build, s) = marked b'+' s in if is_empty (skip_spaces s) then some (pre, build) else none

abbrev pub bad_zero : Bytes → Bool
bad_zero comp = has_zero_prefix comp && not (bytes_eq comp (codes "0"))

abbrev pub or_fail {ℓ} : {A : Type ℓ} → ParseError → Option A → Result ParseError A
or_fail e none = err e
or_fail e (some a) = ok a

-- The loop over the numeric components; `first` is `i == 0`.
unfoldable pub read_components : Bool → Bool → List Bytes → Result ParseError (List ℕ)
read_components semver first [] = ok []
read_components semver first (comp ∷ comps) =
    let rest = read_components semver false comps in
    if (first || semver) && bad_zero comp
    then err (zero_prefixed comp)
    else (or_fail (non_numeric comp) (parse_uint comp) >>= λ num. rest >>= λ nums. ok (num ∷ nums))

abbrev is_some : Option ℕ → Bool
is_some none = false
is_some (some n) = true

-- The loop over the pre-release identifiers: a numeric one has no leading zero.
unfoldable pub check_pre_release : List Bytes → Result ParseError (Unit {0})
check_pre_release [] = ok tt
check_pre_release (comp ∷ comps) =
    if is_some (parse_uint comp) && bad_zero comp
    then err (zero_prefixed comp)
    else check_pre_release comps

unfoldable pub read_extra : Bool → List ℕ → Bytes → Result ParseError Version
read_extra semver nums extra =
    if semver && not (is_empty extra)
    then (do
      (pre, build) ← or_fail bad_extra (extra_match extra)
      _ ← check_pre_release (split b'.' pre)
      ok (record { components = nums; semver = semver; pre_release = pre; build_metadata = build }))
    else ok (record { components = nums; semver = semver; pre_release = []; build_metadata = [] })

abbrev pub wrong_count : Bool → ℕ → Bool
wrong_count semver n = (semver && not (n == 3)) || (not semver && ltb n 2)

unfoldable pub parse : Bytes → Bool → Result ParseError Version
unfolding read_extra
parse str semver = do
  (numbers, extra) ← or_fail not_a_version (version_match str)
  let comps = split b'.' numbers
  nums ←
      (if wrong_count semver (length comps)
        then err illegal_version
        else read_components semver true comps)
  read_extra semver nums extra

abbrev pub parse_generic : Bytes → Result ParseError Version
parse_generic str = parse str false

abbrev pub parse_semantic : Bytes → Result ParseError Version
parse_semantic str = parse str true

-- `MustParseGeneric` and `MustParseSemantic`; `none` is the panic.
abbrev must : Result ParseError Version → Option Version
must (ok v) = some v
must (err e) = none

unfoldable must_parse_generic : Bytes → Option Version
must_parse_generic str = must (parse_generic str)

unfoldable must_parse_semantic : Bytes → Option Version
must_parse_semantic str = must (parse_semantic str)
