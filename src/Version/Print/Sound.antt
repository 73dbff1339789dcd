-- ===== src/Version/Print/Sound.antt =====
-- What `parse` returns is well formed, so that its string is read back.
use public_pkg.Common.{
  ℕ, ◌≤◌, Bool, true, false, List, [], ◌∷◌, some, Result, ok, ◌≡◌, refl, subst, All, arith, length,
  inl, inr, Option-cases, Result-cases,
}
use public_pkg.Text.{Bytes}
use public_pkg.Text.Decimal.{max_uint, parse_uint, parse_uint-le}
use public_pkg.Text.Split.{split}
use public_pkg.Version.{Version}
use public_pkg.Version.Parse.{
  read_components, version_match, extra_match, marked, check_pre_release, is_ident, parse,
  read_extra, wrong_count, ParseError,
}
use public_pkg.Version.Print.{to_string}
use public_pkg.Version.Print.Components.{dotted-IsDotted, starts-dotted}
use public_pkg.Version.Print.RoundTrip.{IsIdents, IsWellFormed, parse-to_string}

read_components_sound :
    (semver first : Bool) (comps : List Bytes) (nums : List ℕ)
    → read_components semver first comps ≡ ok nums
    → All (λ n. n ≤ max_uint) nums × (length nums ≡ length comps)
unfolding read_components
read_components_sound semver first [] nums h = ground arith
read_components_sound semver first (comp ∷ comps) [] h = ground arith
read_components_sound semver first (comp ∷ comps) (m ∷ ms) h =
    ground (arith, read_components_sound semver false comps ms, parse_uint-le comp m)

marked-IsIdents : (mark : ℕ) (s : Bytes) → IsIdents (marked mark s).0
unfolding marked
marked-IsIdents mark [] = inl refl
marked-IsIdents mark (c ∷ s) = ground (arith, dotted-IsDotted is_ident s, starts-dotted is_ident s)

extra_match-IsIdents :
    (s pre build : Bytes) → extra_match s ≡ some (pre, build) → IsIdents pre × IsIdents build
unfolding extra_match
extra_match-IsIdents s pre build h =
    ground (arith, marked-IsIdents b'-' s, marked-IsIdents b'+' (marked b'-' s).1)

abbrev no_metadata : Bool → List ℕ → Version
no_metadata semver nums = record {
  components = nums;
  semver = semver;
  pre_release = [];
  build_metadata = [];
}

no_metadata-IsWellFormed :
    (semver : Bool) (nums : List ℕ)
    → All (λ n. n ≤ max_uint) nums
    → wrong_count semver (length nums) ≡ false
    → IsWellFormed (no_metadata semver nums)
unfolding split check_pre_release parse_uint
no_metadata-IsWellFormed semver nums h c = record {
  bounded = h;
  enough = ground arith;
  three = ground arith;
  pre_idents = inl refl;
  build_idents = inl refl;
  pre_numbers = refl;
  generic_pre = λ e. refl;
  generic_build = λ e. refl;
}

-- A semantic version whose extra part was read.
metadata-IsWellFormed :
    (nums : List ℕ) (extra pre build : Bytes)
    → All (λ n. n ≤ max_uint) nums
    → wrong_count true (length nums) ≡ false
    → extra_match extra ≡ some (pre, build)
    → check_pre_release (split b'.' pre) ≡ ok tt
    → IsWellFormed
        (record { components = nums; semver = true; pre_release = pre; build_metadata = build })
metadata-IsWellFormed nums extra pre build h c e checked = record {
  bounded = h;
  enough = ground arith;
  three = ground arith;
  pre_idents = (extra_match-IsIdents extra pre build e).0;
  build_idents = (extra_match-IsIdents extra pre build e).1;
  pre_numbers = checked;
  generic_pre = λ e. cc;
  generic_build = λ e. cc;
}

returned-IsWellFormed :
    (u v : Version) (r : Result ParseError Version)
    → IsWellFormed u
    → r ≡ ok u
    → r ≡ ok v
    → IsWellFormed v × (v.semver ≡ u.semver)
returned-IsWellFormed u v r w e e' =
    let same : u ≡ v = cc in (subst (λ t. IsWellFormed t) same w, cc)

read_extra-IsWellFormed :
    (semver : Bool) (nums : List ℕ) (extra : Bytes) (v : Version)
    → All (λ n. n ≤ max_uint) nums
    → wrong_count semver (length nums) ≡ false
    → read_extra semver nums extra ≡ ok v
    → IsWellFormed v × (v.semver ≡ semver)
unfolding read_extra
read_extra-IsWellFormed false nums extra v h c e =
    returned-IsWellFormed _ v _ (no_metadata-IsWellFormed false nums h c) refl e
read_extra-IsWellFormed true nums [] v h c e =
    returned-IsWellFormed _ v _ (no_metadata-IsWellFormed true nums h c) refl e
read_extra-IsWellFormed true nums (x ∷ extra) v h c e =
    elim (Option-cases (extra_match (x ∷ extra))) [
      | inl none_e ↦ absurd (ground (arith, none_e))
      | inr ((pre, build), some_e) ↦ elim (Result-cases (check_pre_release (split b'.' pre))) [
        | inl (_, checked) ↦
            returned-IsWellFormed _ v _
              (metadata-IsWellFormed nums (x ∷ extra) pre build h c some_e checked)
              (rw (some_e, checked)) e
        | inr (f, failed) ↦ absurd (ground (arith, some_e, failed))
      ]
    ]

-- Whatever `parse` accepts it returns as a well-formed version of the kind that was asked for: two or
-- more components of 64 bits, three in a semantic version, and metadata made of identifiers.
pub parse-IsWellFormed :
    (str : Bytes) (semver : Bool) (v : Version)
    → parse str semver ≡ ok v
    → IsWellFormed v × (v.semver ≡ semver)
unfolding parse
parse-IsWellFormed str semver v h = elim (Option-cases (version_match str)) [
  | inl e ↦ absurd (ground (arith, e))
  | inr ((numbers, extra), e) ↦
      elim (Result-cases (read_components semver true (split b'.' numbers))) [
        | inl (nums, e') ↦
            let (bounded, same) = read_components_sound semver true (split b'.' numbers) nums e' in
            read_extra-IsWellFormed semver nums extra v bounded (ground (arith, e, e', same, h))
              (ground (arith, e, e', h))
        | inr (x, e') ↦ absurd (ground (arith, e, e', h))
      ]
]

-- Parsing the string of a version that `parse` returned gives that version again.
pub parse-to_string-parse :
    (str : Bytes) (semver : Bool) (v : Version)
    → parse str semver ≡ ok v
    → parse (to_string (some v)) semver ≡ ok v
parse-to_string-parse str semver v h =
    let (w, kind) = parse-IsWellFormed str semver v h in
    subst (λ b. parse (to_string (some v)) b ≡ ok v) kind (parse-to_string v w)
