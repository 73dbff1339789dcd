-- ===== src/BuildVersion/Dynamic.antt =====
-- Which versions SetDynamicVersion of pkg/version/dynamic.go stores.
use public_pkg.Common.{
  ℕ, Bool, true, false, List, [], ◌∷◌, Option, none, some, ok, err, ◌≡◌, ◌≢◌, refl, sym, ◌∙◌, ◌⊎◌,
  inl, inr, arith, length, Bool-cases, Result-cases, Option-cases, ◌&&◌, ◌==◌, get_elem?, get_or,
  if◌then◌else◌, ltb,
}
use public_pkg.Text.{Bytes, codes, bytes_eq}
use public_pkg.Text.Decimal.{parse_uint}
use public_pkg.Text.Split.{split}
use public_pkg.Text.Order.{bytes_eq_sound}
use public_pkg.Version.{Version}
use public_pkg.Version.Parse.{
  parse_semantic, parse, version_match, skip_spaces, dotted, has_line_feed, extra_match, marked,
  read_components, check_pre_release, read_extra, bad_extra,
}
use public_pkg.Version.Access.{major, minor, patch}
use public_pkg.Version.Print.Sound.{parse-IsWellFormed}
use public_pkg.BuildVersion.{
  DynamicError, eq_option, same_release, unset_build, parsed_default, compare_release,
  validate_dynamic_version, set_dynamic_version,
}

-- Both texts parse as semantic versions with the same three numbers.
pub record SameRelease (s t : Bytes) : Type 0 where
  pub v : Version
  pub w : Version
  pub parsed : parse_semantic s ≡ ok v
  pub parsed_other : parse_semantic t ≡ ok w
  pub same : v.components ≡ w.components

abbrev agree : List ℕ → List ℕ → Bool
agree xs ys =
    eq_option (get_elem? xs 0) (get_elem? ys 0)
    && eq_option (get_elem? xs 1) (get_elem? ys 1)
    && (if ltb (length xs) 3 then 0 else get_or xs 2 0)
      == (if ltb (length ys) 3 then 0 else get_or ys 2 0)

same_numbers :
    {a b c a' b' c' : ℕ}
    → agree (a ∷ b ∷ c ∷ []) (a' ∷ b' ∷ c' ∷ []) ≡ true
    → a ∷ b ∷ c ∷ [] ≡ a' ∷ b' ∷ c' ∷ []
same_numbers e = ground arith

three_elements : (xs : List ℕ) → length xs ≡ 3 → (a : ℕ) × (b : ℕ) × (c : ℕ) × (xs ≡ a ∷ b ∷ c ∷ [])
three_elements [] h = ground arith
three_elements (a ∷ []) h = ground arith
three_elements (a ∷ b ∷ []) h = ground arith
three_elements (a ∷ b ∷ c ∷ []) h = (a, b, c, refl)
three_elements (a ∷ b ∷ c ∷ d ∷ xs) h = ground arith

agree_sound : (xs ys : List ℕ) → length xs ≡ 3 → length ys ≡ 3 → agree xs ys ≡ true → xs ≡ ys
agree_sound xs ys h k e =
    let (a, b, c, p) = three_elements xs h in
    let (a', b', c', q) = three_elements ys k in p ∙ same_numbers (rw (p, q) at e) ∙ sym q

same_release_sound :
    (s t : Bytes) (v w : Version)
    → parse_semantic s ≡ ok v
    → parse_semantic t ≡ ok w
    → same_release v w ≡ true
    → SameRelease s t
unfolding major minor patch
same_release_sound s t v w p q e =
    let (good, semver) = parse-IsWellFormed s true v p in
    let (good', semver') = parse-IsWellFormed t true w q in
    record {
      v = v;
      w = w;
      parsed = p;
      parsed_other = q;
      same = agree_sound v.components w.components (good.three semver) (good'.three semver') e;
    }

compare_release_sound :
    (dynamic default t : Bytes)
    → compare_release dynamic default (parse_semantic dynamic) (parse_semantic t) ≡ none
    → SameRelease dynamic t
compare_release_sound dynamic default t h = elim (Result-cases (parse_semantic dynamic)) [
  | inr (e, p) ↦ absurd (ground (arith, p))
  | inl (v, p) ↦ elim (Result-cases (parse_semantic t)) [
    | inr (e, q) ↦ absurd (ground (arith, p, q))
    | inl (w, q) ↦ elim (Bool-cases (same_release v w)) [
      | inl s ↦ same_release_sound dynamic t v w p q s
      | inr s ↦ absurd (ground (arith, p, q, s))
    ]
  ]
]

validate_sound :
    (dynamic default : Bytes)
    → validate_dynamic_version dynamic default ≡ none
    → (dynamic ≢ []) × ((dynamic ≡ default) ⊎ SameRelease dynamic (parsed_default default))
unfolding validate_dynamic_version
validate_sound [] default h = cc
validate_sound (c ∷ s) default h = elim (Bool-cases (bytes_eq (c ∷ s) default)) [
  | inl e ↦ (λ n. cc, inl (bytes_eq_sound (c ∷ s) default e))
  | inr e ↦
      (λ n. cc, inr (compare_release_sound (c ∷ s) default (parsed_default default) (rw e at h)))
]

stored_is : {s t : Bytes} → Path (Option DynamicError × Bytes) (none, s) (none, t) → t ≡ s
stored_is h = cc

-- `SetDynamicVersion` stores a version only if it is not empty, and the build's own or of the release of the
-- build: both parse as semantic versions, with the same three numbers. Then it is the version stored.
pub set_dynamic_version-SameRelease :
    (git_version dynamic stored stored' : Bytes)
    → set_dynamic_version git_version dynamic stored ≡ (none, stored')
    → (stored' ≡ dynamic)
      × (dynamic ≢ [])
      × ((dynamic ≡ git_version) ⊎ SameRelease dynamic (parsed_default git_version))
unfolding set_dynamic_version
set_dynamic_version-SameRelease git_version dynamic stored stored' h =
    elim (Option-cases (validate_dynamic_version dynamic git_version)) [
      | inl e ↦
          let (filled, origin) = validate_sound dynamic git_version e in
          (stored_is (rw (set_dynamic_version, e) at h), filled, origin)
      | inr (x, e) ↦ absurd (ground (arith, e))
    ]

unstamped_text : bytes_eq unset_build.git_version (codes "v0.0.0-master+$Format:%H$") ≡ false
unstamped_text = refl

unstamped_unparsed : parse_semantic unset_build.git_version ≡ err bad_extra
unfolding parse version_match skip_spaces dotted has_line_feed extra_match marked read_components
    check_pre_release split parse_uint read_extra
unstamped_unparsed = refl

-- In a build for which the linker sets no version, every version but the one that the build has is refused,
-- and the stored version stays.
pub unstamped_refused :
    (dynamic stored : Bytes)
    → dynamic ≢ unset_build.git_version
    → (e : DynamicError) × (set_dynamic_version unset_build.git_version dynamic stored
        ≡ (some e, stored))
unfolding set_dynamic_version
unstamped_refused dynamic stored other =
    elim (Option-cases (validate_dynamic_version dynamic unset_build.git_version)) [
      | inl e ↦ absurd (elim (validate_sound dynamic unset_build.git_version e).1 [
        | inl same ↦ other same
        | inr r ↦ cc (r.parsed_other, unstamped_unparsed)
      ])
      | inr (x, e) ↦ (x, rw (set_dynamic_version, e) refl)
    ]
