-- ===== src/Version/Access/Highest.antt =====
-- What `HighestSupportedVersion` returns.
use mathlib.Core.List.{Memᴰ}
use public_pkg.Common.{
  true, false, List, [], ◌∷◌, none, some, Result, ok, err, ◌≡◌, ◌≢◌, refl, arith, Option-cases,
  Result-cases, ◌⊎◌, inl, inr,
}
use public_pkg.Common.Int.{pos}
use public_pkg.Text.{Bytes}
use public_pkg.Version.{Version}
use public_pkg.Version.Parse.{ParseError, parse_generic}
use public_pkg.Version.Print.Sound.{parse-IsWellFormed}
use public_pkg.Version.Compare.{less_than, compare_internal, compare_components}
use public_pkg.Version.Compare.Antisymmetry.{components-negate, at_least_total}
use public_pkg.Version.Compare.Transitive.{not_above_trans}
use public_pkg.Version.Access.{
  major, above_one, consider, Search, search_highest, highest_supported_version,
}

-- Between generic versions only the numbers count.
less_than-not_above :
    (h u : Version)
    → u.semver ≡ false
    → less_than h u ≡ false
    → compare_components u.components h.components ≢ pos 1
unfolding less_than compare_internal
less_than-not_above h u g e e' = ground (arith, components-negate u.components h.components)

not_above-less_than :
    (h u : Version)
    → u.semver ≡ false
    → compare_components u.components h.components ≢ pos 1
    → less_than h u ≡ false
unfolding less_than compare_internal
not_above-less_than h u g n = ground (arith, components-negate u.components h.components)

less_than-below :
    (h v : Version)
    → v.semver ≡ false
    → less_than h v ≡ true
    → compare_components h.components v.components ≢ pos 1
unfolding less_than compare_internal
less_than-below h v g e e' = ground arith

-- A greater version that replaces the highest one so far is still not below what that was not below.
replaced :
    (h v u : Version)
    → v.semver ≡ false
    → u.semver ≡ false
    → less_than h v ≡ true
    → less_than h u ≡ false
    → less_than v u ≡ false
replaced h v u gv gu l n = not_above-less_than v u gu (
    not_above_trans u.components h.components v.components (less_than-not_above h u gu n)
      (less_than-below h v gv l))

-- The loop has a highest version as soon as one string is accepted.
considered-ne-none :
    (s : Search) (r : Result ParseError Version) → s.highest ≢ none → (consider s r).highest ≢ none
considered-ne-none s r h e = ground arith

accepted-ne-none :
    (s : Search) (u : Version) → above_one (major u) ≡ false → (consider s (ok u)).highest ≢ none
accepted-ne-none s u one e = ground arith

search_found :
    {str : Bytes} {strs : List Bytes} (u : Version)
    → Memᴰ str strs
    → parse_generic str ≡ ok u
    → above_one (major u) ≡ false
    → (search_highest strs).highest ≢ none
unfolding search_highest
search_found u (Memᴰ.head {xs = xs} e) p one =
    rw (← e, p) (accepted-ne-none (search_highest xs) u one)
search_found u (Memᴰ.tail {x = x} {xs = xs} m) p one =
    considered-ne-none (search_highest xs) (parse_generic x) (search_found u m p one)

-- One round keeps what is not below `u`, if the round's own version is generic.
consider-greatest :
    (s : Search) (r : Result ParseError Version) (h u : Version)
    → ((v : Version) → r ≡ ok v → v.semver ≡ false)
    → u.semver ≡ false
    → s.highest ≢ none
    → ((h : Version) → s.highest ≡ some h → less_than h u ≡ false)
    → (consider s r).highest ≡ some h
    → less_than h u ≡ false
consider-greatest s (err x) h u gen gu found before e = before h e
consider-greatest s (ok v) h u gen gu found before e = elim (Option-cases s.highest) [
  | inl n ↦ absurd (found n)
  | inr (h0, e0) ↦ ground (arith, before h0, before h, replaced h0 v u (gen v refl) gu)
]

accepted-greatest :
    (s : Search) (h u : Version)
    → above_one (major u) ≡ false
    → (consider s (ok u)).highest ≡ some h
    → less_than h u ≡ false
accepted-greatest s h u one e = ground (arith, at_least_total u u, irrefl u)
  where
    irrefl : (v : Version) → less_than v v ≡ false
    irrefl v = ground (arith, at_least_total v v)

search-greatest :
    {str : Bytes} {strs : List Bytes} (h u : Version)
    → Memᴰ str strs
    → parse_generic str ≡ ok u
    → above_one (major u) ≡ false
    → (search_highest strs).highest ≡ some h
    → less_than h u ≡ false
unfolding search_highest
search-greatest h u (Memᴰ.head {xs = xs} e) p one found =
    accepted-greatest (search_highest xs) h u one (rw (← e, p) at found)
search-greatest {str} h u (Memᴰ.tail {x = x} {xs = xs} m) p one found =
    consider-greatest (search_highest xs) (parse_generic x) h u
      (λ v e. (parse-IsWellFormed x false v e).1) (parse-IsWellFormed str false u p).1
      (search_found u m p one) (λ h' e. search-greatest h' u m p one e) found

kept_or_new :
    (s : Search) (v h : Version)
    → (consider s (ok v)).highest ≡ some h
    → (s.highest ≡ some h) ⊎ (v ≡ h)
kept_or_new s v h e = ground arith

-- The result comes from one of the strings, and its major number is 1.
search_from :
    (strs : List Bytes) (h : Version)
    → (search_highest strs).highest ≡ some h
    → (str : Bytes) × Memᴰ str strs × (parse_generic str ≡ ok h)
unfolding search_highest
search_from [] h e = absurd (cc)
search_from (str ∷ strs) h e = elim (Result-cases (parse_generic str)) [
  | inr (x, bad) ↦ let (s, m, p) = search_from strs h (rw bad at e) in (s, Memᴰ.tail m, p)
  | inl (v, good) ↦ elim (kept_or_new (search_highest strs) v h (rw good at e)) [
    | inl old ↦ let (s, m, p) = search_from strs h old in (s, Memᴰ.tail m, p)
    | inr new ↦ (str, Memᴰ.head refl, rw new at good)
  ]
]

concluded :
    (strs : List Bytes) (h : Version)
    → highest_supported_version strs ≡ ok h
    → ((search_highest strs).highest ≡ some h) × (major h ≡ some 1)
unfolding highest_supported_version
concluded [] h e = absurd (cc)
concluded (str ∷ strs) h e = ground arith

-- What `HighestSupportedVersion` returns is the version of one of the strings, and is a v1.
highest_supported_version_from :
    (strs : List Bytes) (h : Version)
    → highest_supported_version strs ≡ ok h
    → (major h ≡ some 1) × ((str : Bytes) × Memᴰ str strs × (parse_generic str ≡ ok h))
highest_supported_version_from strs h e =
    let (found, one) = concluded strs h e in (one, search_from strs h found)

-- What `HighestSupportedVersion` returns is not below the version of any of the strings whose major
-- number is at most 1.
pub highest_supported_version_greatest :
    (strs : List Bytes) (h : Version) (str : Bytes) (u : Version)
    → highest_supported_version strs ≡ ok h
    → Memᴰ str strs
    → parse_generic str ≡ ok u
    → above_one (major u) ≡ false
    → less_than h u ≡ false
highest_supported_version_greatest strs h str u e m p one =
    search-greatest h u m p one (concluded strs h e).0
