-- ===== src/Version/Access/Copies.antt =====
-- The copies of a version: on what `parse` returns they do not panic, and they keep the other parts.
use public_pkg.Common.{
  ℕ, ◌≤◌, Bool, List, [], ◌∷◌, Option, some, ok, ◌≡◌, refl, arith, length, get_elem?,
}
use public_pkg.Text.{Bytes}
use public_pkg.Version.{Version}
use public_pkg.Version.Parse.{parse}
use public_pkg.Version.Print.Sound.{parse-IsWellFormed}
use public_pkg.Version.Access.{
  major, minor, patch, with_major, with_minor, with_patch, with_pre_release, with_build_metadata,
}

-- A call that does not panic, and the numbers, the kind and the metadata of what it returns.
abbrev pub Returns : Option Version → ℕ → ℕ → ℕ → Bool → Bytes → Bytes → Type 0
Returns r a b c semver pre build =
    (v : Version) × (r ≡ some v)
    × (major v ≡ some a)
    × (minor v ≡ some b)
    × (patch v ≡ c)
    × (v.semver ≡ semver)
    × (v.pre_release ≡ pre)
    × (v.build_metadata ≡ build)

-- The version whose numbers are replaced by three.
numbered-Returns :
    (v : Version) (a b c : ℕ) (pre build : Bytes)
    → Returns
        (some (record v { components = a ∷ b ∷ c ∷ []; pre_release = pre; build_metadata = build }))
        a
        b
        c
        v.semver
        pre
        build
unfolding major minor patch
numbered-Returns v a b c pre build = (_, refl, refl, refl, refl, refl, refl, refl)

two_numbers :
    (ns : List ℕ)
    → 2 ≤ length ns
    → (a : ℕ) × (b : ℕ) × (get_elem? ns 0 ≡ some a) × (get_elem? ns 1 ≡ some b)
two_numbers [] h = absurd (omega arith)
two_numbers (a ∷ []) h = absurd (omega arith)
two_numbers (a ∷ b ∷ ns) h = (a, b, refl, refl)

module _ (v : Version) (a b n : ℕ) (s : Bytes) (ha : major v ≡ some a) (hb : minor v ≡ some b) where
  open v use {semver, pre_release, build_metadata}

  with_numbers :
      Returns (with_major n v) n b (patch v) semver pre_release build_metadata
      × Returns (with_minor n v) a n (patch v) semver pre_release build_metadata
      × Returns (with_patch n v) a b n semver pre_release build_metadata
  unfolding with_major with_minor with_patch
  with_numbers =
      rw (ha, hb)
        (
          numbered-Returns v n b (patch v) _ _,
          numbered-Returns v a n (patch v) _ _,
          numbered-Returns v a b n _ _,
        )

  with_metadata :
      Returns (with_pre_release s v) a b (patch v) semver s build_metadata
      × Returns (with_build_metadata s v) a b (patch v) semver pre_release s
  unfolding with_pre_release with_build_metadata
  with_metadata =
      rw (ha, hb) (numbered-Returns v a b (patch v) _ _, numbered-Returns v a b (patch v) _ _)

-- For every version that `parse` returned, `Major` and `Minor` do not panic, and neither does any of
-- the five copies, which has the part that was asked for and the other parts of the original.
copies_keep :
    (str : Bytes) (semver : Bool) (v : Version) (n : ℕ) (s : Bytes)
    → parse str semver ≡ ok v
    → (a : ℕ) × (b : ℕ) × (major v ≡ some a)
      × (minor v ≡ some b)
      × Returns (with_major n v) n b (patch v) v.semver v.pre_release v.build_metadata
      × Returns (with_minor n v) a n (patch v) v.semver v.pre_release v.build_metadata
      × Returns (with_patch n v) a b n v.semver v.pre_release v.build_metadata
      × Returns (with_pre_release s v) a b (patch v) v.semver s v.build_metadata
      × Returns (with_build_metadata s v) a b (patch v) v.semver v.pre_release s
unfolding major minor
copies_keep str semver v n s h =
    let (a, b, ha, hb) = two_numbers v.components (parse-IsWellFormed str semver v h).0.enough in
    let (one, two, three) = with_numbers v a b n s ha hb in
    let (four, five) = with_metadata v a b n s ha hb in (a, b, ha, hb, one, two, three, four, five)
