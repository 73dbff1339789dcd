-- ===== src/Version/Print/RoundTrip.antt =====
-- `parse` and `String` are inverse to one another on the versions that `parse` returns.
use public_pkg.Common.{
  ℕ, suc, ◌≤◌, Bool, true, false, List, [], ◌∷◌, ◌++◌, map, append-nil, some, ok, ◌≡◌, refl, ◌∙◌,
  ap, ◌==◌, All, arith, length, ◌⊎◌, inl, inr,
}
use public_pkg.Text.{Bytes, is_digit}
use public_pkg.Text.Decimal.{max_uint, format_uint}
use public_pkg.Text.Split.{split}
use public_pkg.Version.{Version}
use public_pkg.Version.Parse.{
  dotted, starts, version_match, extra_match, marked, has_line_feed, skip_spaces, check_pre_release,
  is_ident, parse, parse_generic, read_extra, wrong_count,
}
use public_pkg.Version.Print.{print_components, print_mark, to_string}
use public_pkg.Version.Print.Components.{
  IsDotted, Stops, dotted-append, split-print_components, starts-print_components,
  dotted-print_components, read-print_components,
}

-- Empty, or identifiers of letters, digits and hyphens with a dot between two of them.
abbrev pub IsIdents : Bytes → Type 0
IsIdents s = (s ≡ []) ⊎ ((starts is_ident s ≡ true) × IsDotted is_ident s)

-- What `parse` returns: two or more components, three and well-formed metadata in a semantic version.
pub record IsWellFormed (v : Version) : Type 0 where
  pub bounded : All (λ n. n ≤ max_uint) v.components
  pub enough : 2 ≤ length v.components
  pub three : v.semver ≡ true → length v.components ≡ 3
  pub pre_idents : IsIdents v.pre_release
  pub build_idents : IsIdents v.build_metadata
  pub pre_numbers : check_pre_release (split b'.' v.pre_release) ≡ ok tt
  pub generic_pre : v.semver ≡ false → v.pre_release ≡ []
  pub generic_build : v.semver ≡ false → v.build_metadata ≡ []

version_match-digits :
    (s numbers extra : Bytes)
    → starts is_digit s ≡ true
    → dotted is_digit s ≡ (numbers, extra)
    → has_line_feed extra ≡ false
    → version_match s ≡ some (numbers, extra)
unfolding version_match skip_spaces
version_match-digits [] numbers extra h e l = cc
version_match-digits (c ∷ s) numbers extra h e l = ground arith

-- A marked part is matched, if what follows cannot be a part of it.
marked-print :
    (mark : ℕ) (s rest : Bytes)
    → IsIdents s
    → Stops is_ident rest
    → marked mark rest ≡ ([], rest)
    → marked mark (print_mark mark s ++ rest) ≡ (s, rest)
unfolding marked
marked-print mark [] rest h r e = e
marked-print mark (c ∷ s) rest (inl h) r e = cc
marked-print mark (c ∷ s) rest (inr (h, d)) r e =
    ground (arith, dotted-append is_ident (c ∷ s) rest d r)

build_tail :
    (s : Bytes)
    → Stops is_ident (print_mark b'+' s)
      × (marked b'-' (print_mark b'+' s) ≡ ([], print_mark b'+' s))
unfolding dotted marked
build_tail [] = (refl, refl)
build_tail (c ∷ s) = (refl, refl)

extra_match-print :
    (pre build : Bytes)
    → IsIdents pre
    → IsIdents build
    → extra_match (print_mark b'-' pre ++ print_mark b'+' build) ≡ some (pre, build)
unfolding extra_match skip_spaces
extra_match-print pre build hp hb =
    let (stops, other) = build_tail build in
    let alone : marked b'+' (print_mark b'+' build) ≡ (build, []) =
      rw (append-nil (print_mark b'+' build)) at
        (marked-print b'+' build [] hb (unfold dotted in refl) (unfold marked in refl)) in
    ground (arith, marked-print b'-' pre (print_mark b'+' build) hp stops other, alone)

-- Neither the metadata nor what marks them can be taken for a number or a line feed.
line_feed-idents : (s : Bytes) → IsDotted is_ident s → has_line_feed s ≡ false
unfolding dotted has_line_feed
line_feed-idents [] h = refl
line_feed-idents (c ∷ s) h = ground (arith, line_feed-idents s)

line_feed-mark :
    (mark : ℕ) (s : Bytes)
    → (mark == 10) ≡ false
    → IsIdents s
    → has_line_feed (print_mark mark s) ≡ false
unfolding has_line_feed
line_feed-mark mark [] m h = refl
line_feed-mark mark (c ∷ s) m (inl h) = cc
line_feed-mark mark (c ∷ s) m (inr (h, d)) = ground (arith, line_feed-idents (c ∷ s) d)

line_feed-append :
    (s t : Bytes)
    → has_line_feed s ≡ false
    → has_line_feed t ≡ false
    → has_line_feed (s ++ t) ≡ false
unfolding has_line_feed
line_feed-append [] t hs ht = ht
line_feed-append (c ∷ s) t hs ht = ground (arith, line_feed-append s t)

abbrev extra_of : Version → Bytes
extra_of v = print_mark b'-' v.pre_release ++ print_mark b'+' v.build_metadata

extra-Stops : (pre build : Bytes) → Stops is_digit (print_mark b'-' pre ++ print_mark b'+' build)
unfolding dotted
extra-Stops [] [] = refl
extra-Stops [] (c ∷ s) = refl
extra-Stops (c ∷ s) build = refl

length-prints : (ns : List ℕ) → length (map format_uint ns) ≡ length ns
length-prints [] = refl
length-prints (n ∷ ns) = ap suc (length-prints ns)

-- The steps of `parse` up to the metadata, on printed components.
parse-steps :
    (semver : Bool) (n : ℕ) (ns : List ℕ) (extra : Bytes)
    → All (λ n. n ≤ max_uint) (n ∷ ns)
    → wrong_count semver (suc (length ns)) ≡ false
    → Stops is_digit extra
    → has_line_feed extra ≡ false
    → parse (print_components true (n ∷ ns) ++ extra) semver ≡ read_extra semver (n ∷ ns) extra
unfolding parse
parse-steps semver n ns extra h count st l = rw (
  version_match-digits _ _ extra (starts-print_components n ns extra)
      (dotted-print_components n ns extra st) l,
  split-print_components n ns,
  length-prints ns,
  count,
  read-print_components semver true (n ∷ ns) h,
)

-- `ParseGeneric` reads the printed components of two or more numbers back, whatever follows them, if
-- that does not go on with a digit, or a dot and a digit, and holds no line feed.
parse_generic-print_components :
    (n m : ℕ) (ns : List ℕ) (extra : Bytes)
    → All (λ n. n ≤ max_uint) (n ∷ m ∷ ns)
    → Stops is_digit extra
    → has_line_feed extra ≡ false
    → parse_generic (print_components true (n ∷ m ∷ ns) ++ extra)
      ≡ ok (record {
        components = n ∷ m ∷ ns;
        semver = false;
        pre_release = [];
        build_metadata = [];
      })
unfolding parse
parse_generic-print_components n m ns extra h st l =
    rw (parse-steps false n (m ∷ ns) extra h (ground arith) st l)

read_extra-print :
    (nums : List ℕ) (pre build : Bytes)
    → IsIdents pre
    → IsIdents build
    → check_pre_release (split b'.' pre) ≡ ok tt
    → read_extra true nums (print_mark b'-' pre ++ print_mark b'+' build)
      ≡ ok (record { components = nums; semver = true; pre_release = pre; build_metadata = build })
unfolding read_extra
read_extra-print nums [] [] hp hb c = refl
read_extra-print nums [] (b ∷ build) hp hb c = rw (extra_match-print [] (b ∷ build) hp hb, c)
read_extra-print nums (p ∷ pre) build hp hb c = rw (extra_match-print (p ∷ pre) build hp hb, c)

abbrev version : List ℕ → Bool → Bytes → Bytes → Version
version ns semver pre build = record {
  components = ns;
  semver = semver;
  pre_release = pre;
  build_metadata = build;
}

metadata_line_feed :
    (pre build : Bytes)
    → IsIdents pre
    → IsIdents build
    → has_line_feed (print_mark b'-' pre ++ print_mark b'+' build) ≡ false
metadata_line_feed pre build hp hb =
    line_feed-append _ _ (line_feed-mark b'-' pre refl hp) (line_feed-mark b'+' build refl hb)

parse-print_fields :
    (ns : List ℕ) (semver : Bool) (pre build : Bytes)
    → IsWellFormed (version ns semver pre build)
    → parse (to_string (some (version ns semver pre build))) semver
      ≡ ok (version ns semver pre build)
unfolding to_string read_extra
parse-print_fields [] semver pre build w = absurd (omega (arith, w.enough))
parse-print_fields (n ∷ []) semver pre build w = absurd (omega (arith, w.enough))
parse-print_fields (n ∷ m ∷ ns) true pre build w =
    parse-steps true n (m ∷ ns) _ w.bounded (ground (arith, w.three refl)) (extra-Stops pre build)
      (metadata_line_feed pre build w.pre_idents w.build_idents)
    ∙ read_extra-print (n ∷ m ∷ ns) pre build w.pre_idents w.build_idents w.pre_numbers
parse-print_fields (n ∷ m ∷ ns) false pre build w =
    rw (w.generic_pre refl, w.generic_build refl)
      (parse-steps false n (m ∷ ns) [] w.bounded (ground arith) (extra-Stops [] [])
        (unfold has_line_feed in refl))

-- Every well-formed version is read back from its string, by the parser for its kind.
pub parse-to_string : (v : Version) → IsWellFormed v → parse (to_string (some v)) v.semver ≡ ok v
parse-to_string v w = parse-print_fields v.components v.semver v.pre_release v.build_metadata w
