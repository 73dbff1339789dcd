-- ===== src/Version/Print/Components.antt =====
-- The printed components: the expression for the numbers matches all of them and nothing behind
-- them, and the loop of `parse` reads them back.
use public_pkg.Common.{
  ℕ, ◌≤◌, Bool, true, false, List, [], ◌∷◌, ◌++◌, map, append_assoc, append-nil, ok, ◌≡◌, ◌≢◌, refl,
  ap, All, arith,
}
use public_pkg.Text.{Bytes, is_digit}
use public_pkg.Text.Decimal.{
  format_uint, format_uint-digits, format_uint-ne-nil, IsDigit, max_uint, parse_uint-format_uint,
  format_uint_no_zero_prefix,
}
use public_pkg.Text.Split.{split, join, split-join, Lacks}
use public_pkg.Version.Parse.{dotted, starts, read_components}
use public_pkg.Version.Print.{print_components}

-- The expression with the class `p` matches the whole text.
abbrev pub IsDotted : (ℕ → Bool) → Bytes → Type 0
IsDotted p s = dotted p s ≡ (s, [])

-- It matches no byte of the text.
abbrev pub Stops : (ℕ → Bool) → Bytes → Type 0
Stops p s = dotted p s ≡ ([], s)

module _ (p : ℕ → Bool) where
  starts-append : (s rest : Bytes) → starts p s ≡ true → starts p (s ++ rest) ≡ true
  starts-append [] rest h = cc
  starts-append (c ∷ s) rest h = h

  pub dotted-append :
      (s rest : Bytes) → IsDotted p s → Stops p rest → dotted p (s ++ rest) ≡ (s, rest)
  unfolding dotted
  dotted-append [] rest h r = r
  dotted-append (c ∷ s) rest h r = ground (arith, dotted-append s rest, starts-append s rest)

  pub starts-dotted : (s : Bytes) → starts p s ≡ true → starts p (dotted p s).0 ≡ true
  unfolding dotted
  starts-dotted [] h = cc
  starts-dotted (c ∷ s) h = ground arith

  -- What the expression matches it matches again, and it stops where it stopped.
  pub dotted-IsDotted : (s : Bytes) → IsDotted p (dotted p s).0 × Stops p (dotted p s).1
  unfolding dotted
  dotted-IsDotted [] = (refl, refl)
  dotted-IsDotted (c ∷ s) = ground (arith, dotted-IsDotted s, starts-dotted s)

  dotted_run :
      (d rest : Bytes)
      → All (λ c. p c ≡ true) d
      → dotted p (d ++ rest) ≡ (d ++ (dotted p rest).0, (dotted p rest).1)
  unfolding dotted
  dotted_run [] rest h = refl
  dotted_run (c ∷ d) rest h = ground (arith, dotted_run d rest h.1)

-- The components as one text with a dot between them.
print_components-join :
    (n : ℕ) (ns : List ℕ) → print_components true (n ∷ ns) ≡ join b'.' (map format_uint (n ∷ ns))
unfolding print_components join
print_components-join n [] = append-nil (format_uint n)
print_components-join n (m ∷ ns) = ap (λ s. format_uint n ++ b'.' ∷ s) (print_components-join m ns)

digits-Lacks : (d : Bytes) → All IsDigit d → Lacks b'.' d
digits-Lacks [] h = tt
digits-Lacks (c ∷ d) h = (ground (arith, h.0), digits-Lacks d h.1)

prints-Lack : (ns : List ℕ) → All (Lacks b'.') (map format_uint ns)
prints-Lack [] = tt
prints-Lack (n ∷ ns) = (digits-Lacks (format_uint n) (format_uint-digits n), prints-Lack ns)

-- Cutting the printed components at the dots gives the prints of the components.
pub split-print_components :
    (n : ℕ) (ns : List ℕ) → split b'.' (print_components true (n ∷ ns)) ≡ map format_uint (n ∷ ns)
split-print_components n ns =
    rw (print_components-join n ns) (split-join b'.' _ _ (prints-Lack (n ∷ ns)))

starts-digits : (d rest : Bytes) → d ≢ [] → All IsDigit d → starts is_digit (d ++ rest) ≡ true
starts-digits [] rest h a = absurd (h refl)
starts-digits (c ∷ d) rest h a = a.0

pub starts-print_components :
    (n : ℕ) (ns : List ℕ) (rest : Bytes)
    → starts is_digit (print_components true (n ∷ ns) ++ rest) ≡ true
unfolding print_components
starts-print_components n ns rest =
    rw (append_assoc (format_uint n) (print_components false ns) rest)
      (starts-digits (format_uint n) _ (format_uint-ne-nil n) (format_uint-digits n))

dotted-format :
    (n : ℕ) (t rest : Bytes)
    → dotted is_digit (t ++ rest) ≡ (t, rest)
    → dotted is_digit ((format_uint n ++ t) ++ rest) ≡ (format_uint n ++ t, rest)
dotted-format n t rest h =
    rw (append_assoc (format_uint n) t rest)
      (rw (dotted_run is_digit (format_uint n) (t ++ rest) (format_uint-digits n)) (rw h))

dotted_dot :
    (s t rest : Bytes)
    → starts is_digit s ≡ true
    → dotted is_digit s ≡ (t, rest)
    → dotted is_digit (b'.' ∷ s) ≡ (b'.' ∷ t, rest)
unfolding dotted
dotted_dot s t rest h e = ground arith

dotted_tail :
    (ns : List ℕ) (rest : Bytes)
    → Stops is_digit rest
    → dotted is_digit (print_components false ns ++ rest) ≡ (print_components false ns, rest)
unfolding print_components
dotted_tail [] rest h = h
dotted_tail (n ∷ ns) rest h =
    dotted_dot _ _ rest (starts-print_components n ns rest)
      (dotted-format n _ rest (dotted_tail ns rest h))

-- The expression for the numbers matches the printed components, and nothing of what follows them if
-- that does not go on with a digit, or with a dot and a digit.
pub dotted-print_components :
    (n : ℕ) (ns : List ℕ) (rest : Bytes)
    → Stops is_digit rest
    → dotted is_digit (print_components true (n ∷ ns) ++ rest)
      ≡ (print_components true (n ∷ ns), rest)
unfolding print_components
dotted-print_components n ns rest h = dotted-format n _ rest (dotted_tail ns rest h)

-- The loop of `parse` reads the printed components back.
pub read-print_components :
    (semver first : Bool) (ns : List ℕ)
    → All (λ n. n ≤ max_uint) ns
    → read_components semver first (map format_uint ns) ≡ ok ns
unfolding read_components
read-print_components semver first [] h = refl
read-print_components semver first (n ∷ ns) h = ground (
  arith,
  format_uint_no_zero_prefix n,
  parse_uint-format_uint n,
  read-print_components semver false ns h.1,
)
