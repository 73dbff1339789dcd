-- ===== src/Util/File/Path.antt =====
-- GetIntraDir and GetParent of pkg/util/file/file.go, and what the file uses of the package
-- path/filepath, on paths that are separated by slashes.
use public_pkg.Common.{
  ℕ, zero, suc, ◌+◌, ◌-◌, ◌*◌, Bool, false, List, [], ◌∷◌, ◌++◌, Option, none, some, ◌==◌, ltb, leb,
  ◌&&◌, ◌||◌, if◌then◌else◌, length, drop,
}
use public_pkg.Common.Int.{ℤ, pos, ltb_ℤ, int64}
use public_pkg.Text.{Bytes, codes, is_empty, bytes_eq}
use public_pkg.Text.Split.{split, join}

abbrev pub is_rooted : Bytes → Bool
is_rooted [] = false
is_rooted (c ∷ s) = c == b'/'

-- One element of a path, on the stack of the elements before it.
abbrev pub back : Bool → List Bytes → List Bytes
back rooted [] = if rooted then [] else codes ".." ∷ []
back rooted (top ∷ stack) = if bytes_eq top (codes "..") then codes ".." ∷ top ∷ stack else stack

abbrev pub push : Bool → Bytes → List Bytes → List Bytes
push rooted part stack =
    if is_empty part || bytes_eq part (codes ".")
    then stack
    else if bytes_eq part (codes "..")
    then back rooted stack
    else part ∷ stack

abbrev pub push_all : Bool → List Bytes → List Bytes → List Bytes
push_all rooted [] stack = stack
push_all rooted (part ∷ parts) stack = push_all rooted parts (push rooted part stack)

abbrev pub rev_onto : List Bytes → List Bytes → List Bytes
rev_onto [] out = out
rev_onto (x ∷ xs) out = rev_onto xs (x ∷ out)

abbrev pub or_dot : Bytes → Bytes
or_dot [] = codes "."
or_dot (c ∷ s) = c ∷ s

-- `filepath.Clean`
unfoldable pub clean : Bytes → Bytes
unfolding split join
clean path =
    let rooted = is_rooted path in
    or_dot (
      (if rooted then b'/' ∷ [] else [])
      ++ join b'/' (rev_onto (push_all rooted (split b'/' path) []) []))

-- `filepath.Join` of two elements
unfoldable pub path_join : Bytes → Bytes → Bytes
unfolding clean
path_join [] [] = []
path_join [] (c ∷ s) = clean (c ∷ s)
path_join (c ∷ s) name = clean ((c ∷ s) ++ b'/' ∷ name)

-- What is before and with the last slash.
abbrev up_to_slash : Bytes → Bytes → Bytes → Bytes
up_to_slash seen found [] = found
up_to_slash seen found (c ∷ s) =
    let seen = seen ++ c ∷ [] in up_to_slash seen (if c == b'/' then seen else found) s

-- `filepath.Dir`
unfoldable pub dir : Bytes → Bytes
unfolding clean
dir path = clean (up_to_slash [] [] path)

abbrev ends_in_slash : Bytes → Bool
ends_in_slash [] = false
ends_in_slash (c ∷ []) = c == b'/'
ends_in_slash (c ∷ d ∷ s) = ends_in_slash (d ∷ s)

-- What `GetParent` ends in: a pointer that may be nil, or the panic of slicing an empty path.
pub data Parent : Type 0 where
  returned : Option Bytes → Parent
  panicked : Parent

-- `GetParent`
unfoldable pub get_parent : Bytes → Parent
unfolding clean
get_parent [] = panicked
get_parent (c ∷ s) =
    if ends_in_slash (c ∷ s)
    then returned none
    else returned (some (clean ((c ∷ s) ++ codes "/..")))

abbrev pub take : ℕ → Bytes → Bytes
take zero s = []
take (suc n) [] = []
take (suc n) (c ∷ s) = c ∷ take n s

-- `pattern[i:j]`, which panics out of range.
unfoldable pub slice : Bytes → ℕ → ℕ → Option Bytes
slice pattern i j =
    if leb i j && leb j (length pattern) then some (take (j - i) (drop i pattern)) else none

-- The loop of `GetIntraDir`, from `i` for that many rounds. Its products are below 2^63 until a slice is
-- out of range.
unfoldable pub add_levels : Bytes → ℕ → ℕ → ℕ → Bytes → Option Bytes
unfolding path_join
add_levels pattern len i zero intra_dir = some intra_dir
add_levels pattern len i (suc rounds) intra_dir = elim (slice pattern (len * i) (len * (i + 1))) [
  | none ↦ none
  | some part ↦ add_levels pattern len (i + 1) rounds (path_join intra_dir part)
]

-- `GetIntraDir`; `none` is a panic.
unfoldable pub get_intra_dir : Bytes → ℤ → ℤ → Option Bytes
unfolding add_levels
get_intra_dir pattern (pos depth) (pos len) =
    if ltb depth 1 || ltb len 1 || ltb_ℤ (pos (length pattern)) (int64 (pos (depth * len)))
    then some []
    else elim (slice pattern 0 len) [
      | none ↦ none
      | some first ↦ add_levels pattern len 1 (depth - 1) first
    ]
get_intra_dir pattern depth len = some []
