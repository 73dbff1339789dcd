-- ===== src/Util/Strings.antt =====
-- pkg/util/strings/strings.go, the functions on slices of strings.
use public_pkg.Common.{
  ℕ, suc, Bool, true, false, String, List, [], ◌∷◌, ◌++◌, none, some, ◌≡◌, refl, str_eq, eq_iff,
  if◌then◌else◌, lookup, insert, delete, arith,
}
use public_pkg.Common.Int.{ℤ, pos, negsuc, ltb_ℤ}

-- The map of a slice's strings, and the value read at a key, which is false where there is none.
unfoldable mark : List String → List (String × Bool) → List (String × Bool)
mark [] m = m
mark (s ∷ ss) m = mark ss (insert s true m)

abbrev is_marked : List (String × Bool) → String → Bool
is_marked m s = elim (lookup s m) [ some b ↦ b | none ↦ false ]

-- The loop of `Diff` that appends the strings which are not in the map.
unfoldable keep_unmarked : List (String × Bool) → List String → List String
keep_unmarked m [] = []
keep_unmarked m (s ∷ ss) = let rest = keep_unmarked m ss in if is_marked m s then rest else s ∷ rest

-- The loop of `Include` that appends the strings which are in the map.
unfoldable keep_marked : List (String × Bool) → List String → List String
keep_marked m [] = []
keep_marked m (s ∷ ss) = let rest = keep_marked m ss in if is_marked m s then s ∷ rest else rest

unfoldable diff : List String → List String → List String
unfolding mark keep_unmarked
diff base exclude = keep_unmarked (mark exclude []) base

unfoldable include : List String → List String → List String
unfolding mark keep_marked
include base strings = keep_marked (mark base []) strings

-- The loop of `FindString` from an index on.
unfoldable find_from : ℕ → List String → String → ℤ
find_from index [] str = negsuc 0
find_from index (s ∷ ss) str =
    let rest = find_from (suc index) ss str in if str_eq str s then pos index else rest

unfoldable find_string : List String → String → ℤ
unfolding find_from
find_string array str = find_from 0 array str

unfoldable pub string_in : String → List String → Bool
unfolding find_string
string_in str array = ltb_ℤ (negsuc 0) (find_string array str)

unfoldable filter : List String → String → List String
filter [] str_to_filter = []
filter (item ∷ list) str_to_filter =
    let new_list = filter list str_to_filter in
    if str_eq item str_to_filter then new_list else item ∷ new_list

unfoldable contains : List String → String → Bool
contains [] str_to_search = false
contains (item ∷ list) str_to_search =
    let rest = contains list str_to_search in if str_eq item str_to_search then true else rest

-- The loop of `Add` is the one of `Contains`.
unfoldable add : List String → String → List String
unfolding contains
add list str = if contains list str then list else list ++ str ∷ []

-- `strings.EqualFold` is the parameter `equal_fold`.
unfoldable contains_equal_fold : (String → String → Bool) → List String → String → Bool
contains_equal_fold equal_fold [] s = false
contains_equal_fold equal_fold (item ∷ slice) s =
    let rest = contains_equal_fold equal_fold slice s in if equal_fold item s then true else rest

find_from-contains :
    (index : ℕ) (list : List String) (str : String)
    → ltb_ℤ (negsuc 0) (find_from index list str) ≡ contains list str
unfolding find_from contains
find_from-contains index [] str = refl
find_from-contains index (item ∷ list) str =
    ground (arith, eq_iff str item, eq_iff item str, find_from-contains (suc index) list str)

-- `StringIn` and `Contains` are the same test.
string_in-contains : (str : String) (list : List String) → string_in str list ≡ contains list str
unfolding string_in find_string
string_in-contains str list = find_from-contains 0 list str

-- `Filter` leaves no occurrence.
contains-filter : (list : List String) (str : String) → contains (filter list str) str ≡ false
unfolding contains filter
contains-filter [] str = refl
contains-filter (item ∷ list) str = ground (arith, eq_iff item str, contains-filter list str)

abbrev sample : List String
sample = "a" ∷ "b" ∷ "c" ∷ []

sample-diff : diff sample ("b" ∷ []) ≡ "a" ∷ "c" ∷ []
unfolding diff mark keep_unmarked insert lookup delete
sample-diff = refl

sample-include : include sample ("d" ∷ "c" ∷ []) ≡ "c" ∷ []
unfolding include mark keep_marked insert lookup delete
sample-include = refl

sample_add : add sample "b" ≡ sample
unfolding add contains
sample_add = refl
