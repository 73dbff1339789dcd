-- ===== src/I18n/Tree.antt =====
-- readFS of pkg/i18n/i18n.go: the files of an embedded file system, which is a tree. Like the package embed, the
-- tree separates the names of a path by slashes on every system.
pub mod Files
use public_pkg.Common.{
  ℕ, zero, suc, Bool, true, false, List, [], ◌∷◌, ◌++◌, Option, none, some, if◌then◌else◌, ◌==◌,
  leb,
}
use public_pkg.Text.{Bytes, codes, bytes_eq}
use public_pkg.Text.Split.{split}

mutual
  pub data Node : Type 0 where
    file : Node
    dir : Nodes → Node

  pub data Nodes : Type 0 where
    end : Nodes
    item : Bytes → Node → Nodes → Nodes

unfoldable pub find : Bytes → Nodes → Option Node
find name end = none
find name (item other node rest) =
    let found = find name rest in if bytes_eq other name then some node else found

abbrev pub enter : Bytes → Node → Option Node
enter name file = none
enter name (dir nodes) = find name nodes

-- The node at the names of a path.
unfoldable pub walk : List Bytes → Node → Option Node
walk [] node = some node
walk (name ∷ path) node = elim (enter name node) [ none ↦ none | some child ↦ walk path child ]

abbrev pub is_dir : Node → Bool
is_dir file = false
is_dir (dir nodes) = true

-- The entries of a directory: names, and whether they are directories.
unfoldable pub entries : Nodes → List (Bytes × Bool)
entries end = []
entries (item name node rest) = (name, is_dir node) ∷ entries rest

-- `fs.ReadDir`; `none` is an error.
unfoldable pub read_dir : Nodes → Bytes → Option (List (Bytes × Bool))
unfolding split walk entries
read_dir root path =
    if bytes_eq path (codes ".")
    then some (entries root)
    else elim (walk (split b'/' path) (dir root)) [
      | none ↦ none
      | some file ↦ none
      | some (dir nodes) ↦ some (entries nodes)
    ]

-- `name` of the loop of `readFS`; `sep` is `os.PathSeparator`.
abbrev pub entry_path : ℕ → Bytes → Bytes → Bytes
entry_path sep path name = if bytes_eq path (codes ".") then name else path ++ sep ∷ name

-- The loop of `readFS`; `sub` lists a directory.
unfoldable pub read_entries : (Bytes → List Bytes) → ℕ → Bytes → List (Bytes × Bool) → List Bytes
read_entries sub sep path [] = []
read_entries sub sep path ((name, is_dir) ∷ rest) =
    let tail = read_entries sub sep path rest in
    let path = entry_path sep path name in (if is_dir then sub path else path ∷ []) ++ tail

-- `readFS`, on fuel
unfoldable pub read_fs : ℕ → ℕ → Nodes → Bytes → List Bytes
unfolding read_dir read_entries
read_fs zero sep root path = []
read_fs (suc fuel) sep root path = elim (read_dir root path) [
  | none ↦ []
  | some dirs ↦ read_entries (read_fs fuel sep root) sep path dirs
]
