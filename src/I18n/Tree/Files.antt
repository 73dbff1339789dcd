-- ===== src/I18n/Tree/Files.antt =====
-- The files that readFS of pkg/i18n/i18n.go lists, beside those of the tree.
use public_pkg.Common.{
  ℕ, zero, suc, ◌≤◌, ◌<◌, ◌+◌, false, List, [], ◌∷◌, ◌++◌, some, ◌≡◌, ◌≢◌, refl, sym, ap, arith,
  append_assoc, Option-cases, inl, inr,
}
use public_pkg.Text.{Bytes, codes, bytes_eq}
use public_pkg.Text.Split.{split, split_last, Lacks}
use public_pkg.I18n.Tree.{
  Node, Nodes, file, dir, end, item, find, walk, entries, read_dir, read_entries, read_fs,
  entry_path,
}

abbrev pub IsName : Bytes → Type 0
IsName name = (bytes_eq name (codes ".") ≡ false) × Lacks b'/' name

-- A directory as the package embed has it: its names are no dot and have no slash, each of them finds its own entry,
-- and its directories are alike. The entries of the second argument are some of those of the first.
unfoldable pub IsTree : Nodes → Nodes → Type 0
unfolding find
IsTree all end = Unit {0}
IsTree all (item name file rest) = IsName name × (find name all ≡ some file) × IsTree all rest
IsTree all (item name (dir nodes) rest) =
    IsName name × (find name all ≡ some (dir nodes)) × IsTree nodes nodes × IsTree all rest

-- How many files and directories there are.
unfoldable pub size : Nodes → ℕ
size end = 0
size (item name file rest) = suc (size rest)
size (item name (dir nodes) rest) = suc (size nodes + size rest)

-- The paths of the files, behind a prefix.
unfoldable pub all_files : Bytes → Nodes → List Bytes
all_files prefix end = []
all_files prefix (item name file rest) = (prefix ++ name) ∷ all_files prefix rest
all_files prefix (item name (dir nodes) rest) =
    all_files ((prefix ++ name) ++ b'/' ∷ []) nodes ++ all_files prefix rest

split_parts : (sep : ℕ) (s : Bytes) → split sep s ≢ []
unfolding split
split_parts sep [] = λ h. cc
split_parts sep (c ∷ s) = ground (arith, split_parts sep s)

split_behind :
    (sep : ℕ) (path name : Bytes)
    → Lacks sep name
    → split sep (path ++ sep ∷ name) ≡ split sep path ++ name ∷ []
unfolding split
split_behind sep [] name h = ground (arith, split_last sep name h)
split_behind sep (c ∷ path) name h =
    ground (arith, split_behind sep path name h, split_parts sep path)

walk-append :
    (names : List Bytes) (name : Bytes) (top node : Node) (nodes : Nodes)
    → walk names top ≡ some (dir nodes)
    → find name nodes ≡ some node
    → walk (names ++ name ∷ []) top ≡ some node
unfolding walk
walk-append [] name file node nodes h f = cc
walk-append [] name (dir inside) node nodes h f = ground (arith, f)
walk-append (n ∷ names) name file node nodes h f = cc
walk-append (n ∷ names) name (dir inside) node nodes h f = elim (Option-cases (find n inside)) [
  | inl e ↦ absurd (ground (arith, e))
  | inr (child, e) ↦ rw (walk, e) (walk-append names name child node nodes (rw (walk, e) at h) f)
]

-- Where the entries of a directory are found.
record Located (root : Nodes) (path prefix : Bytes) (all : Nodes) : Type 0 where
  entry : (name : Bytes) → entry_path b'/' path name ≡ prefix ++ name
  reached :
      (name : Bytes) (node : Node)
      → IsName name
      → find name all ≡ some node
      → walk (split b'/' (prefix ++ name)) (dir root) ≡ some node
  no_dot : (name : Bytes) → IsName name → bytes_eq (prefix ++ name) (codes ".") ≡ false

at_root : (root : Nodes) → Located root (codes ".") [] root
unfolding walk
at_root root = record {
  entry = λ name. refl;
  reached = λ name node n f. rw (split_last b'/' name n.1) (rw (walk, f) refl);
  no_dot = λ name n. n.0;
}

dotless : (prefix name : Bytes) → bytes_eq (prefix ++ b'/' ∷ name) (codes ".") ≡ false
dotless [] name = refl
dotless (c ∷ []) name = ground arith
dotless (c ∷ d ∷ prefix) name = ground arith

below :
    (root : Nodes) (path : Bytes) (nodes : Nodes)
    → bytes_eq path (codes ".") ≡ false
    → walk (split b'/' path) (dir root) ≡ some (dir nodes)
    → Located root path (path ++ b'/' ∷ []) nodes
below root path nodes d h = record {
  entry = λ name. rw d (sym (append_assoc path (b'/' ∷ []) name));
  reached = λ name node n f.
      rw (append_assoc path (b'/' ∷ []) name, split_behind b'/' path name n.1)
        (walk-append (split b'/' path) name (dir root) node nodes h f);
  no_dot = λ name n. rw (append_assoc path (b'/' ∷ []) name) (dotless path name);
}

-- Every directory below is listed by `sub`, if it has fewer than `fuel` entries.
Lists : (sub : Bytes → List Bytes) (fuel : ℕ) (root : Nodes) → Type 0
Lists sub fuel root =
    (path : Bytes) (nodes : Nodes)
    → bytes_eq path (codes ".") ≡ false
    → walk (split b'/' path) (dir root) ≡ some (dir nodes)
    → IsTree nodes nodes
    → size nodes < fuel
    → sub path ≡ all_files (path ++ b'/' ∷ []) nodes

entries_listed :
    (sub : Bytes → List Bytes) (fuel : ℕ) (root : Nodes) (path prefix : Bytes) (all some_of : Nodes)
    → Lists sub fuel root
    → Located root path prefix all
    → IsTree all some_of
    → size some_of ≤ fuel
    → read_entries sub b'/' path (entries some_of) ≡ all_files prefix some_of
unfolding read_entries entries all_files size IsTree Lists
entries_listed sub fuel root path prefix all end lists at tree s = refl
entries_listed sub fuel root path prefix all (item name file rest) lists at (n, f, tree) s =
    rw (at.entry name) (
      ap (λ t. (prefix ++ name) ∷ t)
        (entries_listed sub fuel root path prefix all rest lists at tree (omega arith)))
entries_listed sub fuel root path prefix all (item name (dir nodes) rest) lists at
      (n, f, inner, tree) s =
    rw
      (
        at.entry name,
        lists (prefix ++ name) nodes (at.no_dot name n) (at.reached name (dir nodes) n f) inner
            (omega arith),
        entries_listed sub fuel root path prefix all rest lists at tree (omega arith),
      )
      refl

read_fs-Lists : (fuel : ℕ) (root : Nodes) → Lists (read_fs fuel b'/' root) fuel root
unfolding read_fs read_dir Lists
read_fs-Lists zero root path nodes d h tree s = ground arith
read_fs-Lists (suc fuel) root path nodes d h tree s =
    rw (read_fs, d, h)
      (entries_listed (read_fs fuel b'/' root) fuel root path (path ++ b'/' ∷ []) nodes nodes
        (read_fs-Lists fuel root) (below root path nodes d h) tree (omega arith))

-- Where the separator of the system is a slash, `readFS` returns the paths of all files of an embedded file
-- system, each once and in the order of the directories; as many calls in one another as there are files and
-- directories, and one more, are enough.
pub read_fs-all_files :
    (fuel : ℕ) (root : Nodes)
    → IsTree root root
    → size root < fuel
    → read_fs fuel b'/' root (codes ".") ≡ all_files [] root
unfolding read_fs read_dir
read_fs-all_files zero root tree s = elim s [ ]
read_fs-all_files (suc fuel) root tree s =
    entries_listed (read_fs fuel b'/' root) fuel root (codes ".") [] root root
      (read_fs-Lists fuel root) (at_root root) tree (omega arith)
