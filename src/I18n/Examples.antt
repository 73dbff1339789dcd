-- ===== src/I18n/Examples.antt =====
-- A file system with files in nested directories, and a bundle that is the paths it was given.
use public_pkg.Common.{false, String, List, [], ◌∷◌, ◌++◌, none, some, ◌≡◌, refl, arith, ◌<◌}
use public_pkg.Text.{Bytes, codes}
use public_pkg.Text.Split.{split}
use public_pkg.I18n.{Lib, Options, with_fs, with_file, new, apply_all, or_default}
use public_pkg.I18n.Tree.{
  Nodes, file, dir, end, item, find, walk, entries, read_entries, read_dir, read_fs,
}
use public_pkg.I18n.Tree.Files.{IsTree, size, all_files}
use public_pkg.I18n.Loads.{AddedAll, Embedded, new-load_all}

abbrev nested : Nodes
nested =
    item (codes "locales")
      (dir
        (item (codes "en.yml") file (item (codes "zh") (dir (item (codes "cn.yml") file end)) end)))
      (item (codes "top.yml") file end)

-- With the separator of Windows `readFS` finds no file in a directory of a directory, and the paths that it returns
-- for a directory's files are none of the file system: the package embed knows slashes only.
on_windows : read_fs 5 b'\\' nested (codes ".") ≡ codes "locales\\en.yml" ∷ codes "top.yml" ∷ []
unfolding read_fs read_dir read_entries entries walk find split
on_windows = refl

abbrev paths : Lib
paths = record {
  Tag = String;
  Bundle = List Bytes;
  Message = String;
  tag_text = λ s. s;
  english = "en";
  new_bundle = λ tag. [];
  register = λ format bundle. bundle;
  load_file = λ path bundle. bundle ++ path ∷ [];
  load_file_fs = λ fs path bundle. bundle ++ path ∷ [];
  localize = λ bundle lang message. none;
  id_message = λ s. s;
  id = λ s. s;
  stat = λ path. some false;
  walked = λ path. [];
}

abbrev chosen : List (Options paths → Options paths)
chosen =
    with_file paths (codes "extra.yml")
    ∷ with_file paths (codes "more.yml")
    ∷ with_fs paths nested
    ∷ []

nested-IsTree : IsTree nested nested
unfolding IsTree find
nested-IsTree = ground arith

size-nested : size nested < 6
unfolding size
size-nested = ground arith

abbrev settled : Options paths
settled = record {
  format = "yml";
  language = "en";
  files = codes "extra.yml" ∷ codes "more.yml" ∷ [];
  fs = nested;
}

settled_is : apply_all paths chosen (or_default paths none) ≡ settled
unfolding with_file with_fs
settled_is = refl

new-load_all_example :
    (b : List Bytes) × AddedAll paths (codes "extra.yml" ∷ codes "more.yml" ∷ []) [] b
    × Embedded paths nested (all_files [] nested) b (new paths 6 b'/' chosen).1
new-load_all_example = new-load_all paths 6 chosen settled settled_is nested-IsTree size-nested
