-- ===== src/I18n/Loads.antt =====
-- What New of pkg/i18n/i18n.go loads into its bundle.
use public_pkg.Common.{
  ℕ, ◌<◌, Bool, true, false, List, [], ◌∷◌, none, some, ◌≡◌, refl, Option-cases, inl, inr,
}
use public_pkg.Text.{Bytes}
use public_pkg.I18n.Tree.{Nodes}
use public_pkg.I18n.Tree.Files.{IsTree, size, all_files, read_fs-all_files}
use public_pkg.I18n.{
  Lib, Options, I18n, or_default, apply_all, load_walked, add, add_all, load_all, registered,
  add_fs, new, select,
}

module _ (l : Lib) where
  -- The files that a walk visits are loaded in their order, and its directories are not.
  pub data Walked : List (Bytes × Bool) → l.Bundle → l.Bundle → Type 0 where
    walk_ends : {b : l.Bundle} → Walked [] b b
    at_directory :
        {path : Bytes} {rest : List (Bytes × Bool)} {b b' : l.Bundle}
        → Walked rest b b'
        → Walked ((path, true) ∷ rest) b b'
    at_file :
        {path : Bytes} {rest : List (Bytes × Bool)} {b b' : l.Bundle}
        → Walked rest (l.load_file path b) b'
        → Walked ((path, false) ∷ rest) b b'

  -- A path of the options: nothing is there, a file, which is loaded, or a directory, which is walked.
  pub data Added : Bytes → l.Bundle → l.Bundle → Type 0 where
    no_path : {f : Bytes} {b : l.Bundle} → l.stat f ≡ none → Added f b b
    one_file : {f : Bytes} {b : l.Bundle} → l.stat f ≡ some false → Added f b (l.load_file f b)
    directory :
        {f : Bytes} {b b' : l.Bundle}
        → l.stat f ≡ some true
        → Walked (l.walked f) b b'
        → Added f b b'

  -- The paths of the options, each added to the bundle that the one before it left.
  pub data AddedAll : List Bytes → l.Bundle → l.Bundle → Type 0 where
    no_more : {b : l.Bundle} → AddedAll [] b b
    then_add :
        {f : Bytes} {files : List Bytes} {b b' b'' : l.Bundle}
        → Added f b b'
        → AddedAll files b' b''
        → AddedAll (f ∷ files) b b''

  -- The files of an embedded file system, each loaded into the bundle that the one before it left.
  pub data Embedded (fs : Nodes) : List Bytes → l.Bundle → l.Bundle → Type 0 where
    all_loaded : {b : l.Bundle} → Embedded fs [] b b
    then_load :
        {name : Bytes} {files : List Bytes} {b b' : l.Bundle}
        → Embedded fs files (l.load_file_fs fs name b) b'
        → Embedded fs (name ∷ files) b b'

  load_walked-Walked :
      (paths : List (Bytes × Bool)) (b : l.Bundle) → Walked paths b (load_walked l paths b)
  load_walked-Walked [] b = walk_ends
  load_walked-Walked ((path, true) ∷ rest) b = at_directory (load_walked-Walked rest b)
  load_walked-Walked ((path, false) ∷ rest) b =
      at_file (load_walked-Walked rest (l.load_file path b))

  add-Added : (f : Bytes) (b : l.Bundle) → Added f b (add l f b)
  unfolding add
  add-Added f b = elim (Option-cases (l.stat f)) [
    | inl e ↦ rw (add, e) (no_path e)
    | inr (true, e) ↦ rw (add, e) (directory e (load_walked-Walked (l.walked f) b))
    | inr (false, e) ↦ rw (add, e) (one_file e)
  ]

  add_all-AddedAll : (files : List Bytes) (b : l.Bundle) → AddedAll files b (add_all l files b)
  unfolding add_all
  add_all-AddedAll [] b = no_more
  add_all-AddedAll (f ∷ files) b = then_add (add-Added f b) (add_all-AddedAll files (add l f b))

  load_all-Embedded :
      (fs : Nodes) (files : List Bytes) (b : l.Bundle) → Embedded fs files b (load_all l fs files b)
  load_all-Embedded fs [] b = all_loaded
  load_all-Embedded fs (name ∷ files) b =
      then_load (load_all-Embedded fs files (l.load_file_fs fs name b))

  -- Where the separator of the system is a slash, `New` loads the files that the options name, in their order and
  -- with those that a walk of a named directory visits, and then every file of the embedded file system, in the
  -- order of the tree and whatever directory it is in.
  pub new-load_all :
      (fuel : ℕ) (options : List (Options l → Options l)) (ops : Options l)
      → apply_all l options (or_default l none) ≡ ops
      → IsTree ops.fs ops.fs
      → size ops.fs < fuel
      → (b : l.Bundle) × AddedAll ops.files
          (l.register (registered l ops.format) (l.new_bundle ops.language))
          b
        × Embedded ops.fs (all_files [] ops.fs) b (new l fuel b'/' options).1
  unfolding new add_fs
  new-load_all fuel options ops applied tree enough =
      let first = l.register (registered l ops.format) (l.new_bundle ops.language) in
      let b = add_all l ops.files first in
      (
        b,
        add_all-AddedAll ops.files first,
        rw (new, applied, read_fs-all_files fuel ops.fs tree enough)
            (load_all-Embedded ops.fs (all_files [] ops.fs) b),
      )

  -- A language that was selected is forgotten at the next selection, and the options are kept.
  select_again :
      (i : I18n l) (lang lang' : l.Tag) → select l (select l i lang) lang' ≡ select l i lang'
  unfolding select
  select_again i lang lang' = refl
