-- ===== src/Util/File.antt =====
-- The functions of pkg/util/file/file.go on files and directories. The operating system is the parameter
-- `Fs`; no other process acts between two calls of one function.
pub mod Path
pub mod Levels
pub mod Move
mod Examples
use public_pkg.Common.{
  Bool, true, false, List, [], ◌∷◌, Option, none, some, Result, ok, err, if◌then◌else◌,
}
use public_pkg.Text.{Bytes}
use public_pkg.Util.File.Path.{path_join, dir}

-- `stat` says whether it is a directory, `copy` is `io.Copy` to the first path from the second, and
-- `content` is what a file has.
pub record Fs : Type 1 where
  pub State : Type 0
  pub Fault : Type 0
  pub is_not_exist : Fault → Bool
  pub stat : State → Bytes → Result Fault Bool
  pub open_file : State → Bytes → Option Fault
  pub read_dir_names : State → Bytes → Result Fault (List Bytes)
  pub read_dir : State → Bytes → Result Fault (List (Bytes × Bool))
  pub create : State → Bytes → Option Fault × State
  pub mkdir : State → Bytes → Option Fault × State
  pub mkdir_all : State → Bytes → Option Fault × State
  pub remove : State → Bytes → Option Fault × State
  pub remove_all : State → Bytes → Option Fault × State
  pub close : State → Bytes → Option Fault × State
  pub rename : State → Bytes → Bytes → Option Fault × State
  pub copy : State → Bytes → Bytes → Option Fault × State
  pub write : State → Bytes → Bytes → Option Fault × State
  pub content : State → Bytes → Option Bytes

pub data FileError (F : Type 0) : Type 0 where
  fault cannot_ensure_path write_error : F → FileError F
  not_a_directory : Bytes → FileError F

module _ (f : Fs) where
  open f use {State, Fault}

  -- `FileExists`
  unfoldable pub file_exists : State → Bytes → Bool × Option Fault
  file_exists s path = elim (f.stat s path) [ ok is_dir ↦ (true, none) | err e ↦ (false, some e) ]

  -- `DirExists`, whose first result is that the second one is nil.
  unfoldable pub dir_exists : State → Bytes → Option (FileError Fault)
  dir_exists s path = elim (f.stat s path) [
    | ok is_dir ↦ if is_dir then none else some (not_a_directory path)
    | err e ↦ some (not_a_directory path)
  ]

  -- `Touch`
  unfoldable pub touch : State → Bytes → Option Fault × State
  touch s path = elim (f.stat s path) [
    | ok is_dir ↦ (none, s)
    | err e ↦ if f.is_not_exist e then f.create s path else (none, s)
  ]

  -- `EnsureDir`, `EnsureDirAll` and `RemoveDir`
  unfoldable pub ensure_dir : State → Bytes → Option Fault × State
  unfolding file_exists
  ensure_dir s path =
      let (exists, e) = file_exists s path in if exists then (e, s) else f.mkdir s path

  unfoldable pub ensure_dir_all : State → Bytes → Option Fault × State
  ensure_dir_all s path = f.mkdir_all s path

  unfoldable pub remove_dir : State → Bytes → Option Fault × State
  remove_dir s path = f.remove_all s path

  -- The loop of `EmptyDir`.
  unfoldable pub remove_names : Bytes → List Bytes → State → Option Fault × State
  unfolding path_join
  remove_names path [] s = (none, s)
  remove_names path (name ∷ names) s =
      let x = f.remove_all s (path_join path name) in
      elim x.0 [ none ↦ remove_names path names x.1 | some e ↦ (some e, x.1) ]

  -- `EmptyDir`
  unfoldable pub empty_dir : State → Bytes → Option Fault × State
  unfolding remove_names
  empty_dir s path = elim (f.open_file s path) [
    | some e ↦ (some e, s)
    | none ↦ elim (f.read_dir_names s path) [
      | err e ↦ (some e, s)
      | ok names ↦ remove_names path names s
    ]
  ]

  -- The loop of `ListDir`.
  unfoldable pub dir_paths : Bytes → List (Bytes × Bool) → List Bytes
  unfolding path_join
  dir_paths path [] = []
  dir_paths path ((name, is_dir) ∷ files) =
      let rest = dir_paths path files in if is_dir then path_join path name ∷ rest else rest

  abbrev pub files_of : Result Fault (List (Bytes × Bool)) → List (Bytes × Bool)
  files_of (ok files) = files
  files_of (err e) = []

  -- `ListDir`: of the parent, where the path is no directory.
  unfoldable pub list_dir : State → Bytes → List Bytes
  unfolding dir_paths dir
  list_dir s path = elim (f.read_dir s path) [
    | ok files ↦ dir_paths path files
    | err e ↦ dir_paths (dir path) (files_of (f.read_dir s (dir path)))
  ]

  -- `WriteFile`
  abbrev pub written : Option Fault × State → Option (FileError Fault) × State
  written (none, s) = (none, s)
  written (some e, s) = (some (write_error e), s)

  unfoldable pub write_file : State → Bytes → Bytes → Option (FileError Fault) × State
  unfolding ensure_dir_all dir
  write_file s path file =
      let x = ensure_dir_all s (dir path) in
      elim x.0 [
        | some e ↦ (some (cannot_ensure_path e), x.1)
        | none ↦ written (f.write x.1 path file)
      ]

  -- The loop of `MatchEntries`; `matches` is the compiled pattern.
  unfoldable pub matching : (Bytes → Bool) → Bytes → List Bytes → List Bytes
  unfolding path_join
  matching matches path [] = []
  matching matches path (name ∷ names) =
      let rest = matching matches path names in
      if matches name then path_join path name ∷ rest else rest

  -- `MatchEntries` for what `regexp.Compile` made of the pattern.
  unfoldable pub match_entries :
      State → Bytes → Result Fault (Bytes → Bool) → Result Fault (List Bytes)
  unfolding matching
  match_entries s path (err e) = err e
  match_entries s path (ok matches) = elim (f.open_file s path) [
    | some e ↦ err e
    | none ↦ elim (f.read_dir_names s path) [
      | err e ↦ err e
      | ok names ↦ ok (matching matches path names)
    ]
  ]

  -- The steps of `SafeMove`, from the last one: the source is removed once the copy is closed. A copy
  -- that failed is closed by the deferred call.
  abbrev pub after_close : Bytes → Option Fault × State → Option Fault × State
  after_close src (some e, s) = (some e, s)
  after_close src (none, s) = f.remove s src

  abbrev pub after_copy : Bytes → Bytes → Option Fault × State → Option Fault × State
  after_copy src dst (some e, s) = (some e, (f.close s dst).1)
  after_copy src dst (none, s) = after_close src (f.close s dst)

  abbrev pub after_create : Bytes → Bytes → Option Fault × State → Option Fault × State
  after_create src dst (some e, s) = (some e, s)
  after_create src dst (none, s) = after_copy src dst (f.copy s dst src)

  abbrev pub after_open : Bytes → Bytes → State → Option Fault → Option Fault × State
  after_open src dst s (some e) = (some e, s)
  after_open src dst s none = after_create src dst (f.create s dst)

  abbrev pub after_rename : Bytes → Bytes → Option Fault × State → Option Fault × State
  after_rename src dst (none, s) = (none, s)
  after_rename src dst (some e, s) = after_open src dst s (f.open_file s src)

  -- `SafeMove`
  unfoldable pub safe_move : State → Bytes → Bytes → Option Fault × State
  safe_move s src dst = after_rename src dst (f.rename s src dst)
