-- ===== src/Util/File/Examples.antt =====
-- A move between two devices, where renaming fails and the file is copied, and the directories of a hash.
use public_pkg.Common.{
  Bool, true, false, [], ◌∷◌, Option, none, some, ok, err, ◌≡◌, ◌≢◌, refl, sym, ap, ◌∙◌,
  if◌then◌else◌, arith, Bool-cases, inl, inr, ◌⊎◌,
}
use public_pkg.Common.Int.{pos}
use public_pkg.Text.{Bytes, codes, bytes_eq}
use public_pkg.Text.Split.{join}
use public_pkg.Text.Order.{bytes_eq_sound}
use public_pkg.Util.File.{Fs, safe_move}
use public_pkg.Util.File.Move.{FsLaws, safe_move-IsMoved}
use public_pkg.Util.File.Path.{get_intra_dir}
use public_pkg.Util.File.Levels.{get_intra_dir-chunks}

abbrev Files : Type 0
Files = Bytes → Option Bytes

abbrev put : Files → Bytes → Option Bytes → Files
put s a v j = if bytes_eq a j then v else s j

abbrev missing : Option Bytes → Option Bool
missing none = some true
missing (some c) = none

abbrev two_devices : Fs
two_devices = record {
  State = Files;
  Fault = Bool;
  is_not_exist = λ e. e;
  stat = λ s a. elim (s a) [ none ↦ err true | some c ↦ ok false ];
  open_file = λ s a. missing (s a);
  read_dir_names = λ s a. ok [];
  read_dir = λ s a. ok [];
  create = λ s a. (none, put s a (some []));
  mkdir = λ s a. (none, s);
  mkdir_all = λ s a. (none, s);
  remove = λ s a. (none, put s a none);
  remove_all = λ s a. (none, put s a none);
  close = λ s a. (none, s);
  rename = λ s a b. (some false, s);
  copy = λ s a b. (none, put s a (s b));
  write = λ s a c. (none, put s a (some c));
  content = λ s a. s a;
}

bytes_eq_same : (a : Bytes) → bytes_eq a a ≡ true
bytes_eq_same [] = refl
bytes_eq_same (c ∷ a) = ground (arith, bytes_eq_same a)

put_there : (s : Files) (a : Bytes) (v : Option Bytes) → put s a v a ≡ v
put_there s a v = rw (bytes_eq_same a) refl

put_beside : (s : Files) (a j : Bytes) (v : Option Bytes) → j ≢ a → put s a v j ≡ s j
put_beside s a j v h = elim (Bool-cases (bytes_eq a j)) [
  | inl e ↦ absurd (h (sym (bytes_eq_sound a j e)))
  | inr e ↦ rw e refl
]

two_devices-FsLaws : FsLaws two_devices (λ a b. a ≢ b)
two_devices-FsLaws = record {
  apart_sym = λ a b h e. h (sym e);
  renamed = λ s s' a b h e. cc;
  not_renamed = λ s s' a b j e h. ap (λ x. x.1 j) (sym h);
  created = λ s s' a h. ap (λ x. x.1 a) (sym h) ∙ put_there s a (some []);
  created_beside = λ s a j h. put_beside s a j (some []) h;
  copied = λ s s' a b h e g. ap (λ x. x.1 a) (sym g) ∙ put_there s a (s b);
  copied_beside = λ s a b j h. put_beside s a j (s b) h;
  closed = λ s a j. refl;
  removed = λ s s' a h. ap (λ x. x.1 a) (sym h) ∙ put_there s a none;
  not_removed = λ s s' a e h. cc;
  removed_beside = λ s a j h. put_beside s a j none h;
}

abbrev one_file : Files
one_file = put (λ j. none) (codes "/a/x") (some (codes "data"))

abbrev moved : Option Bool × Files
moved = safe_move two_devices one_file (codes "/a/x") (codes "/b/x")

other_path : codes "/a/x" ≢ codes "/b/x"
other_path e = let h : true ≡ false = ap (λ j. bytes_eq (codes "/a/x") j) e in cc

safe_move-IsMoved_example :
    ((moved.0 ≡ none)
      × (moved.1 (codes "/a/x") ≡ none)
      × (moved.1 (codes "/b/x") ≡ some (codes "data")))
    ⊎ ((moved.0 ≢ none) × (moved.1 (codes "/a/x") ≡ some (codes "data")))
safe_move-IsMoved_example =
    safe_move-IsMoved two_devices (λ a b. a ≢ b) two_devices-FsLaws (codes "/a/x") (codes "/b/x")
      other_path (codes "data") one_file refl

get_intra_dir-chunks_example :
    get_intra_dir (codes "0af63ce3") (pos 2) (pos 3) ≡ some (codes "0af/63c")
unfolding join
get_intra_dir-chunks_example =
    get_intra_dir-chunks (codes "0af63ce3") (ground arith) 3 (omega arith) 2 (omega arith)
      (omega arith)
