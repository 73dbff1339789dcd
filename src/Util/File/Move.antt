-- ===== src/Util/File/Move.antt =====
-- SafeMove of pkg/util/file/file.go loses no file.
use public_pkg.Common.{Option, none, some, [], ◌≡◌, ◌≢◌, refl, sym, ap, ◌∙◌, ◌⊎◌, inl, inr}
use public_pkg.Text.{Bytes}
use public_pkg.Util.File.{
  Fs, after_close, after_copy, after_create, after_open, after_rename, safe_move,
}

-- What the operating system documents of two paths that are apart: neither names a file that the other names too, as
-- another spelling of one path or a hard link would. A call changes the file that it names, and leaves those at
-- paths that are apart.
pub record FsLaws (f : Fs) (Apart : Bytes → Bytes → Type 0) : Type 0 where
  pub apart_sym : (a b : Bytes) → Apart a b → Apart b a
  pub renamed :
      (s s' : f.State) (a b : Bytes)
      → Apart a b
      → f.rename s a b ≡ (none, s')
      → (f.content s' a ≡ none) × (f.content s' b ≡ f.content s a)
  pub not_renamed :
      (s s' : f.State) (a b j : Bytes) (e : f.Fault)
      → f.rename s a b ≡ (some e, s')
      → f.content s' j ≡ f.content s j
  pub created : (s s' : f.State) (a : Bytes) → f.create s a ≡ (none, s') → f.content s' a ≡ some []
  pub created_beside :
      (s : f.State) (a j : Bytes) → Apart j a → f.content (f.create s a).1 j ≡ f.content s j
  pub copied :
      (s s' : f.State) (a b : Bytes)
      → Apart a b
      → f.content s a ≡ some []
      → f.copy s a b ≡ (none, s')
      → f.content s' a ≡ f.content s b
  pub copied_beside :
      (s : f.State) (a b j : Bytes) → Apart j a → f.content (f.copy s a b).1 j ≡ f.content s j
  pub closed : (s : f.State) (a j : Bytes) → f.content (f.close s a).1 j ≡ f.content s j
  pub removed : (s s' : f.State) (a : Bytes) → f.remove s a ≡ (none, s') → f.content s' a ≡ none
  pub not_removed :
      (s s' : f.State) (a : Bytes) (e : f.Fault)
      → f.remove s a ≡ (some e, s')
      → f.content s' a ≡ f.content s a
  pub removed_beside :
      (s : f.State) (a j : Bytes) → Apart j a → f.content (f.remove s a).1 j ≡ f.content s j

module _ (f : Fs) (Apart : Bytes → Bytes → Type 0) (law : FsLaws f Apart) (src dst : Bytes)
    (apart : Apart src dst) (c : Bytes) where
  open f use {State, Fault, content}

  -- The file has moved and nil was returned, or it is where it was and an error was returned.
  abbrev pub IsMoved : Option Fault × State → Type 0
  IsMoved x =
      ((x.0 ≡ none) × (content x.1 src ≡ none) × (content x.1 dst ≡ some c))
      ⊎ ((x.0 ≢ none) × (content x.1 src ≡ some c))

  -- What a file has in the state that a call left, by a law about the call.
  left_in :
      (x y : Option Fault × State) (j : Bytes) (v : Option Bytes)
      → x ≡ y
      → content x.1 j ≡ v
      → content y.1 j ≡ v
  left_in x y j v h there = ap (λ z. content z.1 j) (sym h) ∙ there

  other_way : Apart dst src
  other_way = law.apart_sym src dst apart

  remove_case :
      (s : State) (x : Option Fault × State)
      → f.remove s src ≡ x
      → content s src ≡ some c
      → content s dst ≡ some c
      → IsMoved x
  remove_case s (none, s') h at_src at_dst = inl (
    refl,
    law.removed s s' src h,
    left_in _ _ dst _ h (law.removed_beside s src dst other_way ∙ at_dst),
  )
  remove_case s (some e, s') h at_src at_dst = inr (λ n. cc, law.not_removed s s' src e h ∙ at_src)

  close_case :
      (s : State) (x : Option Fault × State)
      → f.close s dst ≡ x
      → content s src ≡ some c
      → content s dst ≡ some c
      → IsMoved (after_close f src x)
  close_case s (some e, s') h at_src at_dst =
      inr (λ n. cc, left_in _ _ src _ h (law.closed s dst src ∙ at_src))
  close_case s (none, s') h at_src at_dst =
      remove_case s' (f.remove s' src) refl (left_in _ _ src _ h (law.closed s dst src ∙ at_src))
        (left_in _ _ dst _ h (law.closed s dst dst ∙ at_dst))

  copy_case :
      (s : State) (x : Option Fault × State)
      → f.copy s dst src ≡ x
      → content s src ≡ some c
      → content s dst ≡ some []
      → IsMoved (after_copy f src dst x)
  copy_case s (some e, s') h at_src empty = inr (
    λ n. cc,
    law.closed s' dst src ∙ left_in _ _ src _ h (law.copied_beside s dst src src apart ∙ at_src),
  )
  copy_case s (none, s') h at_src empty =
      close_case s' (f.close s' dst) refl
        (left_in _ _ src _ h (law.copied_beside s dst src src apart ∙ at_src))
        (law.copied s s' dst src other_way empty h ∙ at_src)

  create_case :
      (s : State) (x : Option Fault × State)
      → f.create s dst ≡ x
      → content s src ≡ some c
      → IsMoved (after_create f src dst x)
  create_case s (some e, s') h at_src =
      inr (λ n. cc, left_in _ _ src _ h (law.created_beside s dst src apart ∙ at_src))
  create_case s (none, s') h at_src =
      copy_case s' (f.copy s' dst src) refl
        (left_in _ _ src _ h (law.created_beside s dst src apart ∙ at_src)) (law.created s s' dst h)

  open_case :
      (s : State) (x : Option Fault) → content s src ≡ some c → IsMoved (after_open f src dst s x)
  open_case s (some e) at_src = inr (λ n. cc, at_src)
  open_case s none at_src = create_case s (f.create s dst) refl at_src

  rename_case :
      (s : State) (x : Option Fault × State)
      → f.rename s src dst ≡ x
      → content s src ≡ some c
      → IsMoved (after_rename f src dst x)
  rename_case s (none, s') h at_src =
      let (gone, there) = law.renamed s s' src dst apart h in inl (refl, gone, there ∙ at_src)
  rename_case s (some e, s') h at_src =
      open_case s' (f.open_file s' src) (law.not_renamed s s' src dst src e h ∙ at_src)

  -- `SafeMove` of a file to a path that is apart from its own: either it returns nil, and the target has the file and the
  -- source is gone; or it returns an error, and the file is at the source as before.
  pub safe_move-IsMoved : (s : State) → content s src ≡ some c → IsMoved (safe_move f s src dst)
  unfolding safe_move
  safe_move-IsMoved s at_src = rename_case s (f.rename s src dst) refl at_src
