-- ===== src/Util/Reflect/Copies.antt =====
-- What CopyObj of pkg/util/reflect/reflect.go copies between two structs of one type.
use mathlib.Core.Option
use public_pkg.Common.{
  Bool, true, false, String, List, some, ◌≡◌, ◌≢◌, refl, sym, ◌∙◌, ap, inl, inr, arith, str_eq,
  eq_iff, Bool-cases, Option-cases, if◌then◌else◌,
}
use public_pkg.Util.Reflect.{
  Value, Fields, plain, struct_of, pointer, end, field, Data, item, Entries, empty, entry, selected,
  collect, get_obj_fields_map, Reflection, deep_equal, set_field, set_all, copy_obj,
}

module _ {P : Type 0} (r : Reflection P) where
  -- A struct without a field of the name.
  unfoldable pub Without : String → Fields P → Type 0
  Without name end = Unit {0}
  Without name (field n exported v fs) = (n ≢ name) × Without name fs

  -- Two structs of one type, with exported fields that are neither structs nor pointers and whose values can be
  -- assigned.
  pub data Alike : Fields P → Fields P → Type 0 where
    no_fields : Alike end end
    same_field :
        {n : String} {x y : P} {fs gs : Fields P}
        → r.assign (plain y) (item x) ≡ some (plain x)
        → Without n fs
        → Alike fs gs
        → Alike (field n true (plain x) fs) (field n true (plain y) gs)

  -- The second struct with the selected fields of the first.
  unfoldable pub merged : List String → Fields P → Fields P → Fields P
  merged names (field n e v fs) (field m e' w gs) =
      let rest = merged names fs gs in field m e' (if selected names m then v else w) rest
  merged names fs gs = gs

  -- The entries of the fields that are selected.
  unfoldable pub picked : List String → Fields P → Entries P
  picked names (field n exported (plain x) fs) =
      let rest = picked names fs in if selected names n then entry n (item x) rest else rest
  picked names fs = empty

  unfoldable Lacking : String → Entries P → Type 0
  Lacking name empty = Unit {0}
  Lacking name (entry n d es) = (n ≢ name) × Lacking name es

  picked-Lacking :
      (names : List String) (n : String) (fs gs : Fields P)
      → Alike fs gs
      → Without n fs
      → Lacking n (picked names fs)
  unfolding picked Lacking Without
  picked-Lacking names n _ _ no_fields w = w
  picked-Lacking names n _ _ (same_field {n = m} {fs = fs} {gs = gs} q u a) (other, w) =
      let rest = picked-Lacking names n fs gs a w in
      elim (Bool-cases (selected names m)) [ inl b ↦ rw b (other, rest) | inr b ↦ rw b rest ]

  collect-picked :
      (names : List String) (fs gs : Fields P)
      → Alike fs gs
      → collect fs names ≡ some (picked names fs)
  unfolding collect picked
  collect-picked names _ _ no_fields = refl
  collect-picked names _ _ (same_field {n = m} {fs = fs} {gs = gs} q u a) =
      let rest = collect-picked names fs gs a in
      elim (Bool-cases (selected names m)) [ inl b ↦ rw (b, rest) refl | inr b ↦ rw (b, rest) refl ]

  collect-merged :
      (names : List String) (fs gs : Fields P)
      → Alike fs gs
      → collect (merged names fs gs) names ≡ some (picked names fs)
  unfolding collect picked merged
  collect-merged names _ _ no_fields = refl
  collect-merged names _ _ (same_field {n = m} {fs = fs} {gs = gs} q u a) =
      let rest = collect-merged names fs gs a in
      elim (Bool-cases (selected names m)) [ inl b ↦ rw (b, rest) refl | inr b ↦ rw (b, rest) refl ]

  picked_second :
      (names : List String) (fs gs : Fields P)
      → Alike fs gs
      → collect gs names ≡ some (picked names gs)
  unfolding collect picked
  picked_second names _ _ no_fields = refl
  picked_second names _ _ (same_field {n = m} {fs = fs} {gs = gs} q u a) =
      let rest = picked_second names fs gs a in
      elim (Bool-cases (selected names m)) [ inl b ↦ rw (b, rest) refl | inr b ↦ rw (b, rest) refl ]

  -- Setting other fields leaves the first one.
  set_field-other :
      (n m : String) (d : Data P) (e : Bool) (v : Value P) (fs fs' : Fields P)
      → m ≢ n
      → set_field r m d fs ≡ some fs'
      → set_field r m d (field n e v fs) ≡ some (field n e v fs')
  unfolding set_field
  set_field-other n m d e v fs fs' other h = elim (Bool-cases (str_eq n m)) [
    | inl b ↦ absurd (other (sym ((eq_iff n m).0 b)))
    | inr b ↦ rw (set_field, b, h) refl
  ]

  set_all-other :
      (n : String) (e : Bool) (v : Value P) (es : Entries P) (fs fs' : Fields P)
      → Lacking n es
      → set_all r es fs ≡ some fs'
      → set_all r es (field n e v fs) ≡ some (field n e v fs')
  unfolding set_all Lacking
  set_all-other n e v empty fs fs' l h = ap (λ x. Option.map (field n e v) x) h
  set_all-other n e v (entry m d es) fs fs' (other, l) h =
      elim (Option-cases (set_field r m d fs)) [
        | inl none_s ↦ absurd (ground (arith, none_s))
        | inr (mid, s) ↦
            rw (set_all, set_field-other n m d e v fs mid other s)
              (set_all-other n e v es mid fs' l (rw (set_all, s) at h))
      ]

  set_field-own :
      (m : String) (x y : P) (fs : Fields P)
      → r.assign (plain y) (item x) ≡ some (plain x)
      → set_field r m (item x) (field m true (plain y) fs) ≡ some (field m true (plain x) fs)
  unfolding set_field
  set_field-own m x y fs q = rw (set_field, (eq_iff m m).1 refl, q) refl

  set_all-merged :
      (names : List String) (fs gs : Fields P)
      → Alike fs gs
      → set_all r (picked names fs) gs ≡ some (merged names fs gs)
  unfolding set_all picked merged set_field
  set_all-merged names _ _ no_fields = refl
  set_all-merged names _ _ (same_field {n = m} {x = x} {y = y} {fs = fs} {gs = gs} q u a) =
      let rest = set_all-merged names fs gs a in
      let lacking = picked-Lacking names m fs gs a u in
      elim (Bool-cases (selected names m)) [
        | inl b ↦
            rw (b, set_all, set_field-own m x y gs q)
              (set_all-other m true (plain x) (picked names fs) gs (merged names fs gs) lacking
                rest)
        | inr b ↦
            rw b (
              set_all-other m true (plain y) (picked names fs) gs (merged names fs gs) lacking rest)
      ]

  -- `CopyObj` between two structs of one type returns, where their exported fields are neither structs nor pointers and
  -- hold values that can be assigned, so that none is a nil interface. It
  -- reports no change where the selected fields are equal; otherwise it sets just the selected fields to those of the
  -- first struct, so that afterwards the maps of both are the same.
  pub copy_obj-merged :
      (names : List String) (fs gs : Fields P)
      → Alike fs gs
      → (copy_obj r (pointer (struct_of fs)) (pointer (struct_of gs)) names ≡ (
          if deep_equal r (picked names fs) (picked names gs)
          then some (false, pointer (struct_of gs))
          else some (true, pointer (struct_of (merged names fs gs)))))
        × (get_obj_fields_map (pointer (struct_of (merged names fs gs))) names
            ≡ get_obj_fields_map (pointer (struct_of fs)) names)
  unfolding copy_obj get_obj_fields_map
  copy_obj-merged names fs gs a = (
    rw (collect-picked names fs gs a, picked_second names fs gs a, set_all-merged names fs gs a)
        refl,
    collect-merged names fs gs a ∙ sym (collect-picked names fs gs a),
  )
