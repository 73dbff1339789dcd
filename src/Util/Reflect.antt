-- ===== src/Util/Reflect.antt =====
-- pkg/util/reflect/reflect.go: values as reflection sees them, and what GetObjFieldsMap and CopyObj do with them.
pub mod Copies
pub mod Gorm
mod Examples
use public_pkg.Common.{
  ℕ, suc, Bool, true, false, not, ◌&&◌, ◌==◌, String, List, [], ◌∷◌, ◌++◌, Option, none, some, ◌≡◌,
  str_eq, if◌then◌else◌,
}
use mathlib.Core.Option

mutual
  -- A struct, a pointer to a value, a nil pointer, or a value of another kind.
  pub data Value (P : Type 0) : Type 0 where
    plain : P → Value P
    struct_of : Fields P → Value P
    pointer : Value P → Value P
    nil_pointer : Value P

  -- The fields of a struct by their names, and whether they are exported.
  pub data Fields (P : Type 0) : Type 0 where
    end : Fields P
    field : String → Bool → Value P → Fields P → Fields P

mutual
  -- What the maps hold: the value of a field, or the map of a struct.
  pub data Data (P : Type 0) : Type 0 where
    item : P → Data P
    nested : Entries P → Data P

  pub data Entries (P : Type 0) : Type 0 where
    empty : Entries P
    entry : String → Data P → Entries P → Entries P

-- `findString`
unfoldable pub find_string : List String → String → Bool
find_string [] target = false
find_string (str ∷ slice) target =
    let rest = find_string slice target in if str_eq str target then true else rest

-- Whether a field is not skipped.
unfoldable pub selected : List String → String → Bool
unfolding find_string
selected [] name = true
selected (f ∷ fields) name = find_string (f ∷ fields) name

module _ {P : Type 0} where
  -- A field's entry before the others; a panic is `none`.
  abbrev pub joined : String → Option (Data P) → Option (Entries P) → Option (Entries P)
  joined name none rest = none
  joined name (some d) none = none
  joined name (some d) (some es) = some (entry name d es)

  unfoldable mutual
    -- `GetObjFieldsMap`
    pub get_obj_fields_map : Value P → List String → Option (Entries P)
    get_obj_fields_map (plain x) fields = none
    get_obj_fields_map (struct_of fs) fields = collect fs fields
    get_obj_fields_map nil_pointer fields = none
    get_obj_fields_map (pointer v) fields = behind v fields

    -- The value that a pointer points to.
    behind : Value P → List String → Option (Entries P)
    behind (plain x) fields = none
    behind (struct_of fs) fields = collect fs fields
    behind nil_pointer fields = none
    behind (pointer v) fields = none

    -- The loop over the fields; `Interface` panics for one that is not exported.
    pub collect : Fields P → List String → Option (Entries P)
    collect end fields = some empty
    collect (field name exported v fs) fields =
        let rest = collect fs fields in
        let d = field_data v in
        if selected fields name then joined name (if exported then d else none) rest else rest

    pub field_data : Value P → Option (Data P)
    field_data (plain x) = some (item x)
    field_data (struct_of fs) = Option.map nested (collect fs [])
    field_data nil_pointer = none
    field_data (pointer v) = Option.map nested (behind v [])

-- What reflection does with values of the other kinds: `DeepEqual` of two of them, and `Set` of a field's value to
-- something that a map holds, a panic where that cannot be assigned.
pub record Reflection (P : Type 0) : Type 0 where
  pub eq : P → P → Bool
  pub assign : Value P → Data P → Option (Value P)

module _ {P : Type 0} (r : Reflection P) where
  abbrev pub entry_of : String → Entries P → Option (Data P)
  entry_of name empty = none
  entry_of name (entry n d es) =
      let rest = entry_of name es in if str_eq n name then some d else rest

  abbrev pub count : Entries P → ℕ
  count empty = 0
  count (entry n d es) = suc (count es)

  unfoldable mutual
    -- Every entry of the first map has an equal one in the second.
    pub within : Entries P → Entries P → Bool
    within empty fs = true
    within (entry n d es) fs = held d (entry_of n fs) && within es fs

    pub held : Data P → Option (Data P) → Bool
    held d none = false
    held (item x) (some (item y)) = r.eq x y
    held (item x) (some (nested es)) = false
    held (nested es) (some (item y)) = false
    held (nested es) (some (nested fs)) = count es == count fs && within es fs

  -- `reflect.DeepEqual` of two maps
  unfoldable pub deep_equal : Entries P → Entries P → Bool
  unfolding within
  deep_equal es fs = count es == count fs && within es fs

  -- `FieldByName` and `Set`: it panics without such a field, and for one that is not exported.
  unfoldable pub set_field : String → Data P → Fields P → Option (Fields P)
  set_field name d end = none
  set_field name d (field n exported v fs) =
      let rest = set_field name d fs in
      if str_eq n name
      then (if exported then Option.map (λ v. field n exported v fs) (r.assign v d) else none)
      else Option.map (field n exported v) rest

  -- The loop of `CopyObj`.
  unfoldable pub set_all : Entries P → Fields P → Option (Fields P)
  unfolding set_field
  set_all empty fs = some fs
  set_all (entry n d es) fs = elim (set_field n d fs) [ none ↦ none | some fs ↦ set_all es fs ]

  -- `CopyObj` onto the value that `to` points to: what is set is a pointer to a struct.
  abbrev pub set_behind : Entries P → Value P → Option (Value P)
  set_behind es (pointer (struct_of fs)) = Option.map (λ fs. pointer (struct_of fs)) (set_all es fs)
  set_behind es v = none

  abbrev pub copy_maps : Value P → Option (Entries P) → Option (Entries P) → Option (Bool × Value P)
  copy_maps to none to_map = none
  copy_maps to (some es) none = none
  copy_maps to (some es) (some fs) =
      if deep_equal es fs then some (false, to) else Option.map (λ v. (true, v)) (set_behind es to)

  -- `CopyObj`: whether something was changed, and `to`.
  unfoldable pub copy_obj : Value P → Value P → List String → Option (Bool × Value P)
  unfolding deep_equal set_all
  copy_obj from to fields =
      copy_maps to (get_obj_fields_map from fields) (get_obj_fields_map to fields)
