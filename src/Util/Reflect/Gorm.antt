-- ===== src/Util/Reflect/Gorm.antt =====
-- ToGormDBMap of pkg/util/reflect/reflect.go, of a struct or a pointer to one, and the settings in the tags of its
-- fields. `upper` and `trim` are `strings.ToUpper` and `strings.TrimSpace`.
use public_pkg.Common.{String, List, [], ◌∷◌, Option, none, some, Result, ok, err, if◌then◌else◌}
use public_pkg.Text.{Bytes, codes, is_empty, bytes_eq}
use public_pkg.Text.Split.{split, join}

-- A map: the entry of a key that was stored last comes first.
abbrev pub find : Bytes → List (Bytes × Bytes) → Option Bytes
find key [] = none
find key ((k, v) ∷ setting) = let rest = find key setting in if bytes_eq k key then some v else rest

module _ (upper trim : Bytes → Bytes) where
  -- The entry of the parts of one setting; `Split` returns at least one.
  abbrev pub entry_of : List Bytes → Bytes × Bytes
  unfolding join
  entry_of [] = ([], [])
  entry_of (k ∷ []) = let k = trim (upper k) in (k, k)
  entry_of (k ∷ v ∷ vs) = (trim (upper k), join b':' (v ∷ vs))

  abbrev pub add_tags : List Bytes → List (Bytes × Bytes) → List (Bytes × Bytes)
  unfolding split
  add_tags [] setting = setting
  add_tags (value ∷ tags) setting = add_tags tags (entry_of (split b':' value) ∷ setting)

  abbrev pub add_tag : Bytes → List (Bytes × Bytes) → List (Bytes × Bytes)
  unfolding split
  add_tag str setting = if is_empty str then setting else add_tags (split b';' str) setting

  -- `parseTagSetting` of the tags `sql` and `gorm`
  unfoldable pub parse_tag_setting : Bytes → Bytes → List (Bytes × Bytes)
  unfolding add_tag
  parse_tag_setting sql gorm = add_tag gorm (add_tag sql [])

  pub data GormError : Type 0 where
    unknown_field undefined_column : String → GormError

  -- `ToGormDBMap`; the tags of a field, if it is there, and the value of it.
  unfoldable pub to_gorm_db_map :
      {V : Type 0}
      → (String → Option (Bytes × Bytes))
      → (String → V)
      → List String
      → Result GormError (List (Bytes × V))
  unfolding parse_tag_setting
  to_gorm_db_map tags value [] = ok []
  to_gorm_db_map tags value (f ∷ fields) = elim (tags f) [
    | none ↦ err (unknown_field f)
    | some (sql, gorm) ↦ elim (find (codes "COLUMN") (parse_tag_setting sql gorm)) [
      | none ↦ err (undefined_column f)
      | some column ↦ elim (to_gorm_db_map tags value fields) [
        | err e ↦ err e
        | ok ret ↦ ok ((column, value f) ∷ ret)
      ]
    ]
  ]
