-- ===== src/Util/Reflect/Examples.antt =====
-- Structs whose plain fields are numbers.
use public_pkg.Common.{ℕ, true, String, [], ◌∷◌, Option, none, some, ◌≡◌, refl, ◌==◌, ok}
use public_pkg.Text.{codes}
use public_pkg.Text.Split.{split, join}
use public_pkg.Util.Reflect.{
  Value, Fields, plain, struct_of, pointer, end, field, Data, item, Reflection, deep_equal, within,
  set_all, copy_obj, get_obj_fields_map, selected, find_string,
}
use public_pkg.Util.Reflect.Copies.{
  Alike, same_field, no_fields, Without, merged, picked, copy_obj-merged,
}
use public_pkg.Util.Reflect.Gorm.{to_gorm_db_map, parse_tag_setting}

abbrev assigned : Value ℕ → Data ℕ → Option (Value ℕ)
assigned (plain y) (item x) = some (plain x)
assigned v d = none

abbrev numbers : Reflection ℕ
numbers = record { eq = ◌==◌; assign = assigned }

abbrev user : ℕ → ℕ → Fields ℕ
user id age = field "Id" true (plain id) (field "Age" true (plain age) end)

abbrev address : ℕ → Fields ℕ
address zip = field "Address" true (struct_of (field "Zip" true (plain zip) end)) end

-- The map of a struct cannot be assigned to a field that is a struct: `CopyObj` panics where one differs.
nested_panics : copy_obj numbers (struct_of (address 1)) (pointer (struct_of (address 2))) [] ≡ none
unfolding copy_obj get_obj_fields_map selected deep_equal set_all
nested_panics = refl

users-Alike : Alike numbers (user 1 20) (user 2 30)
unfolding Without
users-Alike = same_field refl ((λ h. cc), tt) (same_field refl tt no_fields)

copy_obj-merged_example :
    (copy_obj numbers
        (pointer (struct_of (user 1 20)))
        (pointer (struct_of (user 2 30)))
        ("Age" ∷ [])
      ≡ some (true, pointer (struct_of (user 2 20))))
    × (get_obj_fields_map (pointer (struct_of (user 2 20))) ("Age" ∷ [])
        ≡ get_obj_fields_map (pointer (struct_of (user 1 20))) ("Age" ∷ []))
unfolding merged picked selected find_string deep_equal within
copy_obj-merged_example = copy_obj-merged numbers ("Age" ∷ []) (user 1 20) (user 2 30) users-Alike

abbrev seven : String → ℕ
seven f = 7

column_of_id :
    to_gorm_db_map
      (λ s. s)
      (λ s. s)
      (λ f. some ([], codes "COLUMN:user_id;SIZE:8"))
      seven
      ("Id" ∷ [])
    ≡ ok ((codes "user_id", 7) ∷ [])
unfolding to_gorm_db_map parse_tag_setting split join
column_of_id = refl
