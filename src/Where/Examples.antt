-- ===== src/Where/Examples.antt =====
-- The theorems about query options at options that occur; a value of the type `any` is a text.
use public_pkg.Common.{ℕ, String, List, [], ◌∷◌, some, ◌≡◌, ◌⊎◌}
use public_pkg.Common.Int.{pos, negsuc, ◌≤ℤ◌}
use public_pkg.Where.{Options, Tenant, default_limit, set_offset, set_limit}
use public_pkg.Where.Paging.{IsLimit, paging_bounds}

abbrev plain : Options String String String
plain = record {
  offset = pos 0;
  limit = default_limit;
  filters = ("name", "a") ∷ [];
  clauses = "order" ∷ [];
  queries = record { query = "age > ?"; args = "18" ∷ [] } ∷ [];
}

paging_bounds_example :
    let o = set_offset (negsuc 4) plain in
    let p = set_limit (pos 20) plain in
    (o ≡ record plain { offset = o.offset })
    × (p ≡ record plain { limit = p.limit })
    × (pos 0 ≤ℤ o.offset)
    × IsLimit p.limit
    × (((pos 0 ≤ℤ negsuc 4) × (o.offset ≡ negsuc 4))
        ⊎ ((negsuc 4 ≤ℤ negsuc 0) × (o.offset ≡ pos 0)))
    × (((pos 1 ≤ℤ pos 20) × (p.limit ≡ pos 20)) ⊎ ((pos 20 ≤ℤ pos 0) × (p.limit ≡ default_limit)))
paging_bounds_example = paging_bounds (negsuc 4) (pos 20) plain

abbrev tenant : Tenant ℕ
tenant = record { key = "tenant"; value_func = some (λ ctx. "t1") }

abbrev build : String → List String → List String
build q args = q ∷ args
