-- ===== src/Where/Filters.antt =====
-- Filters, tenants and conditions.
use public_pkg.Common.{
  Bool, true, false, not, String, List, [], ◌∷◌, ◌++◌, none, some, ◌≡◌, ◌≢◌, ◌↔◌, refl, arith,
  if◌then◌else◌, str_eq, eq_iff, append_assoc, flat_map, ap, ◌⊎◌, inl, inr, Option-cases,
  Bool-cases,
}
use public_pkg.Where.{
  Options, Tenant, put, find, put_pairs, is_odd, add_filters, add_tenant, tenant_where, new_where,
  build_clauses,
}

module _ {K : Type 0} (same : K → K → Bool) (law : (a b : K) → (same a b ≡ true) ↔ (a ≡ b)) where
  pub find-put :
      (k j v : K) (m : List (K × K))
      → find same j (put same k v m) ≡ (if same k j then some v else find same j m)
  unfolding find put
  find-put k j v [] = refl
  find-put k j v ((i, w) ∷ m) = ground (arith, law k j, law i k, law i j, find-put k j v m)

  odd-append : (kvs : List K) (k v : K) → is_odd same (kvs ++ k ∷ v ∷ []) ≡ is_odd same kvs
  odd-append [] k v = refl
  odd-append (x ∷ kvs) k v = ap not (odd-append kvs k v)

  put_pairs-append :
      (kvs : List K) (k v : K) (m : List (K × K))
      → is_odd same kvs ≡ false
      → put_pairs same (kvs ++ k ∷ v ∷ []) m ≡ put same k v (put_pairs same kvs m)
  unfolding put_pairs
  put_pairs-append [] k v m h = refl
  put_pairs-append (x ∷ []) k v m h = absurd (cc)
  put_pairs-append (x ∷ y ∷ kvs) k v m h = put_pairs-append kvs k v (put same x y m) (ground arith)

  module _ {C Q : Type 0} where
    -- `F` with an even number of arguments sets their keys in turn: the filter of a key is the last value
    -- given for it. With an odd number it changes nothing.
    add_filters_last :
        (k j v : K) (kvs : List K) (whr : Options K C Q)
        → is_odd same kvs ≡ false
        → (find same j (add_filters same (kvs ++ k ∷ v ∷ []) whr).filters
            ≡ (if same k j then some v else find same j (add_filters same kvs whr).filters))
          × (add_filters same (j ∷ kvs) whr ≡ whr)
    unfolding add_filters
    add_filters_last k j v kvs whr even = ground (
      arith,
      odd-append kvs k v,
      put_pairs-append kvs k v whr.filters,
      find-put k j v (put_pairs same kvs whr.filters),
    )

-- The method `T` leaves the options alone without a value function; the function `T` panics then, and
-- otherwise, where the tenant has a key, does what the method does to new options.
tenant_where_lem :
    {K C Q X : Type 0} (same : K → K → Bool) (text : String → K) (tenant : Tenant X) (ctx : X)
    (whr : Options K C Q)
    → ((tenant.value_func ≡ none)
        × (add_tenant same text tenant ctx whr ≡ whr)
        × (tenant_where same {C = C} {Q = Q} text tenant ctx ≡ none))
      ⊎ ((tenant.value_func ≢ none)
          × ((tenant.key ≡ "")
              ⊎ (tenant_where same text tenant ctx
                  ≡ some (add_tenant same {C = C} {Q = Q} text tenant ctx (new_where [])))))
unfolding add_tenant tenant_where
tenant_where_lem {C} {Q} same text tenant ctx whr = elim (Option-cases tenant.value_func) [
  | inl e ↦ inl (e, ground arith, ground arith)
  | inr (f, e) ↦ inr (
    (λ n. cc),
    elim (Bool-cases (str_eq tenant.key "")) [
      | inl empty ↦ inl ((eq_iff tenant.key "").0 empty)
      | inr named ↦ inr (rw (e, named))
    ],
  )
]

-- `Where` appends the conditions of all queries to the clauses and keeps the queries: a second call on
-- the same options appends them again.
build_clauses_twice :
    {K C Q : Type 0} (build : Q → List K → List C) (whr : Options K C Q)
    → let added = flat_map (λ q. build q.query q.args) whr.queries in
      ((build_clauses build whr).clauses ≡ whr.clauses ++ added)
      × ((build_clauses build (build_clauses build whr)).clauses ≡ whr.clauses ++ (added ++ added))
unfolding build_clauses
build_clauses_twice build whr =
    let added = flat_map (λ q. build q.query q.args) whr.queries in
    (refl, append_assoc whr.clauses added added)
