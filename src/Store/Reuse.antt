-- ===== src/Store/Reuse.antt =====
-- What options that were handed to one statement of pkg/store/store.go are for the next one.
use public_pkg.Common.{List, ◌++◌, ◌≡◌, refl, ap, some, flat_map, append_assoc}
use public_pkg.Where.{Options, build_clauses}
use public_pkg.Store.{Orm, Conditions, returned, get, list, conditions_of}

module _ {K C Q : Type 0} (o : Orm K C Q) where
  -- The conditions of the options with the conditions of their queries `n` times.
  abbrev pub asked : List C → Options K C Q → Conditions K C
  asked added whr = record (conditions_of o whr) { clauses = whr.clauses ++ added }

  -- `Get` asks for the options with the conditions of their queries; a `List` with the same options asks
  -- for them with these conditions twice.
  get_then_list :
      (s : o.Data) (whr : Options K C Q)
      → let added = flat_map (λ q. o.build q.query q.args) whr.queries in
        (whr' : Options K C Q) × (get o s (some whr) ≡ returned (o.first s (asked added whr), whr'))
        × ((t : o.Data)
            → (whr'' : Options K C Q) × (list o t (some whr')
                ≡ returned (o.find_count t (asked (added ++ added) whr), whr'')))
  unfolding get list build_clauses
  get_then_list s whr =
      let added = flat_map (λ q. o.build q.query q.args) whr.queries in
      (
        build_clauses o.build whr,
        refl,
        λ t. (
          _,
          ap
              (λ c. returned (
                o.find_count t (record (conditions_of o whr) { clauses = c }),
                record whr { clauses = c },
              ))
              (append_assoc whr.clauses added added),
        ),
      )
