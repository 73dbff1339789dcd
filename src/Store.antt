-- ===== src/Store.antt =====
-- pkg/store/store.go and pkg/store/registry/registry.go: reading and writing the rows of one type under
-- query options. gorm is the parameter `Orm`. The options are a pointer: what `Where` does to them stays.
pub mod Reuse
mod Examples
use public_pkg.Common.{
  ℕ, Bool, true, false, String, List, [], ◌∷◌, ◌++◌, Option, none, some, Result, ok, err,
  if◌then◌else◌,
}
use public_pkg.Common.Int.{ℤ}
use public_pkg.Where.{Options, build_clauses}

-- A statement's conditions, as `Where` hands them to gorm.
pub record Conditions (K C : Type 0) : Type 0 where
  pub filters : List (K × K)
  pub clauses : List C
  pub offset : ℤ
  pub limit : ℤ

-- The statements of gorm on the rows of a type; `build` is `BuildCondition`, `find` orders by id
-- downwards, and `count` counts without an offset or a limit.
pub record Orm (K C Q : Type 0) : Type 1 where
  pub Data : Type 0
  pub Fault : Type 0
  pub Item : Type 0
  pub build : Q → List K → List C
  pub create : Data → Item → Option Fault × Data
  pub save : Data → Item → Option Fault × Data
  pub delete : Data → Conditions K C → Option Fault × Data
  pub first : Data → Conditions K C → Result Fault Item
  pub find_count : Data → Conditions K C → Option Fault × ℕ × List Item
  pub is_not_found : Fault → Bool

-- A call that returns, or the panic of a nil pointer.
pub data Ended (A : Type 0) : Type 0 where
  returned : A → Ended A
  panicked : Ended A

module _ {K C Q : Type 0} (o : Orm K C Q) where
  open o use {Data, Fault, Item}

  -- `Where` of options that are not nil: the conditions, and the options as it leaves them.
  abbrev pub conditions_of : Options K C Q → Conditions K C
  conditions_of whr = record {
    filters = whr.filters;
    clauses = whr.clauses;
    offset = whr.offset;
    limit = whr.limit;
  }

  -- `db` with the pointer to the options of one call: it is an interface value that is not nil, so its
  -- `Where` is called for a nil pointer too, and panics. The result has the options as they are left.
  unfoldable pub db : Option (Options K C Q) → Ended (Conditions K C × Options K C Q)
  db none = panicked
  db (some whr) = let built = build_clauses o.build whr in returned (conditions_of built, built)

  -- `Create` and `Update`, which call `db` without options.
  unfoldable pub create : Data → Item → Option Fault × Data
  create s obj = o.create s obj

  unfoldable pub update : Data → Item → Option Fault × Data
  update s obj = o.save s obj

  abbrev pub unless_not_found : Option Fault × Data → Option Fault × Data
  unless_not_found (none, s) = (none, s)
  unless_not_found (some e, s) = if o.is_not_found e then (none, s) else (some e, s)

  -- A statement under the options of a call.
  abbrev pub under :
      {A : Type 0}
      → (Conditions K C → A)
      → Ended (Conditions K C × Options K C Q)
      → Ended (A × Options K C Q)
  under ask (returned (conditions, whr)) = returned (ask conditions, whr)
  under ask panicked = panicked

  -- `Delete`, `Get` and `List`, with the options as they leave them.
  unfoldable pub delete :
      Data → Option (Options K C Q) → Ended ((Option Fault × Data) × Options K C Q)
  unfolding db
  delete s opts = under (λ conditions. unless_not_found (o.delete s conditions)) (db opts)

  unfoldable pub get : Data → Option (Options K C Q) → Ended (Result Fault Item × Options K C Q)
  unfolding db
  get s opts = under (o.first s) (db opts)

  unfoldable pub list :
      Data → Option (Options K C Q) → Ended ((Option Fault × ℕ × List Item) × Options K C Q)
  unfolding db
  list s opts = under (o.find_count s) (db opts)

-- The registry of models; `none` is the registry before the first model.
unfoldable pub register : {M : Type 0} → M → Option (List M) → Option (List M)
register model none = some (model ∷ [])
register model (some models) = some (models ++ model ∷ [])

-- The loop of `Migrate`, which stops at the first error of `AutoMigrate`.
unfoldable pub migrate_all : {M D F : Type 0} → (D → M → Option F × D) → List M → D → Option F × D
migrate_all auto_migrate [] d = (none, d)
migrate_all auto_migrate (model ∷ models) d =
    let rest = migrate_all auto_migrate models (auto_migrate d model).1 in
    elim (auto_migrate d model).0 [ none ↦ rest | some e ↦ (some e, (auto_migrate d model).1) ]

-- `Migrate`
unfoldable pub migrate :
    {M D F : Type 0} → (D → M → Option F × D) → Option (List M) → D → Option F × D
unfolding migrate_all
migrate auto_migrate none d = (none, d)
migrate auto_migrate (some models) d = migrate_all auto_migrate models d
