-- ===== src/Where.antt =====
-- pkg/store/where/where.go: the options of a query. An int has 64 bits; offsets and limits are
-- integers, and a product is brought back into the range of an int64. The values of the type `any`, the
-- clauses and the query conditions are of types that are parameters.
pub mod Paging
pub mod Filters
mod Examples
use public_pkg.Common.{
  ℕ, zero, suc, ◌+◌, ◌-◌, ◌%◌, ◌^◌, Bool, true, false, not, ◌&&◌, String, List, [], ◌∷◌, ◌++◌,
  Option, none, some, ltb, if◌then◌else◌, flat_map, str_eq,
}
use public_pkg.Common.Int.{int64, ℤ, pos, negsuc, ◌-ℤ◌, ◌*ℤ◌, ltb_ℤ, leb_ℤ, eqb_ℤ}

abbrev pub default_limit : ℤ
default_limit = negsuc 0

-- `Query`
pub record Query (Q K : Type 0) : Type 0 where
  pub query : Q
  pub args : List K

-- `Options`, over values `K` of the type `any`, clauses and conditions.
pub record Options (K C Q : Type 0) : Type 0 where
  pub offset : ℤ
  pub limit : ℤ
  pub filters : List (K × K)
  pub clauses : List C
  pub queries : List (Query Q K)

-- `Tenant`; `value_func` is none where the function is nil.
pub record Tenant (X : Type 0) : Type 0 where
  pub key : String
  pub value_func : Option (X → String)

module _ {K C Q : Type 0} where
  -- The constructors of `Option`.
  unfoldable pub with_offset : ℤ → Options K C Q → Options K C Q
  with_offset offset whr = record whr {
    offset = int64 (if ltb_ℤ offset (pos 0) then pos 0 else offset);
  }

  unfoldable pub with_limit : ℤ → Options K C Q → Options K C Q
  with_limit limit whr = record whr {
    limit = int64 (if leb_ℤ limit (pos 0) then default_limit else limit);
  }

  unfoldable pub with_page : ℤ → ℤ → Options K C Q → Options K C Q
  with_page page page_size whr =
      let page = if eqb_ℤ page (pos 0) then pos 1 else page in
      let page_size = if eqb_ℤ page_size (pos 0) then default_limit else page_size in
      record whr { offset = int64 (int64 (page -ℤ pos 1) *ℤ page_size); limit = page_size }

  unfoldable pub with_filter : List (K × K) → Options K C Q → Options K C Q
  with_filter filter whr = record whr { filters = filter }

  unfoldable pub with_clauses : List C → Options K C Q → Options K C Q
  with_clauses conds whr = record whr { clauses = whr.clauses ++ conds }

  unfoldable pub with_query : Q → List K → Options K C Q → Options K C Q
  with_query query args whr = record whr {
    queries = whr.queries ++ record { query = query; args = args } ∷ [];
  }

  apply_all : List (Options K C Q → Options K C Q) → Options K C Q → Options K C Q
  apply_all [] whr = whr
  apply_all (opt ∷ opts) whr = apply_all opts (opt whr)

  unfoldable pub new_where : List (Options K C Q → Options K C Q) → Options K C Q
  unfolding apply_all
  new_where opts =
      apply_all opts
        (record { offset = pos 0; limit = default_limit; filters = []; clauses = []; queries = [] })

  -- The methods.
  unfoldable pub set_offset : ℤ → Options K C Q → Options K C Q
  set_offset offset whr = record whr { offset = if ltb_ℤ offset (pos 0) then pos 0 else offset }

  unfoldable pub set_limit : ℤ → Options K C Q → Options K C Q
  set_limit limit whr = record whr { limit = if leb_ℤ limit (pos 0) then default_limit else limit }

  unfoldable pub set_page : ℤ → ℤ → Options K C Q → Options K C Q
  set_page page page_size whr =
      let page = if ltb_ℤ page (pos 1) then pos 1 else page in
      let page_size = if leb_ℤ page_size (pos 0) then default_limit else page_size in
      record whr { offset = int64 (int64 (page -ℤ pos 1) *ℤ page_size); limit = page_size }

  -- `C` and `Q`
  unfoldable pub add_clauses : List C → Options K C Q → Options K C Q
  add_clauses conds whr = record whr { clauses = whr.clauses ++ conds }

  unfoldable pub add_query : Q → List K → Options K C Q → Options K C Q
  add_query query args whr = record whr {
    queries = whr.queries ++ record { query = query; args = args } ∷ [];
  }

  -- `Where` up to the calls of gorm on the database: `build` is `BuildCondition`. The conditions of
  -- the queries are appended to the clauses of the options themselves.
  unfoldable pub build_clauses : (Q → List K → List C) → Options K C Q → Options K C Q
  build_clauses build whr = record whr {
    clauses = whr.clauses ++ flat_map (λ q. build q.query q.args) whr.queries;
  }

  -- The functions that apply one method to new options: `O`, `L`, `P` and `C`.
  unfoldable offset_where : ℤ → Options K C Q
  unfolding set_offset new_where
  offset_where offset = set_offset offset (new_where [])

  unfoldable limit_where : ℤ → Options K C Q
  unfolding set_limit new_where
  limit_where limit = set_limit limit (new_where [])

  unfoldable page_where : ℤ → ℤ → Options K C Q
  unfolding set_page new_where
  page_where page page_size = set_page page page_size (new_where [])

  unfoldable clauses_where : List C → Options K C Q
  unfolding add_clauses new_where
  clauses_where conds = add_clauses conds (new_where [])

-- The filters, with the equality of the keys as `same`.
module _ {K : Type 0} (same : K → K → Bool) where
  -- `whr.Filters[key] = value`
  unfoldable pub put : K → K → List (K × K) → List (K × K)
  put k v [] = (k, v) ∷ []
  put k v ((j, w) ∷ m) = if same j k then (j, v) ∷ m else (j, w) ∷ put k v m

  unfoldable pub find : K → List (K × K) → Option K
  find k [] = none
  find k ((j, v) ∷ m) = if same j k then some v else find k m

  -- The loop of `F`, two arguments a round.
  unfoldable pub put_pairs : List K → List (K × K) → List (K × K)
  put_pairs [] m = m
  put_pairs (k ∷ []) m = m
  put_pairs (k ∷ v ∷ kvs) m = put_pairs kvs (put k v m)

  abbrev pub is_odd : List K → Bool
  is_odd [] = false
  is_odd (k ∷ kvs) = not (is_odd kvs)

  module _ {C Q : Type 0} where
    -- `F`: an odd number of arguments changes nothing.
    unfoldable pub add_filters : List K → Options K C Q → Options K C Q
    add_filters kvs whr =
        if is_odd kvs then whr else record whr { filters = put_pairs kvs whr.filters }

    -- `F`, the function.
    unfoldable filters_where : List K → Options K C Q
    unfolding add_filters new_where
    filters_where kvs = add_filters kvs (new_where [])

    -- `T`, the method: a text is a value of the type `any` by `text`.
    unfoldable pub add_tenant :
        {X : Type 0} → (String → K) → Tenant X → X → Options K C Q → Options K C Q
    add_tenant text tenant ctx whr = elim tenant.value_func [
      | none ↦ whr
      | some f ↦
          if str_eq tenant.key ""
          then whr
          else add_filters (text tenant.key ∷ text (f ctx) ∷ []) whr
    ]

    -- `T`, the function: it calls `ValueFunc` without a test, and panics, `none`, where that is nil.
    unfoldable pub tenant_where :
        {X : Type 0} → (String → K) → Tenant X → X → Option (Options K C Q)
    tenant_where text tenant ctx = elim tenant.value_func [
      | none ↦ none
      | some f ↦ some (add_filters (text tenant.key ∷ text (f ctx) ∷ []) (new_where []))
    ]
