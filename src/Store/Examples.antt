-- ===== src/Store/Examples.antt =====
-- Statements with one query and their options used twice.
use public_pkg.Common.{String, false, List, [], ◌∷◌, none, ok}
use public_pkg.Where.{Options, with_query, new_where}
use public_pkg.Store.{Orm}

-- A table of strings without faults, in which a query is one condition.
abbrev strings : Orm String String String
strings = record {
  Data = List String;
  Fault = String;
  Item = String;
  build = λ q args. q ∷ [];
  create = λ s x. (none, x ∷ s);
  save = λ s x. (none, x ∷ s);
  delete = λ s c. (none, []);
  first = λ s c. ok "a";
  find_count = λ s c. (none, 1, s);
  is_not_found = λ e. false;
}

abbrev adults : Options String String String
unfolding new_where with_query
adults = new_where (with_query "age > 17" [] ∷ [])
