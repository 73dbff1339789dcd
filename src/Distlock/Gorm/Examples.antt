-- ===== src/Distlock/Gorm/Examples.antt =====
-- The theorems about the GORM locker over a table that is a function from names to owners and times.
use public_pkg.Common.{
  ℕ, String, List, [], ◌∷◌, Option, none, some, Result, ok, err, ◌≡◌, refl, arith, str_eq, eq_iff,
  if◌then◌else◌, inl, inr, true, false, Bool, ◌⊎◌,
}
use public_pkg.Distlock.{Locker, start_renewal}
use public_pkg.Distlock.Gorm
use public_pkg.Distlock.Gorm.{Db, DbLaws, Row, LockError, Outcome, lock_body, new_row}
use public_pkg.Distlock.Gorm.Progress.{DbAnswers}
use public_pkg.Distlock.Gorm.Aborts.{DbAborts, lock_stays}
use public_pkg.Watch.Runner.{Round, acquire}
use public_pkg.Watch.Runner.Started.{IsWaiting, Runs, between, one_runs, start_ends}
use public_pkg.Distlock.Gorm.Ownership.History.{
  Act, tries, renews, Held, AllRefused, run, lock_exclusive,
}

-- An owner and an expiry by name, and whether the next commit works.
record Table : Type 0 where
  rows : String → Option (String × ℕ)
  up : Bool

abbrev to_row : String → Option (String × ℕ) → Option Row
to_row n none = none
to_row n (some (owner, t)) = some (record { name = n; owner_id = owner; expired_at = t })

abbrev put : Table → String → Option (String × ℕ) → Table
put s k v = record s { rows = λ j. if str_eq k j then v else s.rows j }

-- The fault is MySQL's number of a duplicate entry.
abbrev create : Table → Row → Option (String × ℕ) → Option (Unit {0}) × Table
create s x (some old) = (some tt, s)
create s x none = (none, put s x.name (some (x.owner_id, x.expired_at)))

abbrev first : Table → String → Option (String × ℕ) → Result (Unit {0}) Row × Table
first s n none = (err tt, s)
first s n (some (owner, t)) = (ok (record { name = n; owner_id = owner; expired_at = t }), s)

abbrev update : Table → String → ℕ → Option (String × ℕ) → Option (Unit {0}) × Table
update s n t none = (none, s)
update s n t (some (owner, old)) = (none, put s n (some (owner, t)))

abbrev commit : Bool → Table → Outcome Table (Unit {0}) → Outcome Table (Unit {0})
commit up s (some e, l, s') = (some e, l, s)
commit true s (none, l, s') = (none, l, s')
commit false s (none, l, s') = (some (LockError.fault tt), l, s)

-- The database whose commits work where `up` says so.
abbrev database : (Table → Bool) → Db
database up = record {
  Data = Table;
  Fault = Unit {0};
  create = λ s x. create s x (s.rows x.name);
  first = λ s n. first s n (s.rows n);
  save = λ s x. (none, put s x.name (some (x.owner_id, x.expired_at)));
  delete = λ s n. (none, put s n none);
  update_expired = λ s n t. update s n t (s.rows n);
  transaction = λ body s. commit (up s) s (body s);
  mysql_number = λ e. some 1062;
  pg_code = λ e. none;
  row = λ s n. to_row n (s.rows n);
}

abbrev db : Db
db = database (λ s. s.up)

committed_case :
    (up : Bool) (s : Table) (x : Outcome Table (Unit {0}))
    → ((commit up s x ≡ x) × (x.0 ≡ none))
      ⊎ ((e : LockError (Unit {0})) × (commit up s x ≡ (some e, x.1, s)))
committed_case true s (some e, l, s') = inr (e, refl)
committed_case false s (some e, l, s') = inr (e, refl)
committed_case true s (none, l, s') = inl (refl, refl)
committed_case false s (none, l, s') = inr (LockError.fault tt, refl)

database-DbLaws : (up : Table → Bool) → DbLaws (database up)
database-DbLaws up = record {
  created = λ s s' x j e. ground (arith, eq_iff x.name j);
  not_created = λ s s' x f j e. ground arith;
  read = λ s s' n j x e. ground arith;
  saved = λ s s' x j e. ground (arith, eq_iff x.name j);
  deleted = λ s s' n j e. ground arith;
  updated = λ s s' n j t x e h. ground (arith, eq_iff n j);
  not_updated = λ s s' n j t e h. ground arith;
  committed = λ body s. committed_case (up s) s (body s);
}

db-DbLaws : DbLaws db
db-DbLaws = database-DbLaws (λ s. s.up)

abbrev locker : Locker
locker = record {
  lock_name = "job";
  lock_timeout = 10;
  owner_id = "host1";
  ticking = false;
  renewers = 0;
}

-- The lock of another host that expired at 5, and what host1 makes of it at 20.
abbrev expired : Table
expired = record { rows = λ n. if str_eq "job" n then some ("host2", 5) else none; up = true }

abbrev taken : Table
taken = put expired "job" (some ("host1", 30))

took : Gorm.lock db locker 20 expired ≡ (none, start_renewal locker, taken)
unfolding Gorm.lock Gorm.is_duplicate_entry
took = refl

abbrev broken : Table
broken = record expired { up = false }

-- Another host tries, the goroutine renews, and the other host tries again.
abbrev later : List Act
later =
    tries (record locker { owner_id = "host3" }) 25
    ∷ renews locker 25
    ∷ tries (record locker { owner_id = "host3" }) 30
    ∷ []

lock_exclusive_example : AllRefused db later taken × Held db "job" "host1" 30 (run db later taken)
lock_exclusive_example =
    lock_exclusive db db-DbLaws locker (start_renewal locker) 20 expired taken later took
      ((refl, omega arith), ((refl, omega arith), ((refl, omega arith), tt)))

-- A database whose commits always work.
abbrev steady : Db
steady = database (λ s. true)

row_of :
    (n : String) (o : Option (String × ℕ)) (x : Row)
    → to_row n o ≡ some x
    → (v : String × ℕ) × (o ≡ some v)
row_of n none x h = cc
row_of n (some v) x h = (v, refl)

finds_case :
    (s : Table) (n : String) (o : Option (String × ℕ)) (x : Row)
    → to_row n o ≡ some x
    → first s n o ≡ (ok x, s)
finds_case s n none x h = cc
finds_case s n (some (owner, t)) x h = ground arith

creates_case :
    (s : Table) (x : Row) (o : Option (String × ℕ))
    → to_row x.name o ≡ none
    → (s' : Table) × (create s x o ≡ (none, s'))
creates_case s x none h = (_, refl)
creates_case s x (some (owner, t)) h = cc

refuses_case :
    (s : Table) (x y : Row) (o : Option (String × ℕ))
    → to_row x.name o ≡ some y
    → create s x o ≡ (some tt, s)
refuses_case s x y none h = cc
refuses_case s x y (some (owner, t)) h = refl

steady_commit : (s : Table) (x : Outcome Table (Unit {0})) → x.0 ≡ none → commit true s x ≡ x
steady_commit s (none, l, s') h = refl
steady_commit s (some e, l, s') h = cc

steady-DbAnswers : DbAnswers steady
unfolding Gorm.is_duplicate_entry
steady-DbAnswers = record {
  creates = λ s x free. creates_case s x (s.rows x.name) free;
  refuses = λ s x y held. (tt, refuses_case s x y (s.rows x.name) held, refl);
  finds = λ s n x held. finds_case s n (s.rows n) x held;
  saves = λ s x. (_, refl);
  commits = λ l now s fine. steady_commit s (lock_body steady l now s) fine;
}

abbrev second : Locker
second = record locker { owner_id = "host3" }

-- The first process renews between the rounds of the second.
abbrev waits : List (ℕ × List Act)
waits = (22, []) ∷ (28, renews locker 25 ∷ []) ∷ []

one_runs_example : IsWaiting db "job" "host1" 30 (acquire db second taken (between db waits))
one_runs_example =
    one_runs db db-DbLaws locker (start_renewal locker) second 20 expired taken waits took refl
      ((omega arith, tt), ((omega arith, ((refl, omega arith), tt)), tt))

-- A round at a time, before which other processes delete the row.
abbrev deleted_before : ℕ → Round Table
deleted_before t = record { now = t; others = λ s. put s "job" none }

abbrev untouched : ℕ → Round Table
untouched t = record { now = t; others = λ s. s }

start_ends_example : Runs steady locker (
    acquire steady locker expired (untouched 3 ∷ untouched 4 ∷ deleted_before 5 ∷ untouched 9 ∷ []))
start_ends_example =
    start_ends steady (database-DbLaws (λ s. true)) steady-DbAnswers locker expired
      (untouched 3 ∷ untouched 4 ∷ []) (untouched 9 ∷ []) (deleted_before 5) (λ l s waits. inl refl)

-- A database that aborts: the table, and whether the transaction goes on.
abbrev create_or_abort : Table → Row → Option (String × ℕ) → Option (Unit {0}) × Table
create_or_abort s x (some old) = (some tt, record s { up = false })
create_or_abort s x none = (none, put s x.name (some (x.owner_id, x.expired_at)))

abbrev first_up : Bool → Table → String → Result (Unit {0}) Row × Table
first_up false s n = (err tt, s)
first_up true s n = first s n (s.rows n)

abbrev abrupt : Db
abrupt = record steady {
  create = λ s x. create_or_abort s x (s.rows x.name);
  first = λ s n. first_up s.up s n;
}

abort_case :
    (s : Table) (x y : Row) (o : Option (String × ℕ))
    → to_row x.name o ≡ some y
    → create_or_abort s x o ≡ (some tt, record s { up = false })
abort_case s x y none h = cc
abort_case s x y (some old) h = refl

down_case :
    (s s' : Table) (x : Row) (e : Unit {0}) (o : Option (String × ℕ))
    → create_or_abort s x o ≡ (some e, s')
    → s'.up ≡ false
down_case s s' x e none h = cc
down_case s s' x e (some old) h = cc

first_down :
    (b : Bool) (s s'' : Table) (n : String) (r : Result (Unit {0}) Row)
    → b ≡ false
    → first_up b s n ≡ (r, s'')
    → (f : Unit {0}) × (r ≡ err f)
first_down false s s'' n r h e = (tt, ground arith)
first_down true s s'' n r h e = cc

rollback_case :
    (s : Table) (x : Outcome Table (Unit {0})) (e : LockError (Unit {0}))
    → x.0 ≡ some e
    → (f : LockError (Unit {0})) × (commit true s x ≡ (some f, x.1, s))
rollback_case s (none, l, s') e h = cc
rollback_case s (some f, l, s') e h = (f, refl)

abrupt-DbAborts : DbAborts abrupt
abrupt-DbAborts = record {
  refuses = λ s x y held. (tt, _, abort_case s x y (s.rows x.name) held);
  aborted = λ s s' s'' x e n r h h'.
      first_down s'.up s' s'' n r (down_case s s' x e (s.rows x.name) h) h';
  rolls_back = λ body s e h. rollback_case s (body s) e h;
}

lock_stays_example :
    (e : LockError (Unit {0})) × (Gorm.lock abrupt locker 20 expired ≡ (some e, locker, expired))
lock_stays_example =
    lock_stays abrupt abrupt-DbAborts locker 20 expired
      (record { name = "job"; owner_id = "host2"; expired_at = 5 }) refl
