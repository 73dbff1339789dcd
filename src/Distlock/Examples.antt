-- ===== src/Distlock/Examples.antt =====
-- The theorems about the lockers over servers that are functions from names to what they hold.
use public_pkg.Common.{
  ℕ, ◌<◌, ◌⊎◌, ltb, String, List, [], ◌∷◌, Option, none, some, Result, ok, err, ◌≡◌, ◌≢◌, refl,
  arith, str_eq, eq_iff, if◌then◌else◌, true, false, Bool,
}
use public_pkg.Common.Int.{pos, ◌≤ℤ◌}
use public_pkg.Distlock.{Locker}
use public_pkg.Distlock.Redis
use public_pkg.Distlock.Redis.{Redis, RedisLaws}
use public_pkg.Distlock.Redis.Ownership.{redis_lock_excludes}
use public_pkg.Distlock.Memcached
use public_pkg.Distlock.Memcached.{Memcache, MemcacheLaws, Item, not_stored, own_item}
use public_pkg.Distlock.Mongo
use public_pkg.Distlock.Mongo.{
  Mongo, MongoLaws, Assignment, owner_is, expires_at, PathName, owner_path, expiry_path, Update,
  uses, mongo_lock_fails,
}
use public_pkg.Distlock.Renewal.{
  System, Run, initial, locks, panics, unlocks, here, next, lock, selecting, no_unlock_no_panic,
  unlock_panics,
}

abbrev Table : Type 0 → Type 0
Table A = String → Option A

abbrev write : {A : Type 0} → Table A → String → Option A → Table A
write s k v = λ j. if str_eq k j then v else s j

abbrev nothing : {A : Type 0} → Table A
nothing j = none

abbrev locker : Locker
locker = record {
  lock_name = "job";
  lock_timeout = 10;
  owner_id = "host1";
  ticking = false;
  renewers = 0;
}

-- Redis, without expiry.
abbrev add_new :
    Table String → String → String → Option String → Result (Unit {0}) Bool × Table String
add_new s k v (some old) = (ok false, s)
add_new s k v none = (ok true, write s k (some v))

abbrev read : Table String → Option String → Result (Unit {0}) String × Table String
read s none = (err tt, s)
read s (some v) = (ok v, s)

abbrev redis : Redis
redis = record {
  Server = Table String;
  Fault = Unit {0};
  set_nx = λ s k v t. add_new s k v (s k);
  get = λ s k. read s (s k);
  del = λ s k. (none, write s k none);
  expire = λ s k t. (none, s);
  value = λ s k. s k;
}

redis-RedisLaws : RedisLaws redis
redis-RedisLaws = record {
  set_new = λ s s' k v t e. ground (arith, eq_iff k k);
  set_old = λ s s' k v t e. ((λ n. ground arith), (λ j. ground arith));
  got = λ s s' k v e. (ground arith, (λ j. ground arith));
  deleted = λ s s' k j e. ground arith;
  expiring = λ s s' k j t e. ground arith;
}

-- memcached.
abbrev add_item :
    Table Item → String → Item → Option Item → Option (Memcached.Fault (Unit {0})) × Table Item
add_item s k x (some old) = (some not_stored, s)
add_item s k x none = (none, write s k (some x))

abbrev replace_item :
    Table Item → String → Item → Option Item → Option (Memcached.Fault (Unit {0})) × Table Item
replace_item s k x none = (some not_stored, s)
replace_item s k x (some old) = (none, write s k (some x))

abbrev memcache : Memcache
memcache = record {
  Server = Table Item;
  Cause = Unit {0};
  add = λ s k x. add_item s k x (s k);
  replace = λ s k x. replace_item s k x (s k);
  delete = λ s k. (none, write s k none);
  item = λ s k. s k;
}

memcache-MemcacheLaws : MemcacheLaws memcache
memcache-MemcacheLaws = record {
  added = λ s s' k j x e. ground arith;
  not_added = λ s s' k x e. ground arith;
  replaced = λ s s' k j x e. ((λ n. ground arith), ground arith);
  deleted = λ s s' k j e. ground arith;
}

-- MongoDB.
abbrev matched : Option String → ℕ
matched none = 0
matched (some owner) = 1

abbrev owner_in : List Assignment → Option String
owner_in [] = none
owner_in (owner_is owner ∷ fields) = some owner
owner_in (expires_at t ∷ fields) = owner_in fields

abbrev owner_of : Update → Option String
owner_of [] = none
owner_of ((operator, fields) ∷ rest) = elim (owner_in fields) [
  | none ↦ owner_of rest
  | some owner ↦ some owner
]

abbrev upsert_one : Table String → String → Update → Result (Unit {0}) ℕ × Table String
upsert_one s name u =
    if ltb 1 (uses owner_path u)
    then (err tt, s)
    else if ltb 1 (uses expiry_path u)
    then (err tt, s)
    else (ok (matched (s name)), write s name (owner_of u))

abbrev mongo : Mongo
mongo = record {
  Server = Table String;
  Fault = Unit {0};
  upsert = upsert_one;
  update_one = λ s name u. (none, s);
  delete_one = λ s name. (none, write s name none);
}

conflict_refused :
    (s : Table String) (name : String) (u : Update) (p : PathName)
    → 1 < uses p u
    → (e : Unit {0}) × (upsert_one s name u ≡ (err e, s))
conflict_refused s name u owner_path h = (tt, ground arith)
conflict_refused s name u expiry_path h = (tt, ground arith)

mongo-MongoLaws : MongoLaws mongo
mongo-MongoLaws = record { conflict = conflict_refused }

-- A table in which another host, or this one, holds the lock.
abbrev held_by_host2 : Table String
held_by_host2 = write nothing "job" (some "host2")

abbrev held_by_host1 : Table String
held_by_host1 = write nothing "job" (some "host1")

redis_lock_excludes_example : (Redis.lock redis (λ s. s) locker held_by_host2).0 ≢ none
redis_lock_excludes_example =
    redis_lock_excludes redis redis-RedisLaws (λ s. s) locker held_by_host2 "host2" (λ t. refl) refl
      (λ e. ground (arith, eq_iff "host2" "host1"))

abbrev own : Item
own = own_item locker

abbrev others_item : Table Item
others_item = write nothing "job" (some (record { value = "host2"; expiration = 10 }))

mongo_lock_fails_example :
    (e : Unit {0}) × (Mongo.lock mongo locker 100 nothing
      ≡ (some (Mongo.failed e), locker, nothing))
mongo_lock_fails_example = mongo_lock_fails mongo mongo-MongoLaws locker 100 nothing

abbrev locked : System
locked = record (initial (pos 10)) { ticker = some 0; made = 1; renewers = selecting ∷ [] }

no_unlock_no_panic_example : locked.panicked ≡ false
no_unlock_no_panic_example =
    no_unlock_no_panic {timeout = pos 10} {t = locked} {es = locks ∷ []} (omega arith)
      (next here (lock (initial (pos 10)) (omega arith))) ((λ e. cc), tt)

unlock_panics_example :
    ((pos 2 ≤ℤ pos 10)
      × (t : System) × Run (initial (pos 10)) (panics ∷ unlocks ∷ locks ∷ []) t
      × (t.panicked ≡ true))
    ⊎ ((pos 10 ≤ℤ pos 1)
        × (t : System) × Run (initial (pos 10)) (panics ∷ []) t
        × (t.panicked ≡ true))
unlock_panics_example = unlock_panics (initial (pos 10))
