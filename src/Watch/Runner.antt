-- ===== src/Watch/Runner.antt =====
-- Start and Stop of pkg/watch/watch.go, which use the GORM locker: a process starts its jobs once it
-- holds the lock. The scheduler's own Start and Stop and the health check are left out.
pub mod Started
use public_pkg.Common.{ℕ, String, List, [], ◌∷◌, Option, none, some, Result, ok, err}
use public_pkg.Distlock.{Locker, LockOption, with_lock_name, with_lock_timeout}
use public_pkg.Distlock.Gorm.{Db, LockError, lock, unlock, new_gorm_locker}

-- `defaultExpiration`, in nanoseconds.
abbrev pub default_expiration : ℕ
default_expiration = 10_000_000_000

-- A round of the loop: when it is, and what other processes did to the data before it.
pub record Round (D : Type 0) : Type 0 where
  pub now : ℕ
  pub others : D → D

-- `Start` so far: it waits for the lock after these rounds, or it has returned, or it panicked.
pub data Progress (D : Type 0) : Type 0 where
  waiting : Locker → D → Progress D
  running : Locker → D → Progress D
  panicked : Progress D

module _ (d : Db) where
  open d use {Data, Fault}

  -- The loop of `Start`; it waits for its ticker between two rounds.
  unfoldable pub acquire : Locker → Data → List (Round Data) → Progress Data
  acquire l s [] = waiting l s
  acquire l s (r ∷ rounds) =
      let x = lock d l r.now (r.others s) in
      elim x.0 [ none ↦ running x.1 x.2 | some e ↦ acquire x.1 x.2 rounds ]

  abbrev pub start_with : Result Fault Locker → Data → List (Round Data) → Progress Data
  start_with (err e) s rounds = panicked
  start_with (ok l) s rounds = acquire l s rounds

  -- `Start`; the error of `NewGORMLocker` is dropped, and a nil locker is used all the same.
  unfoldable pub start : Option Fault → String → String → Data → List (Round Data) → Progress Data
  unfolding acquire
  start migrated hostname lock_name s rounds =
      start_with
        (new_gorm_locker migrated hostname
          (with_lock_timeout default_expiration ∷ with_lock_name lock_name ∷ []))
        s rounds

  -- `Stop` of a runner that holds the lock, after its jobs: an error of `Unlock` is only logged.
  unfoldable pub stop : Locker → Data → Locker × Data
  stop l s = let x = unlock d l s in (x.1, x.2)
