-- ===== src/Distlock.antt =====
-- pkg/distlock: a lock that the processes of a service share through a server.
-- distlock.go (the options), noop.go, and what the lockers have in common. What they log is left out.
pub mod Redis
pub mod Consul
pub mod Etcd
pub mod Zookeeper
pub mod Gorm
pub mod Memcached
pub mod Mongo
pub mod Renewal
mod Examples
mod ConsensusExamples
use public_pkg.Common.{ℕ, suc, ◌+◌, Bool, true, false, String, List, [], ◌∷◌, Option, none, some}

-- `Options` without the logger; a duration is a number of nanoseconds.
pub record Options : Type 0 where
  pub lock_name : String
  pub lock_timeout : ℕ
  pub owner_id : String

-- The four functions that return an `Option`, but for `WithLogger`.
pub data LockOption : Type 0 where
  with_lock_name : String → LockOption
  with_lock_timeout : ℕ → LockOption
  with_owner_id : String → LockOption

abbrev pub default_lock_name : String
default_lock_name = "onex-distributed-lock"

-- `NewOptions`; the host's name is that of the operating system.
unfoldable pub new_options : String → Options
new_options hostname = record {
  lock_name = default_lock_name;
  lock_timeout = 10_000_000_000;
  owner_id = hostname;
}

unfoldable pub apply_option : LockOption → Options → Options
apply_option (with_lock_name name) o = record o { lock_name = name }
apply_option (with_lock_timeout timeout) o = record o { lock_timeout = timeout }
apply_option (with_owner_id id) o = record o { owner_id = id }

apply_all : List LockOption → Options → Options
apply_all [] o = o
apply_all (opt ∷ opts) o = apply_all opts (apply_option opt o)

unfoldable pub apply_options : String → List LockOption → Options
unfolding apply_all
apply_options hostname opts = apply_all opts (new_options hostname)

-- The fields of a locker that its methods change or read. `ticking` says that `renewTicker` is not
-- nil; `renewers` counts the calls of `go l.renewLock(ctx)` so far.
pub record Locker : Type 0 where
  pub lock_name : String
  pub lock_timeout : ℕ
  pub owner_id : String
  pub ticking : Bool
  pub renewers : ℕ

-- The struct that the constructors build from the options.
unfoldable pub new_locker : String → List LockOption → Locker
unfolding apply_options new_options apply_option
new_locker hostname opts =
    let o = apply_options hostname opts in
    record {
      lock_name = o.lock_name;
      lock_timeout = o.lock_timeout;
      owner_id = o.owner_id;
      ticking = false;
      renewers = 0;
    }

-- `l.renewTicker = time.NewTicker(l.lockTimeout / 2); go l.renewLock(ctx)`
abbrev pub start_renewal : Locker → Locker
start_renewal l = record l { ticking = true; renewers = suc l.renewers }

-- `if l.renewTicker != nil { l.renewTicker.Stop(); l.renewTicker = nil }`
abbrev pub stop_renewal : Locker → Locker
stop_renewal l = record l { ticking = false }

-- The methods of `NoopLocker`, which never fail.
unfoldable pub noop_lock : Locker → Locker
noop_lock l = start_renewal l

unfoldable pub noop_unlock : Locker → Locker
noop_unlock l = record (stop_renewal l) { owner_id = "" }

unfoldable pub noop_renew : Locker → Locker
noop_renew l = l
