-- ===== src/Distlock/Redis.antt =====
-- pkg/distlock/redis.go. The server and its client are the parameter `Redis`. Two calls of the server
-- are two steps: `between` is what other clients do to the server meanwhile.
pub mod Ownership
use public_pkg.Common.{
  ℕ, Bool, true, false, String, Option, none, some, Result, ok, err, ◌≡◌, str_eq, ◌≢◌,
  if◌then◌else◌,
}
use public_pkg.Common.{List}
use public_pkg.Distlock.{Locker, start_renewal, stop_renewal, LockOption, new_locker}

-- `NewRedisLocker`, of which only the client is its own.
unfoldable new_redis_locker : String → List LockOption → Locker
unfolding new_locker
new_redis_locker hostname opts = new_locker hostname opts

-- SETNX, GET, DEL and EXPIRE of go-redis; a call may fail. `value` is what a key holds.
pub record Redis : Type 1 where
  pub Server : Type 0
  pub Fault : Type 0
  pub set_nx : Server → String → String → ℕ → Result Fault Bool × Server
  pub get : Server → String → Result Fault String × Server
  pub del : Server → String → Option Fault × Server
  pub expire : Server → String → ℕ → Option Fault × Server
  pub value : Server → String → Option String

-- What Redis documents of the calls that succeed.
pub record RedisLaws (r : Redis) : Type 0 where
  pub set_new :
      (s s' : r.Server) (k v : String) (t : ℕ)
      → r.set_nx s k v t ≡ (ok true, s')
      → (r.value s k ≡ none) × (r.value s' k ≡ some v)
  pub set_old :
      (s s' : r.Server) (k v : String) (t : ℕ)
      → r.set_nx s k v t ≡ (ok false, s')
      → (r.value s k ≢ none) × ((j : String) → r.value s' j ≡ r.value s j)
  pub got :
      (s s' : r.Server) (k v : String)
      → r.get s k ≡ (ok v, s')
      → (r.value s k ≡ some v) × ((j : String) → r.value s' j ≡ r.value s j)
  pub deleted :
      (s s' : r.Server) (k j : String)
      → r.del s k ≡ (none, s')
      → r.value s' j ≡ (if str_eq k j then none else r.value s j)
  pub expiring :
      (s s' : r.Server) (k j : String) (t : ℕ)
      → r.expire s k t ≡ (none, s')
      → r.value s' j ≡ r.value s j

-- The errors of the methods; `held_by` carries the owner that GET returned.
pub data LockError (F : Type 0) : Type 0 where
  fault : F → LockError F
  held_by : String → LockError F

module _ (r : Redis) where
  open r use {Server, Fault}

  -- What follows a GET.
  abbrev pub compare_owner :
      Locker → Result Fault String × Server → Option (LockError Fault) × Locker × Server
  compare_owner l (err e, s) = (some (fault e), l, s)
  compare_owner l (ok owner, s) =
      if str_eq owner l.owner_id then (none, l, s) else (some (held_by owner), l, s)

  -- What follows a SETNX.
  abbrev pub after_set :
      (Server → Server)
      → Locker
      → Result Fault Bool × Server
      → Option (LockError Fault) × Locker × Server
  after_set between l (err e, s) = (some (fault e), l, s)
  after_set between l (ok true, s) = (none, start_renewal l, s)
  after_set between l (ok false, s) = compare_owner l (r.get (between s) l.lock_name)

  -- `Lock`; the error is nil where it is `none`.
  unfoldable pub lock :
      (Server → Server) → Locker → Server → Option (LockError Fault) × Locker × Server
  lock between l s = after_set between l (r.set_nx s l.lock_name l.owner_id l.lock_timeout)

  abbrev pub as_error : Option Fault → Option (LockError Fault)
  as_error none = none
  as_error (some e) = some (fault e)

  -- `Unlock`
  unfoldable pub unlock : Locker → Server → Option (LockError Fault) × Locker × Server
  unlock l s = let d = r.del s l.lock_name in (as_error d.0, stop_renewal l, d.1)

  -- `Renew`
  unfoldable pub renew : Locker → Server → Option (LockError Fault) × Locker × Server
  renew l s = let x = r.expire s l.lock_name l.lock_timeout in (as_error x.0, l, x.1)
