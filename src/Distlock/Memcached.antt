-- ===== src/Distlock/Memcached.antt =====
-- pkg/distlock/memcached.go. The server is the parameter `Memcache`.
pub mod Ownership
use public_pkg.Common.{
  ℕ, suc, ◌+◌, ◌/◌, ◌%◌, ◌^◌, ◌<◌, Bool, true, false, String, Option, none, some, ◌≡◌, ◌≢◌, str_eq,
  if◌then◌else◌,
}
use public_pkg.Common.{List}
use public_pkg.Distlock.{Locker, start_renewal, stop_renewal, LockOption, new_locker}

-- `NewMemcachedLocker`, of which only the client is its own.
unfoldable new_memcached_locker : String → List LockOption → Locker
unfolding new_locker
new_memcached_locker hostname opts = new_locker hostname opts

-- A value and its expiration in seconds; 0 is an item that does not expire.
pub record Item : Type 0 where
  pub value : String
  pub expiration : ℕ

-- `memcache.ErrNotStored`, or any other error.
pub data Fault (F : Type 0) : Type 0 where
  not_stored : Fault F
  other : F → Fault F

pub record Memcache : Type 1 where
  pub Server : Type 0
  pub Cause : Type 0
  pub add : Server → String → Item → Option (Fault Cause) × Server
  pub replace : Server → String → Item → Option (Fault Cause) × Server
  pub delete : Server → String → Option (Fault Cause) × Server
  pub item : Server → String → Option Item

-- What memcached documents: `add` stores only where the key is absent, `replace` only where it is
-- there, and a refused call changes nothing.
pub record MemcacheLaws (m : Memcache) : Type 0 where
  pub added :
      (s s' : m.Server) (k j : String) (x : Item)
      → m.add s k x ≡ (none, s')
      → (m.item s k ≡ none) × (m.item s' j ≡ (if str_eq k j then some x else m.item s j))
  pub not_added :
      (s s' : m.Server) (k : String) (x : Item) → m.add s k x ≡ (some not_stored, s') → s' ≡ s
  pub replaced :
      (s s' : m.Server) (k j : String) (x : Item)
      → m.replace s k x ≡ (none, s')
      → (m.item s k ≢ none) × (m.item s' j ≡ (if str_eq k j then some x else m.item s j))
  pub deleted :
      (s s' : m.Server) (k j : String)
      → m.delete s k ≡ (none, s')
      → m.item s' j ≡ (if str_eq k j then none else m.item s j)

-- The messages of the methods.
pub data LockError (F : Type 0) : Type 0 where
  held_by_another : LockError F
  not_held_anymore : LockError F
  failed : Fault F → LockError F

-- `int32(l.lockTimeout.Seconds())`, for timeouts of less than 2 ^ 31 seconds: whole seconds.
unfoldable pub expiration : ℕ → ℕ
expiration timeout = timeout / 1_000_000_000

abbrev pub own_item : Locker → Item
own_item l = record { value = l.owner_id; expiration = expiration l.lock_timeout }

module _ (m : Memcache) where
  open m use {Server, Cause}

  abbrev pub after_add :
      Locker → Option (Fault Cause) × Server → Option (LockError Cause) × Locker × Server
  after_add l (some not_stored, s) = (some held_by_another, l, s)
  after_add l (some (other e), s) = (some (failed (other e)), l, s)
  after_add l (none, s) = (none, start_renewal l, s)

  -- `Lock`
  unfoldable pub lock : Locker → Server → Option (LockError Cause) × Locker × Server
  lock l s = after_add l (m.add s l.lock_name (own_item l))

  abbrev pub as_error : Option (Fault Cause) → Option (LockError Cause)
  as_error none = none
  as_error (some e) = some (failed e)

  -- `Unlock`
  unfoldable pub unlock : Locker → Server → Option (LockError Cause) × Locker × Server
  unlock l s = let d = m.delete s l.lock_name in (as_error d.0, stop_renewal l, d.1)

  abbrev pub renew_error : Option (Fault Cause) → Option (LockError Cause)
  renew_error none = none
  renew_error (some not_stored) = some not_held_anymore
  renew_error (some (other e)) = some (failed (other e))

  -- `Renew`
  unfoldable pub renew : Locker → Server → Option (LockError Cause) × Locker × Server
  renew l s = let x = m.replace s l.lock_name (own_item l) in (renew_error x.0, l, x.1)
