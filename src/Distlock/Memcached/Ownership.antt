-- ===== src/Distlock/Memcached/Ownership.antt =====
-- Whose lock it is after the methods of the memcached locker.
use public_pkg.Common.{
  ◌<◌, String, Option, none, some, ◌≡◌, ◌≢◌, refl, ap, str_eq, eq_iff, if◌then◌else◌, arith,
  pair_of,
}
use public_pkg.Distlock.{Locker, start_renewal}
use public_pkg.Distlock.Memcached.{
  Memcache, MemcacheLaws, Fault, not_stored, other, own_item, after_add, lock, renew, renew_error,
  expiration,
}

module _ (m : Memcache) (law : MemcacheLaws m) where
  open m use {Server, Cause, item}

  added_case :
      (l l' : Locker) (s s' : Server) (j : String) (r : Option (Fault Cause) × Server)
      → m.add s l.lock_name (own_item l) ≡ r
      → after_add m l r ≡ (none, l', s')
      → (item s l.lock_name ≡ none)
        × (item s' j ≡ (if str_eq l.lock_name j then some (own_item l) else item s j))
        × (l' ≡ start_renewal l)
  added_case l l' s s' j (some not_stored, t) g h = absurd (ground arith)
  added_case l l' s s' j (some (other e), t) g h = absurd (ground arith)
  added_case l l' s s' j (none, t) g h = ground (arith, law.added s t l.lock_name j (own_item l) g)

  -- A call of `Lock` that returns nil found the key absent, and leaves it with this locker's owner id,
  -- the other keys as they were and the renewal started.
  memcached_lock-owns :
      (l l' : Locker) (s s' : Server) (j : String)
      → lock m l s ≡ (none, l', s')
      → (item s l.lock_name ≡ none)
        × (item s' j ≡ (if str_eq l.lock_name j then some (own_item l) else item s j))
        × (l' ≡ start_renewal l)
  unfolding lock
  memcached_lock-owns l l' s s' j h = added_case l l' s s' j _ refl h

  renewed : (e : Option (Fault Cause)) → renew_error m e ≡ none → e ≡ none
  renewed none h = refl
  renewed (some not_stored) h = cc
  renewed (some (other e)) h = cc

  -- `Renew` does not ask who holds the lock: where it returns nil the key was there, under whatever
  -- owner, and is this locker's now.
  memcached_renew_takes :
      (l l' : Locker) (s s' : Server)
      → renew m l s ≡ (none, l', s')
      → (item s l.lock_name ≢ none) × (item s' l.lock_name ≡ some (own_item l))
  unfolding renew
  memcached_renew_takes l l' s s' h =
      let x = m.replace s l.lock_name (own_item l) in
      let (there, set) =
        law.replaced s x.1 l.lock_name l.lock_name (own_item l)
          (pair_of x (renewed x.0 (ap (λ t. t.0) h))) in
      (there, ground (arith, ap (λ t. t.2) h, set, eq_iff l.lock_name l.lock_name))

  -- A timeout of less than a second is stored as 0, which memcached takes for an item that does not
  -- expire: the key that `Lock` leaves then has no end of life.
  memcached_short_timeout :
      (l l' : Locker) (s s' : Server)
      → l.lock_timeout < 1_000_000_000
      → lock m l s ≡ (none, l', s')
      → item s' l.lock_name ≡ some (record { value = l.owner_id; expiration = 0 })
  unfolding expiration
  memcached_short_timeout l l' s s' short h =
      ground (arith, memcached_lock-owns l l' s s' l.lock_name h, eq_iff l.lock_name l.lock_name)
