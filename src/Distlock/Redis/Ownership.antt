-- ===== src/Distlock/Redis/Ownership.antt =====
-- Whose lock it is after the methods of the Redis locker.
use public_pkg.Common.{
  Bool, true, false, String, Option, none, some, Result, ok, err, ◌≡◌, ◌≢◌, refl, str_eq, eq_iff,
  if◌then◌else◌, arith, pair_of, triple_of, ap, inl, inr, ◌⊎◌,
}
use public_pkg.Distlock.{Locker, start_renewal}
use public_pkg.Distlock.Redis.{Redis, RedisLaws, lock, unlock, after_set, compare_owner, as_error}

module _ (r : Redis) (law : RedisLaws r) where
  open r use {Server, value}

  as_error-none : (e : Option r.Fault) → as_error r e ≡ none → e ≡ none
  as_error-none none h = refl
  as_error-none (some e) h = cc

  owner_compared :
      (l l' : Locker) (s s' : Server) (x : Result r.Fault String × Server)
      → r.get s l.lock_name ≡ x
      → compare_owner r l x ≡ (none, l', s')
      → (value s l.lock_name ≡ some l.owner_id)
        × (value s' l.lock_name ≡ some l.owner_id)
        × (l' ≡ l)
  owner_compared l l' s s' (err e, t) g h = absurd (ground arith)
  owner_compared l l' s s' (ok owner, t) g h =
      let (held, same) = law.got s t l.lock_name owner g in
      ground (arith, held, same l.lock_name, eq_iff owner l.owner_id)

  lock_cases :
      (between : Server → Server) (l l' : Locker) (s s' : Server) (x : Result r.Fault Bool × Server)
      → r.set_nx s l.lock_name l.owner_id l.lock_timeout ≡ x
      → after_set r between l x ≡ (none, l', s')
      → (value s' l.lock_name ≡ some l.owner_id)
        × (((value s l.lock_name ≡ none) × (l' ≡ start_renewal l))
            ⊎ ((value (between x.1) l.lock_name ≡ some l.owner_id)
                × (value x.1 l.lock_name ≡ value s l.lock_name)
                × (l' ≡ l)))
  lock_cases between l l' s s' (err e, t) g h = absurd (ground arith)
  lock_cases between l l' s s' (ok true, t) g h =
      let (free, set) = law.set_new s t l.lock_name l.owner_id l.lock_timeout g in
      (ground arith, inl (free, ground arith))
  lock_cases between l l' s s' (ok false, t) g h =
      let (before, after, same) = owner_compared l l' (between t) s' _ refl h in
      (after, inr (before, (law.set_old s t _ _ _ g).1 l.lock_name, same))

  -- A call of `Lock` that returns nil leaves the key with this locker's owner id, whatever the other
  -- clients did between its two calls of the server.
  redis_lock-owns :
      (between : Server → Server) (l l' : Locker) (s s' : Server)
      → lock r between l s ≡ (none, l', s')
      → value s' l.lock_name ≡ some l.owner_id
  unfolding lock
  redis_lock-owns between l l' s s' h = (lock_cases between l l' s s' _ refl h).0

  -- While another owner holds the key, and the other clients leave it alone during the call, `Lock`
  -- returns an error.
  pub redis_lock_excludes :
      (between : Server → Server) (l : Locker) (s : Server) (owner : String)
      → ((t : Server) → value (between t) l.lock_name ≡ value t l.lock_name)
      → value s l.lock_name ≡ some owner
      → owner ≢ l.owner_id
      → (lock r between l s).0 ≢ none
  unfolding lock
  redis_lock_excludes between l s owner alone held other e =
      let x = lock r between l s in
      elim (lock_cases between l x.1 s x.2 _ refl (triple_of x e)).1 [
        | inl (free, _) ↦ cc
        | inr (now, same, _) ↦
            other (ground (arith, alone (r.set_nx s l.lock_name l.owner_id l.lock_timeout).1))
      ]

  -- `Lock` of a key that the locker holds already starts no renewal: it returns nil only with the
  -- locker as it was, and makes no call that extends the key's life.
  redis_relock_unchanged :
      (between : Server → Server) (l l' : Locker) (s s' : Server)
      → value s l.lock_name ≡ some l.owner_id
      → lock r between l s ≡ (none, l', s')
      → l' ≡ l
  unfolding lock
  redis_relock_unchanged between l l' s s' held h = elim (lock_cases between l l' s s' _ refl h).1 [
    | inl (free, e) ↦ absurd (cc)
    | inr (now, same, e) ↦ e
  ]

  -- `Unlock` does not ask who holds the key: where it returns nil the key is gone, whoever held it,
  -- every other key is as it was, and the locker's ticker is stopped.
  redis_unlock_releases_any :
      (l l' : Locker) (s s' : Server) (j : String)
      → unlock r l s ≡ (none, l', s')
      → (value s' l.lock_name ≡ none)
        × (value s' j ≡ (if str_eq l.lock_name j then none else value s j))
        × (l'.ticking ≡ false)
  unfolding unlock
  redis_unlock_releases_any l l' s s' j h =
      let d = r.del s l.lock_name in
      let no_fault : d.0 ≡ none = as_error-none d.0 (ap (λ x. x.0) h) in
      let there : d.1 ≡ s' = ap (λ x. x.2) h in
      ground (
        arith,
        law.deleted s d.1 l.lock_name l.lock_name (pair_of d no_fault),
        law.deleted s d.1 l.lock_name j (pair_of d no_fault),
        eq_iff l.lock_name l.lock_name,
      )
