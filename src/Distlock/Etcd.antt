-- ===== src/Distlock/Etcd.antt =====
-- pkg/distlock/etcd.go. The server is the parameter `Etcd`: a key has a value under a lease.
use public_pkg.Common.{
  ℕ, ◌/◌, String, List, Option, none, some, Result, ok, err, ◌≡◌, refl, str_eq, eq_iff,
  if◌then◌else◌, arith, subst,
}
use public_pkg.Distlock.{Locker, LockOption, new_locker, start_renewal, stop_renewal}

pub record Etcd : Type 1 where
  pub Server : Type 0
  pub Fault : Type 0
  pub Lease : Type 0
  pub grant : Server → ℕ → Result Fault Lease × Server
  pub put : Server → String → String → Lease → Option Fault × Server
  pub delete : Server → String → Option Fault × Server
  pub revoke : Server → Option Lease → Option Fault × Server
  pub keep_alive_once : Server → Option Lease → Option Fault × Server
  pub value : Server → String → Option String

-- What etcd documents of calls that succeed, for a server that answers.
pub record EtcdLaws (r : Etcd) : Type 0 where
  pub granted :
      (s : r.Server) (ttl : ℕ)
      → (id : r.Lease) × (s' : r.Server) × (r.grant s ttl ≡ (ok id, s'))
        × ((j : String) → r.value s' j ≡ r.value s j)
  pub was_put :
      (s : r.Server) (k v : String) (id : r.Lease)
      → (s' : r.Server) × (r.put s k v id ≡ (none, s'))
        × ((j : String) → r.value s' j ≡ (if str_eq k j then some v else r.value s j))

pub data LockError (F : Type 0) : Type 0 where
  fault not_acquired not_revoked : F → LockError F

-- `EtcdLocker`: `lease_id` is what the last grant returned, if there was one.
pub record EtcdLocker (L : Type 0) : Type 0 where
  pub locker : Locker
  pub lease_id : Option L

-- `NewEtcdLocker`, for the result of `clientv3.New`.
unfoldable new_etcd_locker :
    {F L : Type 0} → Option F → String → List LockOption → Result F (EtcdLocker L)
unfolding new_locker
new_etcd_locker (some e) hostname opts = err e
new_etcd_locker none hostname opts =
    ok (record { locker = new_locker hostname opts; lease_id = none })

module _ (r : Etcd) where
  open r use {Server, Fault, Lease}

  abbrev pub Outcome : Type 0
  Outcome = Option (LockError Fault) × EtcdLocker Lease × Server

  abbrev pub after_put : EtcdLocker Lease → Option Fault × Server → Outcome
  after_put l (some e, s) = (some (not_acquired e), l, s)
  after_put l (none, s) = (none, record l { locker = start_renewal l.locker }, s)

  abbrev pub after_grant : EtcdLocker Lease → Result Fault Lease × Server → Outcome
  after_grant l (err e, s) = (some (fault e), l, s)
  after_grant l (ok id, s) =
      after_put (record l { lease_id = some id }) (r.put s l.locker.lock_name l.locker.owner_id id)

  -- `Lock`: the lease is granted for whole seconds.
  unfoldable pub lock : EtcdLocker Lease → Server → Outcome
  lock l s = after_grant l (r.grant s (l.locker.lock_timeout / 1_000_000_000))

  abbrev pub after_revoke : EtcdLocker Lease → Option Fault × Server → Outcome
  after_revoke l (some e, s) = (some (not_revoked e), l, s)
  after_revoke l (none, s) = (none, l, s)

  abbrev pub after_delete : EtcdLocker Lease → Option Fault × Server → Outcome
  after_delete l (some e, s) = (some (fault e), l, s)
  after_delete l (none, s) = after_revoke l (r.revoke s l.lease_id)

  -- `Unlock`
  unfoldable pub unlock : EtcdLocker Lease → Server → Outcome
  unlock l s =
      after_delete (record l { locker = stop_renewal l.locker }) (r.delete s l.locker.lock_name)

  abbrev as_error : Option Fault → Option (LockError Fault)
  as_error none = none
  as_error (some e) = some (fault e)

  -- `Renew`
  unfoldable pub renew : EtcdLocker Lease → Server → Outcome
  renew l s = let x = r.keep_alive_once s l.lease_id in (as_error x.0, l, x.1)

  -- A call of `Lock` never asks who holds the key: it returns nil and takes it over.
  takes :
      (law : EtcdLaws r) (l : EtcdLocker Lease) (s : Server)
      → ((lock l s).0 ≡ none)
        × (r.value (lock l s).2 l.locker.lock_name ≡ some l.locker.owner_id)
        × ((lock l s).1.locker ≡ start_renewal l.locker)
  unfolding lock
  takes law l s =
      let (id, s1, granted, same) = law.granted s (l.locker.lock_timeout / 1_000_000_000) in
      let (s2, put, now) = law.was_put s1 l.locker.lock_name l.locker.owner_id id in
      rw (granted, put)
        (
          refl,
          ground (arith, now l.locker.lock_name, eq_iff l.locker.lock_name l.locker.lock_name),
          refl,
        )

  -- On a server that answers, the lock excludes nobody: two lockers of one name both get it, one after
  -- the other, with their renewals running, and the key is the second one's.
  etcd_both_lock :
      (law : EtcdLaws r) (l l' : EtcdLocker Lease) (s : Server)
      → l'.locker.lock_name ≡ l.locker.lock_name
      → let first = lock l s in
        let second = lock l' first.2 in
        (first.0 ≡ none)
        × (second.0 ≡ none)
        × (first.1.locker ≡ start_renewal l.locker)
        × (second.1.locker ≡ start_renewal l'.locker)
        × (r.value second.2 l.locker.lock_name ≡ some l'.locker.owner_id)
  etcd_both_lock law l l' s named =
      let (a, b, c) = takes law l s in
      let (a', b', c') = takes law l' (lock l s).2 in
      (
        a,
        a',
        c,
        c',
        subst (λ n. r.value (lock l' (lock l s).2).2 n ≡ some l'.locker.owner_id) named b',
      )
