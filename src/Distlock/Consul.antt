-- ===== src/Distlock/Consul.antt =====
-- pkg/distlock/consul.go. The server is the parameter `Consul`: keys with values, and sessions that end
-- at a deadline unless they are renewed.
use public_pkg.Common.{
  ℕ, String, List, Option, none, some, Result, ok, err, ◌≡◌, ◌≢◌, refl, str_eq, eq_iff,
  if◌then◌else◌, arith, subst, ◌∙◌,
}
use public_pkg.Distlock.{Locker, LockOption, new_locker, start_renewal, stop_renewal}

pub record Consul : Type 1 where
  pub Server : Type 0
  pub Fault : Type 0
  pub create : Server → ℕ → Result Fault String × Server
  pub put : Server → String → String → String → Option Fault × Server
  pub delete : Server → String → Option Fault × Server
  pub renew_session : Server → String → Option Fault × Server
  pub value : Server → String → Option String
  pub deadline : Server → String → Option ℕ

-- What Consul documents, for a server that answers: a put without a flag for acquiring stores the
-- value whatever session it names.
pub record ConsulLaws (r : Consul) : Type 0 where
  pub created :
      (s : r.Server) (ttl : ℕ) → (id : String) × (s' : r.Server) × (r.create s ttl ≡ (ok id, s'))
  pub was_put :
      (s : r.Server) (k v id : String)
      → (s' : r.Server) × (r.put s k v id ≡ (none, s'))
        × ((j : String) → r.value s' j ≡ (if str_eq k j then some v else r.value s j))
        × ((j : String) → r.deadline s' j ≡ r.deadline s j)
  pub renewed :
      (s : r.Server) (id j : String)
      → id ≢ j
      → r.deadline (r.renew_session s id).1 j ≡ r.deadline s j

pub data LockError (F : Type 0) : Type 0 where
  no_session not_acquired not_released not_renewed : F → LockError F

-- `NewConsulLocker`, for the result of `api.NewClient`.
unfoldable new_consul_locker : {F : Type 0} → Option F → String → List LockOption → Result F Locker
unfolding new_locker
new_consul_locker (some e) hostname opts = err e
new_consul_locker none hostname opts = ok (new_locker hostname opts)

module _ (r : Consul) where
  open r use {Server, Fault}

  abbrev pub Outcome : Type 0
  Outcome = Option (LockError Fault) × Locker × Server

  abbrev pub after_put : Locker → Option Fault × Server → Outcome
  after_put l (some e, s) = (some (not_acquired e), l, s)
  after_put l (none, s) = (none, start_renewal l, s)

  abbrev pub after_create : Locker → Result Fault String × Server → Outcome
  after_create l (err e, s) = (some (no_session e), l, s)
  after_create l (ok id, s) = after_put l (r.put s l.lock_name l.owner_id id)

  -- `Lock`
  unfoldable pub lock : Locker → Server → Outcome
  lock l s = after_create l (r.create s l.lock_timeout)

  abbrev pub with_error : (Fault → LockError Fault) → Locker → Option Fault × Server → Outcome
  with_error message l (some e, s) = (some (message e), l, s)
  with_error message l (none, s) = (none, l, s)

  -- `Unlock`
  unfoldable pub unlock : Locker → Server → Outcome
  unlock l s = with_error not_released (stop_renewal l) (r.delete s l.lock_name)

  -- `Renew`: the session that it names is the owner's id.
  unfoldable pub renew : Locker → Server → Outcome
  renew l s = with_error not_renewed l (r.renew_session s l.owner_id)

  server_of :
      (message : Fault → LockError Fault) (l : Locker) (x : Option Fault × Server)
      → (with_error message l x).2 ≡ x.1
  server_of message l (some e, s) = refl
  server_of message l (none, s) = refl

  -- A call of `Lock` never asks who holds the key, and leaves the session's deadline as it was created.
  takes :
      (law : ConsulLaws r) (l : Locker) (s s1 : Server) (id : String)
      → r.create s l.lock_timeout ≡ (ok id, s1)
      → ((lock l s).0 ≡ none)
        × ((lock l s).1 ≡ start_renewal l)
        × (r.value (lock l s).2 l.lock_name ≡ some l.owner_id)
        × (r.deadline (lock l s).2 id ≡ r.deadline s1 id)
  unfolding lock
  takes law l s s1 id made =
      let (s2, put, now, same) = law.was_put s1 l.lock_name l.owner_id id in
      rw (made, put)
        (refl, refl, ground (arith, now l.lock_name, eq_iff l.lock_name l.lock_name), same id)

  renew_spares :
      (law : ConsulLaws r) (l : Locker) (s : Server) (id : String)
      → l.owner_id ≢ id
      → r.deadline (renew l s).2 id ≡ r.deadline s id
  unfolding renew
  renew_spares law l s id h =
      rw (server_of not_renewed l (r.renew_session s l.owner_id)) (law.renewed s l.owner_id id h)

  -- On a server that answers, a second locker of one name gets the lock that the first one holds. And
  -- the renewal of the first one, whose owner's id is not the session's, leaves the session to end at
  -- the deadline that it was created with.
  consul_both_lock :
      (law : ConsulLaws r) (l l' : Locker) (s s1 : Server) (id : String)
      → l'.lock_name ≡ l.lock_name
      → r.create s l.lock_timeout ≡ (ok id, s1)
      → l.owner_id ≢ id
      → ((lock l s).0 ≡ none)
        × ((lock l' (lock l s).2).0 ≡ none)
        × (r.value (lock l' (lock l s).2).2 l.lock_name ≡ some l'.owner_id)
        × (r.deadline (renew (lock l s).1 (lock l s).2).2 id ≡ r.deadline s1 id)
  consul_both_lock law l l' s s1 id named made differs =
      let (a, started, b, kept) = takes law l s s1 id made in
      let (id', s2, made') = law.created (lock l s).2 l'.lock_timeout in
      let (a', started', b', kept') = takes law l' (lock l s).2 s2 id' made' in
      (
        a,
        a',
        subst (λ n. r.value (lock l' (lock l s).2).2 n ≡ some l'.owner_id) named b',
        rw started (renew_spares law (start_renewal l) (lock l s).2 id differs ∙ kept),
      )
