-- ===== src/Distlock/Zookeeper.antt =====
-- pkg/distlock/zookeeper.go. The server is the parameter `Zookeeper`, a tree of nodes by their paths.
use Prim.Native.String
use text.Mathlib.TextLemmas.{append_cancel_left}
use public_pkg.Common.{
  Bool, true, false, String, List, Option, none, some, Result, ok, err, ◌≡◌, ◌≢◌, refl, str_eq,
  eq_iff, if◌then◌else◌, arith, sym, ap, ◌∙◌,
}
use public_pkg.Distlock.{Locker, LockOption, new_locker, start_renewal, stop_renewal}

-- `zk.ErrNodeExists`, or another error.
pub data Fault (C : Type 0) : Type 0 where
  node_exists : Fault C
  other : C → Fault C

pub record Zookeeper : Type 1 where
  pub Server : Type 0
  pub Cause : Type 0
  pub create : Server → String → Option (Fault Cause) × Server
  pub delete : Server → String → Option (Fault Cause) × Server
  pub there : Server → String → Bool

-- What Zookeeper documents of creating a node, for a server that answers.
pub record ZookeeperLaws (r : Zookeeper) : Type 0 where
  pub created :
      (s : r.Server) (path : String)
      → r.there s path ≡ false
      → (s' : r.Server) × (r.create s path ≡ (none, s'))
        × ((j : String) → r.there s' j ≡ (if str_eq path j then true else r.there s j))
  pub existed :
      (s : r.Server) (path : String)
      → r.there s path ≡ true
      → r.create s path ≡ (some node_exists, s)

pub data LockError (C : Type 0) : Type 0 where
  held_by_another : LockError C
  not_acquired not_released : Fault C → LockError C

-- `NewZookeeperLocker`, for the result of `zk.Connect`.
unfoldable new_zookeeper_locker :
    {F : Type 0} → Option F → String → List LockOption → Result F Locker
unfolding new_locker
new_zookeeper_locker (some e) hostname opts = err e
new_zookeeper_locker none hostname opts = ok (new_locker hostname opts)

-- `fmt.Sprintf("%s/%s", l.lockPath, l.ownerID)`
abbrev pub lock_node : Locker → String
lock_node l = String.◌++◌ l.lock_name (String.◌++◌ "/" l.owner_id)

module _ (r : Zookeeper) where
  open r use {Server, Cause}

  abbrev pub Outcome : Type 0
  Outcome = Option (LockError Cause) × Locker × Server

  abbrev pub after_create : Locker → Option (Fault Cause) × Server → Outcome
  after_create l (some node_exists, s) = (some held_by_another, l, s)
  after_create l (some (other e), s) = (some (not_acquired (other e)), l, s)
  after_create l (none, s) = (none, start_renewal l, s)

  -- `Lock`
  unfoldable pub lock : Locker → Server → Outcome
  lock l s = after_create l (r.create s (lock_node l))

  abbrev pub after_delete : Locker → Option (Fault Cause) × Server → Outcome
  after_delete l (some e, s) = (some (not_released e), l, s)
  after_delete l (none, s) = (none, record l { owner_id = "" }, s)

  -- `Unlock`
  unfoldable pub unlock : Locker → Server → Outcome
  unlock l s = after_delete (stop_renewal l) (r.delete s (lock_node l))

  -- `Renew`, which calls no server.
  unfoldable pub renew : Locker → Server → Outcome
  renew l s = (none, l, s)

  -- The nodes of two owners differ.
  node_injective :
      (l l' : Locker)
      → l.lock_name ≡ l'.lock_name
      → lock_node l ≡ lock_node l'
      → l.owner_id ≡ l'.owner_id
  node_injective l l' named e = append_cancel_left "/" l.owner_id l'.owner_id (
      append_cancel_left l.lock_name (String.◌++◌ "/" l.owner_id) (String.◌++◌ "/" l'.owner_id)
        (e ∙ ap (λ (n : String). String.◌++◌ n (String.◌++◌ "/" l'.owner_id)) (sym named)))

  lock_new :
      (l : Locker) (s s' : Server)
      → r.create s (lock_node l) ≡ (none, s')
      → lock l s ≡ (none, start_renewal l, s')
  unfolding lock
  lock_new l s s' h = rw h refl

  lock_held :
      (l : Locker) (s s' : Server)
      → r.create s (lock_node l) ≡ (some node_exists, s')
      → lock l s ≡ (some held_by_another, l, s')
  unfolding lock
  lock_held l s s' h = rw h refl

  -- The lock excludes only its own owner. Where neither node is there, two lockers of one name and of
  -- different owners both get the lock, with their renewals running; a second locker of the same owner
  -- is told that another owner holds it.
  zookeeper_both_lock :
      (law : ZookeeperLaws r) (l l' again : Locker) (s : Server)
      → l.lock_name ≡ l'.lock_name
      → l.owner_id ≢ l'.owner_id
      → again.lock_name ≡ l.lock_name
      → again.owner_id ≡ l.owner_id
      → r.there s (lock_node l) ≡ false
      → r.there s (lock_node l') ≡ false
      → let first = lock l s in
        (first.0 ≡ none)
        × (first.1 ≡ start_renewal l)
        × ((lock l' first.2).0 ≡ none)
        × ((lock l' first.2).1 ≡ start_renewal l')
        × ((lock again first.2).0 ≡ some held_by_another)
  zookeeper_both_lock law l l' again s named differs named' same free free' =
      let (s1, made, now) = law.created s (lock_node l) free in
      let gone : r.there s1 (lock_node l') ≡ false = ground (
        arith,
        now (lock_node l'),
        eq_iff (lock_node l) (lock_node l'),
        node_injective l l' named,
      ) in
      let (s2, made', now') = law.created s1 (lock_node l') gone in
      let kept : r.there s1 (lock_node again) ≡ true =
        ground
          (arith, now (lock_node again), eq_iff (lock_node l) (lock_node again), named', same) in
      let second = lock_new l' s1 s2 made' in
      let third = lock_held again s1 s1 (law.existed s1 (lock_node again) kept) in
      rw (lock_new l s s1 made)
        (refl, refl, ap (λ x. x.0) second, ap (λ x. x.1) second, ap (λ x. x.0) third)
