-- ===== src/Distlock/Mongo.antt =====
-- pkg/distlock/mongo.go. The collection is the parameter `Mongo`.
use public_pkg.Common.{
  ℕ, ◌+◌, ◌<◌, String, List, [], ◌∷◌, Option, none, some, Result, ok, err, ◌≡◌, refl, ◌==◌,
  if◌then◌else◌, arith,
}
use public_pkg.Distlock.{Locker, start_renewal, stop_renewal, LockOption, new_locker}

-- What an operator of an update document assigns to a path of the lock's document.
pub data Assignment : Type 0 where
  owner_is : String → Assignment
  expires_at : ℕ → Assignment

pub data PathName : Type 0 where
  owner_path expiry_path : PathName

abbrev pub path_of : Assignment → PathName
path_of (owner_is owner) = owner_path
path_of (expires_at t) = expiry_path

pub data Operator : Type 0 where
  set_on_insert set : Operator

abbrev pub Update : Type 0
Update = List (Operator × List Assignment)

abbrev pub same_path : PathName → PathName → ℕ
same_path owner_path owner_path = 1
same_path expiry_path expiry_path = 1
same_path owner_path expiry_path = 0
same_path expiry_path owner_path = 0

-- How often the operators of an update document assign to a path.
abbrev pub uses_in : PathName → List Assignment → ℕ
uses_in p [] = 0
uses_in p (a ∷ fields) = same_path p (path_of a) + uses_in p fields

abbrev pub uses : PathName → Update → ℕ
uses p [] = 0
uses p ((operator, fields) ∷ rest) = uses_in p fields + uses p rest

-- `upsert` is `UpdateOne` with the option `SetUpsert(true)` for the document with a name, and returns how many
-- documents it matched; `update_one` is the one without the option.
pub record Mongo : Type 1 where
  pub Server : Type 0
  pub Fault : Type 0
  pub upsert : Server → String → Update → Result Fault ℕ × Server
  pub update_one : Server → String → Update → Option Fault × Server
  pub delete_one : Server → String → Option Fault × Server

-- What MongoDB documents of update operators: an update in which two operators assign to one path is a conflict,
-- which is an error, and nothing is written.
pub record MongoLaws (m : Mongo) : Type 0 where
  pub conflict :
      (s : m.Server) (name : String) (u : Update) (p : PathName)
      → 1 < uses p u
      → (e : m.Fault) × (m.upsert s name u ≡ (err e, s))

pub data LockError (F : Type 0) : Type 0 where
  held_by_another : LockError F
  failed : F → LockError F

-- `NewMongoLocker`, for the result of `mongo.Connect`.
unfoldable new_mongo_locker : {F : Type 0} → Option F → String → List LockOption → Result F Locker
unfolding new_locker
new_mongo_locker (some e) hostname opts = err e
new_mongo_locker none hostname opts = ok (new_locker hostname opts)

module _ (m : Mongo) where
  open m use {Server, Fault}

  abbrev after_upsert :
      Locker → Result Fault ℕ × Server → Option (LockError Fault) × Locker × Server
  after_upsert l (err e, s) = (some (failed e), l, s)
  after_upsert l (ok n, s) =
      if n == 0 then (some held_by_another, l, s) else (none, start_renewal l, s)

  -- The update document of `Lock`.
  abbrev lock_update : String → ℕ → Update
  lock_update owner expired_at =
      (set_on_insert, owner_is owner ∷ expires_at expired_at ∷ [])
      ∷ (set, owner_is owner ∷ expires_at expired_at ∷ [])
      ∷ []

  -- `Lock`
  unfoldable pub lock : Locker → ℕ → Server → Option (LockError Fault) × Locker × Server
  lock l now s =
      after_upsert l (m.upsert s l.lock_name (lock_update l.owner_id (now + l.lock_timeout)))

  abbrev as_error : Option Fault → Option (LockError Fault)
  as_error none = none
  as_error (some e) = some (failed e)

  -- `Unlock`: where the document is deleted, the owner id is cleared too.
  unfoldable pub unlock : Locker → Server → Option (LockError Fault) × Locker × Server
  unlock l s =
      let d = m.delete_one s l.lock_name in
      let l' = stop_renewal l in
      elim d.0 [
        | none ↦ (none, record l' { owner_id = "" }, d.1)
        | some e ↦ (some (failed e), l', d.1)
      ]

  -- `Renew`
  unfoldable pub renew : Locker → ℕ → Server → Option (LockError Fault) × Locker × Server
  renew l now s =
      let u : Update = (set, expires_at (now + l.lock_timeout) ∷ []) ∷ [] in
      let x = m.update_one s l.lock_name u in (as_error x.0, l, x.1)

  -- `Lock` never succeeds: it returns an error of the server at every call, whether the lock is free, expired or held
  -- by anyone, changes nothing on the server and starts no renewal, as its update document assigns to the owner and
  -- to the expiry under two operators.
  pub mongo_lock_fails :
      (law : MongoLaws m) (l : Locker) (now : ℕ) (s : Server)
      → (e : Fault) × (lock l now s ≡ (some (failed e), l, s))
  unfolding lock
  mongo_lock_fails law l now s =
      let (e, refused) =
        law.conflict s l.lock_name (lock_update l.owner_id (now + l.lock_timeout)) owner_path
          (omega arith) in
      (e, rw (lock, refused) refl)
