-- ===== src/Distlock/Gorm.antt =====
-- pkg/distlock/gorm.go. The database is the parameter `Db`; what a transaction does to the locker's
-- fields, which it does not roll back, is part of its result. Time is an argument of each call.
pub mod Ownership
pub mod Progress
pub mod Aborts
mod Examples
use public_pkg.Common.{
  ℕ, ◌+◌, Bool, true, false, String, Option, none, some, Result, ok, err, ◌≡◌, ◌≢◌, ◌⊎◌, ltb, ◌==◌,
  str_eq, if◌then◌else◌,
}
use public_pkg.Common.{List}
use public_pkg.Distlock.{Locker, start_renewal, stop_renewal, LockOption, new_locker}

-- `Lock`, the row of a lock, without its id and its two other times.
pub record Row : Type 0 where
  pub name : String
  pub owner_id : String
  pub expired_at : ℕ

-- The errors of the methods: one of the database's, or the message about the owner.
pub data LockError (F : Type 0) : Type 0 where
  fault : F → LockError F
  held_by : String → LockError F

-- What the body of a transaction, and the transaction, leave behind.
abbrev pub Outcome : Type 0 → Type 0 → Type 0
Outcome D F = Option (LockError F) × Locker × D

-- gorm.io/gorm: `create` inserts a row whose name is unique, `first` reads it, `save` and
-- `update_expired` write it, `delete` removes it. `mysql_number` and `pg_code` are the type
-- assertions on an error. `row` is the row of a name.
pub record Db : Type 1 where
  pub Data : Type 0
  pub Fault : Type 0
  pub create : Data → Row → Option Fault × Data
  pub first : Data → String → Result Fault Row × Data
  pub save : Data → Row → Option Fault × Data
  pub delete : Data → String → Option Fault × Data
  pub update_expired : Data → String → ℕ → Option Fault × Data
  pub transaction : (Data → Outcome Data Fault) → Data → Outcome Data Fault
  pub mysql_number : Fault → Option ℕ
  pub pg_code : Fault → Option String
  pub row : Data → String → Option Row

-- `NewGORMLocker`, for the result of `AutoMigrate`.
unfoldable pub new_gorm_locker :
    {F : Type 0} → Option F → String → List LockOption → Result F Locker
unfolding new_locker
new_gorm_locker (some e) hostname opts = err e
new_gorm_locker none hostname opts = ok (new_locker hostname opts)

module _ (d : Db) where
  open d use {Data, Fault}

  -- What a database documents of these statements. A transaction keeps what its body did, or it
  -- leaves the data as they were and returns an error.
  pub record DbLaws : Type 0 where
    pub created :
        (s s' : Data) (x : Row) (j : String)
        → d.create s x ≡ (none, s')
        → (d.row s x.name ≡ none) × (d.row s' j ≡ (if str_eq x.name j then some x else d.row s j))
    pub not_created :
        (s s' : Data) (x : Row) (e : Fault) (j : String)
        → d.create s x ≡ (some e, s')
        → d.row s' j ≡ d.row s j
    pub read :
        (s s' : Data) (n j : String) (x : Row)
        → d.first s n ≡ (ok x, s')
        → (d.row s n ≡ some x) × (x.name ≡ n) × (d.row s' j ≡ d.row s j)
    pub saved :
        (s s' : Data) (x : Row) (j : String)
        → d.save s x ≡ (none, s')
        → d.row s' j ≡ (if str_eq x.name j then some x else d.row s j)
    pub deleted :
        (s s' : Data) (n j : String)
        → d.delete s n ≡ (none, s')
        → d.row s' j ≡ (if str_eq n j then none else d.row s j)
    pub updated :
        (s s' : Data) (n j : String) (t : ℕ) (x : Row)
        → d.update_expired s n t ≡ (none, s')
        → d.row s j ≡ some x
        → d.row s' j ≡ some (if str_eq n j then record x { expired_at = t } else x)
    pub not_updated :
        (s s' : Data) (n j : String) (t : ℕ) (e : Fault)
        → d.update_expired s n t ≡ (some e, s')
        → d.row s' j ≡ d.row s j
    pub committed :
        (body : Data → Outcome Data Fault) (s : Data)
        → ((d.transaction body s ≡ body s) × ((body s).0 ≡ none))
          ⊎ ((e : LockError Fault) × (d.transaction body s ≡ (some e, (body s).1, s)))

  -- `isDuplicateEntry`, for an error that is not nil.
  unfoldable pub is_duplicate_entry : Fault → Bool
  is_duplicate_entry e = elim (d.mysql_number e) [
    | some n ↦ n == 1062
    | none ↦ elim (d.pg_code e) [ some c ↦ str_eq c "23505" | none ↦ false ]
  ]

  abbrev pub new_row : Locker → ℕ → Row
  new_row l now = record {
    name = l.lock_name;
    owner_id = l.owner_id;
    expired_at = now + l.lock_timeout;
  }

  abbrev pub after_save : Locker → Option Fault × Data → Outcome Data Fault
  after_save l (some e, s) = (some (fault e), l, s)
  after_save l (none, s) = (none, start_renewal l, s)

  -- What follows reading the existing row: it is taken over only if it expired before now.
  abbrev pub take_over : Locker → ℕ → Result Fault Row × Data → Outcome Data Fault
  take_over l now (err e, s) = (some (fault e), l, s)
  take_over l now (ok x, s) =
      if ltb x.expired_at now
      then after_save l
          (d.save s (record x { owner_id = l.owner_id; expired_at = now + l.lock_timeout }))
      else (some (held_by x.owner_id), l, s)

  abbrev pub after_create : Locker → ℕ → Option Fault × Data → Outcome Data Fault
  after_create l now (none, s) = (none, start_renewal l, s)
  after_create l now (some e, s) =
      if is_duplicate_entry e
      then take_over l now (d.first s l.lock_name)
      else (some (fault e), l, s)

  -- The body of the transaction.
  abbrev pub lock_body : Locker → ℕ → Data → Outcome Data Fault
  lock_body l now s = after_create l now (d.create s (new_row l now))

  -- `Lock`. What the goroutine that it starts does later are calls of `renew`; what a statement after a failed
  -- `Create` does is up to the database.
  unfoldable pub lock : Locker → ℕ → Data → Outcome Data Fault
  lock l now s = d.transaction (lock_body l now) s

  abbrev pub as_error : Option Fault → Option (LockError Fault)
  as_error none = none
  as_error (some e) = some (fault e)

  -- `Unlock`
  unfoldable pub unlock : Locker → Data → Outcome Data Fault
  unlock l s = let x = d.delete s l.lock_name in (as_error x.0, stop_renewal l, x.1)

  -- `Renew`
  unfoldable pub renew : Locker → ℕ → Data → Outcome Data Fault
  renew l now s =
      let x = d.update_expired s l.lock_name (now + l.lock_timeout) in (as_error x.0, l, x.1)
