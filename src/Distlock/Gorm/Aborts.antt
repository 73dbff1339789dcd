-- ===== src/Distlock/Gorm/Aborts.antt =====
-- Lock of pkg/distlock/gorm.go on a database that aborts a transaction at its first error, as PostgreSQL does.
use public_pkg.Common.{ℕ, String, some, Result, ok, err, ◌≡◌, refl, ap, ◌∙◌, Bool-cases, inl, inr}
use public_pkg.Distlock.{Locker}
use public_pkg.Distlock.Gorm.{
  Db, Row, LockError, fault, Outcome, is_duplicate_entry, new_row, take_over, after_create,
  lock_body, lock,
}

-- Such a database: a row with a name that is there is not created, a statement after that in the same transaction is
-- an error too, and a body with an error is rolled back.
pub record DbAborts (d : Db) : Type 0 where
  pub refuses :
      (s : d.Data) (x y : Row)
      → d.row s x.name ≡ some y
      → (e : d.Fault) × (s' : d.Data) × (d.create s x ≡ (some e, s'))
  pub aborted :
      (s s' s'' : d.Data) (x : Row) (e : d.Fault) (n : String) (r : Result d.Fault Row)
      → d.create s x ≡ (some e, s')
      → d.first s' n ≡ (r, s'')
      → (f : d.Fault) × (r ≡ err f)
  pub rolls_back :
      (body : d.Data → Outcome d.Data d.Fault) (s : d.Data) (e : LockError d.Fault)
      → (body s).0 ≡ some e
      → (f : LockError d.Fault) × (d.transaction body s ≡ (some f, (body s).1, s))

module _ (d : Db) (law : DbAborts d) where
  open d use {Data, Fault, row}

  -- The outcome is an error, with the locker as it was.
  abbrev Fails : Locker → Outcome Data Fault → Type 0
  Fails l x = (e : LockError Fault) × (x.0 ≡ some e) × (x.1 ≡ l)

  take_over-Fails :
      (l : Locker) (now : ℕ) (x : Result Fault Row × Data) (f : Fault)
      → x.0 ≡ err f
      → Fails l (take_over d l now x)
  take_over-Fails l now (err e, s) f h = (fault e, refl, refl)
  take_over-Fails l now (ok x, s) f h = cc

  after_create-Fails :
      (l : Locker) (now : ℕ) (s s' : Data) (e : Fault)
      → d.create s (new_row d l now) ≡ (some e, s')
      → Fails l (after_create d l now (some e, s'))
  after_create-Fails l now s s' e h = elim (Bool-cases (is_duplicate_entry d e)) [
    | inl b ↦
        let (f, is) =
          law.aborted s s' (d.first s' l.lock_name).1 (new_row d l now) e l.lock_name
            (d.first s' l.lock_name).0 h refl in
        rw b (take_over-Fails l now (d.first s' l.lock_name) f is)
    | inr b ↦ rw b (fault e, refl, refl)
  ]

  -- There `Lock` returns an error whenever the name has a row, even if the lock has expired, and changes neither the
  -- data nor the locker: once a lock was taken and not released, no process takes it over.
  pub lock_stays :
      (l : Locker) (now : ℕ) (s : Data) (x : Row)
      → row s l.lock_name ≡ some x
      → (e : LockError Fault) × (lock d l now s ≡ (some e, l, s))
  unfolding lock
  lock_stays l now s x there =
      let (e, s', refused) = law.refuses s (new_row d l now) x there in
      let (f, is, same) = after_create-Fails l now s s' e refused in
      let body : lock_body d l now s ≡ after_create d l now (some e, s') =
        ap (λ r. after_create d l now r) refused in
      let (g, ends) =
        law.rolls_back (λ t. lock_body d l now t) s f
          (ap (λ (r : Outcome Data Fault). r.0) body ∙ is) in
      (g, ends ∙ ap (λ l'. (some g, l', s)) (ap (λ (r : Outcome Data Fault). r.1) body ∙ same))
