-- ===== src/Distlock/Gorm/Progress.antt =====
-- When `Lock` has to succeed, and what it makes of the locker.
use public_pkg.Common.{
  ℕ, ◌+◌, ◌<◌, Bool, if◌then◌else◌, true, false, String, Option, none, some, Result, ok, err, ◌≡◌,
  refl, ◌∙◌, ap, ◌⊎◌, inl, inr, arith, ltb,
}
use public_pkg.Distlock.{Locker, start_renewal}
use public_pkg.Distlock.Gorm.{
  Db, DbLaws, Row, fault, held_by, Outcome, is_duplicate_entry, new_row, after_save, take_over,
  after_create, lock_body, lock,
}

-- A database that answers: each statement does what it is for, also after a `Create` of the same transaction that was
-- refused, as in MySQL and unlike PostgreSQL, and a body without an error commits.
pub record DbAnswers (d : Db) : Type 0 where
  pub creates :
      (s : d.Data) (x : Row) → d.row s x.name ≡ none → (s' : d.Data) × (d.create s x ≡ (none, s'))
  pub refuses :
      (s : d.Data) (x y : Row)
      → d.row s x.name ≡ some y
      → (e : d.Fault) × (d.create s x ≡ (some e, s)) × (is_duplicate_entry d e ≡ true)
  pub finds : (s : d.Data) (n : String) (x : Row) → d.row s n ≡ some x → d.first s n ≡ (ok x, s)
  pub saves : (s : d.Data) (x : Row) → (s' : d.Data) × (d.save s x ≡ (none, s'))
  pub commits :
      (l : Locker) (now : ℕ) (s : d.Data)
      → (lock_body d l now s).0 ≡ none
      → d.transaction (lock_body d l now) s ≡ lock_body d l now s

module _ (d : Db) where
  open d use {Data, Fault, row}

  -- The row is missing or has expired.
  abbrev pub IsFree : Data → String → ℕ → Type 0
  IsFree s n now = (row s n ≡ none) ⊎ ((x : Row) × (row s n ≡ some x) × (x.expired_at < now))

  -- A call of `Lock` for a name that is free returns nil.
  pub lock_free :
      (live : DbAnswers d) (l : Locker) (now : ℕ) (s : Data)
      → IsFree s l.lock_name now
      → (lock d l now s).0 ≡ none
  unfolding lock
  lock_free live l now s free = ap (λ x. x.0) (live.commits l now s (body free)) ∙ body free
    where
      body : IsFree s l.lock_name now → (lock_body d l now s).0 ≡ none
      body (inl missing) = rw ((live.creates s (new_row d l now) missing).1) refl
      body (inr (x, there, late)) =
          let (e, refused, dup) = live.refuses s (new_row d l now) x there in
          rw (refused, dup, live.finds s l.lock_name x there)
            (ground (
              arith,
              live.saves s (record x { owner_id = l.owner_id; expired_at = now + l.lock_timeout }),
            ))

  -- `Lock` leaves the locker as it is, or starts the renewal.
  abbrev pub IsSame : Locker → Locker → Type 0
  IsSame l l' = (l' ≡ l) ⊎ (l' ≡ start_renewal l)

  either_locker :
      (l : Locker) (b : Bool) (x y : Outcome Data Fault)
      → IsSame l x.1
      → IsSame l y.1
      → IsSame l (if b then x else y).1
  either_locker l true x y h k = h
  either_locker l false x y h k = k

  save_locker : (l : Locker) (r : Option Fault × Data) → IsSame l (after_save d l r).1
  save_locker l (some e, s) = inl refl
  save_locker l (none, s) = inr refl

  taken_locker :
      (l : Locker) (now : ℕ) (r : Result Fault Row × Data) → IsSame l (take_over d l now r).1
  taken_locker l now (err e, s) = inl refl
  taken_locker l now (ok x, s) =
      let taken = record x { owner_id = l.owner_id; expired_at = now + l.lock_timeout } in
      either_locker l (ltb x.expired_at now) (after_save d l (d.save s taken))
        (some (held_by x.owner_id), l, s) (save_locker l (d.save s taken)) (inl refl)

  created_locker :
      (l : Locker) (now : ℕ) (r : Option Fault × Data) → IsSame l (after_create d l now r).1
  created_locker l now (none, s) = inr refl
  created_locker l now (some e, s) =
      either_locker l (is_duplicate_entry d e) (take_over d l now (d.first s l.lock_name))
        (some (fault e), l, s) (taken_locker l now (d.first s l.lock_name)) (inl refl)

  pub lock_locker : (law : DbLaws d) (l : Locker) (now : ℕ) (s : Data) → IsSame l (lock d l now s).1
  unfolding lock
  lock_locker law l now s = elim (law.committed (lock_body d l now) s) [
    | inl (same, fine) ↦ rw same (created_locker l now (d.create s (new_row d l now)))
    | inr (e, failed) ↦ rw failed (created_locker l now (d.create s (new_row d l now)))
  ]
