-- ===== src/Distlock/Gorm/Ownership.antt =====
-- Whose lock it is after the methods of the GORM locker.
pub mod History
use public_pkg.Common.{
  ℕ, ◌+◌, ◌≤◌, ◌<◌, Bool, true, false, String, Option, none, some, Result, ok, err, ◌≡◌, ◌≢◌, refl,
  sym, ◌∙◌, ap, str_eq, eq_iff, if◌then◌else◌, arith, Bool-cases, Option-cases, inl, inr, ◌⊎◌,
  pair_of, triple_of, ltb,
}
use public_pkg.Distlock.{Locker, start_renewal, stop_renewal}
use public_pkg.Distlock.Gorm.{
  Db, DbLaws, Row, LockError, fault, held_by, Outcome, is_duplicate_entry, new_row, after_save,
  take_over, after_create, lock_body, as_error, lock, unlock, renew,
}

module _ (d : Db) (law : DbLaws d) where
  open d use {Data, Fault, row}

  -- What a call of `Lock` that returns nil did: the row was not there or had expired, it is this
  -- locker's now, no other row changed, and the renewal runs.
  abbrev pub Acquired : Locker → ℕ → Locker → Data → Data → String → Type 0
  Acquired l now l' s s' j =
      ((row s l.lock_name ≡ none)
        ⊎ ((x : Row) × (row s l.lock_name ≡ some x) × (x.expired_at < now)))
      × (row s' j ≡ (if str_eq l.lock_name j then some (new_row d l now) else row s j))
      × (l' ≡ start_renewal l)

  as_error-none : (e : Option Fault) → as_error d e ≡ none → e ≡ none
  as_error-none none h = refl
  as_error-none (some e) h = cc

  saved_case :
      (l l' : Locker) (now : ℕ) (s s' : Data) (x : Row) (j : String) (r : Option Fault × Data)
      → d.save s (record x { owner_id = l.owner_id; expired_at = now + l.lock_timeout }) ≡ r
      → x.name ≡ l.lock_name
      → after_save d l r ≡ (none, l', s')
      → (row s' j ≡ (if str_eq l.lock_name j then some (new_row d l now) else row s j))
        × (l' ≡ start_renewal l)
  saved_case l l' now s s' x j (some e, t) g n h = absurd (ground arith)
  saved_case l l' now s s' x j (none, t) g n h = ground (arith, law.saved s t _ j g)

  taken_case :
      (l l' : Locker) (now : ℕ) (s s' : Data) (j : String) (r : Result Fault Row × Data)
      → d.first s l.lock_name ≡ r
      → take_over d l now r ≡ (none, l', s')
      → ((x : Row) × (row s l.lock_name ≡ some x) × (x.expired_at < now))
        × (row s' j ≡ (if str_eq l.lock_name j then some (new_row d l now) else row s j))
        × (l' ≡ start_renewal l)
  taken_case l l' now s s' j (err e, t) g h = absurd (ground arith)
  taken_case l l' now s s' j (ok x, t) g h =
      let (there, named, same) = law.read s t l.lock_name j x g in
      elim (Bool-cases (ltb x.expired_at now)) [
        | inr live ↦ absurd (ground arith)
        | inl late ↦
            let (now_row, started) = saved_case l l' now t s' x j _ refl named (rw late at h) in
            ((x, there, ground arith), ground arith, started)
      ]

  created_case :
      (l l' : Locker) (now : ℕ) (s s' : Data) (j : String) (r : Option Fault × Data)
      → d.create s (new_row d l now) ≡ r
      → after_create d l now r ≡ (none, l', s')
      → Acquired l now l' s s' j
  created_case l l' now s s' j (none, t) g h =
      let (free, set) = law.created s t (new_row d l now) j g in
      (inl free, ground arith, ground arith)
  created_case l l' now s s' j (some e, t) g h = elim (Bool-cases (is_duplicate_entry d e)) [
    | inr other ↦ absurd (ground arith)
    | inl dup ↦
        let ((x, there, late), now_row, started) =
          taken_case l l' now t s' j _ refl (rw dup at h) in
        let here = law.not_created s t (new_row d l now) e l.lock_name g in
        let same = law.not_created s t (new_row d l now) e j g in
        (inr (x, sym here ∙ there, late), ground arith, started)
  ]

  -- A call of `Lock` that returns nil found no row or an expired one, and leaves the row with this
  -- locker's owner id and a new expiry, every other row as it was, and the renewal started.
  pub lock-Acquired :
      (l l' : Locker) (now : ℕ) (s s' : Data) (j : String)
      → lock d l now s ≡ (none, l', s')
      → Acquired l now l' s s' j
  unfolding lock
  lock-Acquired l l' now s s' j h = elim (law.committed (lock_body d l now) s) [
    | inl (same, fine) ↦ created_case l l' now s s' j _ refl (sym same ∙ h)
    | inr (e, failed) ↦ absurd (ground arith)
  ]

  -- A call of `Lock` that returns an error leaves the data as they were.
  pub lock_error_unchanged :
      (l : Locker) (now : ℕ) (s : Data) → (lock d l now s).0 ≢ none → (lock d l now s).2 ≡ s
  unfolding lock
  lock_error_unchanged l now s h = elim (law.committed (lock_body d l now) s) [
    | inl (same, fine) ↦ absurd (h (ap (λ x. x.0) same ∙ fine))
    | inr (e, failed) ↦ ap (λ x. x.2) failed
  ]

  -- While the row has not expired, `Lock` returns an error, whoever calls it, and changes no row.
  pub lock_excludes :
      (l : Locker) (now : ℕ) (s : Data) (x : Row)
      → row s l.lock_name ≡ some x
      → now ≤ x.expired_at
      → ((lock d l now s).0 ≢ none) × ((lock d l now s).2 ≡ s)
  lock_excludes l now s x held live = (refused, lock_error_unchanged l now s refused)
    where
      refused : (lock d l now s).0 ≢ none
      refused e =
          let r = lock d l now s in
          elim (lock-Acquired l r.1 now s r.2 l.lock_name (triple_of r e)).0 [
            | inl free ↦ cc
            | inr (y, there, late) ↦ ground arith
          ]

  -- Where the body of the transaction succeeds and the commit fails, `Lock` returns an error with the
  -- renewal running all the same.
  failed_commit_renews :
      (l : Locker) (now : ℕ) (s : Data)
      → (lock_body d l now s).0 ≡ none
      → (lock d l now s).1 ≡ start_renewal l
  unfolding lock
  failed_commit_renews l now s fine =
      let b = lock_body d l now s in
      let started = (created_case l b.1 now s b.2 l.lock_name _ refl (triple_of b fine)).2 in
      elim (law.committed (lock_body d l now) s) [
        | inl (same, _) ↦ ap (λ x. x.1) same ∙ started
        | inr (e, failed) ↦ ap (λ x. x.1) failed ∙ started
      ]

  -- `Unlock` and `Renew` do not ask whose row it is: where they return nil the row is gone, or has the
  -- new expiry under the owner that it had.
  unlock-renew_any :
      (l : Locker) (now : ℕ) (s : Data) (x : Row)
      → row s l.lock_name ≡ some x
      → (unlock d l s).0 ≡ none
      → (renew d l now s).0 ≡ none
      → (row (unlock d l s).2 l.lock_name ≡ none)
        × (row (renew d l now s).2 l.lock_name
            ≡ some (record x { expired_at = now + l.lock_timeout }))
  unfolding unlock renew
  unlock-renew_any l now s x held u r =
      let a = d.delete s l.lock_name in
      let b = d.update_expired s l.lock_name (now + l.lock_timeout) in
      let fine = as_error-none a.0 u in
      let fine' = as_error-none b.0 r in
      ground (
        arith,
        law.deleted s a.1 l.lock_name l.lock_name (pair_of a fine),
        law.updated s b.1 l.lock_name l.lock_name (now + l.lock_timeout) x (pair_of b fine') held,
        eq_iff l.lock_name l.lock_name,
      )
