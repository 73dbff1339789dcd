-- ===== src/Distlock/Gorm/Ownership/History.antt =====
-- A lock of the database against any sequence of later attempts to take it and of renewals.
use public_pkg.Common.{
  ℕ, ◌+◌, ◌≤◌, Option, List, [], ◌∷◌, String, none, some, ◌≡◌, ◌≢◌, refl, ◌∙◌, arith, All, eq_iff,
  subst, sym, ap,
}
use public_pkg.Distlock.{Locker}
use public_pkg.Distlock.Gorm.{Db, DbLaws, Row, new_row, lock, renew}
use public_pkg.Distlock.Gorm.Ownership.{lock-Acquired, lock_excludes}

-- A call of `Lock` by some locker at some time, or of `Renew`, as the goroutines of `Lock` make them.
pub data Act : Type 0 where
  tries renews : Locker → ℕ → Act

module _ (d : Db) where
  open d use {Data, Fault, row}

  abbrev pub act : Act → Data → Data
  unfolding renew
  act (tries l now) s = (lock d l now s).2
  act (renews l now) s = (renew d l now s).2

  -- The calls one after another.
  unfoldable pub run : List Act → Data → Data
  unfolding renew
  run [] s = s
  run (a ∷ rest) s = run rest (act a s)

  -- Each call of `Lock` among them returns an error.
  unfoldable pub AllRefused : List Act → Data → Type 0
  unfolding renew
  AllRefused [] s = Unit
  AllRefused (tries l now ∷ rest) s =
      ((lock d l now s).0 ≢ none) × AllRefused rest (act (tries l now) s)
  AllRefused (renews l now ∷ rest) s = AllRefused rest (act (renews l now) s)

  -- A call for the lock `n`: of `Lock`, no later than `t`; or of `Renew`, which extends the lock to `t` or later, as
  -- each does that the owner makes after its call of `Lock`.
  abbrev pub Within : String → ℕ → Act → Type 0
  Within n t (tries l now) = (l.lock_name ≡ n) × (now ≤ t)
  Within n t (renews l now) = (l.lock_name ≡ n) × (t ≤ now + l.lock_timeout)

  -- The row of the lock `n` has this owner and expires at `t` or later.
  abbrev pub Held : String → String → ℕ → Data → Type 0
  Held n owner t s = (x : Row) × (row s n ≡ some x) × (x.owner_id ≡ owner) × (t ≤ x.expired_at)

  update_case :
      (law : DbLaws d) (s : Data) (n owner : String) (t until : ℕ) (r : Option Fault × Data)
      → t ≤ until
      → Held n owner t s
      → d.update_expired s n until ≡ r
      → Held n owner t r.1
  update_case law s n owner t until (none, s') long (x, held, own, live) e = (
    record x { expired_at = until },
    law.updated s s' n n until x e held ∙ rw ((eq_iff n n).1 refl) refl,
    own,
    long,
  )
  update_case law s n owner t until (some f, s') long (x, held, own, live) e =
      (x, law.not_updated s s' n n until f e ∙ held, own, live)

  renew-Held :
      (law : DbLaws d) (l : Locker) (now : ℕ) (s : Data) (owner : String) (t : ℕ)
      → t ≤ now + l.lock_timeout
      → Held l.lock_name owner t s
      → Held l.lock_name owner t (renew d l now s).2
  unfolding renew
  renew-Held law l now s owner t long held =
      update_case law s l.lock_name owner t (now + l.lock_timeout) _ long held refl

  pub refused_throughout :
      (law : DbLaws d) (s : Data) (n owner : String) (t : ℕ) (later : List Act)
      → Held n owner t s
      → All (Within n t) later
      → AllRefused later s × Held n owner t (run later s)
  unfolding run AllRefused renew
  refused_throughout law s n owner t [] held h = (tt, held)
  refused_throughout law s n owner t (tries l now ∷ rest) (x, held, own, live) ((named, early), h) =
      let (refused, same) =
        lock_excludes d law l now s x (subst (λ m. row s m ≡ some x) (sym named) held)
          (omega arith) in
      let still : Held n owner t (lock d l now s).2 =
        (x, ap (λ s'. row s' n) same ∙ held, own, live) in
      let (others, last) = refused_throughout law (lock d l now s).2 n owner t rest still h in
      ((refused, others), last)
  refused_throughout law s n owner t (renews l now ∷ rest) held ((named, long), h) =
      let still : Held n owner t (renew d l now s).2 =
        subst (λ m. Held m owner t (renew d l now s).2) named
          (renew-Held law l now s owner t long (subst (λ m. Held m owner t s) (sym named) held)) in
      refused_throughout law (renew d l now s).2 n owner t rest still h

  -- Once `Lock` has returned nil, in every sequence of further calls of `Lock` for the same name, by whichever
  -- lockers, and of calls of `Renew`, none of which shortens the lock, every call of `Lock` until the timeout has
  -- passed is refused, and in the end the row still has the first owner and expires no earlier than the first
  -- call wrote. Calls of `Unlock` are not among them.
  pub lock_exclusive :
      (law : DbLaws d) (l l' : Locker) (now : ℕ) (s s' : Data) (later : List Act)
      → lock d l now s ≡ (none, l', s')
      → All (Within l.lock_name (now + l.lock_timeout)) later
      → AllRefused later s' × Held l.lock_name l.owner_id (now + l.lock_timeout) (run later s')
  lock_exclusive law l l' now s s' later h early =
      let held : row s' l.lock_name ≡ some (new_row d l now) = ground (
        arith,
        (lock-Acquired d law l l' now s s' l.lock_name h).1,
        eq_iff l.lock_name l.lock_name,
      ) in
      refused_throughout law s' l.lock_name l.owner_id (now + l.lock_timeout) later
        (new_row d l now, held, refl, omega arith) early
