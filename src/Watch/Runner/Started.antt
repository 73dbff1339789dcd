-- ===== src/Watch/Runner/Started.antt =====
-- Which processes start, and that they do.
use public_pkg.Common.{
  ℕ, ◌+◌, ◌≤◌, String, List, [], ◌∷◌, ◌++◌, none, some, ◌≡◌, ◌≢◌, refl, sym, ◌∙◌, ap, inl, inr,
  arith, All, Option-cases, triple_of, eq_iff, subst,
}
use public_pkg.Distlock.{Locker}
use public_pkg.Distlock.Gorm.{Db, DbLaws, new_row, lock}
use public_pkg.Distlock.Gorm.Ownership.{lock-Acquired, lock_excludes}
use public_pkg.Distlock.Gorm.Ownership.History.{Act, Within, Held, run, refused_throughout}
use public_pkg.Distlock.Gorm.Progress.{DbAnswers, IsFree, lock_free, lock_locker, IsSame}
use public_pkg.Watch.Runner.{Round, Progress, waiting, running, acquire}

module _ (d : Db) where
  open d use {Data, row}

  -- A round that fails, and one that succeeds.
  failed_round :
      (l : Locker) (s : Data) (r : Round Data) (rounds : List (Round Data))
      → (lock d l r.now (r.others s)).0 ≢ none
      → acquire d l s (r ∷ rounds)
        ≡ acquire d (lock d l r.now (r.others s)).1 (lock d l r.now (r.others s)).2 rounds
  unfolding acquire
  failed_round l s r rounds refused = elim (Option-cases (lock d l r.now (r.others s)).0) [
    | inl fine ↦ absurd (refused fine)
    | inr (e, h) ↦ rw (h, acquire) refl
  ]

  last_round :
      (l : Locker) (s : Data) (r : Round Data) (rounds : List (Round Data))
      → (lock d l r.now (r.others s)).0 ≡ none
      → acquire d l s (r ∷ rounds)
        ≡ running (lock d l r.now (r.others s)).1 (lock d l r.now (r.others s)).2
  unfolding acquire
  last_round l s r rounds h = rw (h, acquire) refl

  same_name : (l l' : Locker) → IsSame d l l' → l'.lock_name ≡ l.lock_name
  same_name l l' (inl e) = ap (λ (x : Locker). x.lock_name) e
  same_name l l' (inr e) = ap (λ (x : Locker). x.lock_name) e

  -- Rounds at these times, each after these calls of `Lock` and `Renew` by any processes.
  abbrev pub between : List (ℕ × List Act) → List (Round Data)
  between [] = []
  between ((now, acts) ∷ rest) = record { now = now; others = run d acts } ∷ between rest

  -- A round no later than `t`, after calls of `Lock` no later than it and of `Renew` to it or later.
  abbrev pub Early : String → ℕ → ℕ × List Act → Type 0
  Early n t (now, acts) = (now ≤ t) × All (Within d n t) acts

  -- Waiting with a locker of that name, while the owner holds the lock until `t` or later.
  abbrev pub IsWaiting : String → String → ℕ → Progress Data → Type 0
  IsWaiting n owner t p =
      (l : Locker) × (s : Data) × (p ≡ waiting l s) × (l.lock_name ≡ n) × Held d n owner t s

  stays_out :
      (law : DbLaws d) (l : Locker) (s : Data) (n owner : String) (t : ℕ)
      (rounds : List (ℕ × List Act))
      → l.lock_name ≡ n
      → Held d n owner t s
      → All (Early n t) rounds
      → IsWaiting n owner t (acquire d l s (between rounds))
  unfolding acquire
  stays_out law l s n owner t [] named held h = (l, s, refl, named, held)
  stays_out law l s n owner t ((now, acts) ∷ rounds) named held ((early, within), h) =
      let (x, there, own, live) = (refused_throughout d law s n owner t acts held within).1 in
      let s1 = run d acts s in
      let (refused, same) =
        lock_excludes d law l now s1 x (subst (λ m. row s1 m ≡ some x) (sym named) there)
          (omega arith) in
      let l' = (lock d l now s1).1 in
      let (l'', s'', ends, name, still) =
        stays_out law l' (lock d l now s1).2 n owner t rounds
          (same_name l l' (lock_locker d law l now s1) ∙ named)
          (x, ap (λ s'. row s' n) same ∙ there, own, live) h in
      (
        l'',
        s'',
        failed_round l s (record { now = now; others = run d acts }) (between rounds) refused
            ∙ ends,
        name,
        still,
      )

  -- Two processes with one lock name: where the first got the lock, the second still waits after any number of
  -- rounds up to the timeout of the first one's call, and the first one still owns the row, whatever calls of
  -- `Lock` for the name and of `Renew`, none of which shortens the lock, come between the rounds; calls of
  -- `Unlock` do not.
  pub one_runs :
      (law : DbLaws d) (first first' second : Locker) (now : ℕ) (s s' : Data)
      (rounds : List (ℕ × List Act))
      → lock d first now s ≡ (none, first', s')
      → second.lock_name ≡ first.lock_name
      → All (Early first.lock_name (now + first.lock_timeout)) rounds
      → IsWaiting first.lock_name first.owner_id
          (now + first.lock_timeout)
          (acquire d second s' (between rounds))
  one_runs law first first' second now s s' rounds h named early =
      let held : row s' first.lock_name ≡ some (new_row d first now) = ground (
        arith,
        (lock-Acquired d law first first' now s s' first.lock_name h).1,
        eq_iff first.lock_name first.lock_name,
      ) in
      stays_out law second s' first.lock_name first.owner_id (now + first.lock_timeout) rounds named
        (new_row d first now, held, refl, omega arith) early

  -- A process ends its start: the locker runs its renewal, and the row is its own since that round.
  abbrev pub Runs : Locker → Progress Data → Type 0
  Runs l p =
      (l' : Locker) × (s' : Data) × (when : ℕ) × (p ≡ running l' s')
      × (row s' l.lock_name ≡ some (new_row d l when))

  same-Runs : (l l' : Locker) (p : Progress Data) → IsSame d l l' → Runs l' p → Runs l p
  same-Runs l l' p (inl e) r = subst (λ x. Runs x p) e r
  same-Runs l l' p (inr e) r = subst (λ x. Runs x p) e r

  acquired-Runs :
      (law : DbLaws d) (l : Locker) (s : Data) (r : Round Data) (rounds : List (Round Data))
      → (lock d l r.now (r.others s)).0 ≡ none
      → Runs l (acquire d l s (r ∷ rounds))
  acquired-Runs law l s r rounds fine =
      let x = lock d l r.now (r.others s) in
      (
        x.1,
        x.2,
        r.now,
        last_round l s r rounds fine,
        ground (
          arith,
          (lock-Acquired d law l x.1 r.now (r.others s) x.2 l.lock_name (triple_of x fine)).1,
          eq_iff l.lock_name l.lock_name,
        ),
      )

  refused-Runs :
      (law : DbLaws d) (l : Locker) (s : Data) (r : Round Data) (rounds : List (Round Data))
      → (lock d l r.now (r.others s)).0 ≢ none
      → Runs
          (lock d l r.now (r.others s)).1
          (acquire d (lock d l r.now (r.others s)).1 (lock d l r.now (r.others s)).2 rounds)
      → Runs l (acquire d l s (r ∷ rounds))
  refused-Runs law l s r rounds refused runs =
      same-Runs l (lock d l r.now (r.others s)).1 _ (lock_locker d law l r.now (r.others s))
        (rw (failed_round l s r rounds refused) runs)

  -- Whatever other processes do to the data between the rounds, `Start` has returned after a round in which it finds
  -- the lock free if it still waits before it: the row is missing, or its owner has not renewed it for the
  -- timeout. This is for a database that answers, and goes on with a transaction after a failed `Create`.
  pub start_ends :
      (law : DbLaws d) (live : DbAnswers d) (l : Locker) (s : Data)
      (before after : List (Round Data)) (r : Round Data)
      → ((l' : Locker) (s' : Data)
          → acquire d l s before ≡ waiting l' s'
          → IsFree d (r.others s') l.lock_name r.now)
      → Runs l (acquire d l s (before ++ r ∷ after))
  unfolding acquire
  start_ends law live l s [] after r free =
      acquired-Runs law l s r after (lock_free d live l r.now (r.others s) (free l s refl))
  start_ends law live l s (b ∷ before) after r free =
      elim (Option-cases (lock d l b.now (b.others s)).0) [
        | inl fine ↦ acquired-Runs law l s b _ fine
        | inr (e, h) ↦
            let refused : (lock d l b.now (b.others s)).0 ≢ none = λ none_too. cc in
            let l1 = (lock d l b.now (b.others s)).1 in
            let name = same_name l l1 (lock_locker d law l b.now (b.others s)) in
            refused-Runs law l s b _ refused (
              start_ends law live l1 (lock d l b.now (b.others s)).2 before after r (λ l' s' waits.
                subst (λ n. IsFree d (r.others s') n r.now) (sym name)
                  (free l' s' (failed_round l s b before refused ∙ waits))))
      ]
