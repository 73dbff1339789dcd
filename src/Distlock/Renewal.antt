-- ===== src/Distlock/Renewal.antt =====
-- The goroutines that renew a lock. `Lock` starts one, and `Unlock` stops none of them: it stops the
-- ticker and sets `renewTicker` to nil, and nothing is ever sent on `stopChan`. The loop of
-- `renewLock`, which is the same in all the lockers, reads `l.renewTicker.C` anew in each round.
use public_pkg.Common.Int.{ℤ, pos, negsuc, ◌≤ℤ◌}
use public_pkg.Common.{
  ℕ, zero, suc, ◌⊎◌, inl, inr, arith, Bool, true, false, List, [], ◌∷◌, ◌++◌, Option, none, some,
  ◌≡◌, ◌≢◌, refl, All,
}

-- Where a goroutine stands: before its `select`, in it with the ticker that it read, or in `Renew`.
pub data Renewer : Type 0 where
  selecting : Renewer
  waiting : ℕ → Renewer
  renewing : Renewer

-- `timeout` is `lockTimeout` in nanoseconds; `ticker` is `renewTicker`, `made` counts the tickers so far; `panicked` is the end of the process.
pub record System : Type 0 where
  pub timeout : ℤ
  pub ticker : Option ℕ
  pub made : ℕ
  pub renewers : List Renewer
  pub panicked : Bool

pub data Event : Type 0 where
  locks unlocks selects panics ticks renews : Event

-- One step of the caller or of a goroutine, in any interleaving; `lock` is the end of a `Lock` that succeeds. There
-- `time.NewTicker` panics if half of the timeout, rounded towards 0, is not positive. A ticker that is stopped may
-- have a tick left in its channel.
pub data Step : Event → System → System → Type 0 where
  lock :
      (s : System)
      → pos 2 ≤ℤ s.timeout
      → Step locks s
          (record s { ticker = some s.made; made = suc s.made; renewers = selecting ∷ s.renewers })
  no_ticker : (s : System) → s.timeout ≤ℤ pos 1 → Step panics s (record s { panicked = true })
  unlock : (s : System) → Step unlocks s (record s { ticker = none })
  select :
      (s : System) (before after : List Renewer) (t : ℕ)
      → s.ticker ≡ some t
      → s.renewers ≡ before ++ selecting ∷ after
      → Step selects s (record s { renewers = before ++ waiting t ∷ after })
  select_nil :
      (s : System) (before after : List Renewer)
      → s.ticker ≡ none
      → s.renewers ≡ before ++ selecting ∷ after
      → Step panics s (record s { panicked = true })
  tick :
      (s : System) (before after : List Renewer) (t : ℕ)
      → s.renewers ≡ before ++ waiting t ∷ after
      → Step ticks s (record s { renewers = before ++ renewing ∷ after })
  renew :
      (s : System) (before after : List Renewer)
      → s.renewers ≡ before ++ renewing ∷ after
      → Step renews s (record s { renewers = before ++ selecting ∷ after })

pub data Run (s : System) : List Event → System → Type 0 where
  here : Run s [] s
  next : {e : Event} {es : List Event} {t u : System} → Run s es t → Step e t u → Run s (e ∷ es) u

abbrev pub initial : ℤ → System
initial timeout = record {
  timeout = timeout;
  ticker = none;
  made = 0;
  renewers = [];
  panicked = false;
}

-- Goroutines only with a ticker, and no panic.
pub record IsRenewing (s : System) : Type 0 where
  pub long : pos 2 ≤ℤ s.timeout
  pub has_ticker : s.renewers ≢ [] → s.ticker ≢ none
  pub alive : s.panicked ≡ false

append-ne-nil : (before after : List Renewer) (r : Renewer) → before ++ r ∷ after ≢ []
append-ne-nil [] after r e = cc
append-ne-nil (x ∷ before) after r e = cc

short-long : (t : ℤ) → t ≤ℤ pos 1 → ¬ (pos 2 ≤ℤ t)
short-long (pos n) h h' = ground arith
short-long (negsuc n) h h' = ground arith

short_or_long : (t : ℤ) → (t ≤ℤ pos 1) ⊎ (pos 2 ≤ℤ t)
short_or_long (negsuc n) = inl (omega arith)
short_or_long (pos zero) = inl (omega arith)
short_or_long (pos (suc zero)) = inl (omega arith)
short_or_long (pos (suc (suc n))) = inr (omega arith)

Step-IsRenewing :
    {e : Event} {s t : System} → Step e s t → e ≢ unlocks → IsRenewing s → IsRenewing t
Step-IsRenewing (no_ticker s short) h v = absurd (short-long s.timeout short v.long)
Step-IsRenewing (lock s _) h v = record { long = v.long; has_ticker = λ _ e. cc; alive = v.alive }
Step-IsRenewing (unlock s) h v = absurd (h refl)
Step-IsRenewing (select s before after t e e') h v = record {
  long = v.long;
  has_ticker = λ _ n. cc;
  alive = v.alive;
}
Step-IsRenewing (select_nil s before after e e') h v =
    absurd (v.has_ticker (λ n. append-ne-nil before after selecting (cc)) e)
Step-IsRenewing (tick s before after t e) h v = record {
  long = v.long;
  has_ticker = λ _. v.has_ticker (λ n. append-ne-nil before after (waiting t) (cc));
  alive = v.alive;
}
Step-IsRenewing (renew s before after e) h v = record {
  long = v.long;
  has_ticker = λ _. v.has_ticker (λ n. append-ne-nil before after renewing (cc));
  alive = v.alive;
}

Run-IsRenewing :
    {s t : System} {es : List Event}
    → Run s es t
    → All (λ e. e ≢ unlocks) es
    → IsRenewing s
    → IsRenewing t
Run-IsRenewing here h v = v
Run-IsRenewing (next r st) h v = Step-IsRenewing st h.0 (Run-IsRenewing r h.1 v)

-- As long as `Unlock` is not called, no interleaving of calls of `Lock` and of renewals panics, where the timeout
-- is at least two nanoseconds.
pub no_unlock_no_panic :
    {timeout : ℤ} {t : System} {es : List Event}
    → pos 2 ≤ℤ timeout
    → Run (initial timeout) es t
    → All (λ e. e ≢ unlocks) es
    → t.panicked ≡ false
no_unlock_no_panic long r h =
    (Run-IsRenewing r h
      (record { long = long; has_ticker = λ n. absurd (n refl); alive = refl })).alive

-- From every state, a call of `Lock` that succeeds and a call of `Unlock` that comes before the new goroutine's
-- `select` lead to a panic, as the goroutine reads a field of the nil ticker, where the timeout is at least two
-- nanoseconds; and where it is less, the call of `Lock` itself panics.
pub unlock_panics :
    (s : System)
    → ((pos 2 ≤ℤ s.timeout)
        × (t : System) × Run s (panics ∷ unlocks ∷ locks ∷ []) t
        × (t.panicked ≡ true))
      ⊎ ((s.timeout ≤ℤ pos 1) × (t : System) × Run s (panics ∷ []) t × (t.panicked ≡ true))
unlock_panics s = elim (short_or_long s.timeout) [
  | inl short ↦ inr (short, _, next here (no_ticker s short), refl)
  | inr long ↦ inl (
    long,
    _,
    next (next (next here (lock s long)) (unlock _)) (select_nil _ [] s.renewers refl refl),
    refl,
  )
]
