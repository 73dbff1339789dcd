-- ===== src/Watch/Registry/Scheduled.antt =====
-- What `addWatchers` makes of the registered watchers.
use public_pkg.Common.{
  ℕ, true, false, String, List, [], ◌∷◌, Option, none, some, ◌≡◌, ◌≢◌, refl, ap, ◌∙◌, ok, err,
  lookup, insert, lookup-insert, eq_iff, arith, All, Bool-cases, Option-cases, Result-cases, inl,
  inr, ◌⊎◌,
}
use public_pkg.Util.Strings.{string_in}
use public_pkg.Watch.Manager.{
  Cron, CronLaws, JobManager, JobError, returned, add_job, job_exists, scheduler_fault,
  new_job_manager,
}
use public_pkg.Watch.Manager.Invariant.{
  IsConsistent, new-IsConsistent, add_scheduled-IsConsistent, add_job-duplicate, add_job-fault,
  add_job_ok,
}
use public_pkg.Watch.Registry.{Runner, initialized, spec_of, add_watchers, new_watch}

module _ (k : Cron) (law : CronLaws k) where
  open k use {Scheduler, Job, Fault}

  -- The manager has a job of the name, with this schedule and command.
  abbrev pub Runs : JobManager Scheduler → String → String → Job → Type 0
  Runs jm name s j =
      (id : ℕ) × (lookup name jm.jobs ≡ some id) × (k.entry jm.cron_scheduler id ≡ some (s, j))

  -- `j` is the watcher after its own initialization and after the one of the host, if there is one.
  abbrev pub IsInitialized : Runner k → Job → Job → Type 0
  IsInitialized w watcher j =
      ((w.external_initialize ≡ none) × (j ≡ w.initialize watcher))
      ⊎ ((f : Job → Job) × (w.external_initialize ≡ some f) × (j ≡ f (w.initialize watcher)))

  initialized_lem : (w : Runner k) (x : Job) → IsInitialized w x (initialized k w x)
  initialized_lem w x = elim (Option-cases w.external_initialize) [
    | inl e ↦ inl (e, rw e refl)
    | inr (f, e) ↦ inr (f, e, rw e refl)
  ]

  -- `s` is the schedule that the watcher itself has, or else every three seconds.
  abbrev pub IsScheduleOf : Runner k → Job → String → Type 0
  IsScheduleOf w j s = ((w.spec j ≡ none) × (s ≡ "@every 3s")) ⊎ (w.spec j ≡ some s)

  spec_of_lem : (w : Runner k) (j : Job) → IsScheduleOf w j (spec_of k w j)
  spec_of_lem w j = elim (Option-cases (w.spec j)) [
    | inl e ↦ inl (e, rw (spec_of, e) refl)
    | inr (s, e) ↦ inr (e ∙ ap (λ (t : String). some t) (rw (spec_of, e) refl))
  ]

  abbrev Started : Runner k → JobManager Scheduler → String × Job → Type 0
  Started w jm (name, watcher) =
      (string_in name w.disable_watchers ≡ true)
      ⊎ ((string_in name w.disable_watchers ≡ false)
          × Runs jm name (spec_of k w (initialized k w watcher)) (initialized k w watcher))

  -- What `addWatchers` does for one watcher: it runs, unless it is disabled.
  abbrev pub Placed : Runner k → JobManager Scheduler → String × Job → Type 0
  Placed w jm (name, watcher) =
      ((string_in name w.disable_watchers ≡ true) × (lookup name jm.jobs ≡ none))
      ⊎ ((string_in name w.disable_watchers ≡ false)
          × (s : String) × (j : Job) × IsInitialized w watcher j
          × IsScheduleOf w j s
          × Runs jm name s j)

  -- A call of `AddJob` with a consistent manager: an error that changes nothing, or one job more.
  abbrev Added : JobManager Scheduler → String → String → Job → Type 0
  Added jm name s j =
      ((e : JobError Fault) × (add_job k jm name s j ≡ returned (err e, jm)))
      ⊎ ((id : ℕ) × (c : Scheduler) × (lookup name jm.jobs ≡ none)
          × (k.add_job jm.cron_scheduler s j ≡ ok (id, c))
          × (add_job k jm name s j
              ≡ returned (ok id, record jm { cron_scheduler = c; jobs = insert name id jm.jobs })))

  add_job-Added :
      (jm : JobManager Scheduler) (name s : String) (j : Job)
      → IsConsistent k jm
      → Added jm name s j
  add_job-Added jm name s j v = elim (Option-cases (lookup name jm.jobs)) [
    | inr (id, e) ↦ inl (job_exists name, add_job-duplicate k law jm name s j id v.unlocked e)
    | inl absent ↦ elim (Result-cases (k.add_job jm.cron_scheduler s j)) [
      | inr (f, e) ↦ inl (scheduler_fault f, add_job-fault k law jm name s j f v.unlocked absent e)
      | inl ((id, c), e) ↦
          inr (id, c, absent, e, add_job_ok k law jm name s j id c v.unlocked absent e)
    ]
  ]

  module _ (w : Runner k) where
    -- The three rounds of the loop.
    skip_round :
        (name : String) (x : Job) (ws : List (String × Job)) (jm : JobManager Scheduler)
        → string_in name w.disable_watchers ≡ true
        → add_watchers k w ((name, x) ∷ ws) jm ≡ add_watchers k w ws jm
    unfolding add_watchers
    skip_round name x ws jm h = rw (h, add_watchers)

    stop_round :
        (name : String) (x : Job) (ws : List (String × Job)) (jm jm' : JobManager Scheduler)
        (e : JobError Fault)
        → string_in name w.disable_watchers ≡ false
        → add_job k jm name (spec_of k w (initialized k w x)) (initialized k w x)
          ≡ returned (err e, jm')
        → add_watchers k w ((name, x) ∷ ws) jm ≡ returned (some e, jm')
    unfolding add_watchers
    stop_round name x ws jm jm' e h h' = rw (h, h', add_watchers)

    next_round :
        (name : String) (x : Job) (ws : List (String × Job)) (jm jm' : JobManager Scheduler)
        (id : ℕ)
        → string_in name w.disable_watchers ≡ false
        → add_job k jm name (spec_of k w (initialized k w x)) (initialized k w x)
          ≡ returned (ok id, jm')
        → add_watchers k w ((name, x) ∷ ws) jm ≡ add_watchers k w ws jm'
    unfolding add_watchers
    next_round name x ws jm jm' id h h' = rw (h, h', add_watchers)

    -- A job that runs keeps running while other jobs are added.
    added-Runs :
        (jm : JobManager Scheduler) (name s : String) (j : Job) (id : ℕ) (c : Scheduler)
        (n t : String) (x : Job)
        → IsConsistent k jm
        → lookup name jm.jobs ≡ none
        → k.add_job jm.cron_scheduler s j ≡ ok (id, c)
        → Runs jm n t x
        → Runs (record jm { cron_scheduler = c; jobs = insert name id jm.jobs }) n t x
    added-Runs jm name s j id c n t x v absent added (i, found, entry) = (
      i,
      ground (arith, lookup-insert name n id jm.jobs, eq_iff name n),
      ground (
        arith,
        law.added jm.cron_scheduler c s j id i added,
        law.fresh jm.cron_scheduler c s j id added,
      ),
    )

    -- The loop on a consistent manager returns and leaves a consistent one, and what ran still runs; a
    -- disabled name has no more jobs than before. If no error came back, each watcher has its place.
    record Loop (ws : List (String × Job)) (jm : JobManager Scheduler) : Type 0 where
      error : Option (JobError Fault)
      after : JobManager Scheduler
      ends : add_watchers k w ws jm ≡ returned (error, after)
      consistent : IsConsistent k after
      keeps : (n s : String) (j : Job) → Runs jm n s j → Runs after n s j
      spares :
          (n : String)
          → string_in n w.disable_watchers ≡ true
          → lookup n after.jobs ≡ lookup n jm.jobs
      outside :
          (n : String)
          → All (λ (x : String × Job). x.0 ≢ n) ws
          → lookup n after.jobs ≡ lookup n jm.jobs
      places : error ≡ none → All (Started w after) ws

    disabled_round :
        (name : String) (x : Job) (ws : List (String × Job)) (jm : JobManager Scheduler)
        → string_in name w.disable_watchers ≡ true
        → Loop ws jm
        → Loop ((name, x) ∷ ws) jm
    disabled_round name x ws jm off rest = record {
      error = rest.error;
      after = rest.after;
      ends = skip_round name x ws jm off ∙ rest.ends;
      consistent = rest.consistent;
      keeps = rest.keeps;
      spares = rest.spares;
      outside = λ n h. rest.outside n h.1;
      places = λ h. (inl off, rest.places h);
    }

    refused_round :
        (name : String) (x : Job) (ws : List (String × Job)) (jm : JobManager Scheduler)
        (e : JobError Fault)
        → IsConsistent k jm
        → string_in name w.disable_watchers ≡ false
        → add_job k jm name (spec_of k w (initialized k w x)) (initialized k w x)
          ≡ returned (err e, jm)
        → Loop ((name, x) ∷ ws) jm
    refused_round name x ws jm e v on refused = record {
      error = some e;
      after = jm;
      ends = stop_round name x ws jm jm e on refused;
      consistent = v;
      keeps = λ n s j r. r;
      spares = λ n h. refl;
      outside = λ n h. refl;
      places = λ h. absurd (cc h);
    }

    added_round :
        (name : String) (x : Job) (ws : List (String × Job)) (jm : JobManager Scheduler) (id : ℕ)
        (c : Scheduler)
        → IsConsistent k jm
        → string_in name w.disable_watchers ≡ false
        → lookup name jm.jobs ≡ none
        → k.add_job jm.cron_scheduler (spec_of k w (initialized k w x)) (initialized k w x)
          ≡ ok (id, c)
        → add_job k jm name (spec_of k w (initialized k w x)) (initialized k w x)
          ≡ returned (ok id, record jm { cron_scheduler = c; jobs = insert name id jm.jobs })
        → Loop ws (record jm { cron_scheduler = c; jobs = insert name id jm.jobs })
        → Loop ((name, x) ∷ ws) jm
    added_round name x ws jm id c v on absent scheduled added rest = record {
      error = rest.error;
      after = rest.after;
      ends = next_round name x ws jm _ id on added ∙ rest.ends;
      consistent = rest.consistent;
      keeps = λ n s j r. rest.keeps n s j (added-Runs jm name _ _ id c n s j v absent scheduled r);
      spares =
          λ n h. ground (arith, rest.spares n h, lookup-insert name n id jm.jobs, eq_iff name n);
      outside = λ n h.
          ground (arith, h.0, rest.outside n h.1, lookup-insert name n id jm.jobs, eq_iff name n);
      places = λ h. (
        inr (
          on,
          rest.keeps name _ _ (
            id,
            ground (arith, lookup-insert name name id jm.jobs, eq_iff name name),
            ground (arith, law.added jm.cron_scheduler c _ _ id id scheduled),
          ),
        ),
        rest.places h,
      );
    }

    loop : (ws : List (String × Job)) (jm : JobManager Scheduler) → IsConsistent k jm → Loop ws jm
    unfolding add_watchers
    loop [] jm v = record {
      error = none;
      after = jm;
      ends = refl;
      consistent = v;
      keeps = λ n s j r. r;
      spares = λ n h. refl;
      outside = λ n h. refl;
      places = λ h. tt;
    }
    loop ((name, x) ∷ ws) jm v = elim (Bool-cases (string_in name w.disable_watchers)) [
      | inl off ↦ disabled_round name x ws jm off (loop ws jm v)
      | inr on ↦
          elim (add_job-Added jm name (spec_of k w (initialized k w x)) (initialized k w x) v) [
            | inl (e, refused) ↦ refused_round name x ws jm e v on refused
            | inr (id, c, absent, scheduled, added) ↦
                added_round name x ws jm id c v on absent scheduled added
                  (loop ws _ (add_scheduled-IsConsistent k law jm name _ _ id c v scheduled))
          ]
    ]

    Placed-All :
        (jm : JobManager Scheduler) (ws : List (String × Job))
        → ((n : String) → string_in n w.disable_watchers ≡ true → lookup n jm.jobs ≡ none)
        → All (Started w jm) ws
        → All (Placed w jm) ws
    Placed-All jm [] h a = tt
    Placed-All jm ((name, x) ∷ ws) h (inl off, a) = (inl (off, h name off), Placed-All jm ws h a)
    Placed-All jm ((name, x) ∷ ws) h (inr (on, runs), a) = (
      inr (on, _, _, initialized_lem w x, spec_of_lem w (initialized k w x), runs),
      Placed-All jm ws h a,
    )

    -- `NewWatch` returns with a consistent manager, in which no name outside the registry has a job. Either it
    -- reports an error, or every registered watcher that is not disabled has a job, of itself after its own
    -- initialization and the one of the host, if there is one, and at its own schedule or else every three
    -- seconds; and no disabled one has a job.
    pub new_watch-Placed :
        (ws : List (String × Job)) (c : Scheduler)
        → (r : Option (JobError Fault)) × (jm : JobManager Scheduler) × (new_watch k w ws c
            ≡ returned (r, jm))
          × IsConsistent k jm
          × ((n : String) → All (λ (x : String × Job). x.0 ≢ n) ws → lookup n jm.jobs ≡ none)
          × (((r ≡ none) × All (Placed w jm) ws) ⊎ (r ≢ none))
    unfolding new_watch lookup
    new_watch-Placed ws c =
        let l = loop ws (new_job_manager k c) (new-IsConsistent k law c) in
        (
          l.error,
          l.after,
          l.ends,
          l.consistent,
          l.outside,
          elim (Option-cases l.error) [
            | inl fine ↦ inl (fine, Placed-All l.after ws l.spares (l.places fine))
            | inr (e, bad) ↦ inr (λ h. cc)
          ],
        )
