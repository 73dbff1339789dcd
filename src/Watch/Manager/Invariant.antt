-- ===== src/Watch/Manager/Invariant.antt =====
-- What holds of the job manager between two calls, and what each call does to it.
use public_pkg.Common.{
  ℕ, false, String, none, some, ◌≡◌, ◌≢◌, refl, Result, ok, err, lookup, insert, delete,
  lookup-insert, lookup-delete, eq_iff, arith, Option-cases, Result-cases, Bool-cases, inl, inr,
  ◌⊎◌, ◌==◌, str_eq, subst, if◌then◌else◌,
}
use public_pkg.Watch.Manager.{
  Cron, CronLaws, JobManager, JobError, job_exists, scheduler_fault, returned, add_job, remove_job,
  new_job_manager,
}

-- The mutex is free, each job's entry is in the scheduler, and two jobs share no entry.
pub record IsConsistent (k : Cron) (jm : JobManager k.Scheduler) : Type 0 where
  pub unlocked : jm.mu ≡ false
  pub live :
      (name : String) (id : ℕ) → lookup name jm.jobs ≡ some id → k.entry jm.cron_scheduler id ≢ none
  pub distinct :
      (n m : String) (id : ℕ) → lookup n jm.jobs ≡ some id → lookup m jm.jobs ≡ some id → n ≡ m

module _ (k : Cron) (law : CronLaws k) where
  pub new-IsConsistent : (c : k.Scheduler) → IsConsistent k (new_job_manager k c)
  unfolding lookup
  new-IsConsistent c = record {
    unlocked = refl;
    live = λ name id h. cc;
    distinct = λ n m id h h'. cc;
  }

  pub add_scheduled-IsConsistent :
      (jm : JobManager k.Scheduler) (name s : String) (j : k.Job) (id : ℕ) (c : k.Scheduler)
      → IsConsistent k jm
      → k.add_job jm.cron_scheduler s j ≡ ok (id, c)
      → IsConsistent k (record jm { cron_scheduler = c; jobs = insert name id jm.jobs })
  add_scheduled-IsConsistent jm name s j id c v e = record {
    unlocked = v.unlocked;
    live = λ n i h no_entry. ground (
      arith,
      lookup-insert name n id jm.jobs,
      law.added jm.cron_scheduler c s j id i e,
      v.live n i,
    );
    distinct = λ n m i h h'. ground (
      arith,
      lookup-insert name n id jm.jobs,
      lookup-insert name m id jm.jobs,
      law.fresh jm.cron_scheduler c s j id e,
      v.live n i,
      v.live m i,
      v.distinct n m i,
      eq_iff name n,
      eq_iff name m,
    );
  }

  remove_found-IsConsistent :
      (jm : JobManager k.Scheduler) (name : String) (id : ℕ)
      → IsConsistent k jm
      → lookup name jm.jobs ≡ some id
      → IsConsistent k
          (record jm { cron_scheduler = k.remove jm.cron_scheduler id; jobs = delete name jm.jobs })
  remove_found-IsConsistent jm name id v e = record {
    unlocked = v.unlocked;
    live = λ n i h no_entry. ground (
      arith,
      lookup-delete name n jm.jobs,
      law.removed jm.cron_scheduler id i,
      v.live n i,
      v.distinct name n id,
      eq_iff name n,
    );
    distinct = λ n m i h h'.
        ground
          (arith, lookup-delete name n jm.jobs, lookup-delete name m jm.jobs, v.distinct n m i);
  }

  -- The three ends of a call of `AddJob` with the mutex free.
  pub add_job-duplicate :
      (jm : JobManager k.Scheduler) (name s : String) (j : k.Job) (id : ℕ)
      → jm.mu ≡ false
      → lookup name jm.jobs ≡ some id
      → add_job k jm name s j ≡ returned (err (job_exists name), jm)
  unfolding add_job
  add_job-duplicate jm name s j id free e = ground arith

  pub add_job-fault :
      (jm : JobManager k.Scheduler) (name s : String) (j : k.Job) (f : k.Fault)
      → jm.mu ≡ false
      → lookup name jm.jobs ≡ none
      → k.add_job jm.cron_scheduler s j ≡ err f
      → add_job k jm name s j ≡ returned (err (scheduler_fault f), jm)
  unfolding add_job
  add_job-fault jm name s j f free e e' = ground arith

  pub add_job_ok :
      (jm : JobManager k.Scheduler) (name s : String) (j : k.Job) (id : ℕ) (c : k.Scheduler)
      → jm.mu ≡ false
      → lookup name jm.jobs ≡ none
      → k.add_job jm.cron_scheduler s j ≡ ok (id, c)
      → add_job k jm name s j
        ≡ returned (ok id, record jm { cron_scheduler = c; jobs = insert name id jm.jobs })
  unfolding add_job
  add_job_ok jm name s j id c free e e' = ground arith

  -- What a call of `AddJob` returns, and the manager after it: the name is taken, and nothing changes; the scheduler
  -- refuses the schedule, and nothing changes; or there is one job more and one entry more, that of the call.
  abbrev pub IsAdded :
      JobManager k.Scheduler
      → String
      → String
      → k.Job
      → Result (JobError k.Fault) ℕ
      → JobManager k.Scheduler
      → Type 0
  IsAdded jm name s j r jm' =
      ((id : ℕ) × (lookup name jm.jobs ≡ some id) × (r ≡ err (job_exists name)) × (jm' ≡ jm))
      ⊎ ((f : k.Fault) × (lookup name jm.jobs ≡ none)
          × (k.add_job jm.cron_scheduler s j ≡ err f)
          × (r ≡ err (scheduler_fault f))
          × (jm' ≡ jm))
      ⊎ ((id : ℕ) × (lookup name jm.jobs ≡ none)
          × (r ≡ ok id)
          × ((n : String)
              → lookup n jm'.jobs ≡ (if str_eq name n then some id else lookup n jm.jobs))
          × ((i : ℕ)
              → k.entry jm'.cron_scheduler i
                ≡ (if id == i then some (s, j) else k.entry jm.cron_scheduler i)))

  -- On a consistent manager a call of `AddJob` returns, and leaves a consistent manager: with the error that the job
  -- exists or that of the scheduler and the manager as it was, or with the job added and no other changed.
  pub add_job-IsConsistent :
      (jm : JobManager k.Scheduler) (name s : String) (j : k.Job)
      → IsConsistent k jm
      → (r : Result (JobError k.Fault) ℕ) × (jm' : JobManager k.Scheduler) × (add_job k jm name s j
          ≡ returned (r, jm'))
        × IsConsistent k jm'
        × IsAdded jm name s j r jm'
  add_job-IsConsistent jm name s j v = elim (Option-cases (lookup name jm.jobs)) [
    | inr (id, e) ↦ (
      err (job_exists name),
      jm,
      add_job-duplicate jm name s j id v.unlocked e,
      v,
      inl (id, e, refl, refl),
    )
    | inl absent ↦ elim (Result-cases (k.add_job jm.cron_scheduler s j)) [
      | inr (f, e) ↦ (
        err (scheduler_fault f),
        jm,
        add_job-fault jm name s j f v.unlocked absent e,
        v,
        inr (inl (f, absent, e, refl, refl)),
      )
      | inl ((id, c), e) ↦ (
        ok id,
        record jm { cron_scheduler = c; jobs = insert name id jm.jobs },
        add_job_ok jm name s j id c v.unlocked absent e,
        add_scheduled-IsConsistent jm name s j id c v e,
        inr (
            inr (
              id,
              absent,
              refl,
              (λ n. lookup-insert name n id jm.jobs),
              λ i. law.added jm.cron_scheduler c s j id i e,
            )),
      )
    ]
  ]

  remove_job_absent :
      (jm : JobManager k.Scheduler) (name : String)
      → jm.mu ≡ false
      → lookup name jm.jobs ≡ none
      → remove_job k jm name ≡ returned (ok tt, jm)
  unfolding remove_job
  remove_job_absent jm name free e = ground arith

  absent_stays :
      (jm : JobManager k.Scheduler) (name n : String)
      → lookup name jm.jobs ≡ none
      → lookup n jm.jobs ≡ (if str_eq name n then none else lookup n jm.jobs)
  absent_stays jm name n e = elim (Bool-cases (str_eq name n)) [
    | inl b ↦ rw b (subst (λ m. lookup m jm.jobs ≡ none) ((eq_iff name n).0 b) e)
    | inr b ↦ rw b refl
  ]

  remove_job_found :
      (jm : JobManager k.Scheduler) (name : String) (id : ℕ)
      → jm.mu ≡ false
      → lookup name jm.jobs ≡ some id
      → remove_job k jm name
        ≡ returned (
          ok tt,
          record jm { cron_scheduler = k.remove jm.cron_scheduler id; jobs = delete name jm.jobs },
        )
  unfolding remove_job
  remove_job_found jm name id free e = ground arith

  -- What `RemoveJob` leaves: nothing has changed, as the name had no job; or the entry of its job is out of the
  -- scheduler, and no other is.
  abbrev pub IsRemoved : JobManager k.Scheduler → String → JobManager k.Scheduler → Type 0
  IsRemoved jm name jm' =
      ((lookup name jm.jobs ≡ none) × (jm' ≡ jm))
      ⊎ ((id : ℕ) × (lookup name jm.jobs ≡ some id)
          × ((i : ℕ)
              → k.entry jm'.cron_scheduler i
                ≡ (if id == i then none else k.entry jm.cron_scheduler i)))

  -- On a consistent manager a call of `RemoveJob` returns without an error and leaves a consistent manager, in
  -- which the name has no job, every other name has its own, and the entry of the name's job, if it had one,
  -- and no other is out of the scheduler.
  pub remove_job-IsConsistent :
      (jm : JobManager k.Scheduler) (name : String)
      → IsConsistent k jm
      → (jm' : JobManager k.Scheduler) × (remove_job k jm name ≡ returned (ok tt, jm'))
        × IsConsistent k jm'
        × ((n : String) → lookup n jm'.jobs ≡ (if str_eq name n then none else lookup n jm.jobs))
        × IsRemoved jm name jm'
  remove_job-IsConsistent jm name v = elim (Option-cases (lookup name jm.jobs)) [
    | inl e ↦ (
      jm,
      remove_job_absent jm name v.unlocked e,
      v,
      (λ n. absent_stays jm name n e),
      inl (e, refl),
    )
    | inr (id, e) ↦ (
      record jm { cron_scheduler = k.remove jm.cron_scheduler id; jobs = delete name jm.jobs },
      remove_job_found jm name id v.unlocked e,
      remove_found-IsConsistent jm name id v e,
      (λ n. lookup-delete name n jm.jobs),
      inr (id, e, λ i. law.removed jm.cron_scheduler id i),
    )
  ]

  -- Removing a job that `AddJob` has just added to a consistent manager gives every name the job that
  -- it had before, and takes the new entry, and no other, out of the scheduler again.
  remove_job-add_job :
      (jm jm' : JobManager k.Scheduler) (name s : String) (j : k.Job) (id : ℕ)
      → IsConsistent k jm
      → add_job k jm name s j ≡ returned (ok id, jm')
      → (jm'' : JobManager k.Scheduler) × (remove_job k jm' name ≡ returned (ok tt, jm''))
        × ((n : String) → lookup n jm''.jobs ≡ lookup n jm.jobs)
        × ((i : ℕ) → k.entry jm''.cron_scheduler i ≡ k.entry jm.cron_scheduler i)
  remove_job-add_job jm jm' name s j id v h = elim (Option-cases (lookup name jm.jobs)) [
    | inr (i, e) ↦ cc (add_job-duplicate jm name s j i v.unlocked e)
    | inl absent ↦ elim (Result-cases (k.add_job jm.cron_scheduler s j)) [
      | inr (f, e) ↦ cc (add_job-fault jm name s j f v.unlocked absent e)
      | inl ((i, c), e) ↦
          let same = add_job_ok jm name s j i c v.unlocked absent e in
          (
            record jm' {
              cron_scheduler = k.remove jm'.cron_scheduler id;
              jobs = delete name jm'.jobs;
            },
            remove_job_found jm' name id (ground (arith, same, v.unlocked))
                (ground (arith, same, lookup-insert name name i jm.jobs, eq_iff name name)),
            (λ n. ground (
              arith,
              same,
              lookup-delete name n jm'.jobs,
              lookup-insert name n i jm.jobs,
              eq_iff name n,
            )),
            (λ i'. ground (
              arith,
              same,
              law.removed jm'.cron_scheduler id i',
              law.added jm.cron_scheduler c s j i i' e,
              law.fresh jm.cron_scheduler c s j i e,
            )),
          )
    ]
  ]
