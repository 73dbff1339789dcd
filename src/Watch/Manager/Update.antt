-- ===== src/Watch/Manager/Update.antt =====
-- `UpdateJob` calls `RemoveJob` and `AddJob`, which lock the mutex that it holds itself.
use public_pkg.Common.{
  ℕ, true, false, String, some, none, ◌≡◌, err, lookup, arith, refl, Option, Result,
}
use public_pkg.Watch.Manager.{
  Cron, JobManager, JobError, Outcome, job_not_found, returned, blocked, update_job, remove_job,
}

module _ (k : Cron) where
  open k use {Scheduler, Job}

  -- With the mutex held, `RemoveJob` waits for ever.
  remove_job_held :
      (jm : JobManager Scheduler) (name : String) → jm.mu ≡ true → remove_job k jm name ≡ blocked
  unfolding remove_job
  remove_job_held jm name h = ground arith

  -- What a call of `UpdateJob` comes to, by the entry of the name.
  abbrev pub update_outcome :
      JobManager Scheduler
      → String
      → Option ℕ
      → Outcome (Result (JobError k.Fault) (Unit {0}) × JobManager Scheduler)
  update_outcome jm name none = returned (err (job_not_found name), jm)
  update_outcome jm name (some id) = blocked

  outcome_by_entry :
      (jm : JobManager Scheduler) (name s : String) (j : Job) (o : Option ℕ)
      → jm.mu ≡ false
      → lookup name jm.jobs ≡ o
      → update_job k jm name s j ≡ update_outcome jm name o
  unfolding update_job
  outcome_by_entry jm name s j none free e = ground arith
  outcome_by_entry jm name s j (some id) free e =
      ground (arith, remove_job_held (record jm { mu = true }) name)

  -- With the mutex free, `UpdateJob` of a name that has no job returns `JobNotFoundError` and changes
  -- nothing; of a name that has a job it never returns, since it waits for the mutex that it holds.
  pub update_job_blocks :
      (jm : JobManager Scheduler) (name s : String) (j : Job)
      → jm.mu ≡ false
      → update_job k jm name s j ≡ update_outcome jm name (lookup name jm.jobs)
  update_job_blocks jm name s j free = outcome_by_entry jm name s j (lookup name jm.jobs) free refl
