-- ===== src/Watch/Manager.antt =====
-- pkg/watch/manager/manager.go and error.go: the job manager, a map from job names to the entries
-- of a cron scheduler, behind a mutex. A method that mutates `*JobManager` returns the new record.
-- github.com/robfig/cron/v3 is the parameter `Cron`.
pub mod Invariant
pub mod Update
use public_pkg.Common.{
  ℕ, Bool, true, false, String, List, [], ◌∷◌, Option, none, some, ◌≡◌, ◌==◌, if◌then◌else◌, Result,
  ok, err, lookup, insert, delete,
}

-- The scheduler. `add_job` parses the schedule, which can fail, and returns the new entry's id;
-- `entry` is the schedule and the job that an id stands for.
pub record Cron : Type 1 where
  pub Scheduler : Type 0
  pub Job : Type 0
  pub Fault : Type 0
  pub add_job : Scheduler → String → Job → Result Fault (ℕ × Scheduler)
  pub remove : Scheduler → ℕ → Scheduler
  pub entry : Scheduler → ℕ → Option (String × Job)

-- What the package documents: ids are fresh, and adding or removing an entry touches no other.
pub record CronLaws (k : Cron) : Type 0 where
  pub fresh :
      (c c' : k.Scheduler) (s : String) (j : k.Job) (id : ℕ)
      → k.add_job c s j ≡ ok (id, c')
      → k.entry c id ≡ none
  pub added :
      (c c' : k.Scheduler) (s : String) (j : k.Job) (id i : ℕ)
      → k.add_job c s j ≡ ok (id, c')
      → k.entry c' i ≡ (if id == i then some (s, j) else k.entry c i)
  pub removed :
      (c : k.Scheduler) (id i : ℕ)
      → k.entry (k.remove c id) i ≡ (if id == i then none else k.entry c i)

-- `JobExistsError`, `JobNotFoundError`, and what the scheduler reports.
pub data JobError (F : Type 0) : Type 0 where
  job_exists : String → JobError F
  job_not_found : String → JobError F
  scheduler_fault : F → JobError F

-- `mu` is true while the mutex is held.
pub record JobManager (S : Type 0) : Type 0 where
  pub mu : Bool
  pub cron_scheduler : S
  pub jobs : List (String × ℕ)

-- A call returns, or it waits for ever. A `sync.Mutex` is not reentrant: a call that locks a mutex
-- which its own caller holds never returns.
pub data Outcome (A : Type 0) : Type 0 where
  returned : A → Outcome A
  blocked : Outcome A

module _ {S : Type 0} {A : Type 0} where
  -- `defer jm.mu.Unlock()`
  abbrev unlock : Outcome (A × JobManager S) → Outcome (A × JobManager S)
  unlock (returned (a, jm)) = returned (a, record jm { mu = false })
  unlock blocked = blocked

  -- `jm.mu.Lock(); defer jm.mu.Unlock()` round a method's body.
  abbrev pub with_lock :
      JobManager S → (JobManager S → Outcome (A × JobManager S)) → Outcome (A × JobManager S)
  with_lock jm body = if jm.mu then blocked else unlock (body (record jm { mu = true }))

module _ (k : Cron) where
  open k use {Scheduler, Job, Fault, add_job as schedule_job, remove as unschedule}

  -- `NewJobManager(WithCron(c))`
  abbrev pub new_job_manager : Scheduler → JobManager Scheduler
  new_job_manager c = record { mu = false; cron_scheduler = c; jobs = [] }

  add_scheduled :
      JobManager Scheduler
      → String
      → Result Fault (ℕ × Scheduler)
      → Result (JobError Fault) ℕ × JobManager Scheduler
  add_scheduled jm name (err e) = (err (scheduler_fault e), jm)
  add_scheduled jm name (ok (id, c)) =
      (ok id, record jm { cron_scheduler = c; jobs = insert name id jm.jobs })

  add_if_absent :
      JobManager Scheduler
      → String
      → String
      → Job
      → Option ℕ
      → Result (JobError Fault) ℕ × JobManager Scheduler
  unfolding add_scheduled
  add_if_absent jm name schedule cmd (some id) = (err (job_exists name), jm)
  add_if_absent jm name schedule cmd none =
      add_scheduled jm name (schedule_job jm.cron_scheduler schedule cmd)

  -- `AddJob`
  unfoldable pub add_job :
      JobManager Scheduler
      → String
      → String
      → Job
      → Outcome (Result (JobError Fault) ℕ × JobManager Scheduler)
  unfolding add_if_absent
  add_job jm name schedule cmd =
      with_lock jm λ jm. returned (add_if_absent jm name schedule cmd (lookup name jm.jobs))

  remove_found :
      JobManager Scheduler
      → String
      → Option ℕ
      → Result (JobError Fault) (Unit {0}) × JobManager Scheduler
  remove_found jm name none = (ok tt, jm)
  remove_found jm name (some id) = (
    ok tt,
    record jm { cron_scheduler = unschedule jm.cron_scheduler id; jobs = delete name jm.jobs },
  )

  -- `RemoveJob`
  unfoldable pub remove_job :
      JobManager Scheduler
      → String
      → Outcome (Result (JobError Fault) (Unit {0}) × JobManager Scheduler)
  unfolding remove_found
  remove_job jm name = with_lock jm λ jm. returned (remove_found jm name (lookup name jm.jobs))

  -- The last call of `UpdateJob`, which drops the entry's id.
  abbrev drop_id :
      Outcome (Result (JobError Fault) ℕ × JobManager Scheduler)
      → Outcome (Result (JobError Fault) (Unit {0}) × JobManager Scheduler)
  drop_id (returned (ok id, jm)) = returned (ok tt, jm)
  drop_id (returned (err e, jm)) = returned (err e, jm)
  drop_id blocked = blocked

  abbrev add_again :
      String
      → String
      → Job
      → Outcome (Result (JobError Fault) (Unit {0}) × JobManager Scheduler)
      → Outcome (Result (JobError Fault) (Unit {0}) × JobManager Scheduler)
  add_again name schedule cmd (returned (ok u, jm)) = drop_id (add_job jm name schedule cmd)
  add_again name schedule cmd (returned (err e, jm)) = returned (err e, jm)
  add_again name schedule cmd blocked = blocked

  update_found :
      JobManager Scheduler
      → String
      → String
      → Job
      → Option ℕ
      → Outcome (Result (JobError Fault) (Unit {0}) × JobManager Scheduler)
  update_found jm name schedule cmd none = returned (err (job_not_found name), jm)
  update_found jm name schedule cmd (some id) = add_again name schedule cmd (remove_job jm name)

  -- `UpdateJob`: it calls `RemoveJob` and `AddJob` with the mutex held.
  unfoldable pub update_job :
      JobManager Scheduler
      → String
      → String
      → Job
      → Outcome (Result (JobError Fault) (Unit {0}) × JobManager Scheduler)
  unfolding update_found
  update_job jm name schedule cmd =
      with_lock jm λ jm. update_found jm name schedule cmd (lookup name jm.jobs)

  abbrev is_some : Option ℕ → Bool
  is_some (some id) = true
  is_some none = false

  -- `JobExists`
  unfoldable pub job_exists? : JobManager Scheduler → String → Outcome (Bool × JobManager Scheduler)
  job_exists? jm name = with_lock jm λ jm. returned (is_some (lookup name jm.jobs), jm)
