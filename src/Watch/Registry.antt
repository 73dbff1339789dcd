-- ===== src/Watch/Registry.antt =====
-- pkg/watch/registry/registry.go, and addWatchers of pkg/watch/watch.go, which hands the registered
-- watchers to the job manager. A range over a map goes through its entries in the order of the list.
pub mod Scheduled
use public_pkg.Common.{
  true, false, String, List, [], ◌∷◌, Option, none, some, ok, err, lookup, insert,
}
use public_pkg.Util.Strings.{string_in}
use public_pkg.Watch.Manager.{
  Cron, JobManager, JobError, Outcome, returned, blocked, add_job, new_job_manager,
}

abbrev pub every_3_seconds : String
every_3_seconds = "@every 3s"

-- `Register`; `none` is the panic about a duplicate entry.
unfoldable register : {W : Type 0} → String → W → List (String × W) → Option (List (String × W))
register name watcher registry = elim (lookup name registry) [
  | some w ↦ none
  | none ↦ some (insert name watcher registry)
]

module _ (k : Cron) where
  open k use {Scheduler, Job, Fault}

  -- What a runner does to a watcher before it schedules it: `spec` is the method of ISpec, where the
  -- watcher has it.
  pub record Runner : Type 0 where
    pub disable_watchers : List String
    pub initialize : Job → Job
    pub external_initialize : Option (Job → Job)
    pub spec : Job → Option String

  abbrev pub initialized : Runner → Job → Job
  initialized w watcher = elim w.external_initialize [
    | some initialize ↦ initialize (w.initialize watcher)
    | none ↦ w.initialize watcher
  ]

  abbrev pub spec_of : Runner → Job → String
  spec_of w watcher = elim (w.spec watcher) [ some s ↦ s | none ↦ every_3_seconds ]

  -- `addWatchers`: it stops at the first error.
  unfoldable pub add_watchers :
      Runner
      → List (String × Job)
      → JobManager Scheduler
      → Outcome (Option (JobError Fault) × JobManager Scheduler)
  add_watchers w [] jm = returned (none, jm)
  add_watchers w ((job_name, watcher) ∷ rest) jm =
      let job = initialized w watcher in
      elim (string_in job_name w.disable_watchers) [
        | true ↦ add_watchers w rest jm
        | false ↦ elim (add_job k jm job_name (spec_of w job) job) [
          | returned (ok id, jm') ↦ add_watchers w rest jm'
          | returned (err e, jm') ↦ returned (some e, jm')
          | blocked ↦ blocked
        ]
      ]

  -- `NewWatch` on a new scheduler: where adding a watcher fails, its error is returned.
  unfoldable pub new_watch :
      Runner
      → List (String × Job)
      → Scheduler
      → Outcome (Option (JobError Fault) × JobManager Scheduler)
  unfolding add_watchers
  new_watch w registry c = add_watchers w registry (new_job_manager k c)
