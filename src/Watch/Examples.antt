-- ===== src/Watch/Examples.antt =====
-- The theorems about the job manager at a manager with two jobs, over a scheduler that keeps its
-- entries in a list.
use public_pkg.Common.{
  ℕ, suc, String, [], ◌∷◌, Option, none, some, ◌≡◌, refl, arith, ◌==◌, if◌then◌else◌, Result, ok,
  err, lookup, delete, insert, false, str_eq, All, ◌⊎◌, ◌≢◌,
}
use public_pkg.Watch.Manager.{
  Cron, CronLaws, JobManager, JobError, returned, add_job, remove_job, update_job, new_job_manager,
}
use public_pkg.Watch.Registry.{Runner, new_watch}
use public_pkg.Watch.Registry.Scheduled.{Placed, new_watch-Placed}
use public_pkg.Watch.Manager.Invariant.{
  IsConsistent, IsAdded, IsRemoved, new-IsConsistent, add_scheduled-IsConsistent,
  add_job-IsConsistent, remove_job-IsConsistent,
}
use public_pkg.Watch.Manager.Update.{update_job_blocks, update_outcome}

-- Entries by id, and the next id. The empty schedule cannot be parsed.
record Entries : Type 0 where
  table : ℕ → Option (String × ℕ)
  next : ℕ

abbrev fresh_table : Entries → ℕ → Option (String × ℕ)
fresh_table c i = elim (Prim.Native.Nat.compare i c.next) [
  | Prim.Native.Nat.Ordering.lt ↦ c.table i
  | _ ↦ none
]

abbrev scheduler : Cron
scheduler = record {
  Scheduler = Entries;
  Job = ℕ;
  Fault = Unit {0};
  add_job = λ c s j.
      if str_eq s ""
      then err tt
      else ok (
        c.next,
        record {
          table = λ i. if c.next == i then some (s, j) else fresh_table c i;
          next = suc c.next;
        },
      );
  remove = λ c id. record { table = λ i. if id == i then none else fresh_table c i; next = c.next };
  entry = fresh_table;
}

scheduler-CronLaws : CronLaws scheduler
scheduler-CronLaws = record {
  fresh = λ c c' s j id e. ground arith;
  added = λ c c' s j id i e. ground arith;
  removed = λ c id i. ground arith;
}

abbrev empty : JobManager Entries
empty = new_job_manager scheduler (record { table = λ i. none; next = 0 })

-- One job, as `AddJob` leaves it.
abbrev one : JobManager Entries
one = record {
  mu = false;
  cron_scheduler = record {
    table = λ i. if 0 == i then some ("@every 3s", 7) else fresh_table empty.cron_scheduler i;
    next = 1;
  };
  jobs = ("clean", 0) ∷ [];
}

added : add_job scheduler empty "clean" "@every 3s" 7 ≡ returned (ok 0, one)
unfolding add_job lookup insert delete
added = refl

add_job-IsConsistent_example :
    (r : Result (JobError (Unit {0})) ℕ) × (jm' : JobManager Entries) × (add_job scheduler empty
        "clean" "@every 3s" 7
      ≡ returned (r, jm'))
    × IsConsistent scheduler jm'
    × IsAdded scheduler scheduler-CronLaws empty "clean" "@every 3s" 7 r jm'
add_job-IsConsistent_example =
    add_job-IsConsistent scheduler scheduler-CronLaws empty "clean" "@every 3s" 7
      (new-IsConsistent scheduler scheduler-CronLaws empty.cron_scheduler)

one-IsConsistent : IsConsistent scheduler one
unfolding lookup insert delete
one-IsConsistent =
    add_scheduled-IsConsistent scheduler scheduler-CronLaws empty "clean" "@every 3s" 7 0
      one.cron_scheduler (new-IsConsistent scheduler scheduler-CronLaws empty.cron_scheduler) refl

remove_job-IsConsistent_example :
    (jm' : JobManager Entries) × (remove_job scheduler one "clean" ≡ returned (ok tt, jm'))
    × IsConsistent scheduler jm'
    × ((n : String) → lookup n jm'.jobs ≡ (if str_eq "clean" n then none else lookup n one.jobs))
    × IsRemoved scheduler scheduler-CronLaws one "clean" jm'
remove_job-IsConsistent_example =
    remove_job-IsConsistent scheduler scheduler-CronLaws one "clean" one-IsConsistent

update_job_blocks_example :
    update_job scheduler one "clean" "@every 5s" 8
    ≡ update_outcome scheduler one "clean" (lookup "clean" one.jobs)
update_job_blocks_example = update_job_blocks scheduler one "clean" "@every 5s" 8 refl

abbrev runner : Runner scheduler
runner = record {
  disable_watchers = "old" ∷ [];
  initialize = λ j. suc j;
  external_initialize = none;
  spec = λ j. none;
}

new_watch-Placed_example :
    (r : Option (JobError (Unit {0}))) × (jm : JobManager Entries) × (new_watch scheduler runner
        (("clean", 1) ∷ ("old", 2) ∷ [])
        empty.cron_scheduler
      ≡ returned (r, jm))
    × IsConsistent scheduler jm
    × ((n : String)
        → All (λ (x : String × ℕ). x.0 ≢ n) (("clean", 1) ∷ ("old", 2) ∷ [])
        → lookup n jm.jobs ≡ none)
    × (((r ≡ none)
          × All (Placed scheduler scheduler-CronLaws runner jm) (("clean", 1) ∷ ("old", 2) ∷ []))
        ⊎ (r ≢ none))
new_watch-Placed_example =
    new_watch-Placed scheduler scheduler-CronLaws runner (("clean", 1) ∷ ("old", 2) ∷ [])
      empty.cron_scheduler
