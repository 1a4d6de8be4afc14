-- ===== src/Cron/Valid.antt =====
-- The map and the entries of the cron of internal/infra/cron/task/recurring/scheduler.go belong together:
-- the invariant, and what `Schedule` and `Unschedule` do to both.
pub mod Implements
pub mod Steps
use tasques.Prelude.{ℕ, String, ◌≡◌, ◌≢◌, Bool, Option, none, some, List, [], ◌∷◌}
use tasques.Domain.Recurring.{RecurringTask}
use tasques.Cron.{Cron, Job, Entries, entry_of}

-- What the documentation of github.com/robfig/cron says of `AddJob`, `Remove` and the ids of entries.
-- `entries c e` is the job of an entry.
pub record CronLaws {C : Type 0} (cron : Cron C) (entries : C → ℕ → Option Job) : Type 0 where
  -- An entry is new, and has the job; the zero id is that of no entry.
  pub no_zero : (c : C) → entries c 0 ≡ none
  pub added :
      (spec : String) (j : Job) (c : C) (e : ℕ)
      → (cron.add_job spec j c).0 ≡ some e
      → (entries c e ≡ none) × (entries (cron.add_job spec j c).1 e ≡ some j)
  pub add_other :
      (spec : String) (j : Job) (c : C) (e k : ℕ)
      → (cron.add_job spec j c).0 ≡ some e
      → k ≢ e
      → entries (cron.add_job spec j c).1 k ≡ entries c k
  -- A spec that does not parse adds nothing.
  pub add_failed :
      (spec : String) (j : Job) (c : C) (k : ℕ)
      → (cron.add_job spec j c).0 ≡ none
      → entries (cron.add_job spec j c).1 k ≡ entries c k
  pub removed : (e : ℕ) (c : C) → entries (cron.remove e c) e ≡ none
  pub remove_other : (e k : ℕ) (c : C) → k ≢ e → entries (cron.remove e c) k ≡ entries c k

unfoldable pub task_of : Option Job → Option RecurringTask
task_of none = none
task_of (some j) = some j.task

module _ {C : Type 0} (entries : C → ℕ → Option Job) where
  -- An id of the map, unless it is that of an error, is the entry of its task; and each entry is in the map.
  pub record Valid (es : Entries) (c : C) : Type 0 where
    pub sound :
        (id : String) (e : ℕ)
        → entry_of id es ≡ some e
        → e ≢ 0
        → (j : Job) × (entries c e ≡ some j) × (j.task.id ≡ id)
    pub complete : (e : ℕ) (j : Job) → entries c e ≡ some j → entry_of j.task.id es ≡ some e

  unfoldable pub job_at : C → Option ℕ → Option Job
  job_at c none = none
  job_at c (some e) = entries c e

  -- What is scheduled under an id: the task of the entry that the map has for it.
  unfoldable pub runs : Entries × C → String → Option RecurringTask
  unfolding task_of job_at
  runs (es, c) id = task_of (job_at c (entry_of id es))
