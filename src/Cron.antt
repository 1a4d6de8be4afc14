-- ===== src/Cron.antt =====
-- internal/infra/cron/task/recurring/scheduler.go: the scheduler of the recurring tasks over the library
-- github.com/robfig/cron, which is a parameter. The mutex keeps the calls apart.
pub mod Enqueue
pub mod Table
pub mod Valid
use tasques.Prelude.{
  ℕ, String, Bool, true, false, Option, none, some, List, [], ◌∷◌, str_eq, if◌then◌else◌,
}
use tasques.Domain.Recurring.{RecurringTask}

-- What an entry runs: the task that it enqueues, and the wrappers of the chain around it: `Recover`, and
-- `DelayIfStillRunning`.
pub record Job : Type 0 where
  pub task : RecurringTask
  pub recovers : Bool
  pub delays : Bool

-- `AddJob` returns the id of the new entry, or an error.
pub record Cron (C : Type 0) : Type 0 where
  pub add_job : String → Job → C → Option ℕ × C
  pub remove : ℕ → C → C
  pub start : C → C
  pub stop : C → C

pub record Entry : Type 0 where
  pub task_id : String
  pub entry_id : ℕ

-- `idsToEntryIds`, a map.
abbrev pub Entries : Type 0
Entries = List Entry

unfoldable pub entry_of : String → Entries → Option ℕ
entry_of id [] = none
entry_of id (e ∷ es) = if str_eq id e.task_id then some e.entry_id else entry_of id es

unfoldable pub drop_entry : String → Entries → Entries
drop_entry id [] = []
drop_entry id (e ∷ es) =
    let rest = drop_entry id es in if str_eq id e.task_id then rest else e ∷ rest

unfoldable pub put_entry : String → ℕ → Entries → Entries
unfolding drop_entry
put_entry id entry es = record { task_id = id; entry_id = entry } ∷ drop_entry id es

-- The job of a task. For one that does not skip, the chain with `Recover` is built and thrown away.
unfoldable pub job_of : RecurringTask → Job
job_of t = record {
  task = t;
  recovers = t.skip_if_outstanding_tasks_exist;
  delays = t.skip_if_outstanding_tasks_exist;
}

-- The entry id that `AddJob` returns beside an error is 0.
abbrev pub entry_or_zero : Option ℕ → ℕ
entry_or_zero none = 0
entry_or_zero (some e) = e

abbrev pub is_added : Option ℕ → Bool
is_added none = false
is_added (some e) = true

module _ {C : Type 0} (cron : Cron C) where
  -- `if entryId, ok := i.idsToEntryIds[id]; ok`: the entry goes from the cron and from the map.
  abbrev pub take_out : String → Option ℕ → Entries × C → Entries × C
  take_out id none (es, c) = (es, c)
  take_out id (some e) (es, c) = (drop_entry id es, cron.remove e c)

  unfoldable pub schedule : RecurringTask → Entries × C → Bool × (Entries × C)
  schedule t (es, c) =
      let (es', c') = take_out t.id (entry_of t.id es) (es, c) in
      let (added, c'') = cron.add_job t.schedule_expression (job_of t) c' in
      (is_added added, (put_entry t.id (entry_or_zero added) es', c''))

  unfoldable pub unschedule : String → Entries × C → Bool × (Entries × C)
  unschedule id (es, c) = (is_added (entry_of id es), take_out id (entry_of id es) (es, c))

  unfoldable pub start : Entries × C → Entries × C
  start (es, c) = (es, cron.start c)

  unfoldable pub stop : Entries × C → Entries × C
  stop (es, c) = (es, cron.stop c)
