-- ===== src/Domain/Recurring/Manager/Laws.antt =====
-- What the manager of internal/domain/task/recurring/manager.go relies on: the comments on `Scheduler` in
-- scheduler.go and on `Service` in service.go. `runs` tells what is scheduled under an id.
use tasques.Prelude.{String, true, ◌≡◌, ◌≢◌, Option, none, some, List, ◌++◌, map, ok, All}
use tasques.Domain.Recurring.{RecurringTask, MultiUpdateResult, Scheduler, Service}
use tasques.Domain.Recurring.Manager.{lookup}
use tasques.Domain.Recurring.Manager.Memory.{Distinct}

pub record SchedulerLaws {W : Type 0} (scheduler : Scheduler W)
    (runs : W → String → Option RecurringTask) : Type 0 where
  -- A task is scheduled in place of the one of that id, or there is an error and none is.
  pub scheduled :
      (t : RecurringTask) (w w' : W) → scheduler.schedule t w ≡ (true, w') → runs w' t.id ≡ some t
  pub schedule_other :
      (t : RecurringTask) (w : W) (id : String)
      → id ≢ t.id
      → runs (scheduler.schedule t w).1 id ≡ runs w id
  pub unscheduled : (id : String) (w : W) → runs (scheduler.unschedule id w).1 id ≡ none
  pub unschedule_other :
      (k : String) (w : W) (id : String) → id ≢ k → runs (scheduler.unschedule k w).1 id ≡ runs w id

-- What of a task makes up its job, and whether it is deleted.
pub record SameJob (u t : RecurringTask) : Type 0 where
  pub expression : u.schedule_expression ≡ t.schedule_expression
  pub definition : u.task_definition ≡ t.task_definition
  pub skips : u.skip_if_outstanding_tasks_exist ≡ t.skip_if_outstanding_tasks_exist
  pub deleted : u.is_deleted ≡ t.is_deleted

-- The task is one of the list, but for what marking it changes.
abbrev pub From : List RecurringTask → RecurringTask → Type 0
From ts t = (u : RecurringTask) × (lookup t.id ts ≡ some u) × SameJob u t

-- The tasks of a result that the manager keeps.
abbrev pub kept_of : MultiUpdateResult → List RecurringTask
kept_of r = map (λ o. o.recurring_task) r.others ++ (r.successes ++ r.version_conflicts)

pub record ServiceLaws {W E : Type 0} (service : Service W E)
    (runs : W → String → Option RecurringTask) : Type 0 where
  pub all_distinct :
      (w w' : W) (ts : List RecurringTask) → service.all w ≡ (ok ts, w') → Distinct ts
  pub not_loaded_distinct :
      (w w' : W) (ts : List RecurringTask) → service.not_loaded w ≡ (ok ts, w') → Distinct ts
  -- Each task of a result is one that was to be marked, and was either found or not.
  pub mark_result :
      (ts : List RecurringTask) (w w' : W) (r : MultiUpdateResult)
      → service.mark_loaded ts w ≡ (ok r, w')
      → Distinct ts
      → All (λ t. From ts t × All (λ n. t.id ≢ n.id) r.not_founds) (kept_of r)
  -- The service does not schedule.
  pub all_runs : (w : W) (id : String) → runs (service.all w).1 id ≡ runs w id
  pub not_loaded_runs : (w : W) (id : String) → runs (service.not_loaded w).1 id ≡ runs w id
  pub mark_runs :
      (ts : List RecurringTask) (w : W) (id : String)
      → runs (service.mark_loaded ts w).1 id ≡ runs w id
