-- ===== src/Domain/Recurring.antt =====
-- The recurring tasks of internal/domain/task/recurring (models.go, service.go, scheduler.go). The
-- scheduler and the service are what the manager of these tasks is given.
pub mod InSync
pub mod Manager
use tasques.Prelude.{ℕ, ℤ, String, Bool, true, Option, none, List, Outcome}
use tasques.Domain.Json.{JsonObj}
use tasques.Domain.Metadata.{Metadata}

pub record TaskDefinition : Type 0 where
  pub queue : String
  pub retry_times : ℕ
  pub kind : String
  pub priority : ℤ
  pub processing_timeout : ℤ
  pub args : Option JsonObj
  pub context : Option JsonObj

-- `Task` of models.go.
pub record RecurringTask : Type 0 where
  pub id : String
  pub schedule_expression : String
  pub task_definition : TaskDefinition
  pub is_deleted : Bool
  pub loaded_at : Option ℤ
  pub skip_if_outstanding_tasks_exist : Bool
  pub metadata : Metadata

-- `NewTask` of models.go.
pub record NewRecurringTask : Type 0 where
  pub id : String
  pub schedule_expression : String
  pub task_definition : TaskDefinition
  pub skip_if_outstanding_tasks_exist : Bool

-- The errors of service.go that the service returns.
pub data ServiceErr : Type 0 where
  already_exists not_found invalid_version : (id : String) → ServiceErr

unfoldable pub update_schedule : RecurringTask → String → RecurringTask
update_schedule r expression = record r { schedule_expression = expression; loaded_at = none }

unfoldable pub update_task_definition : RecurringTask → TaskDefinition → RecurringTask
update_task_definition r definition = record r { task_definition = definition; loaded_at = none }

unfoldable pub into_deleted : RecurringTask → RecurringTask
into_deleted r = record r { is_deleted = true; loaded_at = none }

pub record BulkUpdateOtherError : Type 0 where
  pub recurring_task : RecurringTask
  pub result : String

pub record MultiUpdateResult : Type 0 where
  pub successes : List RecurringTask
  pub version_conflicts : List RecurringTask
  pub not_founds : List RecurringTask
  pub others : List BulkUpdateOtherError

-- `Schedule` tells whether there was no error; `Unschedule` whether the task was scheduled before.
pub record Scheduler (W : Type 0) : Type 0 where
  pub schedule : RecurringTask → W → Bool × W
  pub unschedule : String → W → Bool × W

-- The part of `Service` that the manager calls.
pub record Service (W E : Type 0) : Type 0 where
  pub all : W → Outcome E (List RecurringTask) × W
  pub not_loaded : W → Outcome E (List RecurringTask) × W
  pub mark_loaded : List RecurringTask → W → Outcome E MultiUpdateResult × W
