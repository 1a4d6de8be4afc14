-- ===== src/Api/Recurring.antt =====
-- internal/api/models/task/recurring/models.go: what requests and answers hold of recurring tasks.
pub mod Controller
pub mod Routes
use tasques.Prelude.{ℕ, ℤ, pos, String, Bool, false, Option, none, some, if◌then◌else◌}
use tasques.Domain.Json.{JsonObj}
use tasques.Domain.Recurring.{RecurringTask, NewRecurringTask, TaskDefinition}
use tasques.Api.Models.{ApiMetadata, from_domain_metadata, or_default}

pub record ApiTaskDefinition : Type 0 where
  pub queue : String
  pub retry_times : Option ℕ
  pub kind : String
  pub priority : Option ℤ
  pub processing_timeout : Option ℤ
  pub args : Option JsonObj
  pub context : Option JsonObj

pub record ApiNewRecurringTask : Type 0 where
  pub id : String
  pub schedule_expression : String
  pub skip_if_outstanding_tasks_exist : Option Bool
  pub task_definition : ApiTaskDefinition

pub record TaskUpdate : Type 0 where
  pub schedule_expression : Option String
  pub skip_if_outstanding_tasks_exist : Option Bool
  pub task_definition : Option ApiTaskDefinition

pub record ApiRecurringTask : Type 0 where
  pub id : String
  pub schedule_expression : String
  pub skip_if_outstanding_tasks_exist : Option Bool
  pub task_definition : ApiTaskDefinition
  pub loaded_at : Option ℤ
  pub metadata : ApiMetadata

unfoldable pub to_domain_task_definition : ApiTaskDefinition → ℕ → ℤ → TaskDefinition
to_domain_task_definition t default_retry_times default_processing_timeout = record {
  queue = t.queue;
  retry_times = or_default t.retry_times default_retry_times;
  kind = t.kind;
  priority = or_default t.priority (pos 0);
  processing_timeout = or_default t.processing_timeout default_processing_timeout;
  args = t.args;
  context = t.context;
}

unfoldable pub to_domain_new_recurring_task : ApiNewRecurringTask → ℕ → ℤ → NewRecurringTask
unfolding to_domain_task_definition
to_domain_new_recurring_task t default_retry_times default_processing_timeout = record {
  id = t.id;
  schedule_expression = t.schedule_expression;
  skip_if_outstanding_tasks_exist = or_default t.skip_if_outstanding_tasks_exist false;
  task_definition =
      to_domain_task_definition t.task_definition default_retry_times default_processing_timeout;
}

unfoldable pub from_domain_task_definition : TaskDefinition → ApiTaskDefinition
from_domain_task_definition d = record {
  queue = d.queue;
  retry_times = some d.retry_times;
  kind = d.kind;
  priority = some d.priority;
  processing_timeout = some d.processing_timeout;
  args = d.args;
  context = d.context;
}

unfoldable pub from_domain_recurring_task : RecurringTask → ApiRecurringTask
unfolding from_domain_task_definition from_domain_metadata
from_domain_recurring_task t = record {
  id = t.id;
  schedule_expression = t.schedule_expression;
  skip_if_outstanding_tasks_exist = some t.skip_if_outstanding_tasks_exist;
  task_definition = from_domain_task_definition t.task_definition;
  loaded_at = t.loaded_at;
  metadata = from_domain_metadata t.metadata;
}
