-- ===== src/Es/Recurring/Persisted.antt =====
-- The documents of internal/infra/elasticsearch/task/recurring/service.go, and the conversions between
-- them and the recurring tasks of internal/domain/task/recurring.
use tasques.Prelude.{ℕ, ℤ, String, Bool, false, Option, none, ◌≡◌, refl}
use tasques.Domain.Json.{JsonObj}
use tasques.Domain.Metadata.{Version}
use tasques.Domain.Recurring.{RecurringTask, NewRecurringTask, TaskDefinition}
use tasques.Es.Common.{PersistedMetadata}

pub record PersistedTaskDefinitionData : Type 0 where
  pub queue : String
  pub retry_times : ℕ
  pub kind : String
  pub processing_timeout : ℤ
  pub priority : ℤ
  pub args : Option JsonObj
  pub context : Option JsonObj

pub record PersistedRecurringTaskData : Type 0 where
  pub schedule_expression : String
  pub skip_if_outstanding_tasks_exist : Bool
  pub task_definition : PersistedTaskDefinitionData
  pub is_deleted : Bool
  pub loaded_at : Option ℤ
  pub metadata : PersistedMetadata

unfoldable pub domain_task_def_to_persistable : TaskDefinition → PersistedTaskDefinitionData
domain_task_def_to_persistable def = record {
  queue = def.queue;
  retry_times = def.retry_times;
  kind = def.kind;
  processing_timeout = def.processing_timeout;
  priority = def.priority;
  args = def.args;
  context = def.context;
}

unfoldable pub persisted_task_def_to_domain_task_def : PersistedTaskDefinitionData → TaskDefinition
persisted_task_def_to_domain_task_def def = record {
  queue = def.queue;
  retry_times = def.retry_times;
  kind = def.kind;
  priority = def.priority;
  processing_timeout = def.processing_timeout;
  args = def.args;
  context = def.context;
}

unfoldable pub new_to_persistable : NewRecurringTask → ℤ → PersistedRecurringTaskData
new_to_persistable t now = record {
  schedule_expression = t.schedule_expression;
  skip_if_outstanding_tasks_exist = t.skip_if_outstanding_tasks_exist;
  task_definition = domain_task_def_to_persistable t.task_definition;
  is_deleted = false;
  loaded_at = none;
  metadata = record { created_at = now; modified_at = now };
}

unfoldable pub domain_to_persistable : RecurringTask → ℤ → PersistedRecurringTaskData
domain_to_persistable t at = record {
  schedule_expression = t.schedule_expression;
  skip_if_outstanding_tasks_exist = t.skip_if_outstanding_tasks_exist;
  task_definition = domain_task_def_to_persistable t.task_definition;
  is_deleted = t.is_deleted;
  loaded_at = t.loaded_at;
  metadata = record { created_at = t.metadata.created_at; modified_at = at };
}

unfoldable pub persisted_to_domain : String → PersistedRecurringTaskData → Version → RecurringTask
persisted_to_domain id p version = record {
  id = id;
  schedule_expression = p.schedule_expression;
  skip_if_outstanding_tasks_exist = p.skip_if_outstanding_tasks_exist;
  task_definition = persisted_task_def_to_domain_task_def p.task_definition;
  is_deleted = p.is_deleted;
  loaded_at = p.loaded_at;
  metadata = record {
    created_at = p.metadata.created_at;
    modified_at = p.metadata.modified_at;
    version = version;
  };
}

-- A task that is written at the time of its last change is read back as it was, under the id and the
-- version of the read; and a document is written back as it was read, at the time that it holds.
pub recurring_round_trip :
    (t : RecurringTask) (id : String) (p : PersistedRecurringTaskData) (v : Version)
    → (persisted_to_domain t.id (domain_to_persistable t t.metadata.modified_at) t.metadata.version
        ≡ t)
      × (domain_to_persistable (persisted_to_domain id p v) p.metadata.modified_at ≡ p)
unfolding persisted_to_domain domain_to_persistable domain_task_def_to_persistable
    persisted_task_def_to_domain_task_def
recurring_round_trip t id p v = (refl, refl)
