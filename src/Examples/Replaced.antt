-- ===== src/Examples/Replaced.antt =====
-- Changes of a stored recurring task by internal/infra/elasticsearch/task/recurring/service.go, and by
-- `Update` of internal/api/controllers/task/recurring/controller.go.
use tasques.Prelude.{◌≡◌, refl, pos, String, true, none, some, [], ◌∷◌, ok, arith}
use tasques.Domain.Recurring.{RecurringTask, into_deleted}
use tasques.Es.Client.{Hit, marshal}
use tasques.Es.Recurring.Persisted.{
  PersistedRecurringTaskData, domain_to_persistable, persisted_to_domain,
  domain_task_def_to_persistable, persisted_task_def_to_domain_task_def,
}
use tasques.Es.Recurring.Service as EsService
use tasques.Es.Recurring.Service.{tasques_recurring_tasks_index, get, found, update, updated}
use tasques.Es.Recurring.Service.Updates.{IsReplaced, delete-IsReplaced}
use tasques.Domain.Metadata.{version_eq}
use tasques.Examples.Recurring.{hourly}
use tasques.Api.Recurring.{TaskUpdate}
use tasques.Api.Recurring.Controller.{es_recurring_tasks_service, apply_update, change}
use tasques.Api.Recurring.Controller.Changes.{change-IsReplaced}
use tasques.Examples.Requests.{defaults}
use tasques.Examples.Server
use tasques.Examples.Server.{
  World, stored, answer_get, answer_put, server, store, server-ClientLaws,
}
use tasques.Examples.Loaded.{hit}

-- A server that holds the document of the task.
abbrev held : World PersistedRecurringTaskData
held = record { index = tasques_recurring_tasks_index; id = "hourly"; source = hit.source } ∷ []

abbrev gone : RecurringTask
gone = record hourly {
  is_deleted = true;
  metadata = record hourly.metadata { version = record { seq_num = 1; primary_term = 1 } };
}

abbrev deletes_to : World PersistedRecurringTaskData
deletes_to =
    record {
      index = tasques_recurring_tasks_index;
      id = "hourly";
      source = domain_to_persistable gone (pos 100);
    }
    ∷ held

deletes : EsService.delete server Server.runtime "hourly" held ≡ (ok gone, deletes_to)
unfolding EsService.delete get update found updated marshal stored answer_get answer_put version_eq
    persisted_to_domain domain_to_persistable domain_task_def_to_persistable
    persisted_task_def_to_domain_task_def into_deleted
deletes = refl

stored_id :
    (w : World PersistedRecurringTaskData) (index id : String) (h : Hit PersistedRecurringTaskData)
    → stored w index id ≡ some h
    → h.id ≡ id
unfolding stored
stored_id [] index id h e = absurd (ground arith)
stored_id (x ∷ w) index id h e = let rest = stored_id w index id h in ground arith

delete-IsReplaced_example :
    IsReplaced server Server.runtime store server-ClientLaws into_deleted "hourly" held gone
      deletes_to
delete-IsReplaced_example =
    delete-IsReplaced server Server.runtime store server-ClientLaws (λ w. ([], refl)) stored_id
      "hourly" held deletes_to deletes

-- A request to skip, and to leave the rest.
abbrev to_skip : TaskUpdate
to_skip = record {
  schedule_expression = none;
  skip_if_outstanding_tasks_exist = some true;
  task_definition = none;
}

abbrev skips : RecurringTask
skips = record hourly {
  skip_if_outstanding_tasks_exist = true;
  metadata = record hourly.metadata { version = record { seq_num = 1; primary_term = 1 } };
}

abbrev changes_to : World PersistedRecurringTaskData
changes_to =
    record {
      index = tasques_recurring_tasks_index;
      id = "hourly";
      source = domain_to_persistable skips (pos 100);
    }
    ∷ held

changes :
    change
      (es_recurring_tasks_service server Server.runtime 10 (pos 5) 3)
      defaults
      "hourly"
      to_skip
      held
    ≡ (ok skips, changes_to)
unfolding change apply_update get update found updated marshal stored answer_get answer_put
    version_eq persisted_to_domain domain_to_persistable domain_task_def_to_persistable
    persisted_task_def_to_domain_task_def
changes = refl

change-IsReplaced_example :
    IsReplaced server Server.runtime store server-ClientLaws
      (apply_update to_skip defaults)
      "hourly"
      held
      skips
      changes_to
change-IsReplaced_example =
    change-IsReplaced server Server.runtime 10 (pos 5) 3 defaults store server-ClientLaws
      (λ w. ([], refl)) stored_id "hourly" to_skip held changes_to changes
