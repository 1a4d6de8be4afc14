-- ===== src/Api/Recurring/Controller.antt =====
-- internal/api/controllers/task/recurring/controller.go: the operations on recurring tasks as the routes call
-- them. An error is its status.
pub mod Changes
use tasques.Prelude.{ℕ, ℤ, String, Bool, Option, none, some, List, map, Outcome, ok, err}
use tasques.Domain.Recurring.{
  RecurringTask, NewRecurringTask, TaskDefinition, ServiceErr, already_exists, not_found,
  invalid_version,
}
use tasques.Es.Common.{ServiceError, refused, elasticsearch_err, json_serdes_err}
use tasques.Es.Client.{Runtime, Io, ◌>>=◌}
use tasques.Es.Tasks.Claim.{Ending, returned, panicked, starved}
use tasques.Es.Recurring.Service.{RecurringClient, create, get, update, delete}
use tasques.Es.Recurring.Scan.{
  Trouble, failed, panicked as scan_panicked, starved as scan_starved, all,
}
use tasques.Api.Tasks.{ApiDefaults, ApiError}
use tasques.Api.Recurring.{
  ApiTaskDefinition, ApiNewRecurringTask, TaskUpdate, ApiRecurringTask, to_domain_task_definition,
  to_domain_new_recurring_task, from_domain_recurring_task,
}

-- `Service` of internal/domain/task/recurring/service.go, as far as the controller calls it.
pub record RecurringTasksService (W : Type 0) : Type 0 where
  pub create : NewRecurringTask → Io W ServiceErr RecurringTask
  pub get : (id : String) (include_soft_deleted : Bool) → Io W ServiceErr RecurringTask
  pub update : RecurringTask → Io W ServiceErr RecurringTask
  pub delete : (id : String) → Io W ServiceErr RecurringTask
  pub all : W → Outcome Trouble (List RecurringTask) × W

-- `EsService` as that service.
abbrev pub es_recurring_tasks_service :
    {W : Type 0} → RecurringClient W → Runtime W → ℕ → ℤ → ℕ → RecurringTasksService W
es_recurring_tasks_service c rt scroll_page_size scroll_ttl fuel = record {
  create = create c rt;
  get = get c rt;
  update = update c rt;
  delete = delete c rt;
  all = all c rt scroll_page_size scroll_ttl fuel;
}

unfoldable pub handle_recurring_err : ServiceError ServiceErr → ApiError
handle_recurring_err (refused (already_exists id)) = record { status_code = 409 }
handle_recurring_err (refused (not_found id)) = record { status_code = 404 }
handle_recurring_err (refused (invalid_version id)) = record { status_code = 409 }
handle_recurring_err (elasticsearch_err cause) = record { status_code = 500 }
handle_recurring_err json_serdes_err = record { status_code = 500 }

unfoldable pub answered_recurring :
    Outcome (ServiceError ServiceErr) RecurringTask → Outcome ApiError ApiRecurringTask
unfolding handle_recurring_err from_domain_recurring_task
answered_recurring (ok t) = ok (from_domain_recurring_task t)
answered_recurring (err e) = err (handle_recurring_err e)

unfoldable pub answered_list :
    Outcome Trouble (List RecurringTask) → Ending (Outcome ApiError (List ApiRecurringTask))
unfolding handle_recurring_err from_domain_recurring_task
answered_list (ok ts) = returned (ok (map from_domain_recurring_task ts))
answered_list (err (failed e)) = returned (err (handle_recurring_err e))
answered_list (err scan_panicked) = panicked
answered_list (err scan_starved) = starved

abbrev pub definition_or : Option ApiTaskDefinition → ApiDefaults → TaskDefinition → TaskDefinition
definition_or none defaults d = d
definition_or (some a) defaults d =
    to_domain_task_definition a defaults.retry_times defaults.worker_processing_timeout

abbrev pub text_or : Option String → String → String
text_or none s = s
text_or (some t) s = t

abbrev pub flag_or : Option Bool → Bool → Bool
flag_or none b = b
flag_or (some c) b = c

-- The changes of `Update` to the task that it has read.
unfoldable pub apply_update : TaskUpdate → ApiDefaults → RecurringTask → RecurringTask
unfolding to_domain_task_definition
apply_update u defaults t = record t {
  schedule_expression = text_or u.schedule_expression t.schedule_expression;
  task_definition = definition_or u.task_definition defaults t.task_definition;
  skip_if_outstanding_tasks_exist =
      flag_or u.skip_if_outstanding_tasks_exist t.skip_if_outstanding_tasks_exist;
}

module _ {W : Type 0} (service : RecurringTasksService W) (defaults : ApiDefaults) where
  unfoldable pub create_recurring : ApiNewRecurringTask → W → Outcome ApiError ApiRecurringTask × W
  unfolding to_domain_new_recurring_task answered_recurring
  create_recurring t w =
      let new =
        to_domain_new_recurring_task t defaults.retry_times defaults.worker_processing_timeout in
      let (result, w') = service.create new w in (answered_recurring result, w')

  -- `Get`, the changes, and `Update`.
  unfoldable pub change : String → TaskUpdate → Io W ServiceErr RecurringTask
  unfolding apply_update
  change id u = do
    to_update ← service.get id Bool.false
    service.update (apply_update u defaults to_update)

  unfoldable pub update_recurring : String → TaskUpdate → W → Outcome ApiError ApiRecurringTask × W
  unfolding change answered_recurring
  update_recurring id u w = let (result, w') = change id u w in (answered_recurring result, w')

  unfoldable pub get_recurring : String → W → Outcome ApiError ApiRecurringTask × W
  unfolding answered_recurring
  get_recurring id w =
      let (result, w') = service.get id Bool.false w in (answered_recurring result, w')

  unfoldable pub delete_recurring : String → W → Outcome ApiError ApiRecurringTask × W
  unfolding answered_recurring
  delete_recurring id w = let (result, w') = service.delete id w in (answered_recurring result, w')

  unfoldable pub list_recurring : W → Ending (Outcome ApiError (List ApiRecurringTask)) × W
  unfolding answered_list
  list_recurring w = let (result, w') = service.all w in (answered_list result, w')
