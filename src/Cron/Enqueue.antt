-- ===== src/Cron/Enqueue.antt =====
-- What an entry of the cron does when its time has come: the function that `Schedule` of
-- internal/infra/cron/task/recurring/scheduler.go gives to it, over the tasks service of
-- internal/infra/elasticsearch/task/service.go. Its logging and tracing are left out.
pub mod Outstanding
use tasques.Prelude.{
  ℕ, ℤ, String, ◌≡◌, refl, ◌⊎◌, Bool, true, false, Option, none, some, Outcome, ok, err, zero, suc,
  ◌≤◌, if◌then◌else◌, ◌==◌, inl, inr, Bool-cases, Outcome-cases, arith,
}
use tasques.Domain.Recurring.{RecurringTask, TaskDefinition}
use tasques.Domain.Task.{Task, NewTask, Error}
use tasques.Es.Common.{ServiceError}
use tasques.Es.Client.{Runtime, Cache, Io}
use tasques.Es.Tasks.Settings.{Tasks}
use tasques.Es.Tasks.Service.{TaskClient, create}
use tasques.Es.Tasks.Refresh.{refresh_as_needed, outstanding_tasks_count}

unfoldable pub task_def_to_new_task : String → TaskDefinition → ℤ → NewTask
task_def_to_new_task id def now = record {
  id = none;
  queue = def.queue;
  retry_times = def.retry_times;
  kind = def.kind;
  priority = def.priority;
  run_at = now;
  processing_timeout = def.processing_timeout;
  args = def.args;
  context = def.context;
  recurring_task_id = some id;
}

module _ {W : Type 0} (c : TaskClient W) (rt : Runtime W) (cache : Cache W) (settings : Tasks) where
  -- `Create` with the new task; its error is only logged.
  unfoldable pub insert_task : RecurringTask → W → W
  insert_task t w =
      let (now, w') = rt.get_utc w in
      (create c rt settings (task_def_to_new_task t.id t.task_definition now) w').1

  -- A count that cannot be had counts as outstanding tasks.
  unfoldable pub insert_if_none : RecurringTask → Outcome (ServiceError Error) ℕ → W → W
  unfolding insert_task
  insert_if_none t (err e) w = w
  insert_if_none t (ok outstanding_tasks_count) w =
      if outstanding_tasks_count == 0 then insert_task t w else w

  unfoldable pub enqueue : RecurringTask → W → W
  enqueue t w =
      if t.skip_if_outstanding_tasks_exist
      then (let queue = t.task_definition.queue in
          let (_, w1) = refresh_as_needed c rt cache settings queue w in
          let (counted, w2) = outstanding_tasks_count c rt cache settings queue t.id w1 in
          insert_if_none t counted w2)
      else insert_task t w
