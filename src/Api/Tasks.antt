-- ===== src/Api/Tasks.antt =====
-- internal/api/controllers/task/controller.go: the operations on tasks as the routes call them. The texts of
-- errors are left out: an error is its status.
pub mod Finishes
pub mod Refusals
pub mod Routes
use tasques.Prelude.{ℕ, ℤ, String, Option, List, map, Outcome, ok, err}
use tasques.Domain.Json.{JsonObj}
use tasques.Domain.Task.{
  NewTask, NewReport, Task, Error, not_found, invalid_version, already_exists, not_owned_by_worker,
  not_claimed, report_from_the_past, unclaimable,
}
use tasques.Es.Common.{ServiceError, refused, elasticsearch_err, json_serdes_err}
use tasques.Es.Client.{Runtime, Cache, Io}
use tasques.Es.Tasks.Settings.{Tasks}
use tasques.Es.Tasks.Service.{
  TaskClient, create, get, report_in_task, mark_done, mark_failed, un_claim,
}
use tasques.Es.Tasks.Claim.{Ending, returned, panicked, starved, claim}
use tasques.Api.Models.{ApiNewTask, ApiTask, to_domain_new_task, from_domain_task}

-- `Service` of internal/domain/task/service.go, as far as the controller calls it.
pub record TasksService (W : Type 0) : Type 0 where
  pub create : NewTask → Io W Error Task
  pub get : (queue task_id : String) → Io W Error Task
  pub claim : String → List String → ℕ → ℤ → Io W Error (Ending (List Task))
  pub report_in : (worker_id queue task_id : String) → NewReport → Io W Error Task
  pub mark_done : (worker_id queue task_id : String) → Option JsonObj → Io W Error Task
  pub mark_failed : (worker_id queue task_id : String) → Option JsonObj → Io W Error Task
  pub un_claim : (worker_id queue task_id : String) → Io W Error Task

-- `EsService` as that service.
abbrev pub es_tasks_service :
    {W : Type 0} → TaskClient W → Runtime W → Cache W → Tasks → ℕ → TasksService W
es_tasks_service c rt cache settings fuel = record {
  create = create c rt settings;
  get = get c rt settings;
  claim = claim c rt cache settings fuel;
  report_in = report_in_task c rt settings;
  mark_done = mark_done c rt settings;
  mark_failed = mark_failed c rt settings;
  un_claim = un_claim c rt settings;
}

-- The settings that the controller and the routes fall back to.
pub record ApiDefaults : Type 0 where
  pub block_for : ℤ
  pub worker_processing_timeout : ℤ
  pub claim_amount : ℕ
  pub retry_times : ℕ

pub record ApiError : Type 0 where
  pub status_code : ℕ

-- `Unclaimable` has no case of its own.
unfoldable pub handle_err : ServiceError Error → ApiError
handle_err (refused (not_found id queue)) = record { status_code = 404 }
handle_err (refused (report_from_the_past id at existing)) = record { status_code = 400 }
handle_err (refused (not_claimed id state)) = record { status_code = 400 }
handle_err (refused (not_owned_by_worker id owner)) = record { status_code = 403 }
handle_err (refused (invalid_version id)) = record { status_code = 409 }
handle_err (refused (already_exists id)) = record { status_code = 409 }
handle_err (refused (unclaimable id state)) = record { status_code = 500 }
handle_err (elasticsearch_err cause) = record { status_code = 500 }
handle_err json_serdes_err = record { status_code = 500 }

-- What an operation of the controller gives.
unfoldable pub answered : Outcome (ServiceError Error) Task → Outcome ApiError ApiTask
unfolding handle_err from_domain_task
answered (ok t) = ok (from_domain_task t)
answered (err e) = err (handle_err e)

unfoldable pub answered_claim :
    Outcome (ServiceError Error) (Ending (List Task)) → Ending (Outcome ApiError (List ApiTask))
unfolding handle_err from_domain_task
answered_claim (ok (returned ts)) = returned (ok (map from_domain_task ts))
answered_claim (ok panicked) = panicked
answered_claim (ok starved) = starved
answered_claim (err e) = returned (err (handle_err e))

module _ {W : Type 0} (tasks_service : TasksService W) (rt : Runtime W) (defaults : ApiDefaults)
    (time_zero : ℤ) where
  unfoldable pub create_task : ApiNewTask → W → Outcome ApiError ApiTask × W
  unfolding to_domain_new_task answered
  create_task new_task w =
      let (now, w') = rt.get_utc w in
      let domain_new_task =
        to_domain_new_task new_task time_zero defaults.retry_times now
          defaults.worker_processing_timeout in
      let (result, w'') = tasks_service.create domain_new_task w' in (answered result, w'')

  unfoldable pub get_task : (queue task_id : String) → W → Outcome ApiError ApiTask × W
  unfolding answered
  get_task queue task_id w =
      let (result, w') = tasks_service.get queue task_id w in (answered result, w')

  unfoldable pub claim_tasks :
      String → List String → ℕ → ℤ → W → Ending (Outcome ApiError (List ApiTask)) × W
  unfolding answered_claim
  claim_tasks worker_id queues number block_for w =
      let (result, w') = tasks_service.claim worker_id queues number block_for w in
      (answered_claim result, w')

  unfoldable pub file_report :
      (worker_id queue task_id : String) → NewReport → W → Outcome ApiError ApiTask × W
  unfolding answered
  file_report worker_id queue task_id report w =
      let (result, w') = tasks_service.report_in worker_id queue task_id report w in
      (answered result, w')

  unfoldable pub finish_done :
      (worker_id queue task_id : String) → Option JsonObj → W → Outcome ApiError ApiTask × W
  unfolding answered
  finish_done worker_id queue task_id success w =
      let (result, w') = tasks_service.mark_done worker_id queue task_id success w in
      (answered result, w')

  unfoldable pub finish_failed :
      (worker_id queue task_id : String) → Option JsonObj → W → Outcome ApiError ApiTask × W
  unfolding answered
  finish_failed worker_id queue task_id failure w =
      let (result, w') = tasks_service.mark_failed worker_id queue task_id failure w in
      (answered result, w')

  unfoldable pub give_back : (worker_id queue task_id : String) → W → Outcome ApiError ApiTask × W
  unfolding answered
  give_back worker_id queue task_id w =
      let (result, w') = tasks_service.un_claim worker_id queue task_id w in (answered result, w')
