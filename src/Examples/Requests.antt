-- ===== src/Examples/Requests.antt =====
-- Requests to the routes of internal/infra/server/routing/tasks/routes_handler.go.
use tasques.Prelude.{ℕ, pos, ◌≡◌, refl, none, some}
use tasques.Es.Client.{Cache, marshal}
use tasques.Domain.Metadata.{version_eq}
use tasques.Domain.Queue.{name_from_string, name_errors, prefix_errors, illegal_errors}
use tasques.Domain.Task.{into_done, with_claim, not_owned}
use tasques.Es.Tasks.Claim.{returned}
use tasques.Es.Tasks.Persisted.{PersistedTaskData, to_domain_task, to_persisted_task}
use tasques.Es.Tasks.Settings.{build_index_name}
use tasques.Es.Tasks.Service.{
  get, write_back, found, updated, get_and_update, complete_once, mark_complete, mark_done,
}
use tasques.Es.Tasks.Service.Owner.{succeeds}
use tasques.Api.Models.{from_domain_task}
use tasques.Api.Tasks.{ApiDefaults, TasksService, es_tasks_service, answered, finish_done}
use tasques.Api.Tasks.Routes.{
  get_one, put_done, Response, bad_request, task, serve, handle_mark_done, get_worker_id, trim_left,
  trim_right, is_space, respond, if_ok, with_queue, with_worker, with_body,
}
use tasques.Api.Tasks.Refusals.{WellFormed, serve-WellFormed}
use tasques.Api.Tasks.Finishes.{IsServed, serve-IsServed}
use tasques.Examples.Server.{World, stored, answer_get, answer_put, server, runtime, store}
use tasques.Examples.Updates.{settings, world, finished, after, laws, time}

abbrev no_cache : Cache (World PersistedTaskData)
no_cache = record { add = λ name at w. w; get = λ name w. (none, w) }

abbrev pub defaults : ApiDefaults
defaults = record {
  block_for = pos 3;
  worker_processing_timeout = pos 30;
  claim_amount = 1;
  retry_times = 10;
}

abbrev tasks_service : TasksService (World PersistedTaskData)
tasks_service = es_tasks_service server runtime no_cache settings 5

-- The letters of the examples are in lower case.
abbrev lower : ℕ → ℕ
lower c = c

abbrev success : Response
success = record { status = 200; content = task (from_domain_task finished) }

puts_done :
    serve tasks_service runtime defaults
      (pos 0)
      lower
      (put_done " ann\t" "jobs" "a" (some none))
      world
    ≡ (returned success, after)
unfolding serve handle_mark_done finish_done answered respond get_worker_id trim_left trim_right
    is_space if_ok with_queue with_worker with_body name_from_string name_errors prefix_errors
    illegal_errors mark_done mark_complete complete_once get_and_update get write_back found updated
    marshal to_domain_task to_persisted_task build_index_name into_done with_claim not_owned stored
    answer_get answer_put version_eq
puts_done = refl

serve-IsServed_example :
    IsServed server runtime no_cache settings 5 defaults
      (pos 0)
      lower
      store
      laws
      time
      (succeeds none)
      " ann\t"
      "jobs"
      "a"
      world
      success
      after
serve-IsServed_example =
    serve-IsServed server runtime no_cache settings 5 defaults (pos 0) lower store laws time
      (succeeds none) " ann\t" "jobs" "a" world after puts_done refl

no_queue : ¬ WellFormed lower (get_one "" "a")
no_queue = λ v. absurd v.starts

serve-WellFormed_example :
    serve tasks_service runtime defaults (pos 0) lower (get_one "" "a") world
    ≡ (returned bad_request, world)
serve-WellFormed_example =
    serve-WellFormed tasks_service runtime defaults (pos 0) lower (get_one "" "a") world no_queue
