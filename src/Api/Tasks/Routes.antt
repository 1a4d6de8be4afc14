-- ===== src/Api/Tasks/Routes.antt =====
-- internal/infra/server/routing/tasks/routes_handler.go: what the web framework calls for each route. Binding
-- a body, with its checks, is a parameter: `none` is a body that is refused.
use Prim.Native.Char.{Char, code}
use tasques.Prelude.{
  ℕ, ℤ, String, Bool, true, false, ◌&&◌, ◌||◌, Option, none, some, List, Outcome, ok, err, ◌==◌,
  leb, if◌then◌else◌,
}
use tasques.Domain.Json.{JsonObj}
use tasques.Domain.Queue.{codes, NameError, name_from_string}
use tasques.Domain.Task.{NewReport}
use tasques.Es.Client.{Runtime}
use tasques.Es.Tasks.Claim.{Ending, returned, panicked, starved}
use tasques.Api.Models.{ApiNewTask, ApiTask, Claim, or_default}
use tasques.Api.Tasks.{
  TasksService, ApiDefaults, ApiError, create_task, get_task, claim_tasks, file_report, finish_done,
  finish_failed, give_back,
}

-- The white space of Unicode: unicode.IsSpace.
unfoldable pub is_space : ℕ → Bool
is_space c =
    (leb 9 c && leb c 13)
    || (c == 32)
    || (c == 133)
    || (c == 160)
    || (c == 5760)
    || (leb 8192 c && leb c 8202)
    || (c == 8232)
    || (c == 8233)
    || (c == 8239)
    || (c == 8287)
    || (c == 12288)

abbrev pub is_empty_text : String → Bool
is_empty_text String.[] = true
is_empty_text (String.◌∷◌ c s) = false

unfoldable pub trim_left : String → String
unfolding is_space
trim_left String.[] = String.[]
trim_left (String.◌∷◌ c s) =
    let rest = trim_left s in if is_space (code c) then rest else String.◌∷◌ c s

-- A character in front of what is left of the rest: white space goes if nothing is left.
abbrev pub before_rest : Bool → Char → String → String
before_rest true c String.[] = String.[]
before_rest true c (String.◌∷◌ d s) = String.◌∷◌ c (String.◌∷◌ d s)
before_rest false c s = String.◌∷◌ c s

unfoldable pub trim_right : String → String
unfolding is_space
trim_right String.[] = String.[]
trim_right (String.◌∷◌ c s) = before_rest (is_space (code c)) c (trim_right s)

-- strings.TrimSpace
abbrev pub trim_space : String → String
trim_space s = trim_right (trim_left s)

-- What is written as the body of an answer.
pub data Content : Type 0 where
  message : Content
  task : ApiTask → Content
  tasks : List ApiTask → Content

pub record Response : Type 0 where
  pub status : ℕ
  pub content : Content

abbrev pub bad_request : Response
bad_request = record { status = 400; content = message }

-- `getWorkerIdOrErr`
unfoldable pub get_worker_id : String → Option String
unfolding trim_left trim_right
get_worker_id header = if is_empty_text (trim_space header) then none else some (trim_space header)

unfoldable pub respond : ℕ → Outcome ApiError ApiTask → Response
respond status (ok t) = record { status = status; content = task t }
respond status (err e) = record { status = e.status_code; content = message }

unfoldable pub respond_claim : Ending (Outcome ApiError (List ApiTask)) → Ending Response
respond_claim (returned (ok ts)) = returned (record { status = 200; content = tasks ts })
respond_claim (returned (err e)) = returned (record { status = e.status_code; content = message })
respond_claim panicked = panicked
respond_claim starved = starved

-- The part of a request that a route reads: the parts of its path, the header of the worker, the body.
pub data Request : Type 0 where
  post_task : (body : Option ApiNewTask) → Request
  get_one : (queue task_id : String) → Request
  post_claim : (header : String) (body : Option Claim) → Request
  delete_claim : (header queue task_id : String) → Request
  put_report : (header queue task_id : String) (body : Option NewReport) → Request
  put_done : (header queue task_id : String) (body : Option (Option JsonObj)) → Request
  put_failed : (header queue task_id : String) (body : Option (Option JsonObj)) → Request

module _ {W : Type 0} where
  unfoldable pub if_ok : Outcome (List NameError) (List ℕ) → (W → Response × W) → W → Response × W
  if_ok (err es) next w = (bad_request, w)
  if_ok (ok name) next w = next w

  unfoldable pub with_body : {B : Type 0} → Option B → (B → W → Response × W) → W → Response × W
  with_body none next w = (bad_request, w)
  with_body (some b) next w = next b w

  -- `NameFromString` on a part of the path.
  unfoldable pub with_queue : (ℕ → ℕ) → String → (W → Response × W) → W → Response × W
  unfolding if_ok
  with_queue lower queue = if_ok (name_from_string lower (codes queue))

  unfoldable pub with_worker : String → (String → W → Response × W) → W → Response × W
  unfolding with_body get_worker_id
  with_worker header = with_body (get_worker_id header)

  abbrev pub responded : ℕ → Outcome ApiError ApiTask × W → Response × W
  responded status (result, w) = (respond status result, w)

  abbrev pub ended : Response × W → Ending Response × W
  ended (r, w) = (returned r, w)

module _ {W : Type 0} (tasks_service : TasksService W) (rt : Runtime W) (defaults : ApiDefaults)
    (time_zero : ℤ) (lower : ℕ → ℕ) where
  unfoldable pub handle_create : Option ApiNewTask → W → Response × W
  unfolding respond create_task with_queue with_worker with_body
  handle_create body =
      with_body body
        λ new_task w. responded 201 (create_task tasks_service rt defaults time_zero new_task w)

  unfoldable pub handle_get : String → String → W → Response × W
  unfolding respond get_task with_queue with_worker with_body
  handle_get queue task_id =
      with_queue lower queue
        λ w. responded 200 (get_task tasks_service rt defaults time_zero queue task_id w)

  unfoldable pub handle_claim : String → Option Claim → W → Ending Response × W
  unfolding get_worker_id respond_claim claim_tasks
  handle_claim header body w = elim (get_worker_id header) [
    | none ↦ (returned bad_request, w)
    | some worker_id ↦ elim body [
      | none ↦ (returned bad_request, w)
      | some claim ↦
          let block_for = or_default claim.block_for defaults.block_for in
          let amount = or_default claim.amount defaults.claim_amount in
          let (result, w') =
            claim_tasks tasks_service rt defaults time_zero worker_id claim.queues amount block_for
              w in
          (respond_claim result, w')
    ]
  ]

  unfoldable pub handle_un_claim : String → String → String → W → Response × W
  unfolding respond give_back with_queue with_worker with_body
  handle_un_claim header queue task_id = with_queue lower queue (
      with_worker header λ worker_id w.
        responded 200 (give_back tasks_service rt defaults time_zero worker_id queue task_id w))

  unfoldable pub handle_report_in : String → String → String → Option NewReport → W → Response × W
  unfolding respond file_report with_queue with_worker with_body
  handle_report_in header queue task_id body = with_queue lower queue (
      with_body body λ report. with_worker header λ worker_id w.
        responded 200
          (file_report tasks_service rt defaults time_zero worker_id queue task_id report w))

  unfoldable pub handle_mark_done :
      String → String → String → Option (Option JsonObj) → W → Response × W
  unfolding respond finish_done with_queue with_worker with_body
  handle_mark_done header queue task_id body = with_queue lower queue (
      with_body body λ success. with_worker header λ worker_id w.
        responded 200
          (finish_done tasks_service rt defaults time_zero worker_id queue task_id success w))

  unfoldable pub handle_mark_failed :
      String → String → String → Option (Option JsonObj) → W → Response × W
  unfolding respond finish_failed with_queue with_worker with_body
  handle_mark_failed header queue task_id body = with_queue lower queue (
      with_body body λ failure. with_worker header λ worker_id w.
        responded 200
          (finish_failed tasks_service rt defaults time_zero worker_id queue task_id failure w))

  -- `RegisterRoutes`
  unfoldable pub serve : Request → W → Ending Response × W
  unfolding handle_create handle_get handle_claim handle_un_claim handle_report_in handle_mark_done
      handle_mark_failed
  serve (post_task body) w = ended (handle_create body w)
  serve (get_one queue task_id) w = ended (handle_get queue task_id w)
  serve (post_claim header body) w = handle_claim header body w
  serve (delete_claim header queue task_id) w = ended (handle_un_claim header queue task_id w)
  serve (put_report header queue task_id body) w =
      ended (handle_report_in header queue task_id body w)
  serve (put_done header queue task_id body) w =
      ended (handle_mark_done header queue task_id body w)
  serve (put_failed header queue task_id body) w =
      ended (handle_mark_failed header queue task_id body w)
