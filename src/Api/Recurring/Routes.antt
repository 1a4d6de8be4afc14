-- ===== src/Api/Recurring/Routes.antt =====
-- internal/infra/server/routing/tasks/recurring/routes_handler.go: what the web framework calls for each route
-- of recurring tasks. Binding a body, with its checks, is a parameter: `none` is a body that is refused.
use tasques.Prelude.{ℕ, String, Option, none, some, List, Outcome, ok, err}
use tasques.Es.Tasks.Claim.{Ending, returned, panicked, starved}
use tasques.Api.Tasks.{ApiDefaults, ApiError}
use tasques.Api.Recurring.{ApiNewRecurringTask, TaskUpdate, ApiRecurringTask}
use tasques.Api.Recurring.Controller.{
  RecurringTasksService, create_recurring, update_recurring, get_recurring, delete_recurring,
  list_recurring,
}

pub data RecurringContent : Type 0 where
  message : RecurringContent
  recurring_task : ApiRecurringTask → RecurringContent
  recurring_tasks : List ApiRecurringTask → RecurringContent

pub record RecurringResponse : Type 0 where
  pub status : ℕ
  pub content : RecurringContent

unfoldable pub respond_recurring : ℕ → Outcome ApiError ApiRecurringTask → RecurringResponse
respond_recurring status (ok t) = record { status = status; content = recurring_task t }
respond_recurring status (err e) = record { status = e.status_code; content = message }

unfoldable pub respond_list :
    Ending (Outcome ApiError (List ApiRecurringTask)) → Ending RecurringResponse
respond_list (returned (ok ts)) = returned (record { status = 200; content = recurring_tasks ts })
respond_list (returned (err e)) = returned (record { status = e.status_code; content = message })
respond_list panicked = panicked
respond_list starved = starved

pub data RecurringRequest : Type 0 where
  post_recurring : (body : Option ApiNewRecurringTask) → RecurringRequest
  put_recurring : (id : String) (body : Option TaskUpdate) → RecurringRequest
  get_one_recurring delete_one_recurring : (id : String) → RecurringRequest
  get_all_recurring : RecurringRequest

abbrev pub unbound : RecurringResponse
unbound = record { status = 400; content = message }

abbrev pub responded_recurring :
    {W : Type 0} → ℕ → Outcome ApiError ApiRecurringTask × W → Ending RecurringResponse × W
responded_recurring status (result, w) = (returned (respond_recurring status result), w)

-- `RegisterRoutes`, with the handler of each route.
unfoldable pub serve_recurring :
    {W : Type 0}
    → RecurringTasksService W
    → ApiDefaults
    → RecurringRequest
    → W
    → Ending RecurringResponse × W
unfolding respond_list create_recurring update_recurring get_recurring delete_recurring
    list_recurring
serve_recurring service defaults (post_recurring none) w = (returned unbound, w)
serve_recurring service defaults (post_recurring (some t)) w =
    responded_recurring 201 (create_recurring service defaults t w)
serve_recurring service defaults (put_recurring id none) w = (returned unbound, w)
serve_recurring service defaults (put_recurring id (some u)) w =
    responded_recurring 200 (update_recurring service defaults id u w)
serve_recurring service defaults (get_one_recurring id) w =
    responded_recurring 200 (get_recurring service defaults id w)
serve_recurring service defaults (delete_one_recurring id) w =
    responded_recurring 200 (delete_recurring service defaults id w)
serve_recurring service defaults get_all_recurring w =
    let (result, w') = list_recurring service defaults w in (respond_list result, w')
