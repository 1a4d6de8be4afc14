-- ===== src/Es/Recurring/Scan.antt =====
-- The lists of internal/infra/elasticsearch/task/recurring/service.go: a scan page by page, on fuel, with
-- the scroll cleared at the end; and `EsService` as the service that the manager is given.
pub mod Pages
use tasques.Prelude.{
  ℕ, zero, suc, ℤ, String, Option, none, some, List, [], ◌∷◌, ◌++◌, map, Outcome, ok, err, ◌==◌,
  if◌then◌else◌,
}
use tasques.Domain.Recurring.{RecurringTask, ServiceErr, Service, MultiUpdateResult}
use tasques.Es.Common.{
  ServiceError, elasticsearch_err, json_serdes_err, request_failed, unexpected_status, is_2xx,
}
use tasques.Es.Client.{
  Runtime, Hit, Reply, no_response, response, Page, Io, ◌>>=◌, pure, lift, run, continue,
}
use tasques.Es.Recurring.Persisted.{PersistedRecurringTaskData, persisted_to_domain}
use tasques.Es.Recurring.Queries.{
  RecurringSearchBody, build_undeleted_list_search_body, build_not_loaded_since_search_body,
}
use tasques.Es.Recurring.Service.{RecurringClient, tasques_recurring_tasks_index, mark_loaded}

pub record RecurringTasksWithScrollId : Type 0 where
  pub scroll_id : String
  pub recurring_tasks : List RecurringTask

-- The methods `toDomainTask` and `Version` of a hit.
abbrev pub to_domain_task : Hit PersistedRecurringTaskData → RecurringTask
to_domain_task h = persisted_to_domain h.id h.source h.version

unfoldable pub process_scroll_resp :
    Reply (Page PersistedRecurringTaskData)
    → Outcome (ServiceError ServiceErr) RecurringTasksWithScrollId
process_scroll_resp no_response = err (elasticsearch_err request_failed)
process_scroll_resp (response status body) =
    if status == 200
    then elim body [
      | none ↦ err json_serdes_err
      | some page ↦
          ok (record { scroll_id = page.scroll_id; recurring_tasks = map to_domain_task page.hits })
    ]
    else err (elasticsearch_err (unexpected_status status))

unfoldable pub refresh_answer : Reply (Unit {0}) → Outcome (ServiceError ServiceErr) (Unit {0})
refresh_answer no_response = err (elasticsearch_err request_failed)
refresh_answer (response status body) =
    if is_2xx status then ok tt else err (elasticsearch_err (unexpected_status status))

-- What the manager cannot go on with: an error of the service, a panic, or no fuel.
pub data Trouble : Type 0 where
  failed : ServiceError ServiceErr → Trouble
  panicked starved : Trouble

-- A step with the ids of the scroll, which are cleared whatever comes out.
abbrev pub Scanned : Type 0 → Type 0
Scanned W = (Outcome Trouble (List RecurringTask) × List String) × W

module _ {W : Type 0} (c : RecurringClient W) (rt : Runtime W) (scroll_page_size : ℕ)
    (scroll_ttl : ℤ) where
  unfoldable pub init_search : RecurringSearchBody → Io W ServiceErr RecurringTasksWithScrollId
  init_search search_body = do
    reply ← run (c.search_scroll tasques_recurring_tasks_index search_body scroll_ttl)
    lift (process_scroll_resp reply)

  unfoldable pub scroll : String → Io W ServiceErr RecurringTasksWithScrollId
  scroll scroll_id = do
    reply ← run (c.scroll scroll_id scroll_ttl)
    lift (process_scroll_resp reply)

  -- What the deferred `clearScroll` does; its error is not returned.
  unfoldable pub clear_scroll : List String → W → W
  clear_scroll [] w = w
  clear_scroll (id ∷ ids) w = (c.clear_scroll (id ∷ ids) w).1

  -- The loop of `scanRecurringTasks`. Both callers give it a function that appends a batch to what was
  -- found before, and never fails.
  unfoldable pub scan_loop :
      ℕ → String → List String → List RecurringTask → List RecurringTask → W → Scanned W
  scan_loop zero scroll_id scroll_ids scanned so_far w = ((err starved, scroll_ids), w)
  scan_loop (suc fuel) scroll_id scroll_ids [] so_far w = ((ok so_far, scroll_ids), w)
  scan_loop (suc fuel) scroll_id scroll_ids (t ∷ ts) so_far w =
      let (next, w') = scroll scroll_id w in
      elim next [
        | err e ↦ ((err (failed e), scroll_ids), w')
        | ok page ↦
            scan_loop fuel page.scroll_id (scroll_ids ++ (page.scroll_id ∷ [])) page.recurring_tasks
              (so_far ++ (t ∷ ts)) w'
      ]

  abbrev pub cleared : Scanned W → Outcome Trouble (List RecurringTask) × W
  cleared ((result, scroll_ids), w) = (result, clear_scroll scroll_ids w)

  unfoldable pub scan_recurring_tasks :
      ℕ → RecurringSearchBody → W → Outcome Trouble (List RecurringTask) × W
  scan_recurring_tasks fuel search_body w =
      let (first, w') = init_search search_body w in
      elim first [
        | err e ↦ (err (failed e), w')
        | ok page ↦
            cleared (scan_loop fuel page.scroll_id (page.scroll_id ∷ []) page.recurring_tasks [] w')
      ]

  unfoldable pub refresh_index : Io W ServiceErr (Unit {0})
  refresh_index = do
    reply ← run (c.refresh tasques_recurring_tasks_index)
    lift (refresh_answer reply)

  unfoldable pub all : ℕ → W → Outcome Trouble (List RecurringTask) × W
  all fuel w =
      let (refreshed, w') = refresh_index w in
      elim refreshed [
        | err e ↦ (err (failed e), w')
        | ok u ↦ scan_recurring_tasks fuel (build_undeleted_list_search_body scroll_page_size) w'
      ]

  unfoldable pub not_loaded : ℕ → W → Outcome Trouble (List RecurringTask) × W
  not_loaded fuel = scan_recurring_tasks fuel (build_not_loaded_since_search_body scroll_page_size)

  -- An answer of `MarkLoaded`, as the manager takes it.
  abbrev pub marked :
      Outcome (ServiceError ServiceErr) (Option MultiUpdateResult)
      → Outcome Trouble MultiUpdateResult
  marked (ok (some r)) = ok r
  marked (ok none) = err panicked
  marked (err e) = err (failed e)

  -- `EsService` as the manager's service.
  abbrev pub es_service : ℕ → Service W Trouble
  es_service fuel = record {
    all = all fuel;
    not_loaded = not_loaded fuel;
    mark_loaded = λ ts w. let (r, w') = mark_loaded c rt ts w in (marked r, w');
  }
