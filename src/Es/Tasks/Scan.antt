-- ===== src/Es/Tasks/Scan.antt =====
-- The two scans of internal/infra/elasticsearch/task/service.go, over the tasks that have timed out and
-- over those to archive: page by page, on fuel, with the scroll cleared at the end.
pub mod Pages
pub mod Reap
use tasques.Prelude.{
  ℕ, zero, suc, ℤ, String, Option, none, some, List, [], ◌∷◌, ◌++◌, Outcome, ok, err, ◌==◌,
  if◌then◌else◌, not,
}
use tasques.Domain.Json.{JsonObj}
use tasques.Domain.Task.{Task, Error, LastClaimed, into_failed}
use tasques.Es.Common.{
  ServiceError, elasticsearch_err, json_serdes_err, request_failed, unexpected_status,
}
use tasques.Es.Client.{
  Runtime, Reply, no_response, response, Page, Io, ◌>>=◌, pure, lift, run, continue,
}
use tasques.Es.Tasks.Persisted.{PersistedTaskData}
use tasques.Es.Tasks.Queries.{SearchBody, build_timed_out_search_body, build_archivable_search_body}
use tasques.Es.Tasks.Settings.{all_taskqueue_queues_pattern}
use tasques.Es.Tasks.Service.{TaskClient, stamped}
use tasques.Es.Tasks.Bulk.{bulk_update_tasks, bulk_archive_tasks}
use tasques.Es.Tasks.Claim.{Ending, returned, starved, is_empty, to_domain_hits}

pub record TasksWithScrollId : Type 0 where
  pub scroll_id : String
  pub tasks : List Task

unfoldable pub process_scroll_resp :
    Reply (Page PersistedTaskData) → Outcome (ServiceError Error) TasksWithScrollId
process_scroll_resp no_response = err (elasticsearch_err request_failed)
process_scroll_resp (response status body) =
    if status == 200
    then elim body [
      | none ↦ err json_serdes_err
      | some page ↦ ok (record { scroll_id = page.scroll_id; tasks = to_domain_hits page.hits })
    ]
    else err (elasticsearch_err (unexpected_status status))

module _ {W : Type 0} (c : TaskClient W) (rt : Runtime W) (timed_out : JsonObj) where
  unfoldable pub init_search : SearchBody → ℤ → Io W Error TasksWithScrollId
  init_search search_body scroll_ttl = do
    reply ← run (c.search_scroll all_taskqueue_queues_pattern search_body scroll_ttl)
    lift (process_scroll_resp reply)

  unfoldable pub scroll : String → ℤ → Io W Error TasksWithScrollId
  scroll scroll_id scroll_ttl = do
    reply ← run (c.scroll scroll_id scroll_ttl)
    lift (process_scroll_resp reply)

  -- What the deferred `clearScroll` does; its error is not returned.
  unfoldable pub clear_scroll : List String → W → W
  clear_scroll [] w = w
  clear_scroll (id ∷ ids) w = (c.clear_scroll (id ∷ ids) w).1

  -- The loop of `scanTasks`, with the scroll's ids so far; it gives them back for the clearing.
  unfoldable pub scan_loop :
      ℕ
      → (List Task → Io W Error Unit)
      → ℤ
      → String
      → List String
      → List Task
      → W
      → (Outcome (ServiceError Error) (Ending Unit) × List String) × W
  scan_loop zero do_with_batch scroll_ttl scroll_id scroll_ids scanned w =
      ((ok starved, scroll_ids), w)
  scan_loop (suc fuel) do_with_batch scroll_ttl scroll_id scroll_ids [] w =
      ((ok (returned tt), scroll_ids), w)
  scan_loop (suc fuel) do_with_batch scroll_ttl scroll_id scroll_ids (t ∷ ts) w =
      let (next, w') = (do_with_batch (t ∷ ts) >>= λ _. scroll scroll_id scroll_ttl) w in
      elim next [
        | err e ↦ ((err e, scroll_ids), w')
        | ok page ↦
            scan_loop fuel do_with_batch scroll_ttl page.scroll_id
              (scroll_ids ++ (page.scroll_id ∷ [])) page.tasks w'
      ]

  unfoldable pub scan_tasks :
      ℕ → SearchBody → ℤ → (List Task → Io W Error Unit) → Io W Error (Ending Unit)
  scan_tasks fuel search_body scroll_ttl do_with_batch =
      init_search search_body scroll_ttl >>= λ page w.
      let ((result, scroll_ids), w') =
        scan_loop fuel do_with_batch scroll_ttl page.scroll_id (page.scroll_id ∷ []) page.tasks w in
      (result, clear_scroll scroll_ids w')

  -- The tasks of a batch that are timed out, and the others passed over. `timed_out` is the failure
  -- that they are given.
  unfoldable pub time_out_each : ℤ → List Task → W → List Task × W
  time_out_each now [] w = ([], w)
  time_out_each now (t ∷ ts) w = elim t.last_claimed [
    | none ↦ time_out_each now ts w
    | some l ↦
        let (jitter, w') = rt.rand_intn 30 w in
        let (rest, w'') = time_out_each now ts w' in
        (
          elim (into_failed t l.worker_id now (some timed_out) jitter) [
            | err e ↦ rest
            | ok t' ↦ stamped t' now ∷ rest
          ],
          w'',
        )
  ]

  unfoldable pub reap_batch : ℤ → List Task → Io W Error Unit
  reap_batch now timed_out_tasks = do
    about_to_time_out ← run (time_out_each now timed_out_tasks)
    _ ← bulk_update_tasks c rt about_to_time_out
    pure tt

  unfoldable pub reap_timed_out_tasks : ℕ → ℕ → ℤ → Io W Error (Ending Unit)
  reap_timed_out_tasks fuel scroll_size scroll_ttl = do
    now ← run rt.get_utc
    scan_tasks fuel (build_timed_out_search_body now scroll_size) scroll_ttl (reap_batch now)

  unfoldable pub archive_batch : List Task → Io W Error Unit
  archive_batch archivable_tasks = do _ ← bulk_archive_tasks c rt archivable_tasks; pure tt

  unfoldable pub archive_old_tasks : ℕ → ℤ → ℕ → ℤ → Io W Error (Ending Unit)
  archive_old_tasks fuel archive_completed_before scroll_size scroll_ttl =
      scan_tasks fuel (build_archivable_search_body archive_completed_before scroll_size) scroll_ttl
        archive_batch
