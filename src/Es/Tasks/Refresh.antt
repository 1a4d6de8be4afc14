-- ===== src/Es/Tasks/Refresh.antt =====
-- Refreshing the index of a queue, and counting a recurring task's outstanding tasks, in
-- internal/infra/elasticsearch/task/service.go. The mutex round the cache is left out.
use tasques.Prelude.{
  ℕ, ℤ, ◌-ℤ◌, ltb_ℤ, leb_ℤ, String, Bool, true, ◌||◌, none, some, List, [], ◌∷◌, Outcome, ok, err,
  ◌==◌, if◌then◌else◌,
}
use tasques.Domain.Task.{Error}
use tasques.Es.Common.{
  ServiceError, elasticsearch_err, json_serdes_err, request_failed, unexpected_status, is_2xx,
}
use tasques.Es.Client.{Runtime, Cache, Reply, no_response, response, Io, ◌>>=◌, lift, run}
use tasques.Es.Tasks.Queries.{build_outstanding_tasks_count_query}
use tasques.Es.Tasks.Settings.{Tasks, Queues, build_index_name}
use tasques.Es.Tasks.Service.{TaskClient}

unfoldable pub refresh_answer : Reply (Unit {0}) → Outcome (ServiceError Error) (Unit {0})
refresh_answer no_response = err (elasticsearch_err request_failed)
refresh_answer (response status body) =
    if is_2xx status then ok tt else err (elasticsearch_err (unexpected_status status))

unfoldable pub count_answer : Reply ℕ → Outcome (ServiceError Error) ℕ
count_answer no_response = err (elasticsearch_err request_failed)
count_answer (response status body) =
    if status == 200
    then elim body [ none ↦ err json_serdes_err | some n ↦ ok n ]
    else err (elasticsearch_err (unexpected_status status))

-- The test on the time since a queue was last touched.
unfoldable pub is_stale : Queues → ℤ → Bool
is_stale queues diff =
    ltb_ℤ queues.refresh_if_last_touched_over diff
    || leb_ℤ diff queues.refresh_if_last_touched_under

module _ {W : Type 0} (c : TaskClient W) (rt : Runtime W) (cache : Cache W) (settings : Tasks) where
  unfoldable pub mark_touched : String → W → W
  mark_touched name w = let (now, w') = rt.get_utc w in cache.add name now w'

  abbrev pub add_all : List String → ℤ → W → W
  add_all [] now w = w
  add_all (name ∷ names) now w = add_all names now (cache.add name now w)

  unfoldable pub mark_all_touched : List String → W → W
  mark_all_touched names w = let (now, w') = rt.get_utc w in add_all names now w'

  unfoldable pub needs_refreshing : String → W → Bool × W
  needs_refreshing name w =
      let (touched, w') = cache.get name w in
      elim touched [
        | none ↦ (true, w')
        | some last_touched ↦
            let (now, w'') = rt.get_utc w' in (is_stale settings.queues (now -ℤ last_touched), w'')
      ]

  unfoldable pub refresh_as_needed : String → Io W Error (Unit {0})
  refresh_as_needed name w =
      let (needed, w') = needs_refreshing name w in
      if needed
      then (do
        reply ← run (c.refresh name)
        _ ← lift (refresh_answer reply)
        run (λ v. (tt, mark_touched name v)))
          w'
      else (ok tt, w')

  unfoldable pub outstanding_tasks_count : String → String → Io W Error ℕ
  outstanding_tasks_count queue id = do
    reply ← run (c.count (build_index_name queue) (build_outstanding_tasks_count_query id))
    n ← lift (count_answer reply)
    run (λ v. (n, mark_touched queue v))
