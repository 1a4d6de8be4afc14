-- ===== src/Es/Recurring/Service.antt =====
-- The operations of `EsService` of internal/infra/elasticsearch/task/recurring/service.go on one task,
-- and the marking of many.
pub mod Marks
pub mod Placed
pub mod Sorted
pub mod Updates
use tasques.Prelude.{
  ℕ, ℤ, String, Bool, true, false, ◌&&◌, not, Option, none, some, List, [], ◌∷◌, map, Outcome, ok,
  err, ◌==◌, if◌then◌else◌,
}
use tasques.Domain.Metadata.{Version}
use tasques.Domain.Recurring.{
  RecurringTask, NewRecurringTask, ServiceErr, already_exists, not_found, invalid_version,
  into_deleted, MultiUpdateResult, BulkUpdateOtherError,
}
use tasques.Es.Common.{
  ServiceError, refused, elasticsearch_err, json_serdes_err, request_failed, unexpected_status,
  is_2xx, EsBulkResponseItem, EsBulkResponseItemInfo, info, is_ok, version,
}
use tasques.Es.Client.{
  Client, Runtime, Hit, Reply, no_response, response, BulkOp, index_if, Io, ◌>>=◌, pure, raise,
  lift, marshal, run,
}
use tasques.Es.Recurring.Persisted.{
  PersistedRecurringTaskData, new_to_persistable, domain_to_persistable, persisted_to_domain,
}
use tasques.Es.Recurring.Queries.{RecurringSearchBody}

abbrev pub RecurringClient : Type 0 → Type 0
RecurringClient W = Client W PersistedRecurringTaskData RecurringSearchBody

abbrev pub tasques_recurring_tasks_index : String
tasques_recurring_tasks_index = ".tasques_recurring_tasks"

abbrev pub Answer : Type 0
Answer = Outcome (ServiceError ServiceErr) RecurringTask

unfoldable pub found : String → Bool → Reply (Hit PersistedRecurringTaskData) → Answer
found id include_soft_deleted no_response = err (elasticsearch_err request_failed)
found id include_soft_deleted (response status body) =
    if status == 200
    then elim body [
      | none ↦ err json_serdes_err
      | some h ↦
          let t = persisted_to_domain h.id h.source h.version in
          if t.is_deleted && not include_soft_deleted then err (refused (not_found id)) else ok t
    ]
    else if status == 404
    then err (refused (not_found id))
    else err (elasticsearch_err (unexpected_status status))

-- The task of a document that was written, with the version of the answer.
abbrev pub persisted : String → PersistedRecurringTaskData → Option Version → Answer
persisted id doc none = err json_serdes_err
persisted id doc (some v) = ok (persisted_to_domain id doc v)

unfoldable pub reindexed : String → PersistedRecurringTaskData → Reply Version → Answer
reindexed id doc no_response = err (elasticsearch_err request_failed)
reindexed id doc (response status body) =
    if is_2xx status
    then persisted id doc body
    else err (elasticsearch_err (unexpected_status status))

unfoldable pub updated : RecurringTask → Reply Version → Answer
updated t no_response = err (elasticsearch_err request_failed)
updated t (response status body) =
    if is_2xx status
    then elim body [
      | none ↦ err json_serdes_err
      | some v ↦ ok (record t { metadata = record t.metadata { version = v } })
    ]
    else if status == 409
    then err (refused (invalid_version t.id))
    else if status == 404
    then err (refused (not_found t.id))
    else err (elasticsearch_err (unexpected_status status))

unfoldable pub build_update_bulk_op : RecurringTask → ℤ → BulkOp PersistedRecurringTaskData
build_update_bulk_op t at =
    index_if tasques_recurring_tasks_index t.id t.metadata.version (domain_to_persistable t at)

unfoldable pub bulk_answer :
    (ℕ → Bool)
    → Reply (List EsBulkResponseItem)
    → Outcome (ServiceError ServiceErr) (List EsBulkResponseItem)
bulk_answer is_error no_response = err (elasticsearch_err request_failed)
bulk_answer is_error (response status body) =
    if is_error status
    then err (elasticsearch_err (unexpected_status status))
    else elim body [ none ↦ err json_serdes_err | some items ↦ ok items ]

abbrev pub no_results : MultiUpdateResult
no_results = record { successes = []; version_conflicts = []; not_founds = []; others = [] }

-- One turn of the loop over the answer; the lists are built from their ends.
unfoldable pub sort_result :
    RecurringTask → EsBulkResponseItemInfo → MultiUpdateResult → MultiUpdateResult
sort_result t i r =
    if is_ok i
    then record r {
      successes = record t { metadata = record t.metadata { version = version i } } ∷ r.successes;
    }
    else if i.status == 404
    then record r { not_founds = t ∷ r.not_founds }
    else if i.status == 409
    then record r { version_conflicts = t ∷ r.version_conflicts }
    else record r { others = record { recurring_task = t; result = i.result } ∷ r.others }

-- `none` is a panic: an item is missing, or has no info.
unfoldable pub sort_results :
    List RecurringTask → List EsBulkResponseItem → Option MultiUpdateResult
unfolding sort_result
sort_results [] items = some no_results
sort_results (t ∷ ts) [] = none
sort_results (t ∷ ts) (item ∷ items) =
    let rest = sort_results ts items in
    elim (info item) [
      | none ↦ none
      | some i ↦ elim rest [ none ↦ none | some r ↦ some (sort_result t i r) ]
    ]

abbrev pub all_marshal :
    (PersistedRecurringTaskData → Bool) → List PersistedRecurringTaskData → Bool
all_marshal marshals [] = true
all_marshal marshals (d ∷ ds) = if marshals d then all_marshal marshals ds else false

-- `toMark.LoadedAt = &loadedAt`
abbrev pub loaded : ℤ → RecurringTask → RecurringTask
loaded now t = record t { loaded_at = some now }

module _ {W : Type 0} (c : RecurringClient W) (rt : Runtime W) where
  unfoldable pub get : String → Bool → Io W ServiceErr RecurringTask
  get id include_soft_deleted = do
    reply ← run (c.get tasques_recurring_tasks_index id)
    lift (found id include_soft_deleted reply)

  -- The document of a task that was deleted is written over, whatever its version.
  unfoldable pub reindex : String → PersistedRecurringTaskData → Io W ServiceErr RecurringTask
  reindex id doc = do
    _ ← marshal c doc
    reply ← run (c.put tasques_recurring_tasks_index id doc none)
    lift (reindexed id doc reply)

  -- What `Create` does where the id is taken.
  unfoldable pub revive : String → PersistedRecurringTaskData → Io W ServiceErr RecurringTask
  revive id doc = do
    existing ← get id true
    if existing.is_deleted then reindex id doc else raise (refused (already_exists id))

  unfoldable pub create_answer :
      String → PersistedRecurringTaskData → Reply Version → Io W ServiceErr RecurringTask
  create_answer id doc no_response = raise (elasticsearch_err request_failed)
  create_answer id doc (response status body) =
      if is_2xx status
      then lift (persisted id doc body)
      else if status == 409
      then revive id doc
      else raise (elasticsearch_err (unexpected_status status))

  unfoldable pub create : NewRecurringTask → Io W ServiceErr RecurringTask
  create t = do
    now ← run rt.get_utc
    let doc = new_to_persistable t now
    _ ← marshal c doc
    reply ← run (c.create tasques_recurring_tasks_index t.id doc)
    create_answer t.id doc reply

  -- The task that is returned keeps the time of its last change but one.
  unfoldable pub update : RecurringTask → Io W ServiceErr RecurringTask
  update t = do
    now ← run rt.get_utc
    let unloaded : RecurringTask = record t { loaded_at = none }
    let doc = domain_to_persistable unloaded now
    _ ← marshal c doc
    reply ← run (c.put tasques_recurring_tasks_index t.id doc (some t.metadata.version))
    lift (updated unloaded reply)

  -- `Update` changes the task that it is given, which is the one that is returned.
  unfoldable pub delete : String → Io W ServiceErr RecurringTask
  delete id = do existing ← get id false; update (into_deleted existing)

  unfoldable pub send_marks : List RecurringTask → ℤ → Io W ServiceErr (List EsBulkResponseItem)
  unfolding bulk_answer
  send_marks ts at =
      if all_marshal c.marshals (map (λ t. domain_to_persistable t at) ts)
      then (do
        reply ← run (c.bulk (map (λ t. build_update_bulk_op t at) ts))
        lift (bulk_answer c.is_error reply))
      else raise json_serdes_err

  unfoldable pub mark_loaded : List RecurringTask → Io W ServiceErr (Option MultiUpdateResult)
  mark_loaded to_marks = do
    now ← run rt.get_utc
    items ← send_marks (map (loaded now) to_marks) now
    pure (sort_results (map (loaded now) to_marks) items)
