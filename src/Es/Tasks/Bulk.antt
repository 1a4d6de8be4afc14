-- ===== src/Es/Tasks/Bulk.antt =====
-- The bulk requests of internal/infra/elasticsearch/task/service.go: claiming and timing out tasks in
-- batches, and archiving them.
use tasques.Prelude.{
  ℕ, ℤ, String, Bool, true, false, Option, none, some, List, [], ◌∷◌, Outcome, ok, err,
  if◌then◌else◌, map,
}
use tasques.Domain.Task.{Task, Error, into_claimed}
use tasques.Es.Common.{
  ServiceError, elasticsearch_err, json_serdes_err, request_failed, unexpected_status,
  EsBulkResponseItem, info, is_ok, version,
}
use tasques.Es.Client.{
  Runtime, Reply, no_response, response, BulkOp, index_if, delete_if, index_new, Io, ◌>>=◌, pure,
  raise, lift, run,
}
use tasques.Es.Tasks.Persisted.{PersistedTaskData, to_persisted_task}
use tasques.Es.Tasks.Settings.{build_index_name, tasques_archive_index}
use tasques.Es.Tasks.Service.{TaskClient, of_domain, stamped}

unfoldable pub build_update_bulk_op : Task → BulkOp PersistedTaskData
build_update_bulk_op t =
    index_if (build_index_name t.queue) t.id t.metadata.version (to_persisted_task t)

-- The delete and the insert that archive a task, in the order of the request.
unfoldable pub build_task_archival : Task → BulkOp PersistedTaskData × BulkOp PersistedTaskData
build_task_archival t = (
  delete_if (build_index_name t.queue) t.id t.metadata.version,
  index_new tasques_archive_index (to_persisted_task t),
)

-- The operations of the archive request.
unfoldable pub archive_ops : List Task → List (BulkOp PersistedTaskData)
unfolding build_task_archival
archive_ops [] = []
archive_ops (t ∷ ts) =
    let (delete, insert) = build_task_archival t in delete ∷ insert ∷ archive_ops ts

unfoldable pub bulk_answer :
    (ℕ → Bool)
    → Reply (List EsBulkResponseItem)
    → Outcome (ServiceError Error) (List EsBulkResponseItem)
bulk_answer is_error no_response = err (elasticsearch_err request_failed)
bulk_answer is_error (response status body) =
    if is_error status
    then err (elasticsearch_err (unexpected_status status))
    else elim body [ none ↦ err json_serdes_err | some items ↦ ok items ]

-- `bulkReqResponse.Items[idx].Info()` along the tasks: the ones that were claimed, with their new
-- versions. `none` is a panic: an item is missing, or has no info.
unfoldable pub claimed_of : List Task → List EsBulkResponseItem → Option (List Task)
claimed_of [] items = some []
claimed_of (t ∷ ts) [] = none
claimed_of (t ∷ ts) (item ∷ items) =
    let rest = claimed_of ts items in
    elim (info item) [
      | none ↦ none
      | some i ↦ elim rest [
        | none ↦ none
        | some claimed ↦ some (
            if is_ok i
            then record t { metadata = record t.metadata { version = version i } } ∷ claimed
            else claimed)
      ]
    ]

-- The loop that claims each task in turn, and stops at the first that cannot be claimed.
unfoldable pub claim_each : String → ℤ → List Task → Outcome Error (List Task)
claim_each worker_id at [] = ok []
claim_each worker_id at (t ∷ ts) =
    let rest = claim_each worker_id at ts in
    elim (into_claimed t worker_id at) [
      | err e ↦ err e
      | ok t' ↦ elim rest [ err e ↦ err e | ok ts' ↦ ok (stamped t' at ∷ ts') ]
    ]

abbrev pub all_marshal : {D : Type 0} → (D → Bool) → List D → Bool
all_marshal marshals [] = true
all_marshal marshals (d ∷ ds) = if marshals d then all_marshal marshals ds else false

module _ {W : Type 0} (c : TaskClient W) (rt : Runtime W) where
  unfoldable pub send_bulk : List (BulkOp PersistedTaskData) → Io W Error (List EsBulkResponseItem)
  unfolding bulk_answer
  send_bulk ops = do reply ← run (c.bulk ops); lift (bulk_answer c.is_error reply)

  unfoldable pub bulk_update_tasks : List Task → Io W Error (List EsBulkResponseItem)
  bulk_update_tasks tasks =
      if all_marshal c.marshals (map to_persisted_task tasks)
      then send_bulk (map build_update_bulk_op tasks)
      else raise json_serdes_err

  unfoldable pub bulk_archive_tasks : List Task → Io W Error (List EsBulkResponseItem)
  bulk_archive_tasks tasks =
      if all_marshal c.marshals (map to_persisted_task tasks)
      then send_bulk (archive_ops tasks)
      else raise json_serdes_err

  -- `none` is a panic of the loop over the answer.
  unfoldable pub make_claim : String → List Task → Io W Error (Option (List Task))
  make_claim worker_id about_to_claims = do
    claimed_at ← run rt.get_utc
    tasks ← lift (of_domain (claim_each worker_id claimed_at about_to_claims))
    items ← bulk_update_tasks tasks
    pure (claimed_of tasks items)
