-- ===== src/Es/Tasks/Service.antt =====
-- The operations of `EsService` of internal/infra/elasticsearch/task/service.go on one task: each is a
-- step of the world through the client, the clock and the random numbers.
pub mod Locking
pub mod Owner
pub mod Completion
use tasques.Prelude.{
  ℕ, ◌+◌, ℤ, String, Bool, true, false, ◌&&◌, not, Option, none, some, Outcome, ok, err, ltb, ◌==◌,
  ◌≡◌, arith, if◌then◌else◌,
}
use tasques.Domain.Json.{JsonObj}
use tasques.Domain.Metadata.{Version}
use tasques.Domain.Task.{
  Task, NewTask, NewReport, queued, Error, not_found, invalid_version, already_exists, u64,
  report_in, into_done, into_failed, into_unclaimed,
}
use tasques.Es.Common.{
  ServiceError, refused, elasticsearch_err, json_serdes_err, request_failed, unexpected_status,
  is_2xx,
}
use tasques.Es.Client.{
  Client, Runtime, Hit, Reply, no_response, response, Io, ◌>>=◌, pure, raise, lift, marshal, run,
  continue,
}
use tasques.Es.Tasks.Persisted.{PersistedTaskData, to_domain_task, to_persisted_task}
use tasques.Es.Tasks.Queries.{SearchBody}
use tasques.Es.Tasks.Settings.{Tasks, build_index_name}

abbrev pub TaskClient : Type 0 → Type 0
TaskClient W = Client W PersistedTaskData SearchBody

-- The document of a task that is created.
unfoldable pub new_document : String → ℤ → NewTask → PersistedTaskData
new_document task_id now n = record {
  id = task_id;
  queue = n.queue;
  retry_times = n.retry_times;
  remaining_attempts = u64 (n.retry_times + 1);
  kind = n.kind;
  state = queued;
  run_at = n.run_at;
  processing_timeout = n.processing_timeout;
  priority = n.priority;
  args = n.args;
  context = n.context;
  last_enqueued_at = now;
  last_claimed = none;
  metadata = record { created_at = now; modified_at = now };
  recurring_task_id = n.recurring_task_id;
}

-- A step's error in the domain, as an error of the service.
abbrev pub of_domain : {A : Type 0} → Outcome Error A → Outcome (ServiceError Error) A
of_domain (ok a) = ok a
of_domain (err e) = err (refused e)

pub of_domain-ok : {A : Type 0} {r : Outcome Error A} {a : A} → of_domain r ≡ ok a → r ≡ ok a
of_domain-ok {r = ok t} h = ground arith
of_domain-ok {r = err e} h = absurd (ground arith)

-- The body of a response whose status the caller expects.
abbrev pub decoded : {A E : Type 0} → Option A → Outcome (ServiceError E) A
decoded none = err json_serdes_err
decoded (some a) = ok a

unfoldable pub created :
    String → PersistedTaskData → Reply Version → Outcome (ServiceError Error) Task
created task_id doc no_response = err (elasticsearch_err request_failed)
created task_id doc (response status body) =
    if is_2xx status
    then elim body [ none ↦ err json_serdes_err | some v ↦ ok (to_domain_task doc v) ]
    else if status == 409
    then err (refused (already_exists task_id))
    else err (elasticsearch_err (unexpected_status status))

unfoldable pub found :
    String → String → Reply (Hit PersistedTaskData) → Outcome (ServiceError Error) Task
found queue task_id no_response = err (elasticsearch_err request_failed)
found queue task_id (response status body) =
    if status == 200
    then elim body [
      | none ↦ err json_serdes_err
      | some hit ↦ ok (to_domain_task hit.source hit.version)
    ]
    else if status == 404
    then err (refused (not_found task_id queue))
    else err (elasticsearch_err (unexpected_status status))

unfoldable pub updated : String → String → Task → Reply Version → Outcome (ServiceError Error) Task
updated queue task_id t no_response = err (elasticsearch_err request_failed)
updated queue task_id t (response status body) =
    if is_2xx status
    then elim body [
      | none ↦ err json_serdes_err
      | some v ↦ ok (record t { metadata = record t.metadata { version = v } })
    ]
    else if status == 409
    then err (refused (invalid_version task_id))
    else if status == 404
    then err (refused (not_found task_id queue))
    else err (elasticsearch_err (unexpected_status status))

abbrev pub is_invalid_version : ServiceError Error → Bool
is_invalid_version (refused (invalid_version id)) = true
is_invalid_version e = false

-- `targetTask.Metadata.ModifiedAt = at`
abbrev pub stamped : Task → ℤ → Task
stamped t at = record t { metadata = record t.metadata { modified_at = at } }

module _ {W : Type 0} (c : TaskClient W) (rt : Runtime W) (settings : Tasks) where
  -- GenerateId
  unfoldable pub generate_id : NewTask → Io W Error String
  generate_id new_task = elim new_task.id [ none ↦ run rt.new_id | some id ↦ pure id ]

  unfoldable pub create : NewTask → Io W Error Task
  unfolding generate_id
  create new_task = do
    now ← run rt.get_utc
    task_id ← generate_id new_task
    let doc = new_document task_id now new_task
    _ ← marshal c doc
    reply ← run (c.create (build_index_name new_task.queue) task_id doc)
    lift (created task_id doc reply)

  unfoldable pub get : String → String → Io W Error Task
  get queue task_id = do
    reply ← run (c.get (build_index_name queue) task_id)
    lift (found queue task_id reply)

  -- The last part of `getAndUpdate`: the document is written under the version that was read.
  unfoldable pub write_back : String → String → Task → Io W Error Task
  write_back queue task_id t = do
    _ ← marshal c (to_persisted_task t)
    reply ←
        run (c.put (build_index_name queue) task_id (to_persisted_task t) (some t.metadata.version))
    lift (updated queue task_id t reply)

  unfoldable pub get_and_update : String → String → (Task → Io W Error Task) → ℤ → Io W Error Task
  get_and_update queue task_id mutate at = do
    target ← get queue task_id
    mutated ← mutate target
    write_back queue task_id (stamped mutated at)

  -- `if _, isVersionConflict := err.(task.InvalidVersion); isVersionConflict && timesRetried <
  -- VersionConflictRetryTimes`, where `timesRetried` is 0.
  abbrev pub retry_on_conflict :
      Outcome (ServiceError Error) Task × W
      → Io W Error Task
      → Outcome (ServiceError Error) Task × W
  retry_on_conflict (ok t, w) again = (ok t, w)
  retry_on_conflict (err e, w) again =
      if is_invalid_version e && ltb 0 settings.defaults.version_conflict_retry_times
      then again w
      else (err e, w)

  unfoldable pub report_in_task : String → String → String → NewReport → Io W Error Task
  report_in_task worker_id queue task_id new_report w =
      let (reported_in_at, w') = rt.get_utc w in
      let run_update : Io W Error Task =
        get_and_update queue task_id
          (λ t. lift (of_domain (report_in t worker_id new_report reported_in_at)))
          reported_in_at in
      retry_on_conflict (run_update w') run_update

  -- One round of `markComplete`, at a time of its own.
  unfoldable pub complete_once : String → String → (Task → ℤ → Io W Error Task) → Io W Error Task
  complete_once queue task_id mutate = do
    completed_at ← run rt.get_utc
    get_and_update queue task_id (λ t. mutate t completed_at) completed_at

  unfoldable pub mark_complete : String → String → (Task → ℤ → Io W Error Task) → Io W Error Task
  mark_complete queue task_id mutate w =
      retry_on_conflict (complete_once queue task_id mutate w) (complete_once queue task_id mutate)

  unfoldable pub mark_done : String → String → String → Option JsonObj → Io W Error Task
  mark_done worker_id queue task_id success =
      mark_complete queue task_id λ t at. lift (of_domain (into_done t worker_id at success))

  -- The random number of `IntoFailed` is drawn before it, whether or not it is used.
  unfoldable pub fail_task : Task → String → ℤ → Option JsonObj → Io W Error Task
  fail_task t worker_id at failure = do
    jitter ← run (rt.rand_intn 30)
    lift (of_domain (into_failed t worker_id at failure jitter))

  unfoldable pub mark_failed : String → String → String → Option JsonObj → Io W Error Task
  mark_failed worker_id queue task_id failure =
      mark_complete queue task_id λ t at. fail_task t worker_id at failure

  unfoldable pub un_claim : String → String → String → Io W Error Task
  un_claim worker_id queue task_id =
      mark_complete queue task_id λ t at. lift (of_domain (into_unclaimed t worker_id at))
