-- ===== src/Es/Tasks/Persisted.antt =====
-- The documents of internal/infra/elasticsearch/task/service.go, and the conversions between them and
-- the tasks of internal/domain/task. A document keeps the attempts that remain, not those made.
pub mod RoundTrip
use tasques.Prelude.{ℕ, ◌+◌, ◌-◌, ◌^◌, ◌<◌, ℤ, String, ◌≡◌, refl, Option, none, some, arith}
use tasques.Domain.Json.{JsonObj}
use tasques.Domain.Metadata.{Version}
use tasques.Domain.Task.{Task, State, LastClaimed, Report, Result, u64}
use tasques.Es.Common.{PersistedMetadata}

pub record PersistedReport : Type 0 where
  pub at : ℤ
  pub payload : Option JsonObj

pub record PersistedResult : Type 0 where
  pub at : ℤ
  pub failure : Option JsonObj
  pub success : Option JsonObj

pub record PersistedLastClaimed : Type 0 where
  pub worker_id : String
  pub claimed_at : ℤ
  pub times_out_at : ℤ
  pub last_report : Option PersistedReport
  pub result : Option PersistedResult

pub record PersistedTaskData : Type 0 where
  pub id : String
  pub queue : String
  pub retry_times : ℕ
  pub remaining_attempts : ℕ
  pub kind : String
  pub state : State
  pub run_at : ℤ
  pub processing_timeout : ℤ
  pub priority : ℤ
  pub args : Option JsonObj
  pub context : Option JsonObj
  pub last_enqueued_at : ℤ
  pub last_claimed : Option PersistedLastClaimed
  pub metadata : PersistedMetadata
  pub recurring_task_id : Option String

abbrev pub to_domain_report : Option PersistedReport → Option Report
to_domain_report none = none
to_domain_report (some r) = some (record { at = r.at; payload = r.payload })

abbrev pub to_domain_result : Option PersistedResult → Option Result
to_domain_result none = none
to_domain_result (some r) = some (record { at = r.at; failure = r.failure; success = r.success })

abbrev pub to_domain_claim : Option PersistedLastClaimed → Option LastClaimed
to_domain_claim none = none
to_domain_claim (some c) = some (record {
  worker_id = c.worker_id;
  claimed_at = c.claimed_at;
  times_out_at = c.times_out_at;
  last_report = to_domain_report c.last_report;
  result = to_domain_result c.result;
})

unfoldable pub to_domain_task : PersistedTaskData → Version → Task
to_domain_task p version = record {
  id = p.id;
  queue = p.queue;
  retry_times = p.retry_times;
  attempted = u64 (u64 (p.retry_times + 1) + 2 ^ 64 - p.remaining_attempts);
  kind = p.kind;
  state = p.state;
  priority = p.priority;
  run_at = p.run_at;
  processing_timeout = p.processing_timeout;
  args = p.args;
  context = p.context;
  last_claimed = to_domain_claim p.last_claimed;
  last_enqueued_at = p.last_enqueued_at;
  metadata = record {
    created_at = p.metadata.created_at;
    modified_at = p.metadata.modified_at;
    version = version;
  };
  recurring_task_id = p.recurring_task_id;
}

abbrev pub to_persisted_report : Option Report → Option PersistedReport
to_persisted_report none = none
to_persisted_report (some r) = some (record { at = r.at; payload = r.payload })

abbrev pub to_persisted_result : Option Result → Option PersistedResult
to_persisted_result none = none
to_persisted_result (some r) = some (record { at = r.at; failure = r.failure; success = r.success })

abbrev pub to_persisted_claim : Option LastClaimed → Option PersistedLastClaimed
to_persisted_claim none = none
to_persisted_claim (some c) = some (record {
  worker_id = c.worker_id;
  claimed_at = c.claimed_at;
  times_out_at = c.times_out_at;
  last_report = to_persisted_report c.last_report;
  result = to_persisted_result c.result;
})

unfoldable pub to_persisted_task : Task → PersistedTaskData
to_persisted_task t = record {
  id = t.id;
  queue = t.queue;
  retry_times = t.retry_times;
  remaining_attempts = u64 (u64 (t.retry_times + 1) + 2 ^ 64 - t.attempted);
  kind = t.kind;
  state = t.state;
  run_at = t.run_at;
  processing_timeout = t.processing_timeout;
  priority = t.priority;
  args = t.args;
  context = t.context;
  last_enqueued_at = t.last_enqueued_at;
  last_claimed = to_persisted_claim t.last_claimed;
  metadata = record { created_at = t.metadata.created_at; modified_at = t.metadata.modified_at };
  recurring_task_id = t.recurring_task_id;
}
