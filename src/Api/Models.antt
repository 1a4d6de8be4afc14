-- ===== src/Api/Models.antt =====
-- internal/api/models/task/models.go and internal/api/models/common: what requests and answers hold of tasks.
-- Texts as JSON are left to the web framework.
use tasques.Prelude.{ℕ, ℤ, pos, String, ◌&&◌, leb_ℤ, Option, none, some, List, if◌then◌else◌}
use tasques.Domain.Json.{JsonObj}
use tasques.Domain.Metadata.{Metadata}
use tasques.Domain.Task.{NewTask, Task, State, Report, Result, LastClaimed}

pub record ApiVersion : Type 0 where
  pub seq_num : ℕ
  pub primary_term : ℕ

pub record ApiMetadata : Type 0 where
  pub created_at : ℤ
  pub modified_at : ℤ
  pub version : ApiVersion

unfoldable pub from_domain_metadata : Metadata → ApiMetadata
from_domain_metadata m = record {
  created_at = m.created_at;
  modified_at = m.modified_at;
  version = record { seq_num = m.version.seq_num; primary_term = m.version.primary_term };
}

pub record ApiNewTask : Type 0 where
  pub id : Option String
  pub queue : String
  pub retry_times : Option ℕ
  pub kind : String
  pub priority : Option ℤ
  pub processing_timeout : Option ℤ
  pub run_at : Option ℤ
  pub args : Option JsonObj
  pub context : Option JsonObj

pub record ApiReport : Type 0 where
  pub at : ℤ
  pub payload : Option JsonObj

pub record ApiResult : Type 0 where
  pub at : ℤ
  pub failure : Option JsonObj
  pub success : Option JsonObj

pub record ApiLastClaimed : Type 0 where
  pub worker_id : String
  pub claimed_at : ℤ
  pub times_out_at : ℤ
  pub last_report : Option ApiReport
  pub result : Option ApiResult

-- The body of a request to claim tasks.
pub record Claim : Type 0 where
  pub queues : List String
  pub amount : Option ℕ
  pub block_for : Option ℤ

pub record ApiTask : Type 0 where
  pub id : String
  pub queue : String
  pub retry_times : ℕ
  pub attempted : ℕ
  pub kind : String
  pub state : State
  pub priority : ℤ
  pub processing_timeout : ℤ
  pub run_at : ℤ
  pub args : Option JsonObj
  pub context : Option JsonObj
  pub last_claimed : Option ApiLastClaimed
  pub last_enqueued_at : ℤ
  pub metadata : ApiMetadata
  pub recurring_task_id : Option String

abbrev pub or_default : {A : Type 0} → Option A → A → A
or_default none d = d
or_default (some x) d = x

-- The zero time counts as none.
unfoldable pub run_at_or : Option ℤ → ℤ → ℤ → ℤ
run_at_or none time_zero default_run_at = default_run_at
run_at_or (some at) time_zero default_run_at =
    if leb_ℤ at time_zero && leb_ℤ time_zero at then default_run_at else at

-- `time_zero` is the zero of Go's time.Time, on the scale of the other times.
unfoldable pub to_domain_new_task : ApiNewTask → ℤ → ℕ → ℤ → ℤ → NewTask
unfolding run_at_or
to_domain_new_task t time_zero default_retry_times default_run_at default_processing_timeout =
    record {
      id = t.id;
      queue = t.queue;
      retry_times = or_default t.retry_times default_retry_times;
      kind = t.kind;
      priority = or_default t.priority (pos 0);
      run_at = run_at_or t.run_at time_zero default_run_at;
      processing_timeout = or_default t.processing_timeout default_processing_timeout;
      args = t.args;
      context = t.context;
      recurring_task_id = none;
    }

abbrev pub from_report : Option Report → Option ApiReport
from_report none = none
from_report (some r) = some (record { at = r.at; payload = r.payload })

abbrev pub from_result : Option Result → Option ApiResult
from_result none = none
from_result (some r) = some (record { at = r.at; failure = r.failure; success = r.success })

abbrev pub from_claim : Option LastClaimed → Option ApiLastClaimed
from_claim none = none
from_claim (some l) = some (record {
  worker_id = l.worker_id;
  claimed_at = l.claimed_at;
  times_out_at = l.times_out_at;
  last_report = from_report l.last_report;
  result = from_result l.result;
})

unfoldable pub from_domain_task : Task → ApiTask
unfolding from_domain_metadata
from_domain_task t = record {
  id = t.id;
  queue = t.queue;
  retry_times = t.retry_times;
  attempted = t.attempted;
  kind = t.kind;
  state = t.state;
  priority = t.priority;
  processing_timeout = t.processing_timeout;
  run_at = t.run_at;
  args = t.args;
  context = t.context;
  last_claimed = from_claim t.last_claimed;
  last_enqueued_at = t.last_enqueued_at;
  metadata = from_domain_metadata t.metadata;
  recurring_task_id = t.recurring_task_id;
}
