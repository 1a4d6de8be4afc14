-- ===== src/Domain/Task.antt =====
-- internal/domain/task/models.go and the errors of internal/domain/task/service.go. A method on
-- `*Task` that returns an error is a function to the task after it, or the error: on an error the
-- task is left alone. `uint` and `int` are 64 bits wide.
pub mod Attempts
pub mod Backoff
pub mod Calls
pub mod Invariant
pub mod Lifecycle
pub mod Ownership
pub mod StateText
use Prim.Native.Nat.{bit_xor}
use tasques.Prelude.{
  ℕ, ◌+◌, ◌-◌, ◌*◌, ◌%◌, ◌^◌, ℤ, pos, negsuc, ◌+ℤ◌, ltb_ℤ, String, Bool, true, false, ◌||◌, not,
  Option, none, some, Outcome, ok, err, ltb, str_eq, if◌then◌else◌,
}
use tasques.Domain.Json.{JsonObj}
use tasques.Domain.Metadata.{Metadata}

abbrev pub u64 : ℕ → ℕ
u64 n = n % 2 ^ 64

-- The integer that 64 bits stand for.
abbrev pub signed : ℕ → ℤ
signed n = if ltb n (2 ^ 63) then pos n else negsuc (2 ^ 64 - n - 1)

pub data State : Type 0 where
  queued claimed failed done dead : State

pub record Report : Type 0 where
  pub at : ℤ
  pub payload : Option JsonObj

pub record NewReport : Type 0 where
  pub payload : Option JsonObj

pub record Result : Type 0 where
  pub at : ℤ
  pub failure : Option JsonObj
  pub success : Option JsonObj

pub record LastClaimed : Type 0 where
  pub worker_id : String
  pub claimed_at : ℤ
  pub times_out_at : ℤ
  pub last_report : Option Report
  pub result : Option Result

pub record NewTask : Type 0 where
  pub id : Option String
  pub queue : String
  pub retry_times : ℕ
  pub kind : String
  pub priority : ℤ
  pub run_at : ℤ
  pub processing_timeout : ℤ
  pub args : Option JsonObj
  pub context : Option JsonObj
  pub recurring_task_id : Option String

pub record Task : Type 0 where
  pub id : String
  pub queue : String
  pub retry_times : ℕ
  pub attempted : ℕ
  pub kind : String
  pub state : State
  pub priority : ℤ
  pub run_at : ℤ
  pub processing_timeout : ℤ
  pub args : Option JsonObj
  pub context : Option JsonObj
  pub last_claimed : Option LastClaimed
  pub last_enqueued_at : ℤ
  pub metadata : Metadata
  pub recurring_task_id : Option String

pub data Error : Type 0 where
  not_found : (id queue_name : String) → Error
  invalid_version : (id : String) → Error
  already_exists : (id : String) → Error
  not_owned_by_worker : (id wanted_owner_worker : String) → Error
  not_claimed : (id : String) → State → Error
  report_from_the_past : (id : String) (attempted_report_time existing_report_time : ℤ) → Error
  unclaimable : (id : String) → State → Error

unfoldable pub remaining_attempts : Task → ℕ
remaining_attempts t =
    if ltb (u64 (t.retry_times + 1)) t.attempted
    then 0
    else u64 (u64 (t.retry_times + 1) + 2 ^ 64 - t.attempted)

abbrev pub is_claimed : State → Bool
is_claimed claimed = true
is_claimed _ = false

-- The state in which `IntoClaimed` takes a task.
abbrev pub is_claimable : State → Bool
is_claimable queued = true
is_claimable failed = true
is_claimable _ = false

-- `t.LastClaimed == nil || t.LastClaimed.WorkerId != byWorker`
unfoldable pub not_owned : Option LastClaimed → String → Bool
not_owned none by_worker = true
not_owned (some c) by_worker = not (str_eq c.worker_id by_worker)

unfoldable pub into_claimed : Task → String → ℤ → Outcome Error Task
into_claimed t worker_id at =
    if is_claimable t.state
    then ok (record t {
      state = claimed;
      attempted = u64 (t.attempted + 1);
      last_claimed = some (record {
        worker_id = worker_id;
        claimed_at = at;
        times_out_at = at +ℤ t.processing_timeout;
        last_report = none;
        result = none;
      });
    })
    else err (unclaimable t.id t.state)

-- The guards that the four methods of a claimed task share, and what they do to its claim.
unfoldable pub with_claim : Task → String → (LastClaimed → Outcome Error Task) → Outcome Error Task
unfolding not_owned
with_claim t by_worker act =
    if not (is_claimed t.state)
    then err (not_claimed t.id t.state)
    else if not_owned t.last_claimed by_worker
    then err (not_owned_by_worker t.id by_worker)
    else elim t.last_claimed [ none ↦ err (not_owned_by_worker t.id by_worker) | some c ↦ act c ]

-- `t.LastClaimed.LastReport != nil && time.Time(t.LastClaimed.LastReport.At).After(time.Time(at))`
abbrev later_report : LastClaimed → ℤ → Option ℤ
later_report c at = elim c.last_report [
  | none ↦ none
  | some r ↦ if ltb_ℤ at r.at then some r.at else none
]

unfoldable pub report_in : Task → String → NewReport → ℤ → Outcome Error Task
unfolding with_claim
report_in t by_worker new_report at = with_claim t by_worker λ c. elim (later_report c at) [
  | some existing ↦ err (report_from_the_past t.id at existing)
  | none ↦ ok (record t {
    last_claimed = some (record c {
      last_report = some (record { at = at; payload = new_report.payload });
      times_out_at = at +ℤ t.processing_timeout;
    });
  })
]

unfoldable pub into_done : Task → String → ℤ → Option JsonObj → Outcome Error Task
unfolding with_claim
into_done t by_worker at success = with_claim t by_worker λ c. ok (record t {
  state = done;
  last_claimed =
      some (record c { result = some (record { at = at; failure = none; success = success }) });
})

-- `var retriesSoFar int`, as its 64 bits.
unfoldable pub retries_so_far : ℕ → ℕ
retries_so_far attempted = if ltb 0 attempted then attempted - 1 else 0

-- `15 + retriesSoFar ^ 4 + (rand.Intn(30) * (retriesSoFar + 1))`: in Go `^` is exclusive or, and
-- binds like `+`. `jitter` is what `rand.Intn(30)` returned.
unfoldable pub wait_time_seconds : ℕ → ℕ → ℕ
wait_time_seconds retries jitter =
    u64 (bit_xor (u64 (15 + retries)) 4 + u64 (jitter * u64 (retries + 1)))

-- `time.Duration(waitTimeSecondsInt * int(time.Second))`
unfoldable pub wait_time_duration : ℕ → ℕ → ℤ
wait_time_duration retries jitter = signed (u64 (wait_time_seconds retries jitter * 1_000_000_000))

unfoldable pub into_failed : Task → String → ℤ → Option JsonObj → ℕ → Outcome Error Task
unfolding with_claim
into_failed t by_worker at failure jitter = with_claim t by_worker λ c.
    let claim : LastClaimed = record c {
      result = some (record { at = at; failure = failure; success = none });
    } in
    if ltb 0 (remaining_attempts t)
    then ok (record t {
      run_at = at +ℤ wait_time_duration (retries_so_far t.attempted) jitter;
      last_enqueued_at = at;
      state = failed;
      last_claimed = some claim;
    })
    else ok (record t { state = dead; last_claimed = some claim })

unfoldable pub into_unclaimed : Task → String → ℤ → Outcome Error Task
unfolding with_claim
into_unclaimed t by_worker at = with_claim t by_worker λ c.
    ok (record t {
      state = queued;
      attempted = u64 (t.attempted + 2 ^ 64 - 1);
      last_enqueued_at = at;
    })
