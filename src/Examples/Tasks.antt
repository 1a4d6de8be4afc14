-- ===== src/Examples/Tasks.antt =====
-- A task with one retry in the life that internal/domain/task/models.go gives it.
use Prim.Native.String.{len, slice}
use tasques.Prelude.{
  ◌+◌, ◌-◌, pos, ◌*◌, ◌+ℤ◌, ◌≤ℤ◌, ◌<ℤ◌, String, Option, none, some, List, [], ◌∷◌, ok, err, ◌≡◌,
  ◌⊎◌, refl, inl, arith,
}
use tasques.Domain.Task.{
  Task, State, queued, claimed, failed, done, dead, LastClaimed, Report, report_from_the_past,
  report_in, into_failed, remaining_attempts, wait_time_seconds, wait_time_duration, retries_so_far,
}
use tasques.Domain.Task.Calls.{Call, claims, completes, fails, unclaims, call, run}
use tasques.Domain.Task.Invariant.{Inv}
use tasques.Domain.Task.Lifecycle.{run-Inv, call-⟶, ◌⟶◌, run-IsFinished}
use tasques.Domain.Task.Attempts.{Attempt, calls, run-calls_attempts}
use tasques.Domain.Task.Ownership.{call-ok_Holds, report_in_order, Holds}
use tasques.Domain.Task.Backoff.{into_failed-run_at}
use tasques.Domain.Task.StateText.{
  to_string, unmarshal_json, marshal_json, unmarshal_json-marshal_json,
}
use tasques.Es.Tasks.Persisted.{to_domain_task, to_persisted_task}
use tasques.Es.Tasks.Persisted.RoundTrip.{persisted_round_trip}

abbrev pub waiting : Task
waiting = record {
  id = "a";
  queue = "jobs";
  retry_times = 1;
  attempted = 0;
  kind = "sum";
  state = queued;
  priority = pos 0;
  run_at = pos 10;
  processing_timeout = pos 5;
  args = none;
  context = none;
  last_claimed = none;
  last_enqueued_at = pos 1;
  metadata = record {
    created_at = pos 1;
    modified_at = pos 1;
    version = record { seq_num = 0; primary_term = 1 };
  };
  recurring_task_id = none;
}

abbrev pub claim_of_ann : LastClaimed
claim_of_ann = record {
  worker_id = "ann";
  claimed_at = pos 20;
  times_out_at = pos 25;
  last_report = none;
  result = none;
}

abbrev pub running : Task
running = record waiting { state = claimed; attempted = 1; last_claimed = some claim_of_ann }

abbrev postponed : Task
postponed = record running {
  state = failed;
  run_at = pos (30 + 11 * 1_000_000_000);
  last_enqueued_at = pos 30;
  last_claimed = some (record claim_of_ann {
    result = some (record { at = pos 30; failure = none; success = none });
  });
}

abbrev completed : Task
completed = record running {
  state = done;
  last_claimed = some (record claim_of_ann {
    result = some (record { at = pos 30; failure = none; success = none });
  });
}

abbrev history : List Call
history =
    claims "ann" (pos 20)
    ∷ completes "bob" (pos 21) none
    ∷ fails "ann" (pos 30) none 0
    ∷ claims "bob" (pos 40)
    ∷ unclaims "bob" (pos 41)
    ∷ []

waiting-Inv : Inv waiting
waiting-Inv = record { fits = omega arith; attempts = omega arith; claim = tt }

running-Inv : Inv running
running-Inv = record { fits = omega arith; attempts = (omega arith, omega arith); claim = refl }

run-Inv_example : Inv (run waiting history)
run-Inv_example = run-Inv waiting history waiting-Inv

fails_once : call (fails "ann" (pos 30) none 0) running ≡ ok postponed
unfolding call into_failed remaining_attempts wait_time_seconds ◌+ℤ◌ wait_time_duration
    retries_so_far
fails_once = refl

call-⟶_example : claimed ⟶ failed
call-⟶_example = call-⟶ (fails "ann" (pos 30) none 0) running {t' = postponed} fails_once

run-IsFinished_example : run completed history ≡ completed
run-IsFinished_example = run-IsFinished completed history (inl refl)

abbrev tries : List Attempt
tries =
    record { worker = "ann"; claimed_at = pos 20; failed_at = pos 30; failure = none; jitter = 0 }
    ∷ record { worker = "bob"; claimed_at = pos 40; failed_at = pos 50; failure = none; jitter = 7 }
    ∷ []

run-calls_attempts_example :
    ((run waiting (calls tries)).attempted ≡ 2) × ((run waiting (calls tries)).state ≡ dead)
run-calls_attempts_example =
    run-calls_attempts waiting tries waiting-Inv refl (omega arith) (omega arith)

call-ok_Holds_example : (l : LastClaimed) × Holds running "ann" l
call-ok_Holds_example =
    call-ok_Holds (fails "ann" (pos 30) none 0) running {t' = postponed} tt fails_once

report_in_order_example :
    ((r : Report) × (none ≡ some r)
      × (pos 22 <ℤ r.at)
      × (report_in running "ann" (record { payload = none }) (pos 22)
          ≡ err (report_from_the_past "a" (pos 22) r.at)))
    ⊎ (((r : Report) → none ≡ some r → r.at ≤ℤ pos 22)
        × ((l' : LastClaimed) × (report_in running "ann" (record { payload = none }) (pos 22)
              ≡ ok (record running { last_claimed = some l' }))
            × (l'.last_report ≡ some (record { at = pos 22; payload = none }))
            × (l'.times_out_at ≡ pos 22 +ℤ pos 5)
            × (l'.worker_id ≡ "ann")))
report_in_order_example =
    report_in_order running "ann" (record { payload = none }) (pos 22) claim_of_ann
      (refl, refl, refl)

into_failed-run_at_example : (pos 30 +ℤ pos 11_000_000_000 ≤ℤ postponed.run_at) × (pos 30 ≡ pos 30)
unfolding call
into_failed-run_at_example =
    into_failed-run_at running "ann" (pos 30) none 0 {t' = postponed} running-Inv (omega arith)
      (omega arith) fails_once refl

-- A decoder that takes the quotes off.
decode : String → Option String
decode b = some (slice b 1 (len b - 1))

decode-marshal_json : (s : State) → decode (marshal_json s) ≡ some (to_string s)
unfolding decode marshal_json to_string
decode-marshal_json queued = refl
decode-marshal_json claimed = refl
decode-marshal_json failed = refl
decode-marshal_json done = refl
decode-marshal_json dead = refl

unmarshal_json-marshal_json_example :
    ((s : State) → unmarshal_json decode (marshal_json s) ≡ ok s)
    × ((b : String) (s : State) → unmarshal_json decode b ≡ ok s → decode b ≡ some (to_string s))
unmarshal_json-marshal_json_example = unmarshal_json-marshal_json decode decode-marshal_json

persisted_round_trip_example :
    (to_domain_task (to_persisted_task running) running.metadata.version ≡ running)
    × (to_persisted_task (to_domain_task (to_persisted_task waiting) running.metadata.version)
        ≡ to_persisted_task waiting)
    × ((to_domain_task (to_persisted_task waiting) running.metadata.version).metadata.version
        ≡ running.metadata.version)
persisted_round_trip_example =
    persisted_round_trip running (to_persisted_task waiting) running.metadata.version (omega arith)
      (unfold to_persisted_task in omega arith)
