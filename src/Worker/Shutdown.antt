-- ===== src/Worker/Shutdown.antt =====
-- worker/work_loop.go: how `Run` ends a loop. The loop and the call of `Run` go on at the same time; here
-- each turn is one step of one of them, in any order.
use tasques.Prelude.{
  String, Bool, true, false, Option, List, [], ◌∷◌, ◌++◌, Outcome, ok, err, if◌then◌else◌,
}
use tasques.Domain.Json.{JsonObj}
use tasques.Domain.Task.{Task}
use tasques.Worker.{
  ClientError, Tasques, Handled, LoopError, claim_failed, Done, TaskHandle, handle_task, is_retried,
}

-- Where the loop stands: at its condition, with tasks of an answer left to handle, at its end, or at an
-- error, which ends the process.
pub data LoopAt : Type 0 where
  at_condition : LoopAt
  handling : List Task → LoopAt
  loop_ended : LoopAt
  loop_failed : LoopError → LoopAt

-- Where `Run` stands: before the signal, in the `select` of `shutdown`, or after it, with the notice of the
-- loop or with the error of the context, which ends the process.
pub data RunAt : Type 0 where
  serving waiting_for_loop returned timed_out : RunAt

-- `WorkLoop`, with what its two threads are at. The channel has room for one notice. `claimed` are the
-- tasks of all answers so far, for the statements.
pub record WorkLoop (W : Type 0) : Type 0 where
  pub stop_signal : Bool
  pub loop_stop_notifier : Bool
  pub loop_at : LoopAt
  pub run_at : RunAt
  pub claimed : List Task
  pub world : W

unfoldable pub new_work_loop : {W : Type 0} → W → WorkLoop W
new_work_loop w = record {
  stop_signal = false;
  loop_stop_notifier = false;
  loop_at = at_condition;
  run_at = serving;
  claimed = [];
  world = w;
}

-- The loop goes on, the signal comes, the time of the context is over, or the `select` takes the notice.
pub data Turn : Type 0 where
  loop_goes_on signal_comes time_is_over notice_is_taken : Turn

module _ {W : Type 0} (tasques : Tasques W) (no_results : JsonObj)
    (handlers : String → Option (TaskHandle → W → Handled × W)) where
  -- After the answer to a claim.
  abbrev pub after_claim : WorkLoop W → Outcome ClientError (List Task) × W → WorkLoop W
  after_claim l (ok ts, w) = record l {
    loop_at = handling ts;
    claimed = l.claimed ++ ts;
    world = w;
  }
  after_claim l (err e, w) = record l {
    loop_at =
        if is_retried tasques no_results handlers e
        then at_condition
        else loop_failed (claim_failed e);
    world = w;
  }

  -- After a task was handled.
  abbrev pub after_task : WorkLoop W → Task → List Task → Done × W → WorkLoop W
  after_task l t ts (ok u, w) = record l { loop_at = handling ts; world = w }
  after_task l t ts (err e, w) = record l { loop_at = loop_failed e; world = w }

  -- One step of `run`.
  unfoldable pub loop_step : LoopAt → WorkLoop W → WorkLoop W
  loop_step at_condition l =
      if l.stop_signal
      then record l { loop_at = loop_ended; loop_stop_notifier = true }
      else after_claim l (tasques.claim_tasks l.world)
  loop_step (handling []) l = record l { loop_at = at_condition }
  loop_step (handling (t ∷ ts)) l =
      after_task l t ts (handle_task tasques no_results handlers t l.world)
  loop_step loop_ended l = l
  loop_step (loop_failed e) l = l

  -- One step of the call of `Run`, from where it stands.
  unfoldable pub run_step : Turn → RunAt → WorkLoop W → WorkLoop W
  run_step signal_comes serving l = record l { run_at = waiting_for_loop; stop_signal = true }
  run_step time_is_over waiting_for_loop l = record l { run_at = timed_out }
  run_step notice_is_taken waiting_for_loop l =
      if l.loop_stop_notifier then record l { run_at = returned; loop_stop_notifier = false } else l
  run_step _ _ l = l

  unfoldable pub take_turn : Turn → WorkLoop W → WorkLoop W
  take_turn loop_goes_on l = loop_step l.loop_at l
  take_turn t l = run_step t l.run_at l

  unfoldable pub take_turns : List Turn → WorkLoop W → WorkLoop W
  take_turns [] l = l
  take_turns (t ∷ ts) l = take_turns ts (take_turn t l)
