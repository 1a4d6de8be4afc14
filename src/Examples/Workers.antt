-- ===== src/Examples/Workers.antt =====
-- A worker of worker/work_loop.go with a handler for one queue.
use tasques.Prelude.{
  false, sym, ap, ℕ, suc, String, ◌≡◌, refl, Option, none, some, List, [], ◌∷◌, ok, true,
}
use tasques.Domain.Json.{empty}
use tasques.Worker.{Tasques, Handled, TaskHandle, conclude, handle_with}
use tasques.Worker.Graceful.{take_turns-returned}
use tasques.Worker.Shutdown.{
  Turn, loop_goes_on, signal_comes, notice_is_taken, loop_ended, returned, WorkLoop, new_work_loop,
  loop_step, run_step, take_turn, take_turns,
}
use tasques.Worker.Kept.{KeepsTasks}
use tasques.Worker.Verdicts.{Verdict, tasks_of}
use tasques.Examples.Tasks.{waiting}

-- A server that takes every request; the world is the number of requests, and of those that unclaim.
abbrev tasques_api : Tasques (ℕ × ℕ)
tasques_api = record {
  claim_tasks = λ (n, u). (ok (waiting ∷ []), (suc n, u));
  report_on = λ t d (n, u). (ok tt, (suc n, u));
  unclaim = λ t (n, u). (ok tt, (suc n, suc u));
  mark_done = λ t d (n, u). (ok tt, (suc n, u));
  mark_failed = λ t d (n, u). (ok tt, (suc n, u));
}

-- A handler that succeeds.
abbrev handlers : String → Option (TaskHandle → ℕ × ℕ → Handled × (ℕ × ℕ))
handlers queue = some (λ h w. ((some empty, none), w))

abbrev unclaims : ℕ × ℕ → ℕ
unclaims w = w.1

keeps : KeepsTasks tasques_api handlers unclaims
keeps = record {
  unclaim_counts = λ t w. refl;
  claim_same = λ w. refl;
  done_same = λ t d w. refl;
  failed_same = λ t d w. refl;
  handler_same = λ queue handler h w e.
      ap
        (λ (o : Option (TaskHandle → ℕ × ℕ → Handled × (ℕ × ℕ))). elim o [
          | none ↦ unclaims w
          | some k ↦ unclaims (k h w).1
        ])
        (sym e);
}

-- A claim, the signal while its task is handled, and the end of the loop.
abbrev turns : List Turn
turns =
    loop_goes_on ∷ signal_comes ∷ loop_goes_on ∷ loop_goes_on ∷ loop_goes_on ∷ notice_is_taken ∷ []

abbrev at_end : WorkLoop ((ℕ × ℕ) × List Verdict)
at_end = record {
  stop_signal = true;
  loop_stop_notifier = false;
  loop_at = loop_ended;
  run_at = returned;
  claimed = waiting ∷ [];
  world = ((2, 0), record { task = waiting; is_done = true } ∷ []);
}

take_turns-returned_example :
    (at_end.loop_at ≡ loop_ended)
    × (tasks_of at_end.world.1 ≡ at_end.claimed)
    × (unclaims at_end.world.0 ≡ 0)
unfolding take_turns take_turn loop_step run_step new_work_loop handle_with conclude
take_turns-returned_example =
    take_turns-returned tasques_api empty handlers turns unclaims (0, 0) at_end keeps refl refl
