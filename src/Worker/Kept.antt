-- ===== src/Worker/Kept.antt =====
-- The handlers of worker/work_loop.go that give no task back, and what a loop with such handlers asks of
-- the server.
use tasques.Prelude.{
  ℕ, suc, String, ◌≡◌, refl, ◌∙◌, false, Option, none, some, List, [], ◌∷◌, ok, err, Outcome, ap,
  Bool, true, if◌then◌else◌, arith,
}
use tasques.Domain.Json.{JsonObj}
use tasques.Domain.Task.{Task}
use tasques.Worker.{
  Tasques, Handled, TaskHandle, conclude, handle_with, or_return, ClientError, Done, handle_task,
}
use tasques.Worker.Verdicts.{Verdict, logged, beside}
use tasques.Worker.Shutdown.{
  LoopAt, at_condition, handling, loop_ended, loop_failed, RunAt, WorkLoop, Turn, loop_goes_on,
  signal_comes, time_is_over, notice_is_taken, after_claim, after_task, loop_step, run_step,
  take_turn, take_turns,
}

-- `unclaims` is the number of requests to unclaim a task that were sent, and no handler sends one.
pub record KeepsTasks {W : Type 0} (tasques : Tasques W)
    (handlers : String → Option (TaskHandle → W → Handled × W)) (unclaims : W → ℕ) : Type 0 where
  pub unclaim_counts : (t : Task) (w : W) → unclaims (tasques.unclaim t w).1 ≡ suc (unclaims w)
  pub claim_same : (w : W) → unclaims (tasques.claim_tasks w).1 ≡ unclaims w
  pub done_same :
      (t : Task) (d : JsonObj) (w : W) → unclaims (tasques.mark_done t d w).1 ≡ unclaims w
  pub failed_same :
      (t : Task) (d : JsonObj) (w : W) → unclaims (tasques.mark_failed t d w).1 ≡ unclaims w
  pub handler_same :
      (queue : String) (handler : TaskHandle → W → Handled × W) (h : TaskHandle) (w : W)
      → handlers queue ≡ some handler
      → unclaims (handler h w).1 ≡ unclaims w

module _ {W : Type 0} (tasques : Tasques W) (no_results : JsonObj)
    (handlers : String → Option (TaskHandle → W → Handled × W)) (unclaims : W → ℕ)
    (keeps : KeepsTasks tasques handlers unclaims) where
  abbrev client : Tasques (W × List Verdict)
  client = logged tasques

  abbrev handler_of : String → Option (TaskHandle → W × List Verdict → Handled × (W × List Verdict))
  handler_of q = beside (handlers q)

  or_return-world :
      {V : Type 0} (c : Tasques V) (failure : Option JsonObj) (r : _)
      → (or_return c failure r).1 ≡ r.1
  or_return-world c failure (ok u, w) = refl
  or_return-world c failure (err e, w) = refl

  conclude-same :
      (t : Task) (handled : Handled) (w : W) (log : List Verdict)
      → unclaims (conclude client no_results t handled (w, log)).1.0 ≡ unclaims w
  unfolding conclude
  conclude-same t (result, some failure) w log =
      rw (or_return-world client (some failure) (client.mark_failed t failure (w, log)))
        (keeps.failed_same t failure w)
  conclude-same t (some success, none) w log =
      rw (or_return-world client none (client.mark_done t success (w, log)))
        (keeps.done_same t success w)
  conclude-same t (none, none) w log =
      rw (or_return-world client none (client.mark_failed t no_results (w, log)))
        (keeps.failed_same t no_results w)

  handle_with-same :
      (t : Task) (h : Option (TaskHandle → W → Handled × W)) (l : W × List Verdict)
      → handlers t.queue ≡ h
      → unclaims (handle_with client no_results handler_of t (beside h) l).1.0 ≡ unclaims l.0
  unfolding handle_with
  handle_with-same t none l e = refl
  handle_with-same t (some handler) (w, log) e =
      let handle : TaskHandle = record { task = t; unclaimed = false } in
      let (handled, v) = handler handle w in
      conclude-same t handled v log ∙ keeps.handler_same t.queue handler handle w e

  after_claim-world :
      (l : WorkLoop (W × List Verdict)) (x : Outcome ClientError (List Task) × (W × List Verdict))
      → (after_claim client no_results handler_of l x).world ≡ x.1
  after_claim-world l (ok ts, w) = refl
  after_claim-world l (err e, w) = refl

  after_task-world :
      (l : WorkLoop (W × List Verdict)) (t : Task) (ts : List Task) (x : Done × (W × List Verdict))
      → (after_task client no_results handler_of l t ts x).world ≡ x.1
  after_task-world l t ts (ok u, w) = refl
  after_task-world l t ts (err e, w) = refl

  same_if :
      (b : Bool) (l k : WorkLoop (W × List Verdict)) {n : ℕ}
      → unclaims l.world.0 ≡ n
      → unclaims k.world.0 ≡ n
      → unclaims (if b then l else k).world.0 ≡ n
  same_if true l k h h' = h
  same_if false l k h h' = h'

  loop_step-same :
      (a : LoopAt) (l : WorkLoop (W × List Verdict))
      → unclaims (loop_step client no_results handler_of a l).world.0 ≡ unclaims l.world.0
  unfolding loop_step
  loop_step-same at_condition l =
      same_if l.stop_signal (record l { loop_at = loop_ended; loop_stop_notifier = true })
        (after_claim client no_results handler_of l (client.claim_tasks l.world)) refl
        (rw (after_claim-world l (client.claim_tasks l.world)) (keeps.claim_same l.world.0))
  loop_step-same (handling []) l = refl
  loop_step-same (handling (t ∷ ts)) l =
      rw (after_task-world l t ts (handle_task client no_results handler_of t l.world))
        (handle_with-same t (handlers t.queue) l.world refl)
  loop_step-same loop_ended l = refl
  loop_step-same (loop_failed e) l = refl

  run_step-world :
      (t : Turn) (r : RunAt) (l : WorkLoop (W × List Verdict))
      → (run_step client no_results handler_of t r l).world ≡ l.world
  unfolding run_step
  run_step-world t r l = ground arith

  -- However the loop and the call of `Run` go on, no task is given back.
  pub take_turns-same :
      (ts : List Turn) (l : WorkLoop (W × List Verdict))
      → unclaims (take_turns client no_results handler_of ts l).world.0 ≡ unclaims l.world.0
  unfolding take_turns take_turn
  take_turns-same [] l = refl
  take_turns-same (loop_goes_on ∷ ts) l =
      take_turns-same ts (loop_step client no_results handler_of l.loop_at l)
      ∙ loop_step-same l.loop_at l
  take_turns-same (signal_comes ∷ ts) l =
      take_turns-same ts _ ∙ ap (λ w. unclaims w.0) (run_step-world signal_comes l.run_at l)
  take_turns-same (time_is_over ∷ ts) l =
      take_turns-same ts _ ∙ ap (λ w. unclaims w.0) (run_step-world time_is_over l.run_at l)
  take_turns-same (notice_is_taken ∷ ts) l =
      take_turns-same ts _ ∙ ap (λ w. unclaims w.0) (run_step-world notice_is_taken l.run_at l)
