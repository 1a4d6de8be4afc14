-- ===== src/Worker/Graceful.antt =====
-- What the end of `Run` in worker/work_loop.go says of the tasks that the worker has claimed.
use tasques.Prelude.{
  ℕ, String, Bool, true, false, Option, List, [], ◌∷◌, ◌++◌, Outcome, ok, err, ◌≡◌, refl, sym, ap,
  ◌∙◌, subst, append_assoc, append-nil, if◌then◌else◌, arith,
}
use tasques.Domain.Json.{JsonObj}
use tasques.Domain.Task.{Task}
use tasques.Worker.{
  ClientError, Tasques, Handled, claim_failed, Done, TaskHandle, handle_task, is_retried,
}
use tasques.Worker.Verdicts.{Verdict, logged, beside, tasks_of, handle_with-log}
use tasques.Worker.Kept.{KeepsTasks, take_turns-same}
use tasques.Worker.Shutdown.{
  LoopAt, at_condition, handling, loop_ended, loop_failed, RunAt, serving, waiting_for_loop,
  returned, timed_out, WorkLoop, new_work_loop, Turn, loop_goes_on, signal_comes, time_is_over,
  notice_is_taken, after_claim, after_task, loop_step, run_step, take_turn, take_turns,
}

-- The tasks that are claimed are those that the server was asked to mark, and those left.
abbrev Left : LoopAt → List Task → List Task → Type 0
Left at_condition claimed marked = claimed ≡ marked
Left (handling ts) claimed marked = claimed ≡ marked ++ ts
Left loop_ended claimed marked = claimed ≡ marked
Left (loop_failed e) claimed marked = Unit {0}

abbrev pub Logged : Type 0 → Type 0
Logged W = W × List Verdict

record Fair {W : Type 0} (l : WorkLoop (Logged W)) : Type 0 where
  kept : Left l.loop_at l.claimed (tasks_of l.world.1)
  noticed : l.loop_stop_notifier ≡ true → l.loop_at ≡ loop_ended
  ended : l.run_at ≡ returned → l.loop_at ≡ loop_ended

abbrev is_ended : LoopAt → Bool
is_ended loop_ended = true
is_ended _ = false

-- A loop that has not ended has given no notice, and `Run` has not returned.
not_ended :
    {W : Type 0} (l : WorkLoop (Logged W)) (a : LoopAt) (next : LoopAt) (claimed : List Task)
    (w : Logged W)
    → l.loop_at ≡ a
    → is_ended a ≡ false
    → Fair l
    → Left next claimed (tasks_of w.1)
    → Fair (record l { loop_at = next; claimed = claimed; world = w })
not_ended l a next claimed w at going h left = record {
  kept = left;
  noticed = λ e. absurd (clash (h.noticed e));
  ended = λ e. absurd (clash (h.ended e));
}
  where
    clash : l.loop_at ≡ loop_ended → ⊥
    clash e = ground (arith, ap is_ended (sym at ∙ e))

Fair-if :
    {W : Type 0} (b : Bool) (l k : WorkLoop (Logged W))
    → (b ≡ true → Fair l)
    → Fair k
    → Fair (if b then l else k)
Fair-if true l k f h = f refl
Fair-if false l k f h = h

module _ {W : Type 0} (tasques : Tasques W) (no_results : JsonObj)
    (handlers : String → Option (TaskHandle → W → Handled × W)) where
  abbrev client : Tasques (Logged W)
  client = logged tasques

  abbrev handler_of : String → Option (TaskHandle → Logged W → Handled × Logged W)
  handler_of q = beside (handlers q)

  remaining_at :
      (l : WorkLoop (Logged W)) (a : LoopAt)
      → l.loop_at ≡ a
      → Fair l
      → Left a l.claimed (tasks_of l.world.1)
  remaining_at l a at h = subst (λ x. Left x l.claimed (tasks_of l.world.1)) at h.kept

  after_claim-Fair :
      (l : WorkLoop (Logged W)) (x : Outcome ClientError (List Task) × Logged W)
      → l.loop_at ≡ at_condition
      → Fair l
      → x.1.1 ≡ l.world.1
      → Fair (after_claim client no_results handler_of l x)
  after_claim-Fair l (ok ts, (w, log)) at h same =
      not_ended l at_condition (handling ts) (l.claimed ++ ts) (w, log) at refl h
        (ap (λ c. c ++ ts) (remaining_at l at_condition at h)
          ∙ ap (λ g. tasks_of g ++ ts) (sym same))
  after_claim-Fair l (err e, (w, log)) at h same =
      not_ended l at_condition
        (if is_retried client no_results handler_of e
          then at_condition
          else loop_failed (claim_failed e))
        l.claimed (w, log) at refl h
        (either (is_retried client no_results handler_of e)
          (remaining_at l at_condition at h ∙ ap tasks_of (sym same)))
    where
      either :
          (b : Bool)
          → l.claimed ≡ tasks_of log
          → Left (if b then at_condition else loop_failed (claim_failed e)) l.claimed (tasks_of log)
      either true k = k
      either false k = tt

  after_task-Fair :
      (l : WorkLoop (Logged W)) (t : Task) (ts : List Task) (x : Done × Logged W)
      → l.loop_at ≡ handling (t ∷ ts)
      → Fair l
      → ((w' : W) (log' : List Verdict)
          → x ≡ (ok tt, (w', log'))
          → tasks_of log' ≡ tasks_of l.world.1 ++ (t ∷ []))
      → Fair (after_task client no_results handler_of l t ts x)
  after_task-Fair l t ts (ok u, (w, log)) at h marks =
      not_ended l (handling (t ∷ ts)) (handling ts) l.claimed (w, log) at refl h
        (remaining_at l (handling (t ∷ ts)) at h
          ∙ sym (append_assoc (tasks_of l.world.1) (t ∷ []) ts)
          ∙ ap (λ g. g ++ ts) (sym (marks w log refl)))
  after_task-Fair l t ts (err e, w) at h marks =
      not_ended l (handling (t ∷ ts)) (loop_failed e) l.claimed w at refl h tt

  loop_step-Fair :
      (a : LoopAt) (l : WorkLoop (Logged W))
      → l.loop_at ≡ a
      → Fair l
      → Fair (loop_step client no_results handler_of a l)
  unfolding loop_step
  loop_step-Fair at_condition l at h =
      Fair-if l.stop_signal (record l { loop_at = loop_ended; loop_stop_notifier = true })
        (after_claim client no_results handler_of l (client.claim_tasks l.world))
        (λ on. record {
          kept = remaining_at l at_condition at h;
          noticed = λ e. refl;
          ended = λ e. refl;
        })
        (after_claim-Fair l (client.claim_tasks l.world) at h refl)
  loop_step-Fair (handling []) l at h =
      not_ended l (handling []) at_condition l.claimed l.world at refl h
        (remaining_at l (handling []) at h ∙ append-nil (tasks_of l.world.1))
  loop_step-Fair (handling (t ∷ ts)) l at h =
      after_task-Fair l t ts (handle_task client no_results handler_of t l.world) at h (λ w' log'.
        handle_with-log tasques no_results handlers t (handlers t.queue) l.world.0 w' l.world.1
          log')
  loop_step-Fair loop_ended l at h = h
  loop_step-Fair (loop_failed e) l at h = h

  run_step-Fair :
      (t : Turn) (r : RunAt) (l : WorkLoop (Logged W))
      → Fair l
      → Fair (run_step client no_results handler_of t r l)
  unfolding run_step
  run_step-Fair signal_comes serving l h = record {
    kept = h.kept;
    noticed = h.noticed;
    ended = λ e. absurd (ground arith);
  }
  run_step-Fair time_is_over waiting_for_loop l h = record {
    kept = h.kept;
    noticed = h.noticed;
    ended = λ e. absurd (ground arith);
  }
  run_step-Fair notice_is_taken waiting_for_loop l h =
      Fair-if l.loop_stop_notifier (record l { run_at = returned; loop_stop_notifier = false }) l
        (λ on. record {
          kept = h.kept;
          noticed = λ e. absurd (ground arith);
          ended = λ e. h.noticed on;
        })
        h
  run_step-Fair loop_goes_on r l h = h
  run_step-Fair signal_comes waiting_for_loop l h = h
  run_step-Fair signal_comes returned l h = h
  run_step-Fair signal_comes timed_out l h = h
  run_step-Fair time_is_over serving l h = h
  run_step-Fair time_is_over returned l h = h
  run_step-Fair time_is_over timed_out l h = h
  run_step-Fair notice_is_taken serving l h = h
  run_step-Fair notice_is_taken returned l h = h
  run_step-Fair notice_is_taken timed_out l h = h

  take_turn-Fair :
      (t : Turn) (l : WorkLoop (Logged W))
      → Fair l
      → Fair (take_turn client no_results handler_of t l)
  unfolding take_turn
  take_turn-Fair loop_goes_on l h = loop_step-Fair l.loop_at l refl h
  take_turn-Fair signal_comes l h = run_step-Fair signal_comes l.run_at l h
  take_turn-Fair time_is_over l h = run_step-Fair time_is_over l.run_at l h
  take_turn-Fair notice_is_taken l h = run_step-Fair notice_is_taken l.run_at l h

  take_turns-Fair :
      (ts : List Turn) (l : WorkLoop (Logged W))
      → Fair l
      → Fair (take_turns client no_results handler_of ts l)
  unfolding take_turns
  take_turns-Fair [] l h = h
  take_turns-Fair (t ∷ ts) l h =
      take_turns-Fair ts (take_turn client no_results handler_of t l) (take_turn-Fair t l h)

  -- Where no handler gives a task back, and however the loop, the signal and the time go on: when `Run`
  -- returns without an error the loop has ended, the server has been asked to mark each task that the
  -- worker has claimed exactly once, in the order of the claims, and was never asked to unclaim one.
  pub take_turns-returned :
      (ts : List Turn) (unclaims : W → ℕ) (w : W) (l : WorkLoop (Logged W))
      → KeepsTasks tasques handlers unclaims
      → take_turns client no_results handler_of ts (new_work_loop (w, [])) ≡ l
      → l.run_at ≡ returned
      → (l.loop_at ≡ loop_ended)
        × (tasks_of l.world.1 ≡ l.claimed)
        × (unclaims l.world.0 ≡ unclaims w)
  unfolding new_work_loop
  take_turns-returned ts unclaims w l keeps reached back =
      let start = new_work_loop (w, []) in
      let h : Fair l = subst Fair reached (
        take_turns-Fair ts start (record {
          kept = refl;
          noticed = λ e. absurd (ground arith);
          ended = λ e. absurd (ground arith);
        })) in
      (
        h.ended back,
        sym (remaining_at l loop_ended (h.ended back) h),
        subst (λ k. unclaims k.world.0 ≡ unclaims w) reached
            (take_turns-same tasques no_results handlers unclaims keeps ts start),
      )
