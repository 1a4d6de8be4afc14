-- ===== src/Worker.antt =====
-- worker/work_loop.go: the loop of a worker that claims tasks, gives each to the handler of its queue,
-- and tells the server how it ended. The generated client and the handlers are parameters.
pub mod Graceful
pub mod Kept
pub mod Shutdown
pub mod Verdicts
use tasques.Prelude.{
  ℕ, zero, suc, String, Bool, true, false, ◌&&◌, not, leb, Option, none, some, List, [], ◌∷◌,
  Outcome, ok, err, if◌then◌else◌,
}
use tasques.Domain.Json.{JsonObj}
use tasques.Domain.Task.{Task}

-- The error of a request: an answer of the server with its status, or something else.
pub data ClientError : Type 0 where
  api_error : (code : ℕ) → ClientError
  other_error : ClientError

abbrev pub Sent : Type 0
Sent = Outcome ClientError (Unit {0})

pub record Tasques (W : Type 0) : Type 0 where
  pub claim_tasks : W → Outcome ClientError (List Task) × W
  pub report_on : Task → Option JsonObj → W → Sent × W
  pub unclaim : Task → W → Sent × W
  pub mark_done : Task → JsonObj → W → Sent × W
  pub mark_failed : Task → JsonObj → W → Sent × W

-- What a handler returns: `(*Success, *Failure)`.
abbrev pub Handled : Type 0
Handled = Option JsonObj × Option JsonObj

-- Why `run` returns: the error of the claim, no handler for a queue, or the `err` of the handler, which
-- is what the code returns where the request that marks a task fails; `none` is its nil pointer.
pub data LoopError : Type 0 where
  claim_failed : ClientError → LoopError
  no_handler : (queue : String) → LoopError
  handler_err : Option JsonObj → LoopError

abbrev pub Done : Type 0
Done = Outcome LoopError (Unit {0})

-- The `TaskHandle` of a task: whether `Unclaim` has succeeded on it.
pub record TaskHandle : Type 0 where
  pub task : Task
  pub unclaimed : Bool

module _ {W : Type 0} (tasques : Tasques W) where
  unfoldable pub report_in : TaskHandle → Option JsonObj → W → Sent × W
  report_in h report w = if h.unclaimed then (ok tt, w) else tasques.report_on h.task report w

  unfoldable pub unclaim : TaskHandle → W → (Sent × TaskHandle) × W
  unclaim h w =
      let (r, w') = tasques.unclaim h.task w in
      (elim r [ ok u ↦ (ok tt, record h { unclaimed = true }) | err e ↦ (err e, h) ], w')

  -- `if err := w.mark…; err != nil { return err }`, with the `err` of the handler.
  abbrev pub or_return : Option JsonObj → Sent × W → Done × W
  or_return failure (ok u, w) = (ok tt, w)
  or_return failure (err e, w) = (err (handler_err failure), w)

  -- The three ways in which a task that was handled is marked. `no_results` is the failure of a task
  -- without a result.
  unfoldable pub conclude : JsonObj → Task → Handled → W → Done × W
  conclude no_results t (result, some failure) w =
      or_return (some failure) (tasques.mark_failed t failure w)
  conclude no_results t (some success, none) w = or_return none (tasques.mark_done t success w)
  conclude no_results t (none, none) w = or_return none (tasques.mark_failed t no_results w)

  module _ (no_results : JsonObj) (handlers : String → Option (TaskHandle → W → Handled × W)) where
    -- One task of the answer, with the handler of its queue. The handler gets a copy of the handle, so
    -- the one that is asked afterwards whether it is unclaimed never is.
    unfoldable pub handle_with : Task → Option (TaskHandle → W → Handled × W) → W → Done × W
    handle_with t none w = (err (no_handler t.queue), w)
    handle_with t (some handler) w =
        let handle : TaskHandle = record { task = t; unclaimed = false } in
        let (handled, w') = handler handle w in
        if handle.unclaimed then (ok tt, w') else conclude no_results t handled w'

    abbrev pub handle_task : Task → W → Done × W
    handle_task t = handle_with t (handlers t.queue)

    unfoldable pub handle_each : List Task → W → Done × W
    handle_each [] w = (ok tt, w)
    handle_each (t ∷ ts) w =
        let (r, w') = handle_task t w in elim r [ err e ↦ (err e, w') | ok u ↦ handle_each ts w' ]

    -- `ok && !(400 <= apiErr.Code && apiErr.Code <= 499)`
    unfoldable pub is_retried : ClientError → Bool
    is_retried (api_error code) = not (leb 400 code && leb code 499)
    is_retried other_error = false

    -- One turn of the loop of `run`.
    unfoldable pub work : W → Done × W
    work w =
        let (claimed, w') = tasques.claim_tasks w in
        elim claimed [
          | err e ↦ if is_retried e then (ok tt, w') else (err (claim_failed e), w')
          | ok ts ↦ handle_each ts w'
        ]

    -- `run`, for as many turns as there are until the worker is told to stop.
    unfoldable pub run : ℕ → W → Done × W
    run zero w = (ok tt, w)
    run (suc turns) w = let (r, w') = work w in elim r [ err e ↦ (err e, w') | ok u ↦ run turns w' ]
