-- ===== src/Domain/Task/Calls.antt =====
-- The methods of a task of internal/domain/task/models.go as one type of calls, for histories.
use tasques.Prelude.{ℕ, ℤ, String, Option, List, [], ◌∷◌, Outcome, or_else}
use tasques.Domain.Json.{JsonObj}
use tasques.Domain.Task.{
  Task, NewReport, Error, into_claimed, report_in, into_done, into_failed, into_unclaimed,
}

-- A call of a method, with its arguments. `fails` has what `rand.Intn(30)` returned.
pub data Call : Type 0 where
  claims : (worker : String) (at : ℤ) → Call
  reports : (worker : String) → NewReport → (at : ℤ) → Call
  completes : (worker : String) (at : ℤ) → Option JsonObj → Call
  fails : (worker : String) (at : ℤ) → Option JsonObj → (jitter : ℕ) → Call
  unclaims : (worker : String) (at : ℤ) → Call

unfoldable pub call : Call → Task → Outcome Error Task
call (claims worker at) t = into_claimed t worker at
call (reports worker report at) t = report_in t worker report at
call (completes worker at success) t = into_done t worker at success
call (fails worker at failure jitter) t = into_failed t worker at failure jitter
call (unclaims worker at) t = into_unclaimed t worker at

-- A call that is refused leaves the task as it was.
unfoldable pub run : Task → List Call → Task
run t [] = t
run t (c ∷ cs) = run (or_else t (call c t)) cs
