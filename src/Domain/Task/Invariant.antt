-- ===== src/Domain/Task/Invariant.antt =====
-- What holds of a task between two calls of the methods of internal/domain/task/models.go.
use tasques.Prelude.{ℕ, ◌+◌, ◌-◌, ◌^◌, ◌≤◌, ◌<◌, ℤ, String, ◌≡◌, Option, none, some, Ensures, arith}
use tasques.Domain.Json.{JsonObj}
use tasques.Domain.Task.{
  Task, NewReport, State, queued, claimed, failed, done, dead, LastClaimed, Result,
  remaining_attempts, into_claimed, report_in, into_done, into_failed, into_unclaimed,
}

-- The result that a claim has in each state: none while it is held, one without a failure when the
-- task is done, one without a success when it failed or is dead.
abbrev pub FitsResult : State → Option Result → Type 0
FitsResult claimed r = r ≡ none
FitsResult done none = ⊥
FitsResult done (some r) = r.failure ≡ none
FitsResult failed none = ⊥
FitsResult failed (some r) = r.success ≡ none
FitsResult dead none = ⊥
FitsResult dead (some r) = r.success ≡ none
FitsResult queued r = Unit

abbrev pub FitsClaim : State → Option LastClaimed → Type 0
FitsClaim queued none = Unit
FitsClaim s none = ⊥
FitsClaim s (some c) = FitsResult s c.result

-- How many attempts a task in a state has had, of the `total` that it may have.
abbrev pub FitsAttempts : State → ℕ → ℕ → Type 0
FitsAttempts queued attempted total = attempted < total
FitsAttempts failed attempted total = (0 < attempted) × (attempted < total)
FitsAttempts claimed attempted total = (0 < attempted) × (attempted ≤ total)
FitsAttempts done attempted total = (0 < attempted) × (attempted ≤ total)
FitsAttempts dead attempted total = attempted ≡ total

pub record Inv (t : Task) : Type 0 where
  pub fits : t.retry_times + 1 < 2 ^ 64
  pub attempts : FitsAttempts t.state t.attempted (t.retry_times + 1)
  pub claim : FitsClaim t.state t.last_claimed

-- With the attempts in range the count of the remaining ones does not wrap.
pub remaining_attempts-eq :
    (t : Task)
    → t.retry_times + 1 < 2 ^ 64
    → t.attempted ≤ t.retry_times + 1
    → remaining_attempts t ≡ t.retry_times + 1 - t.attempted
unfolding remaining_attempts
remaining_attempts-eq t h k = ground arith

pub attempted-le : (t : Task) → Inv t → t.attempted ≤ t.retry_times + 1
attempted-le t v = ground arith

pub into_claimed-Inv :
    (t : Task) (worker : String) (at : ℤ) → Inv t → Ensures Inv (into_claimed t worker at)
unfolding into_claimed
into_claimed-Inv t worker at v = ground arith

pub report_in-Inv :
    (t : Task) (worker : String) (report : NewReport) (at : ℤ)
    → Inv t
    → Ensures Inv (report_in t worker report at)
unfolding report_in
report_in-Inv t worker report at v = ground arith

pub into_done-Inv :
    (t : Task) (worker : String) (at : ℤ) (success : Option JsonObj)
    → Inv t
    → Ensures Inv (into_done t worker at success)
unfolding into_done
into_done-Inv t worker at success v = ground arith

pub into_failed-Inv :
    (t : Task) (worker : String) (at : ℤ) (failure : Option JsonObj) (jitter : ℕ)
    → Inv t
    → Ensures Inv (into_failed t worker at failure jitter)
unfolding into_failed
into_failed-Inv t worker at failure jitter v =
    ground (arith, remaining_attempts-eq t v.fits (attempted-le t v))

pub into_unclaimed-Inv :
    (t : Task) (worker : String) (at : ℤ) → Inv t → Ensures Inv (into_unclaimed t worker at)
unfolding into_unclaimed
into_unclaimed-Inv t worker at v = ground arith
