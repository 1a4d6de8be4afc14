-- ===== src/Domain/Task/Lifecycle.antt =====
-- Histories of calls on one task: which states follow which, and what every history keeps.
use tasques.Prelude.{
  ◌≡◌, refl, ◌⊎◌, List, [], ◌∷◌, ok, err, or_else, Ensures, or_else-Ensures, arith,
}
use tasques.Domain.Task.{
  Task, State, queued, claimed, failed, done, dead, Error, not_claimed, unclaimable, into_claimed,
  report_in, into_done, into_failed, into_unclaimed,
}
use tasques.Domain.Task.Calls.{Call, claims, reports, completes, fails, unclaims, call, run}
use tasques.Domain.Task.Invariant.{
  Inv, into_claimed-Inv, report_in-Inv, into_done-Inv, into_failed-Inv, into_unclaimed-Inv,
}

call-Ensures : (c : Call) (t : Task) → Inv t → Ensures Inv (call c t)
unfolding call
call-Ensures (claims worker at) t v = into_claimed-Inv t worker at v
call-Ensures (reports worker news at) t v = report_in-Inv t worker news at v
call-Ensures (completes worker at success) t v = into_done-Inv t worker at success v
call-Ensures (fails worker at failure jitter) t v = into_failed-Inv t worker at failure jitter v
call-Ensures (unclaims worker at) t v = into_unclaimed-Inv t worker at v

-- From a task that satisfies the invariant, whatever is called, in any order and by any workers:
-- the attempts stay within the retries plus one and fit the state, and the claim and its result
-- fit the state.
pub run-Inv : (t : Task) (cs : List Call) → Inv t → Inv (run t cs)
unfolding run
run-Inv t [] v = v
run-Inv t (c ∷ cs) v =
    run-Inv (or_else t (call c t)) cs (or_else-Ensures Inv t (call c t) v (call-Ensures c t v))

-- The states of a task that is finished.
abbrev pub IsFinished : State → Type 0
IsFinished s = (s ≡ done) ⊎ (s ≡ dead)

-- The method that completes a claim moves along one of these.
infix 40 ◌⟶◌
pub data ◌⟶◌ : State → State → Type 0 where
  claim : queued ⟶ claimed
  retry : failed ⟶ claimed
  heartbeat : claimed ⟶ claimed
  finish : claimed ⟶ done
  postpone : claimed ⟶ failed
  give_up : claimed ⟶ dead
  put_back : claimed ⟶ queued

ruleset edges = (claim, retry, heartbeat, finish, postpone, give_up, put_back)

-- A call that is accepted moves the task along an edge of the state diagram.
pub call-⟶ : (c : Call) (t : Task) {t' : Task} → call c t ≡ ok t' → t.state ⟶ t'.state
unfolding call into_claimed
call-⟶ (claims worker at) t h = grind (arith, edges)
call-⟶ (reports worker news at) t h = unfold report_in in grind (arith, edges)
call-⟶ (completes worker at success) t h = unfold into_done in grind (arith, edges)
call-⟶ (fails worker at failure jitter) t h = unfold into_failed in grind (arith, edges)
call-⟶ (unclaims worker at) t h = unfold into_unclaimed in grind (arith, edges)

call-IsFinished : (c : Call) (t : Task) → IsFinished t.state → (e : Error) × (call c t ≡ err e)
unfolding call into_claimed report_in into_done into_failed into_unclaimed
call-IsFinished (claims worker at) t h = (unclaimable t.id t.state, ground arith)
call-IsFinished (reports worker news at) t h = (not_claimed t.id t.state, ground arith)
call-IsFinished (completes worker at success) t h = (not_claimed t.id t.state, ground arith)
call-IsFinished (fails worker at failure jitter) t h = (not_claimed t.id t.state, ground arith)
call-IsFinished (unclaims worker at) t h = (not_claimed t.id t.state, ground arith)

-- Once a task is done or dead no call changes anything of it.
pub run-IsFinished : (t : Task) (cs : List Call) → IsFinished t.state → run t cs ≡ t
unfolding run
run-IsFinished t [] h = refl
run-IsFinished t (c ∷ cs) h =
    let (e, refused) = call-IsFinished c t h in rw refused (run-IsFinished t cs h)
