-- ===== src/Worker/Verdicts.antt =====
-- A loop that comes through a task without an error, in worker/work_loop.go, has asked for one mark of it.
use tasques.Prelude.{
  String, ◌≡◌, refl, ap, ◌∙◌, Bool, true, false, Option, none, some, List, [], ◌∷◌, ◌++◌, ok, inl,
  inr, Outcome-cases, arith,
}
use tasques.Domain.Json.{JsonObj}
use tasques.Domain.Task.{Task}
use tasques.Worker.{Tasques, Handled, TaskHandle, conclude, handle_with}

-- What was asked of the server to mark, with whether the task is done.
pub record Verdict : Type 0 where
  pub task : Task
  pub is_done : Bool

-- The client, with the marks that it was asked for behind the state of the world.
abbrev pub logged : {W : Type 0} → Tasques W → Tasques (W × List Verdict)
logged tasques = record {
  claim_tasks = λ (w, log). let (r, w') = tasques.claim_tasks w in (r, (w', log));
  report_on = λ t d (w, log). let (r, w') = tasques.report_on t d w in (r, (w', log));
  unclaim = λ t (w, log). let (r, w') = tasques.unclaim t w in (r, (w', log));
  mark_done = λ t d (w, log).
      let (r, w') = tasques.mark_done t d w in
      (r, (w', log ++ (record { task = t; is_done = true } ∷ [])));
  mark_failed = λ t d (w, log).
      let (r, w') = tasques.mark_failed t d w in
      (r, (w', log ++ (record { task = t; is_done = false } ∷ [])));
}

abbrev pub beside :
    {W : Type 0}
    → Option (TaskHandle → W → Handled × W)
    → Option (TaskHandle → W × List Verdict → Handled × (W × List Verdict))
beside none = none
beside (some h) = some (λ handle (w, log). let (r, w') = h handle w in (r, (w', log)))

abbrev pub tasks_of : List Verdict → List Task
tasks_of [] = []
tasks_of (v ∷ vs) = v.task ∷ tasks_of vs

tasks_of-append : (xs ys : List Verdict) → tasks_of (xs ++ ys) ≡ tasks_of xs ++ tasks_of ys
tasks_of-append [] ys = refl
tasks_of-append (x ∷ xs) ys = ap (λ l. x.task ∷ l) (tasks_of-append xs ys)

marked :
    (v : Verdict) (log log' : List Verdict)
    → log' ≡ log ++ (v ∷ [])
    → tasks_of log' ≡ tasks_of log ++ (v.task ∷ [])
marked v log log' h = ap tasks_of h ∙ tasks_of-append log (v ∷ [])

module _ {W : Type 0} (tasques : Tasques W) (no_results : JsonObj)
    (handlers : String → Option (TaskHandle → W → Handled × W)) where
  conclude-log :
      (t : Task) (handled : Handled) (w w' : W) (log log' : List Verdict)
      → conclude (logged tasques) no_results t handled (w, log) ≡ (ok tt, (w', log'))
      → tasks_of log' ≡ tasks_of log ++ (t ∷ [])
  unfolding conclude
  conclude-log t (result, some failure) w w' log log' h =
      elim (Outcome-cases (tasques.mark_failed t failure w).0) [
        | inl (u, e) ↦ marked (record { task = t; is_done = false }) log log' (ground arith)
        | inr (x, e) ↦ absurd (ground arith)
      ]
  conclude-log t (some success, none) w w' log log' h =
      elim (Outcome-cases (tasques.mark_done t success w).0) [
        | inl (u, e) ↦ marked (record { task = t; is_done = true }) log log' (ground arith)
        | inr (x, e) ↦ absurd (ground arith)
      ]
  conclude-log t (none, none) w w' log log' h =
      elim (Outcome-cases (tasques.mark_failed t no_results w).0) [
        | inl (u, e) ↦ marked (record { task = t; is_done = false }) log log' (ground arith)
        | inr (x, e) ↦ absurd (ground arith)
      ]

  pub handle_with-log :
      (t : Task) (h : Option (TaskHandle → W → Handled × W)) (w w' : W) (log log' : List Verdict)
      → handle_with (logged tasques) no_results (λ q. beside (handlers q)) t (beside h) (w, log)
        ≡ (ok tt, (w', log'))
      → tasks_of log' ≡ tasks_of log ++ (t ∷ [])
  unfolding handle_with
  handle_with-log t none w w' log log' h = absurd (ground arith)
  handle_with-log t (some handler) w w' log log' h =
      let (handled, v) = handler (record { task = t; unclaimed = false }) w in
      conclude-log t handled v w' log log' h
