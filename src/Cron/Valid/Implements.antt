-- ===== src/Cron/Valid/Implements.antt =====
-- The scheduler of internal/infra/cron/task/recurring/scheduler.go is one that the manager of
-- internal/domain/task/recurring/manager.go can rely on.
use tasques.Prelude.{
  ℕ, String, ◌≡◌, ◌≢◌, refl, sym, ap, ◌∙◌, true, Option, none, some, inl, inr, Option-cases, arith,
}
use tasques.Domain.Recurring.{RecurringTask, Scheduler}
use tasques.Domain.Recurring.Manager.Laws.{SchedulerLaws}
use tasques.Cron.{
  Cron, Job, Entries, entry_of, put_entry, take_out, job_of, entry_or_zero, is_added, schedule,
  unschedule,
}
use tasques.Cron.Table.{entry_of-put_self, entry_of-put_ne}
use tasques.Cron.Valid.{CronLaws, Valid, task_of, job_at, runs}
use tasques.Cron.Valid.Steps.{take_out-Out, put-Valid, add_job_kept}

module _ {C : Type 0} (cron : Cron C) (entries : C → ℕ → Option Job)
    (laws : CronLaws cron entries) where
  pub schedule-Valid :
      (t : RecurringTask) (s : Entries × C)
      → Valid entries s.0 s.1
      → Valid entries (schedule cron t s).1.0 (schedule cron t s).1.1
  unfolding schedule job_of
  schedule-Valid t (es, c) v =
      let out = take_out-Out cron entries laws t.id es c v in
      put-Valid cron entries laws t.schedule_expression (job_of t)
        (take_out cron t.id (entry_of t.id es) (es, c)).0
        (take_out cron t.id (entry_of t.id es) (es, c)).1 out.valid out.gone

  pub unschedule-Valid :
      (id : String) (s : Entries × C)
      → Valid entries s.0 s.1
      → Valid entries (unschedule cron id s).1.0 (unschedule cron id s).1.1
  unfolding unschedule
  unschedule-Valid id (es, c) v = (take_out-Out cron entries laws id es c v).valid

  -- The states of the scheduler: from the empty map and an empty cron no other is reached.
  abbrev pub Whole : Type 0
  Whole = (s : Entries × C) × Valid entries s.0 s.1

  abbrev pub cron_scheduler : Scheduler Whole
  cron_scheduler = record {
    schedule =
        λ t w. ((schedule cron t w.0).0, ((schedule cron t w.0).1, schedule-Valid t w.0 w.1));
    unschedule = λ id w.
        ((unschedule cron id w.0).0, ((unschedule cron id w.0).1, unschedule-Valid id w.0 w.1));
  }

  abbrev pub scheduled_in : Whole → String → Option RecurringTask
  scheduled_in w = runs entries w.0

  -- What an id runs is told by the map and the entry.
  runs_at :
      (es : Entries) (c : C) (id : String) (e : ℕ)
      → entry_of id es ≡ some e
      → runs entries (es, c) id ≡ task_of (entries c e)
  unfolding runs job_at
  runs_at es c id e at_id = rw at_id refl

  runs-none :
      (es : Entries) (c : C) (id : String) → entry_of id es ≡ none → runs entries (es, c) id ≡ none
  unfolding runs job_at task_of
  runs-none es c id gone = rw gone refl

  -- Two states that have the same entry for an id, with the same job, run the same.
  runs_same :
      (es es' : Entries) (c c' : C) (id : String)
      → entry_of id es' ≡ entry_of id es
      → ((f : ℕ) → entry_of id es ≡ some f → entries c' f ≡ entries c f)
      → runs entries (es', c') id ≡ runs entries (es, c) id
  runs_same es es' c c' id kept jobs = elim (Option-cases (entry_of id es)) [
    | inl e ↦ runs-none es' c' id (kept ∙ e) ∙ sym (runs-none es c id e)
    | inr (f, e) ↦
        runs_at es' c' id f (kept ∙ e) ∙ ap task_of (jobs f e) ∙ sym (runs_at es c id f e)
  ]

  put-runs :
      (t : RecurringTask) (es : Entries) (c : C)
      → is_added (cron.add_job t.schedule_expression (job_of t) c).0 ≡ true
      → runs entries
          (
            put_entry t.id (entry_or_zero (cron.add_job t.schedule_expression (job_of t) c).0) es,
            (cron.add_job t.schedule_expression (job_of t) c).1,
          )
          t.id
        ≡ some t
  unfolding job_of task_of
  put-runs t es c h = elim (Option-cases (cron.add_job t.schedule_expression (job_of t) c).0) [
    | inl failed ↦ absurd (ground arith)
    | inr (e, done) ↦
        let (new, at_e) = laws.added t.schedule_expression (job_of t) c e done in
        let after = (cron.add_job t.schedule_expression (job_of t) c).1 in
        rw done (
          runs_at (put_entry t.id e es) after t.id e (entry_of-put_self t.id e es)
          ∙ ap task_of at_e)
  ]

  unschedule-same :
      (k : String) (s : Entries × C) (id : String)
      → Valid entries s.0 s.1
      → id ≢ k
      → runs entries (take_out cron k (entry_of k s.0) s) id ≡ runs entries s id
  unschedule-same k (es, c) id v n =
      let out = take_out-Out cron entries laws k es c v in
      runs_same es (take_out cron k (entry_of k es) (es, c)).0 c
        (take_out cron k (entry_of k es) (es, c)).1 id (out.kept id n) (λ f. out.kept_jobs id f n)

  schedule-same :
      (t : RecurringTask) (s : Entries × C) (id : String)
      → Valid entries s.0 s.1
      → id ≢ t.id
      → runs entries (schedule cron t s).1 id ≡ runs entries s id
  unfolding schedule
  schedule-same t (es, c) id v n =
      let out = take_out-Out cron entries laws t.id es c v in
      let es' = (take_out cron t.id (entry_of t.id es) (es, c)).0 in
      let c' = (take_out cron t.id (entry_of t.id es) (es, c)).1 in
      let added = cron.add_job t.schedule_expression (job_of t) c' in
      runs_same es' (put_entry t.id (entry_or_zero added.0) es') c' added.1 id
        (entry_of-put_ne id t.id (entry_or_zero added.0) es' n)
        (λ f. add_job_kept cron entries laws t.schedule_expression (job_of t) es' c' id f out.valid)
      ∙ unschedule-same t.id (es, c) id v n

  schedule-runs :
      (t : RecurringTask) (s : Entries × C)
      → (schedule cron t s).0 ≡ true
      → runs entries (schedule cron t s).1 t.id ≡ some t
  unfolding schedule
  schedule-runs t (es, c) h =
      put-runs t (take_out cron t.id (entry_of t.id es) (es, c)).0
        (take_out cron t.id (entry_of t.id es) (es, c)).1 h

  -- Over a cron that keeps its laws, the scheduler keeps the laws that the manager relies on: a task that
  -- it answers to have scheduled is scheduled in place of what its id had, nothing is scheduled under an
  -- id that was unscheduled, and neither call changes what is scheduled under another id.
  pub cron_scheduler-SchedulerLaws : SchedulerLaws cron_scheduler scheduled_in
  unfolding schedule unschedule
  cron_scheduler-SchedulerLaws = record {
    scheduled = λ t w w' e.
        ap (λ x. runs entries x.1.0 t.id) (sym e) ∙ schedule-runs t w.0 (ap (λ x. x.0) e);
    schedule_other = λ t w id n. schedule-same t w.0 id w.1 n;
    unscheduled = λ id w.
        let out = take_out-Out cron entries laws id w.0.0 w.0.1 w.1 in
        runs-none (take_out cron id (entry_of id w.0.0) w.0).0
          (take_out cron id (entry_of id w.0.0) w.0).1 id out.gone;
    unschedule_other = λ k w id n. unschedule-same k w.0 id w.1 n;
  }
