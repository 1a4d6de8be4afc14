-- ===== src/Domain/Recurring/InSync/Steps.antt =====
-- The loops of internal/domain/task/recurring/manager.go that schedule and unschedule, and the marking,
-- keep what is in memory scheduled.
use tasques.Prelude.{
  String, ◌≡◌, ◌≢◌, ◌⊎◌, refl, sym, ap, ◌∙◌, subst, false, Option, none, some, List, [], ◌∷◌, ◌++◌,
  map, ok, inl, inr, Bool-cases, All, All-map, All-split, append-nil,
}
use tasques.Domain.Recurring.{RecurringTask, MultiUpdateResult, Scheduler, Service}
use tasques.Domain.Recurring.Manager.{
  Manager, lookup, ask, remove, keep_each, unschedule_and_remove, unschedule_each,
  schedule_and_add_to_list, schedule_each, reschedule_each, keep_loaded, mark_as_loaded,
}
use tasques.Domain.Recurring.Manager.Memory.{Distinct, lookup-delete_self}
use tasques.Domain.Recurring.Manager.Distinct.{Distinct-next}
use tasques.Domain.Recurring.Manager.Laws.{SchedulerLaws, ServiceLaws, kept_of}
use tasques.Domain.Recurring.InSync.{
  Scheduled, InSync, Ready, InSync-other, InSync-remove, keep_each-InSync, Ready-add, Ready-other,
  Post, Post-bind, Post-map, Asked, ask-Post,
}

module _ {W E : Type 0} (scheduler : Scheduler W) (service : Service W E)
    (runs : W → String → Option RecurringTask) (scheduling : SchedulerLaws scheduler runs)
    (serving : ServiceLaws service runs) where
  -- What is scheduled under the ids apart from a list stays.
  abbrev SameApart : List RecurringTask → W → W → Type 0
  SameApart ts w w' = (id : String) → All (λ n. id ≢ n.id) ts → runs w' id ≡ runs w id

  pub unschedule_each-InSync :
      (ts : List RecurringTask) (m : Manager) (w : W)
      → InSync runs m w
      → Post runs
          (λ _ m' w'. InSync runs m' w' × SameApart ts w w')
          (unschedule_each scheduler service ts m w)
  unfolding unschedule_each unschedule_and_remove
  unschedule_each-InSync [] m w h = (h, λ id a. refl)
  unschedule_each-InSync (t ∷ ts) m w h =
      let v = (scheduler.unschedule t.id w).1 in
      let same = scheduling.unschedule_other t.id w in
      let m' = remove t.id m in
      Post-map runs (λ _ m'' w'. InSync runs m'' w' × SameApart ts v w')
        (λ _ m'' w'. InSync runs m'' w' × SameApart (t ∷ ts) w w')
        (unschedule_each scheduler service ts m' v)
        (λ _ m'' w' (synced, apart). (synced, λ id (n, a). apart id a ∙ same id n))
        (unschedule_each-InSync ts m' v (InSync-remove runs m t.id w v same h))

  -- One task is scheduled that is not in memory, and goes to the end of the list if that succeeds.
  abbrev Added :
      RecurringTask → List RecurringTask → Manager → List RecurringTask → Manager → W → Type 0
  Added t made m l m' w' =
      (m' ≡ m) × InSync runs m' w' × Ready runs w' l × ((l ≡ made ++ (t ∷ [])) ⊎ (l ≡ made))

  schedule_and_add_to_list-Added :
      (t : RecurringTask) (made : List RecurringTask) (m : Manager) (w : W)
      → InSync runs m w
      → lookup t.id m.scheduled_tasks ≡ none
      → lookup t.id made ≡ none
      → Ready runs w made
      → Post runs (Added t made m) (schedule_and_add_to_list scheduler service t made m w)
  unfolding schedule_and_add_to_list
  schedule_and_add_to_list-Added t made m w h missing new ready =
      let same = scheduling.schedule_other t w in
      let v = (scheduler.schedule t w).1 in
      let synced = InSync-other runs m t.id w v missing same h in
      elim (Bool-cases (scheduler.schedule t w).0) [
        | inl b ↦
            let now = scheduling.scheduled t w v (λ i. (b i, v)) in
            rw b (refl, synced, Ready-add runs made t w v new same now ready, inl refl)
        | inr b ↦ rw b (refl, synced, Ready-other runs made t.id w v new same ready, inr refl)
      ]

  -- What comes out of a loop that schedules: a list that is scheduled, whose ids are different and not
  -- those of `front`.
  abbrev pub Made : List RecurringTask → List RecurringTask → Manager → W → Type 0
  Made front l m w = InSync runs m w × Ready runs w l × Distinct (front ++ l)

  made_end :
      (front made : List RecurringTask)
      → Distinct (front ++ (made ++ []))
      → Distinct (front ++ made)
  made_end front made d = subst (λ l. Distinct (front ++ l)) (append-nil made) d

  made_next :
      (front made ts l : List RecurringTask) (t : RecurringTask)
      → Distinct (front ++ (made ++ (t ∷ ts)))
      → (l ≡ made ++ (t ∷ [])) ⊎ (l ≡ made)
      → Distinct (front ++ (l ++ ts))
  made_next front made ts l t d (inl e) =
      subst (λ x. Distinct (front ++ (x ++ ts))) (sym e) (Distinct-next front made t ts d).2
  made_next front made ts l t d (inr e) =
      subst (λ x. Distinct (front ++ (x ++ ts))) (sym e) (Distinct-next front made t ts d).1

  pub schedule_each-Made :
      (front ts made : List RecurringTask) (m : Manager) (w : W)
      → m.scheduled_tasks ≡ []
      → InSync runs m w
      → Ready runs w made
      → Distinct (front ++ (made ++ ts))
      → Post runs (Made front) (schedule_each scheduler service ts made m w)
  unfolding schedule_each lookup
  schedule_each-Made front [] made m w none_yet h ready d = (h, ready, made_end front made d)
  schedule_each-Made front (t ∷ ts) made m w none_yet h ready d =
      let missing = ap (lookup t.id) none_yet in
      Post-bind runs (Added t made m) (Made front)
        (schedule_and_add_to_list scheduler service t made m w) (schedule_each scheduler service ts)
        (schedule_and_add_to_list-Added t made m w h missing (Distinct-next front made t ts d).0
          ready)
        (λ l m' w' (m_eq, synced, ready', grown).
          schedule_each-Made front ts l m' w'
            (ap (λ (x : Manager). x.scheduled_tasks) m_eq ∙ none_yet) synced ready'
            (made_next front made ts l t d grown))

  pub reschedule_each-Made :
      (front ts made : List RecurringTask) (m : Manager) (w : W)
      → InSync runs m w
      → Ready runs w made
      → Distinct (front ++ (made ++ ts))
      → Post runs (Made front) (reschedule_each scheduler service ts made m w)
  unfolding reschedule_each unschedule_and_remove
  reschedule_each-Made front [] made m w h ready d = (h, ready, made_end front made d)
  reschedule_each-Made front (t ∷ ts) made m w h ready d =
      let v = (scheduler.unschedule t.id w).1 in
      let same = scheduling.unschedule_other t.id w in
      let m' = remove t.id m in
      let new = (Distinct-next front made t ts d).0 in
      Post-bind runs (Added t made m') (Made front)
        (schedule_and_add_to_list scheduler service t made m' v)
        (reschedule_each scheduler service ts)
        (schedule_and_add_to_list-Added t made m' v (InSync-remove runs m t.id w v same h)
          (lookup-delete_self t.id m.scheduled_tasks) new
          (Ready-other runs made t.id w v new same ready))
        (λ l m'' w' (m_eq, synced, ready', grown).
          reschedule_each-Made front ts l m'' w' synced ready'
            (made_next front made ts l t d grown))

  -- A task that the manager may keep: it is scheduled unless it is deleted, and it was found.
  abbrev Keepable : MultiUpdateResult → W → RecurringTask → Type 0
  Keepable r w t = (t.is_deleted ≡ false → Scheduled runs w t) × All (λ n. t.id ≢ n.id) r.not_founds

  keep_loaded-InSync :
      (r : MultiUpdateResult) (m : Manager) (w : W)
      → InSync runs m w
      → All (Keepable r w) (kept_of r)
      → Post runs (λ _. InSync runs) (keep_loaded scheduler service r m w)
  unfolding keep_loaded
  keep_loaded-InSync r m w h keep =
      let others = map (λ o. o.recurring_task) r.others in
      let found = r.successes ++ r.version_conflicts in
      Post-bind runs (λ _ m' w'. InSync runs m' w' × SameApart r.not_founds w w') (λ _. InSync runs)
        (unschedule_each scheduler service r.not_founds m w)
        (λ _ m w. (ok tt, keep_each others (keep_each found m), w))
        (unschedule_each-InSync r.not_founds m w h)
        (λ _ m' w' (synced, same).
          let after =
            All-map (Keepable r w) (λ t. t.is_deleted ≡ false → Scheduled runs w' t) (kept_of r)
              (λ t (s, apart) live. let (u, q, j) = s live in (u, same t.id apart ∙ q, j)) keep in
          let (a, b) =
            All-split (λ t. t.is_deleted ≡ false → Scheduled runs w' t) others found after in
          keep_each-InSync runs others (keep_each found m') w' a
            (keep_each-InSync runs found m' w' b synced))

  -- The tasks of a list that are not deleted are scheduled.
  abbrev pub LiveReady : W → List RecurringTask → Type 0
  LiveReady w ts =
      (id : String) (t : RecurringTask)
      → lookup id ts ≡ some t
      → t.is_deleted ≡ false
      → runs w id ≡ some t

  pub mark_as_loaded-InSync :
      (ts : List RecurringTask) (m : Manager) (w : W)
      → InSync runs m w
      → LiveReady w ts
      → Distinct ts
      → Post runs (λ _. InSync runs) (mark_as_loaded scheduler service ts m w)
  unfolding mark_as_loaded
  mark_as_loaded-InSync [] m w h ready d = h
  mark_as_loaded-InSync (t ∷ ts) m w h ready d =
      let call = service.mark_loaded (t ∷ ts) in
      Post-bind runs (Asked runs call m w) (λ _. InSync runs) (ask call m w)
        (keep_loaded scheduler service) (ask-Post runs call m w (serving.mark_runs (t ∷ ts) w) h)
        (λ r m' w' (m_eq, synced, answer, same). keep_loaded-InSync r m' w' synced (
          All-map _ (Keepable r w') (kept_of r)
            (λ x ((u, found, job), apart).
              (λ live. (u, same x.id ∙ ready x.id u found (job.deleted ∙ live), job), apart))
            (serving.mark_result (t ∷ ts) w w' r answer d)))
