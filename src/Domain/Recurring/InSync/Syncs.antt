-- ===== src/Domain/Recurring/InSync/Syncs.antt =====
-- Both functions of the manager of internal/domain/task/recurring/manager.go keep what is in memory
-- scheduled.
use tasques.Prelude.{
  String, ◌≡◌, refl, sym, ap, ◌∙◌, subst, Bool, true, false, Option, some, List, [], ◌++◌, ok, inl,
  inr, arith, if◌then◌else◌,
}
use tasques.Domain.Recurring.{RecurringTask, Scheduler, Service}
use tasques.Domain.Recurring.Manager.{
  LeaderState, not_leader, leader, Manager, lookup, deleted_of, live_of, SyncCheckResults, compare,
  needs_resync, Step, ◌>>=◌, pure, ask, unschedule_each, stop_all, schedule_each, reschedule_each,
  mark_as_loaded, complete_reload, sync_not_loaded, check_sync, check_again, resync, enforce_sync,
  on_change, leader_state_of, recurring_func, recurring_sync_func, recurring_sync_enforce_func,
}
use tasques.Domain.Recurring.Manager.Memory.{Distinct, lookup-append}
use tasques.Domain.Recurring.Manager.Distinct.{
  deleted_of-Distinct, lookup-deleted_of, missing_in-Distinct,
}
use tasques.Domain.Recurring.Manager.Laws.{SchedulerLaws, ServiceLaws}
use tasques.Domain.Recurring.Manager.Leadership.{stop_all-empties}
use tasques.Domain.Recurring.InSync.{
  InSync, Ready, Post, Post-bind, Post-map, Post-and, Asked, ask-Post, Post-InSync,
}
use tasques.Domain.Recurring.InSync.Steps.{
  unschedule_each-InSync, Made, schedule_each-Made, reschedule_each-Made, mark_as_loaded-InSync,
}

module _ {W E : Type 0} (scheduler : Scheduler W) (service : Service W E)
    (runs : W → String → Option RecurringTask) (scheduling : SchedulerLaws scheduler runs)
    (serving : ServiceLaws service runs) where
  -- Before a list is made.
  nothing_made : (w : W) → Ready runs w []
  unfolding lookup
  nothing_made w id t h = absurd (ground arith)

  -- A list that was made, behind tasks that are deleted, can be marked.
  mark-Made :
      (front l : List RecurringTask) (m : Manager) (w : W)
      → ((id : String) (t : RecurringTask) → lookup id front ≡ some t → t.is_deleted ≡ true)
      → Made scheduler service runs scheduling serving front l m w
      → Post runs (λ _. InSync runs) (mark_as_loaded scheduler service (front ++ l) m w)
  mark-Made front l m w gone (synced, ready, d) =
      mark_as_loaded-InSync scheduler service runs scheduling serving (front ++ l) m w synced
        (λ id t h live. elim (lookup-append id front l h) [
          | inl e ↦ absurd (ground (arith, gone id t e))
          | inr e ↦ ready id t e
        ])
        d

  none_deleted : (id : String) (t : RecurringTask) → lookup id [] ≡ some t → t.is_deleted ≡ true
  unfolding lookup
  none_deleted id t h = absurd (ground arith)

  stop_all-InSync :
      (m : Manager) (w : W)
      → InSync runs m w
      → Post runs
          (λ _ m' w'. InSync runs m' w' × (m'.scheduled_tasks ≡ []))
          (stop_all scheduler service m w)
  unfolding stop_all
  stop_all-InSync m w h =
      let synced =
        unschedule_each-InSync scheduler service runs scheduling serving m.scheduled_tasks m w h in
      let r = unschedule_each scheduler service m.scheduled_tasks m w in
      Post-and runs (λ _. InSync runs) (λ m'. m'.scheduled_tasks ≡ []) r
        (Post-map runs _ (λ _. InSync runs) r (λ _ m' w' (s, apart). s) synced)
        (stop_all-empties scheduler service m w).1

  reload_found :
      (all : List RecurringTask) (m : Manager) (w : W)
      → m.scheduled_tasks ≡ []
      → InSync runs m w
      → Distinct all
      → Post runs
          (λ _. InSync runs)
          ((schedule_each scheduler service all [] >>= mark_as_loaded scheduler service) m w)
  reload_found all m w empty h d =
      Post-bind runs (Made scheduler service runs scheduling serving []) (λ _. InSync runs)
        (schedule_each scheduler service all [] m w) (mark_as_loaded scheduler service)
        (schedule_each-Made scheduler service runs scheduling serving [] all [] m w empty h
          (nothing_made w) d)
        (λ l m' w' made. mark-Made [] l m' w' none_deleted made)

  complete_reload-InSync :
      (m : Manager) (w : W)
      → InSync runs m w
      → Post runs (λ _. InSync runs) (complete_reload scheduler service m w)
  unfolding complete_reload
  complete_reload-InSync m w h =
      let schedule : List RecurringTask → Step W E Unit =
        λ all. schedule_each scheduler service all [] >>= mark_as_loaded scheduler service in
      Post-bind runs (λ _ m' w'. InSync runs m' w' × (m'.scheduled_tasks ≡ [])) (λ _. InSync runs)
        (stop_all scheduler service m w) (λ _. ask service.all >>= schedule) (stop_all-InSync m w h)
        (λ _ m' w' (synced, empty).
          Post-bind runs (Asked runs service.all m' w') (λ _. InSync runs) (ask service.all m' w')
            schedule (ask-Post runs service.all m' w' (serving.all_runs w') synced)
            (λ all m'' w'' (m_eq, synced', answer, same).
              reload_found all m'' w'' (ap (λ (x : Manager). x.scheduled_tasks) m_eq ∙ empty)
                synced' (serving.all_distinct w' w'' all answer)))

  sync_found :
      (found : List RecurringTask) (m : Manager) (w : W)
      → InSync runs m w
      → Distinct found
      → Post runs
          (λ _. InSync runs)
          ((unschedule_each scheduler service (deleted_of found) >>= λ _.
              reschedule_each scheduler service (live_of found) [] >>= λ scheduled.
              mark_as_loaded scheduler service (deleted_of found ++ scheduled))
            m w)
  sync_found found m w h d =
      let gone = deleted_of found in
      let mark : List RecurringTask → Step W E Unit =
        λ scheduled. mark_as_loaded scheduler service (gone ++ scheduled) in
      Post-bind runs (λ _ m' w'. InSync runs m' w' × _) (λ _. InSync runs)
        (unschedule_each scheduler service gone m w)
        (λ _. reschedule_each scheduler service (live_of found) [] >>= mark)
        (unschedule_each-InSync scheduler service runs scheduling serving gone m w h)
        (λ _ m' w' (synced, apart).
          Post-bind runs (Made scheduler service runs scheduling serving gone) (λ _. InSync runs)
            (reschedule_each scheduler service (live_of found) [] m' w') mark
            (reschedule_each-Made scheduler service runs scheduling serving gone (live_of found) []
              m' w' synced (nothing_made w') (deleted_of-Distinct found d))
            (λ l m'' w'' made.
              mark-Made gone l m'' w'' (λ id t e. lookup-deleted_of id found e) made))

  sync_not_loaded-InSync :
      (m : Manager) (w : W)
      → InSync runs m w
      → Post runs (λ _. InSync runs) (sync_not_loaded scheduler service m w)
  unfolding sync_not_loaded
  sync_not_loaded-InSync m w h =
      Post-bind runs (Asked runs service.not_loaded m w) (λ _. InSync runs)
        (ask service.not_loaded m w)
        (λ found. unschedule_each scheduler service (deleted_of found) >>= λ _.
          reschedule_each scheduler service (live_of found) [] >>= λ scheduled.
          mark_as_loaded scheduler service (deleted_of found ++ scheduled))
        (ask-Post runs service.not_loaded m w (serving.not_loaded_runs w) h)
        (λ found m' w' (m_eq, synced, answer, same).
          sync_found found m' w' synced (serving.not_loaded_distinct w w' found answer))

  Post-if :
      (b : Bool) (s t : Step W E Unit) (m : Manager) (w : W)
      → Post runs (λ _. InSync runs) (s m w)
      → Post runs (λ _. InSync runs) (t m w)
      → Post runs (λ _. InSync runs) ((if b then s else t) m w)
  Post-if true s t m w h k = h
  Post-if false s t m w h k = k

  -- What `checkSync` returns was compared with the tasks of the data store, whose ids are different.
  Compared : SyncCheckResults → Manager → W → Type 0
  Compared r m w =
      InSync runs m w
      × ((memory : List RecurringTask) × (all : List RecurringTask) × (r ≡ compare all memory)
          × Distinct all)

  check_sync-Compared :
      (m : Manager) (w : W)
      → InSync runs m w
      → Post runs Compared (check_sync scheduler service m w)
  unfolding check_sync Compared
  check_sync-Compared m w h =
      Post-bind runs (Asked runs service.all m w) Compared (ask service.all m w)
        (λ all m w. (ok (compare all m.scheduled_tasks), m, w))
        (ask-Post runs service.all m w (serving.all_runs w) h)
        (λ all m' w' (m_eq, synced, answer, same).
          (synced, (m'.scheduled_tasks, all, refl, serving.all_distinct w w' all answer)))

  check_again-InSync :
      (m : Manager) (w : W)
      → InSync runs m w
      → Post runs (λ _. InSync runs) (check_again scheduler service m w)
  unfolding check_again Compared
  check_again-InSync m w h =
      Post-bind runs Compared (λ _. InSync runs) (check_sync scheduler service m w)
        (λ r. if needs_resync r then complete_reload scheduler service else pure tt)
        (check_sync-Compared m w h)
        (λ r m' w' (synced, found).
          Post-if (needs_resync r) (complete_reload scheduler service) (pure tt) m' w'
            (complete_reload-InSync m' w' synced) synced)

  resync-InSync :
      (r : SyncCheckResults) (m : Manager) (w : W)
      → InSync runs m w
      → Distinct (r.not_in_memory ++ r.version_mismatch)
      → Post runs (λ _. InSync runs) (resync scheduler service r m w)
  unfolding resync
  resync-InSync r m w h d =
      let stale = r.not_in_memory ++ r.version_mismatch in
      let again = check_again scheduler service in
      let finish : List RecurringTask → Step W E Unit =
        λ acked. mark_as_loaded scheduler service acked >>= λ _. again in
      Post-bind runs (λ _ m' w'. InSync runs m' w' × _) (λ _. InSync runs)
        (unschedule_each scheduler service r.not_in_data_store m w)
        (λ _. reschedule_each scheduler service stale [] >>= finish)
        (unschedule_each-InSync scheduler service runs scheduling serving r.not_in_data_store m w h)
        (λ _ m' w' (synced, apart).
          Post-bind runs (Made scheduler service runs scheduling serving []) (λ _. InSync runs)
            (reschedule_each scheduler service stale [] m' w') finish
            (reschedule_each-Made scheduler service runs scheduling serving [] stale [] m' w' synced
              (nothing_made w') d)
            (λ l m'' w'' made.
              Post-bind runs (λ _. InSync runs) (λ _. InSync runs)
                (mark_as_loaded scheduler service l m'' w'') (λ _. again)
                (mark-Made [] l m'' w'' none_deleted made)
                (λ _ m3 w3 synced'. check_again-InSync m3 w3 synced')))

  enforce_sync-InSync :
      (m : Manager) (w : W)
      → InSync runs m w
      → Post runs (λ _. InSync runs) (enforce_sync scheduler service m w)
  unfolding enforce_sync Compared compare
  enforce_sync-InSync m w h =
      Post-bind runs Compared (λ _. InSync runs) (check_sync scheduler service m w)
        (λ r. if needs_resync r then resync scheduler service r else pure tt)
        (check_sync-Compared m w h)
        (λ r m' w' (synced, (memory, all, r_eq, d)).
          Post-if (needs_resync r) (resync scheduler service r) (pure tt) m' w'
            (resync-InSync r m' w' synced (
              subst (λ (x : SyncCheckResults). Distinct (x.not_in_memory ++ x.version_mismatch))
                (sym r_eq) (missing_in-Distinct memory all d)))
            synced)

  on_change-InSync :
      (before now : LeaderState) (f : Step W E Unit) (m : Manager) (w : W)
      → InSync runs m w
      → Post runs (λ _. InSync runs) (f m w)
      → Post runs (λ _. InSync runs) (on_change scheduler service before now f m w)
  unfolding on_change
  on_change-InSync not_leader leader f m w h k = complete_reload-InSync m w h
  on_change-InSync leader leader f m w h k = k
  on_change-InSync leader not_leader f m w h k =
      Post-map runs (λ _ m' w'. InSync runs m' w' × (m'.scheduled_tasks ≡ [])) (λ _. InSync runs)
        (stop_all scheduler service m w) (λ _ m' w' (s, e). s) (stop_all-InSync m w h)
  on_change-InSync not_leader not_leader f m w h k = h

  InSync-state :
      (m : Manager) (l : LeaderState) (w : W)
      → InSync runs m w
      → InSync runs (record m { leader_state = l }) w
  InSync-state m l w h = record { at = h.at }

  recurring_func-InSync :
      (f : Step W E Unit) (b : Bool) (m : Manager) (w : W)
      → ((m : Manager) (w : W) → InSync runs m w → Post runs (λ _. InSync runs) (f m w))
      → InSync runs m w
      → Post runs (λ _. InSync runs) (recurring_func scheduler service f b m w)
  unfolding recurring_func
  recurring_func-InSync f b m w keeps h =
      let now = leader_state_of scheduler service b in
      let m' = record m { leader_state = now } in
      let synced = InSync-state m now w h in
      on_change-InSync m.leader_state now f m' w synced (keeps m' w synced)

  -- Over a scheduler and a service that keep their laws, both functions of the manager keep this, whether
  -- the process leads or not and whether they succeed or fail: each task that the manager has in memory
  -- is scheduled, with the expression, the definition and the skipping that it has in memory.
  pub recurring_funcs-InSync :
      (is_leader : Bool) (m : Manager) (w : W)
      → InSync runs m w
      → InSync runs
          (recurring_sync_func scheduler service is_leader m w).1
          (recurring_sync_func scheduler service is_leader m w).2
        × InSync runs
            (recurring_sync_enforce_func scheduler service is_leader m w).1
            (recurring_sync_enforce_func scheduler service is_leader m w).2
  unfolding recurring_sync_func recurring_sync_enforce_func
  recurring_funcs-InSync is_leader m w h =
      let sync = sync_not_loaded scheduler service in
      let enforce = enforce_sync scheduler service in
      (
        Post-InSync runs (recurring_func scheduler service sync is_leader m w)
            (recurring_func-InSync sync is_leader m w sync_not_loaded-InSync h),
        Post-InSync runs (recurring_func scheduler service enforce is_leader m w)
            (recurring_func-InSync enforce is_leader m w enforce_sync-InSync h),
      )
