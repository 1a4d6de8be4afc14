-- ===== src/Domain/Recurring/Manager/State.antt =====
-- The manager of internal/domain/task/recurring/manager.go always knows who leads, also after an error.
use tasques.Prelude.{
  ◌≡◌, refl, ◌∙◌, Bool, true, false, List, [], ◌∷◌, ◌++◌, map, Outcome, ok, err, if◌then◌else◌,
}
use tasques.Domain.Recurring.{RecurringTask, MultiUpdateResult, Scheduler, Service}
use tasques.Domain.Recurring.Manager.{
  LeaderState, not_leader, leader, Manager, insert, keep_each, deleted_of, live_of,
  SyncCheckResults, compare, needs_resync, Step, continue, ◌>>=◌, pure, ask, unschedule_and_remove,
  unschedule_each, stop_all, schedule_and_add_to_list, schedule_each, reschedule_each, keep_loaded,
  mark_as_loaded, complete_reload, sync_not_loaded, check_sync, check_again, resync, enforce_sync,
  on_change, leader_state_of, recurring_func, recurring_sync_func, recurring_sync_enforce_func,
}

-- The step leaves it alone who leads.
pub record Keeps {W E A : Type 0} (s : Step W E A) : Type 0 where
  pub at : (m : Manager) (w : W) → (s m w).1.leader_state ≡ m.leader_state

module _ {W E : Type 0} where
  continue-Keeps :
      {A B : Type 0} (r : Outcome E A × Manager × W) (f : A → Step W E B)
      → ((a : A) → Keeps (f a))
      → (continue r f).1.leader_state ≡ r.1.leader_state
  continue-Keeps (ok a, m, w) f k = (k a).at m w
  continue-Keeps (err e, m, w) f k = refl

  Keeps-bind :
      {A B : Type 0} (s : Step W E A) (f : A → Step W E B)
      → Keeps s
      → ((a : A) → Keeps (f a))
      → Keeps (s >>= f)
  Keeps-bind s f h k = record { at = λ m w. continue-Keeps (s m w) f k ∙ h.at m w }

  Keeps-pure : {A : Type 0} (a : A) → Keeps (pure {W = W} {E = E} a)
  Keeps-pure a = record { at = λ m w. refl }

  Keeps-ask : {A : Type 0} (call : W → Outcome E A × W) → Keeps (ask call)
  Keeps-ask call = record { at = λ m w. refl }

keep_each-Keeps :
    (ts : List RecurringTask) (m : Manager) → (keep_each ts m).leader_state ≡ m.leader_state
unfolding keep_each
keep_each-Keeps [] m = refl
keep_each-Keeps (t ∷ ts) m =
    let kept = record m { scheduled_tasks = insert t m.scheduled_tasks } in
    keep_each-Keeps ts (if t.is_deleted then m else kept) ∙ either t.is_deleted m kept refl
  where
    either :
        (b : Bool) (m m' : Manager)
        → m'.leader_state ≡ m.leader_state
        → (if b then m else m').leader_state ≡ m.leader_state
    either true m m' h = refl
    either false m m' h = h

module _ {W E : Type 0} (scheduler : Scheduler W) (service : Service W E) where
  unschedule_and_remove-Keeps :
      (t : RecurringTask) → Keeps (unschedule_and_remove scheduler service t)
  unfolding unschedule_and_remove
  unschedule_and_remove-Keeps t = record { at = λ m w. refl }

  schedule_and_add_to_list-Keeps :
      (t : RecurringTask) (loaded : List RecurringTask)
      → Keeps (schedule_and_add_to_list scheduler service t loaded)
  unfolding schedule_and_add_to_list
  schedule_and_add_to_list-Keeps t loaded = record { at = λ m w. refl }

  unschedule_each-Keeps : (ts : List RecurringTask) → Keeps (unschedule_each scheduler service ts)
  unfolding unschedule_each
  unschedule_each-Keeps [] = Keeps-pure tt
  unschedule_each-Keeps (t ∷ ts) =
      Keeps-bind (unschedule_and_remove scheduler service t)
        (λ _. unschedule_each scheduler service ts) (unschedule_and_remove-Keeps t)
        (λ _. unschedule_each-Keeps ts)

  schedule_each-Keeps :
      (ts loaded : List RecurringTask) → Keeps (schedule_each scheduler service ts loaded)
  unfolding schedule_each
  schedule_each-Keeps [] loaded = Keeps-pure loaded
  schedule_each-Keeps (t ∷ ts) loaded =
      Keeps-bind (schedule_and_add_to_list scheduler service t loaded)
        (schedule_each scheduler service ts) (schedule_and_add_to_list-Keeps t loaded)
        (schedule_each-Keeps ts)

  reschedule_each-Keeps :
      (ts acked : List RecurringTask) → Keeps (reschedule_each scheduler service ts acked)
  unfolding reschedule_each
  reschedule_each-Keeps [] acked = Keeps-pure acked
  reschedule_each-Keeps (t ∷ ts) acked =
      let again = reschedule_each scheduler service ts in
      let add = schedule_and_add_to_list scheduler service t acked in
      Keeps-bind (unschedule_and_remove scheduler service t) (λ _. add >>= again)
        (unschedule_and_remove-Keeps t)
        (λ _.
          Keeps-bind add again (schedule_and_add_to_list-Keeps t acked) (reschedule_each-Keeps ts))

  keep_loaded-Keeps : (r : MultiUpdateResult) → Keeps (keep_loaded scheduler service r)
  unfolding keep_loaded
  keep_loaded-Keeps r = record {
    at = λ m w.
        continue-Keeps (unschedule_each scheduler service r.not_founds m w)
          (λ _ m w. (
            ok tt,
            keep_each (map (λ r. r.recurring_task) r.others)
                (keep_each (r.successes ++ r.version_conflicts) m),
            w,
          ))
          (λ _. record {
            at = λ m w.
                keep_each-Keeps (map (λ r. r.recurring_task) r.others)
                  (keep_each (r.successes ++ r.version_conflicts) m)
                ∙ keep_each-Keeps (r.successes ++ r.version_conflicts) m;
          })
        ∙ (unschedule_each-Keeps r.not_founds).at m w;
  }

  mark_as_loaded-Keeps : (ts : List RecurringTask) → Keeps (mark_as_loaded scheduler service ts)
  unfolding mark_as_loaded
  mark_as_loaded-Keeps [] = Keeps-pure tt
  mark_as_loaded-Keeps (t ∷ ts) =
      Keeps-bind (ask (service.mark_loaded (t ∷ ts))) (keep_loaded scheduler service)
        (Keeps-ask (service.mark_loaded (t ∷ ts))) keep_loaded-Keeps

  stop_all-Keeps : Keeps (stop_all scheduler service)
  unfolding stop_all
  stop_all-Keeps = record { at = λ m w. (unschedule_each-Keeps m.scheduled_tasks).at m w }

  complete_reload-Keeps : Keeps (complete_reload scheduler service)
  unfolding complete_reload
  complete_reload-Keeps =
      let mark = mark_as_loaded scheduler service in
      let schedule : List RecurringTask → Step W E Unit =
        λ all. schedule_each scheduler service all [] >>= mark in
      Keeps-bind (stop_all scheduler service) (λ _. ask service.all >>= schedule) stop_all-Keeps
        (λ _. Keeps-bind (ask service.all) schedule (Keeps-ask service.all) (λ all.
          Keeps-bind (schedule_each scheduler service all []) mark (schedule_each-Keeps all [])
            mark_as_loaded-Keeps))

  sync_not_loaded-Keeps : Keeps (sync_not_loaded scheduler service)
  unfolding sync_not_loaded
  sync_not_loaded-Keeps =
      let mark : List RecurringTask → List RecurringTask → Step W E Unit =
        λ all scheduled. mark_as_loaded scheduler service (deleted_of all ++ scheduled) in
      let reload : List RecurringTask → Step W E Unit =
        λ all. reschedule_each scheduler service (live_of all) [] >>= mark all in
      let sync : List RecurringTask → Step W E Unit =
        λ all. unschedule_each scheduler service (deleted_of all) >>= λ _. reload all in
      Keeps-bind (ask service.not_loaded) sync (Keeps-ask service.not_loaded) (λ all.
        Keeps-bind (unschedule_each scheduler service (deleted_of all)) (λ _. reload all)
          (unschedule_each-Keeps (deleted_of all))
          (λ _.
            Keeps-bind (reschedule_each scheduler service (live_of all) []) (mark all)
              (reschedule_each-Keeps (live_of all) [])
              (λ scheduled. mark_as_loaded-Keeps (deleted_of all ++ scheduled))))

  check_sync-Keeps : Keeps (check_sync scheduler service)
  unfolding check_sync
  check_sync-Keeps =
      Keeps-bind (ask service.all) (λ all m w. (ok (compare all m.scheduled_tasks), m, w))
        (Keeps-ask service.all) (λ all. record { at = λ m w. refl })

  Keeps-if : (b : Bool) (s t : Step W E Unit) → Keeps s → Keeps t → Keeps (if b then s else t)
  Keeps-if true s t h k = h
  Keeps-if false s t h k = k

  check_again-Keeps : Keeps (check_again scheduler service)
  unfolding check_again
  check_again-Keeps =
      Keeps-bind (check_sync scheduler service)
        (λ r. if needs_resync r then complete_reload scheduler service else pure tt)
        check_sync-Keeps
        (λ r.
          Keeps-if (needs_resync r) (complete_reload scheduler service) (pure tt)
            complete_reload-Keeps (Keeps-pure tt))

  resync-Keeps : (r : SyncCheckResults) → Keeps (resync scheduler service r)
  unfolding resync
  resync-Keeps r =
      let stale = r.not_in_memory ++ r.version_mismatch in
      let again = check_again scheduler service in
      let finish : List RecurringTask → Step W E Unit =
        λ acked. mark_as_loaded scheduler service acked >>= λ _. again in
      Keeps-bind (unschedule_each scheduler service r.not_in_data_store)
        (λ _. reschedule_each scheduler service stale [] >>= finish)
        (unschedule_each-Keeps r.not_in_data_store)
        (λ _.
          Keeps-bind (reschedule_each scheduler service stale []) finish
            (reschedule_each-Keeps stale [])
            (λ acked.
              Keeps-bind (mark_as_loaded scheduler service acked) (λ _. again)
                (mark_as_loaded-Keeps acked) (λ _. check_again-Keeps)))

  enforce_sync-Keeps : Keeps (enforce_sync scheduler service)
  unfolding enforce_sync
  enforce_sync-Keeps =
      Keeps-bind (check_sync scheduler service)
        (λ r. if needs_resync r then resync scheduler service r else pure tt) check_sync-Keeps
        (λ r.
          Keeps-if (needs_resync r) (resync scheduler service r) (pure tt) (resync-Keeps r)
            (Keeps-pure tt))

  on_change-Keeps :
      (before now : LeaderState) (f : Step W E Unit)
      → Keeps f
      → Keeps (on_change scheduler service before now f)
  unfolding on_change
  on_change-Keeps not_leader leader f h = complete_reload-Keeps
  on_change-Keeps leader leader f h = h
  on_change-Keeps leader not_leader f h = stop_all-Keeps
  on_change-Keeps not_leader not_leader f h = Keeps-pure tt

  recurring_func_lem :
      (f : Step W E Unit) (is_leader : Bool) (m : Manager) (w : W)
      → Keeps f
      → (recurring_func scheduler service f is_leader m w).1.leader_state
        ≡ leader_state_of scheduler service is_leader
  unfolding recurring_func
  recurring_func_lem f is_leader m w h =
      let now = leader_state_of scheduler service is_leader in
      (on_change-Keeps m.leader_state now f h).at (record m { leader_state = now }) w

  -- After either function of the manager, whether it succeeds or fails, the manager holds what the
  -- lock said about who leads.
  pub leader_state_kept :
      (is_leader : Bool) (m : Manager) (w : W)
      → ((recurring_sync_func scheduler service is_leader m w).1.leader_state
          ≡ leader_state_of scheduler service is_leader)
        × ((recurring_sync_enforce_func scheduler service is_leader m w).1.leader_state
            ≡ leader_state_of scheduler service is_leader)
  unfolding recurring_sync_func recurring_sync_enforce_func
  leader_state_kept is_leader m w = (
    recurring_func_lem (sync_not_loaded scheduler service) is_leader m w sync_not_loaded-Keeps,
    recurring_func_lem (enforce_sync scheduler service) is_leader m w enforce_sync-Keeps,
  )
