-- ===== src/Domain/Recurring/Manager/Leadership.antt =====
-- What a change of leadership does to the manager of internal/domain/task/recurring/manager.go.
use tasques.Prelude.{
  ◌≡◌, refl, ◌∙◌, false, List, [], ◌∷◌, ok, All, inl, inr, Bool-cases, str_eq, str_eq_iff, arith,
}
use tasques.Domain.Recurring.{RecurringTask, Scheduler, Service}
use tasques.Domain.Recurring.Manager.{
  LeaderState, not_leader, leader, Manager, lookup, delete, Step, unschedule_and_remove,
  unschedule_each, stop_all, on_change, recurring_func,
}
use tasques.Domain.Recurring.Manager.Comparison.{Has}

-- A task that is left after a deletion was there under another id.
delete-Has :
    (t : RecurringTask) (ts s : List RecurringTask)
    → All (Has (t ∷ ts)) s
    → All (Has ts) (delete t.id s)
unfolding delete lookup
delete-Has t ts [] h = tt
delete-Has t ts (x ∷ s) (h, k) = elim (Bool-cases (str_eq t.id x.id)) [
  | inl b ↦ rw b (delete-Has t ts s k)
  | inr b ↦
      rw b (
        (h.0, ground (arith, str_eq_iff t.id x.id, str_eq_iff x.id t.id, h.1)),
        delete-Has t ts s k,
      )
]

Has-self : (t : RecurringTask) (ts s : List RecurringTask) → All (Has ts) s → All (Has (t ∷ ts)) s
unfolding lookup
Has-self t ts [] h = tt
Has-self t ts (x ∷ s) (h, k) = elim (Bool-cases (str_eq x.id t.id)) [
  | inl b ↦ ((t, ground arith), Has-self t ts s k)
  | inr b ↦ ((h.0, ground (arith, h.1)), Has-self t ts s k)
]

Has-All : (ts : List RecurringTask) → All (Has ts) ts
unfolding lookup
Has-All [] = tt
Has-All (t ∷ ts) = ((t, ground (arith, str_eq_iff t.id t.id)), Has-self t ts ts (Has-All ts))

Has-none : (s : List RecurringTask) → All (Has []) s → s ≡ []
unfolding lookup
Has-none [] h = refl
Has-none (x ∷ s) h = absurd (ground (arith, h.0.1))

module _ {W E : Type 0} (scheduler : Scheduler W) (service : Service W E) where
  unschedule_each_lem :
      (ts : List RecurringTask) (m : Manager) (w : W)
      → All (Has ts) m.scheduled_tasks
      → ((unschedule_each scheduler service ts m w).0 ≡ ok tt)
        × ((unschedule_each scheduler service ts m w).1.scheduled_tasks ≡ [])
        × ((unschedule_each scheduler service ts m w).1.leader_state ≡ m.leader_state)
  unfolding unschedule_each unschedule_and_remove
  unschedule_each_lem [] m w h = (refl, Has-none m.scheduled_tasks h, refl)
  unschedule_each_lem (t ∷ ts) m w h =
      unschedule_each_lem ts (record m { scheduled_tasks = delete t.id m.scheduled_tasks })
        (scheduler.unschedule t.id w).1 (delete-Has t ts m.scheduled_tasks h)

  -- `stopAll` leaves nothing in memory.
  pub stop_all-empties :
      (m : Manager) (w : W)
      → ((stop_all scheduler service m w).0 ≡ ok tt)
        × ((stop_all scheduler service m w).1.scheduled_tasks ≡ [])
        × ((stop_all scheduler service m w).1.leader_state ≡ m.leader_state)
  unfolding stop_all
  stop_all-empties m w = unschedule_each_lem m.scheduled_tasks m w (Has-All m.scheduled_tasks)

  on_change-not_leader :
      (before : LeaderState) (f : Step W E Unit) (m : Manager) (w : W)
      → m.leader_state ≡ not_leader
      → ((on_change scheduler service before not_leader f m w).0 ≡ ok tt)
        × ((on_change scheduler service before not_leader f m w).1.leader_state ≡ not_leader)
        × (before ≡ leader
            → (on_change scheduler service before not_leader f m w).1.scheduled_tasks ≡ [])
        × (before ≡ not_leader
            → on_change scheduler service before not_leader f m w ≡ (ok tt, m, w))
  unfolding on_change
  on_change-not_leader leader f m w h =
      let (done, empty, state) = stop_all-empties m w in
      (done, state ∙ h, λ e. empty, λ e. absurd (ground arith))
  on_change-not_leader not_leader f m w h = (refl, h, λ e. absurd (ground arith), λ e. refl)

  -- On a process that does not lead, both functions of the manager succeed and record that; if it led
  -- until then, nothing is left in memory afterwards; if it did not, nothing else changes.
  pub recurring_func-not_leader :
      (if_still_leader : Step W E Unit) (m : Manager) (w : W)
      → ((recurring_func scheduler service if_still_leader false m w).0 ≡ ok tt)
        × ((recurring_func scheduler service if_still_leader false m w).1.leader_state ≡ not_leader)
        × (m.leader_state ≡ leader
            → (recurring_func scheduler service if_still_leader false m w).1.scheduled_tasks ≡ [])
        × (m.leader_state ≡ not_leader
            → recurring_func scheduler service if_still_leader false m w
              ≡ (ok tt, record m { leader_state = not_leader }, w))
  unfolding recurring_func
  recurring_func-not_leader f m w =
      on_change-not_leader m.leader_state f (record m { leader_state = not_leader }) w refl
