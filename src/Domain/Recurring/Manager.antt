-- ===== src/Domain/Recurring/Manager.antt =====
-- internal/domain/task/recurring/manager.go: the manager keeps in memory what it has scheduled, as long
-- as its process leads. The map from ids is a list of tasks with different ids; Go goes over a map in
-- any order, and the model in the order of the list. The mutex keeps the calls apart.
pub mod Comparison
pub mod Distinct
pub mod Laws
pub mod Leadership
pub mod Memory
pub mod State
use tasques.Prelude.{
  String, Bool, true, false, ◌||◌, not, Option, none, some, List, [], ◌∷◌, ◌++◌, map, Outcome, ok,
  err, str_eq, if◌then◌else◌,
}
use tasques.Domain.Metadata.{version_eq}
use tasques.Domain.Recurring.{
  RecurringTask, BulkUpdateOtherError, MultiUpdateResult, Scheduler, Service,
}

pub data LeaderState : Type 0 where
  not_leader leader : LeaderState

-- `impl`, without what it is given.
pub record Manager : Type 0 where
  pub scheduled_tasks : List RecurringTask
  pub leader_state : LeaderState

unfoldable pub new_manager : Manager
new_manager = record { scheduled_tasks = []; leader_state = not_leader }

-- `scheduledTasks[id]`
unfoldable pub lookup : String → List RecurringTask → Option RecurringTask
lookup id [] = none
lookup id (t ∷ ts) = if str_eq id t.id then some t else lookup id ts

-- `delete(scheduledTasks, id)`
unfoldable pub delete : String → List RecurringTask → List RecurringTask
delete id [] = []
delete id (t ∷ ts) = let rest = delete id ts in if str_eq id t.id then rest else t ∷ rest

-- `scheduledTasks[t.ID] = t`
unfoldable pub insert : RecurringTask → List RecurringTask → List RecurringTask
unfolding delete
insert t ts = t ∷ delete t.id ts

abbrev pub remove : String → Manager → Manager
remove id m = record m { scheduled_tasks = delete id m.scheduled_tasks }

-- The loops that put tasks into the map: deleted ones are passed over.
unfoldable pub keep_each : List RecurringTask → Manager → Manager
keep_each [] m = m
keep_each (t ∷ ts) m =
    keep_each ts
      (if t.is_deleted then m else record m { scheduled_tasks = insert t m.scheduled_tasks })

abbrev pub deleted_of : List RecurringTask → List RecurringTask
deleted_of [] = []
deleted_of (t ∷ ts) = let rest = deleted_of ts in if t.is_deleted then t ∷ rest else rest

abbrev pub live_of : List RecurringTask → List RecurringTask
live_of [] = []
live_of (t ∷ ts) = let rest = live_of ts in if t.is_deleted then rest else t ∷ rest

pub record SyncCheckResults : Type 0 where
  pub not_in_data_store : List RecurringTask
  pub not_in_memory : List RecurringTask
  pub version_mismatch : List RecurringTask

abbrev pub missing_in : List RecurringTask → List RecurringTask → List RecurringTask
missing_in memory [] = []
missing_in memory (t ∷ ts) =
    let rest = missing_in memory ts in elim (lookup t.id memory) [ none ↦ t ∷ rest | some u ↦ rest ]

abbrev pub mismatched : List RecurringTask → List RecurringTask → List RecurringTask
mismatched memory [] = []
mismatched memory (t ∷ ts) =
    let rest = mismatched memory ts in
    elim (lookup t.id memory) [
      | none ↦ rest
      | some u ↦ if version_eq u.metadata.version t.metadata.version then rest else t ∷ rest
    ]

-- The comparisons of `checkSync`.
unfoldable pub compare : List RecurringTask → List RecurringTask → SyncCheckResults
compare from_data_store in_memory = record {
  not_in_data_store = missing_in from_data_store in_memory;
  not_in_memory = missing_in in_memory from_data_store;
  version_mismatch = mismatched in_memory from_data_store;
}

abbrev pub is_empty : List RecurringTask → Bool
is_empty [] = true
is_empty (t ∷ ts) = false

unfoldable pub needs_resync : SyncCheckResults → Bool
needs_resync s =
    not (is_empty s.not_in_data_store)
    || not (is_empty s.not_in_memory)
    || not (is_empty s.version_mismatch)

-- A step of the manager: it changes the manager and the world, also where it fails.
abbrev pub Step : Type 0 → Type 0 → Type 0 → Type 0
Step W E A = Manager → W → Outcome E A × Manager × W

-- `if err != nil { return err }`
module _ {W E A B : Type 0} where
  abbrev pub continue : Outcome E A × Manager × W → (A → Step W E B) → Outcome E B × Manager × W
  continue (ok a, m, w) f = f a m w
  continue (err e, m, w) f = (err e, m, w)

  infixl 5 ◌>>=◌
  abbrev pub ◌>>=◌ : Step W E A → (A → Step W E B) → Step W E B
  ◌>>=◌ s f m w = continue (s m w) f

module _ {W E A : Type 0} where
  abbrev pub pure : A → Step W E A
  pure a m w = (ok a, m, w)

  -- A call of the service.
  abbrev pub ask : (W → Outcome E A × W) → Step W E A
  ask call m w = let (r, w') = call w in (r, m, w')

module _ {W E : Type 0} (scheduler : Scheduler W) (service : Service W E) where
  -- unscheduleAndRemoveFromScheduledTasksState
  unfoldable pub unschedule_and_remove : RecurringTask → Step W E Unit
  unschedule_and_remove t m w =
      let (done, w') = scheduler.unschedule t.id w in (ok tt, remove t.id m, w')

  unfoldable pub unschedule_each : List RecurringTask → Step W E Unit
  unschedule_each [] = pure tt
  unschedule_each (t ∷ ts) = unschedule_and_remove t >>= λ _. unschedule_each ts

  unfoldable pub stop_all : Step W E Unit
  stop_all m = unschedule_each m.scheduled_tasks m

  -- scheduleAndAddToList
  unfoldable pub schedule_and_add_to_list :
      RecurringTask → List RecurringTask → Step W E (List RecurringTask)
  schedule_and_add_to_list t loaded m w =
      let (success, w') = scheduler.schedule t w in
      (ok (if success then loaded ++ (t ∷ []) else loaded), m, w')

  unfoldable pub schedule_each :
      List RecurringTask → List RecurringTask → Step W E (List RecurringTask)
  schedule_each [] loaded = pure loaded
  schedule_each (t ∷ ts) loaded = schedule_and_add_to_list t loaded >>= schedule_each ts

  -- The loops that unschedule a task and schedule it again.
  unfoldable pub reschedule_each :
      List RecurringTask → List RecurringTask → Step W E (List RecurringTask)
  reschedule_each [] acked = pure acked
  reschedule_each (t ∷ ts) acked = do
    _ ← unschedule_and_remove t
    acked' ← schedule_and_add_to_list t acked
    reschedule_each ts acked'

  -- markAsLoadedAndUpdateScheduledTasksState
  unfoldable pub keep_loaded : MultiUpdateResult → Step W E Unit
  keep_loaded result = do
    _ ← unschedule_each result.not_founds
    λ m w. (
      ok tt,
      keep_each (map (λ r. r.recurring_task) result.others)
          (keep_each (result.successes ++ result.version_conflicts) m),
      w,
    )

  unfoldable pub mark_as_loaded : List RecurringTask → Step W E Unit
  mark_as_loaded [] = pure tt
  mark_as_loaded (t ∷ ts) = ask (service.mark_loaded (t ∷ ts)) >>= keep_loaded

  unfoldable pub complete_reload : Step W E Unit
  complete_reload = do
    _ ← stop_all
    all ← ask service.all
    loaded ← schedule_each all []
    mark_as_loaded loaded

  unfoldable pub sync_not_loaded : Step W E Unit
  sync_not_loaded = do
    not_loadeds ← ask service.not_loaded
    _ ← unschedule_each (deleted_of not_loadeds)
    scheduled ← reschedule_each (live_of not_loadeds) []
    mark_as_loaded (deleted_of not_loadeds ++ scheduled)

  unfoldable pub check_sync : Step W E SyncCheckResults
  check_sync = do all ← ask service.all; λ m w. (ok (compare all m.scheduled_tasks), m, w)

  -- The last part of `enforceSync`.
  unfoldable pub check_again : Step W E Unit
  check_again = do results ← check_sync; if needs_resync results then complete_reload else pure tt

  unfoldable pub resync : SyncCheckResults → Step W E Unit
  resync results = do
    _ ← unschedule_each results.not_in_data_store
    acked ← reschedule_each (results.not_in_memory ++ results.version_mismatch) []
    _ ← mark_as_loaded acked
    check_again

  unfoldable pub enforce_sync : Step W E Unit
  enforce_sync = do results ← check_sync; if needs_resync results then resync results else pure tt

  -- The four cases of `recurringFunc`; the fifth is of states that are never stored.
  unfoldable pub on_change : LeaderState → LeaderState → Step W E Unit → Step W E Unit
  on_change not_leader leader if_still_leader = complete_reload
  on_change leader leader if_still_leader = if_still_leader
  on_change leader not_leader if_still_leader = stop_all
  on_change not_leader not_leader if_still_leader = pure tt

  abbrev pub leader_state_of : Bool → LeaderState
  leader_state_of true = leader
  leader_state_of false = not_leader

  -- `is_leader` is what the lock answers.
  unfoldable pub recurring_func : Step W E Unit → Bool → Step W E Unit
  recurring_func if_still_leader is_leader m =
      on_change m.leader_state (leader_state_of is_leader) if_still_leader
        (record m { leader_state = leader_state_of is_leader })

  unfoldable pub recurring_sync_func : Bool → Step W E Unit
  recurring_sync_func = recurring_func sync_not_loaded

  unfoldable pub recurring_sync_enforce_func : Bool → Step W E Unit
  recurring_sync_enforce_func = recurring_func enforce_sync
