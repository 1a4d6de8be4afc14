-- ===== src/Examples/Recurring.antt =====
-- The manager of internal/domain/task/recurring/manager.go with one recurring task.
use tasques.Prelude.{pos, String, true, false, ◌≡◌, ◌↔◌, none, List, [], ◌∷◌, ok, All}
use tasques.Domain.Recurring.{RecurringTask, Scheduler, Service}
use tasques.Domain.Recurring.Manager.{
  leader, compare, needs_resync, new_manager, recurring_sync_func, recurring_sync_enforce_func,
}
use tasques.Domain.Recurring.Manager.State.{leader_state_kept}
use tasques.Domain.Recurring.Manager.Comparison.{Has, Agrees, needs_resync-compare}

abbrev pub hourly : RecurringTask
hourly = record {
  id = "hourly";
  schedule_expression = "@every 1h";
  task_definition = record {
    queue = "jobs";
    retry_times = 1;
    kind = "sum";
    priority = pos 0;
    processing_timeout = pos 5;
    args = none;
    context = none;
  };
  is_deleted = false;
  loaded_at = none;
  skip_if_outstanding_tasks_exist = false;
  metadata = record {
    created_at = pos 1;
    modified_at = pos 1;
    version = record { seq_num = 0; primary_term = 1 };
  };
}

-- The world is the list of the ids that are scheduled.
abbrev scheduler : Scheduler (List String)
scheduler = record { schedule = λ t w. (true, t.id ∷ w); unschedule = λ id w. (true, []) }

abbrev service : Service (List String) (Unit {0})
service = record {
  all = λ w. (ok (hourly ∷ []), w);
  not_loaded = λ w. (ok [], w);
  mark_loaded = λ ts w.
      (ok (record { successes = ts; version_conflicts = []; not_founds = []; others = [] }), w);
}

needs_resync-compare_example :
    (needs_resync (compare (hourly ∷ []) []) ≡ false)
    ↔ (All (Has []) (hourly ∷ []) × All (Agrees []) (hourly ∷ []) × All (Has (hourly ∷ [])) [])
needs_resync-compare_example = needs_resync-compare (hourly ∷ []) []

leader_state_kept_example :
    ((recurring_sync_func scheduler service true new_manager []).1.leader_state ≡ leader)
    × ((recurring_sync_enforce_func scheduler service true new_manager []).1.leader_state ≡ leader)
leader_state_kept_example = leader_state_kept scheduler service true new_manager []
