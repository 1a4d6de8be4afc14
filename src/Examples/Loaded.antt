-- ===== src/Examples/Loaded.antt =====
-- Recurring tasks with internal/infra/elasticsearch/task/recurring/service.go, and the manager of
-- internal/domain/task/recurring/manager.go over a lawful scheduler and service.
use tasques.Prelude.{
  ℕ, ◌≡◌, ◌≢◌, refl, ap, pos, String, str_eq_iff, true, false, Option, none, some, List, [], ◌∷◌,
  map, Outcome, ok, All, All-map, append-nil, subst, sym, arith,
}
use tasques.Domain.Recurring.{RecurringTask, MultiUpdateResult, Scheduler, Service}
use tasques.Domain.Recurring.Manager.{
  lookup, insert, delete, new_manager, recurring_sync_func, recurring_sync_enforce_func,
}
use tasques.Domain.Recurring.Manager.Memory.{
  Distinct, lookup-insert_self, lookup-insert_ne, lookup-delete_self, lookup-delete_ne,
}
use tasques.Domain.Recurring.Manager.Laws.{SchedulerLaws, ServiceLaws, From, kept_of}
use tasques.Domain.Recurring.InSync.{InSync}
use tasques.Domain.Recurring.InSync.Syncs.{recurring_funcs-InSync}
use tasques.Es.Common.{EsBulkResponseItem, info, is_ok, version}
use tasques.Es.Client.{Hit, Runtime, no_response, response}
use tasques.Es.Recurring.Persisted.{
  PersistedRecurringTaskData, domain_to_persistable, persisted_to_domain,
  domain_task_def_to_persistable, persisted_task_def_to_domain_task_def,
}
use tasques.Es.Recurring.Queries.{RecurringSearchBody, build_undeleted_list_search_body}
use tasques.Es.Recurring.Service.{
  RecurringClient, sort_result, sort_results, send_marks, bulk_answer, build_update_bulk_op,
  mark_loaded, loaded,
}
use tasques.Es.Recurring.Scan.{
  RecurringTasksWithScrollId, init_search, scroll, clear_scroll, process_scroll_resp,
  scan_recurring_tasks,
}
use tasques.Es.Recurring.Scan.Pages.{scan_recurring_tasks-Served}
use tasques.Es.Recurring.Service.Sorted.{From-add, From-head}
use tasques.Es.Recurring.Service.Placed.{count_of, times_in, IsPlaced}
use tasques.Es.Recurring.Service.Marks.{mark_loaded-All}
use tasques.Examples.Recurring.{hourly}

-- The world is what is scheduled.
abbrev runs : List RecurringTask → String → Option RecurringTask
runs w id = lookup id w

abbrev scheduler : Scheduler (List RecurringTask)
scheduler = record {
  schedule = λ t w. (true, insert t w);
  unschedule = λ id w. (true, delete id w);
}

abbrev scheduler-SchedulerLaws : SchedulerLaws scheduler runs
scheduler-SchedulerLaws = record {
  scheduled =
      λ t w w' e. subst (λ x. lookup t.id x ≡ some t) (ap (λ r. r.1) e) (lookup-insert_self t w);
  schedule_other = λ t w id n. lookup-insert_ne id t w n;
  unscheduled = λ id w. lookup-delete_self id w;
  unschedule_other = λ k w id n. lookup-delete_ne id k w n;
}

abbrev service : Service (List RecurringTask) (Unit {0})
service = record {
  all = λ w. (ok (hourly ∷ []), w);
  not_loaded = λ w. (ok (hourly ∷ []), w);
  mark_loaded = λ ts w.
      (ok (record { successes = ts; version_conflicts = []; not_founds = []; others = [] }), w);
}

From-all : (ts : List RecurringTask) → Distinct ts → All (λ t. From ts t × Unit {0}) ts
From-all [] d = tt
From-all (t ∷ ts) (a, d) = (
  (
    From-head t ts t refl
        (record { expression = refl; definition = refl; skips = refl; deleted = refl }),
    tt,
  ),
  All-map (λ x. From ts x × Unit {0}) (λ x. From (t ∷ ts) x × Unit {0}) ts
      (λ x (f, u). (From-add t ts x a f, u)) (From-all ts d),
)

marked_all :
    (ts : List RecurringTask) (w w' : List RecurringTask) (r : MultiUpdateResult)
    → service.mark_loaded ts w ≡ (ok r, w')
    → Distinct ts
    → All (λ t. From ts t × All (λ n. t.id ≢ n.id) r.not_founds) (kept_of r)
marked_all ts w w' r h d =
    let all : MultiUpdateResult = record {
      successes = ts;
      version_conflicts = [];
      not_founds = [];
      others = [];
    } in
    let same : all ≡ r = ground arith in
    subst (λ x. All (λ t. From ts t × All (λ n. t.id ≢ n.id) x.not_founds) (kept_of x)) same
      (subst (All (λ t. From ts t × Unit {0})) (sym (append-nil ts)) (From-all ts d))

listed :
    (w w' : List RecurringTask) (ts : List RecurringTask)
    → ◌≡◌ {A = Outcome (Unit {0}) (List RecurringTask) × List RecurringTask}
        (ok (hourly ∷ []), w)
        (ok ts, w')
    → Distinct ts
listed w w' ts h = let same : (hourly ∷ []) ≡ ts = ground arith in subst Distinct same (tt, tt)

service-ServiceLaws : ServiceLaws service runs
service-ServiceLaws = record {
  all_distinct = listed;
  not_loaded_distinct = listed;
  mark_result = marked_all;
  all_runs = λ w id. refl;
  not_loaded_runs = λ w id. refl;
  mark_runs = λ ts w id. refl;
}

new_manager-InSync : InSync runs new_manager []
unfolding lookup new_manager
new_manager-InSync = record { at = λ id t f. absurd (ground arith) }

recurring_funcs-InSync_example :
    InSync runs
      (recurring_sync_func scheduler service true new_manager []).1
      (recurring_sync_func scheduler service true new_manager []).2
    × InSync runs
        (recurring_sync_enforce_func scheduler service true new_manager []).1
        (recurring_sync_enforce_func scheduler service true new_manager []).2
recurring_funcs-InSync_example =
    recurring_funcs-InSync scheduler service runs scheduler-SchedulerLaws service-ServiceLaws true
      new_manager [] new_manager-InSync

abbrev daily : RecurringTask
daily = record hourly { id = "daily" }

-- A server that marks the first task and has lost the second, and a scroll of two pages.
abbrev item : ℕ → EsBulkResponseItem
item status = record {
  index = some (record {
    index = ".tasques_recurring_tasks";
    id = "";
    seq_num = 7;
    primary_term = 1;
    result = "";
    status = status;
  });
  delete = none;
  create = none;
  update = none;
}

abbrev pub hit : Hit PersistedRecurringTaskData
hit = record {
  id = "hourly";
  version = record { seq_num = 0; primary_term = 1 };
  source = domain_to_persistable hourly (pos 1);
}

abbrev remote : RecurringClient (Unit {0})
remote = record {
  get = λ index id w. (no_response, w);
  create = λ index id source w. (no_response, w);
  put = λ index id source v w. (no_response, w);
  bulk = λ ops w. (response 200 (some (item 200 ∷ item 404 ∷ [])), w);
  search = λ indices q w. (no_response, w);
  search_scroll =
      λ index q wait w. (response 200 (some (record { scroll_id = "1"; hits = hit ∷ [] })), w);
  scroll = λ id wait w. (response 200 (some (record { scroll_id = "2"; hits = [] })), w);
  clear_scroll = λ ids w. (response 200 (some tt), w);
  refresh = λ index w. (response 200 (some tt), w);
  count = λ index q w. (no_response, w);
  marshals = λ source. true;
  is_error = λ status. false;
}

abbrev clock : Runtime (Unit {0})
clock = record {
  get_utc = λ w. (pos 100, w);
  sleep = λ wait w. w;
  rand_intn = λ n w. (0, w);
  new_id = λ w. ("fresh", w);
}

abbrev marks : MultiUpdateResult
marks = record {
  successes =
      record hourly {
        loaded_at = some (pos 100);
        metadata = record hourly.metadata { version = record { seq_num = 7; primary_term = 1 } };
      }
      ∷ [];
  version_conflicts = [];
  not_founds = record daily { loaded_at = some (pos 100) } ∷ [];
  others = [];
}

marks_both : mark_loaded remote clock (hourly ∷ daily ∷ []) tt ≡ (ok (some marks), tt)
unfolding mark_loaded send_marks bulk_answer sort_results sort_result info is_ok version
    build_update_bulk_op domain_to_persistable
marks_both = refl

two_ids : Distinct (hourly ∷ daily ∷ [])
two_ids = (((λ e. absurd (ground (arith, str_eq_iff hourly.id daily.id))), tt), (tt, tt))

mark_loaded-All_example :
    (items : List EsBulkResponseItem) × ((send_marks remote clock
        (map (loaded (pos 100)) (hourly ∷ daily ∷ []))
        (pos 100)
        tt).0
      ≡ ok items)
    × IsPlaced (hourly ∷ daily ∷ []) items marks
    × ((id : String) → times_in id marks ≡ count_of id (hourly ∷ daily ∷ []))
    × All
        (λ t. From (hourly ∷ daily ∷ []) t × All (λ n. t.id ≢ n.id) marks.not_founds)
        (kept_of marks)
    × All (From (hourly ∷ daily ∷ [])) marks.not_founds
mark_loaded-All_example =
    mark_loaded-All remote clock (hourly ∷ daily ∷ []) tt tt marks two_ids marks_both

abbrev body : RecurringSearchBody
body = build_undeleted_list_search_body 10

abbrev first_page : RecurringTasksWithScrollId
first_page = record { scroll_id = "1"; recurring_tasks = hourly ∷ [] }

abbrev last_page : RecurringTasksWithScrollId
last_page = record { scroll_id = "2"; recurring_tasks = [] }

first_served : init_search remote clock 10 (pos 5) body tt ≡ (ok first_page, tt)
unfolding init_search process_scroll_resp persisted_to_domain domain_to_persistable
    domain_task_def_to_persistable persisted_task_def_to_domain_task_def
first_served = refl

last_served : scroll remote clock 10 (pos 5) "1" tt ≡ (ok last_page, tt)
unfolding scroll process_scroll_resp
last_served = refl

scan_recurring_tasks-Served_example :
    scan_recurring_tasks remote clock 10 (pos 5) 2 body tt
    ≡ (ok (hourly ∷ []), clear_scroll remote clock 10 (pos 5) ("1" ∷ "2" ∷ []) tt)
scan_recurring_tasks-Served_example =
    scan_recurring_tasks-Served remote clock 10 (pos 5) body first_page (last_page ∷ []) 2 tt tt tt
      first_served (hourly, [], tt, refl, last_served, (refl, refl)) (omega arith)
