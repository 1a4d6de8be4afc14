-- ===== src/Examples/Scans.antt =====
-- The archiving of internal/infra/elasticsearch/task/service.go on a server with one task to archive, on
-- the first of two pages; the world counts the bulk requests.
use tasques.Prelude.{ℕ, pos, suc, ◌≡◌, refl, some, [], ◌∷◌, ok, arith}
use tasques.Domain.Json.{empty}
use tasques.Es.Client.{response}
use tasques.Es.Tasks.Persisted.{to_domain_task, to_persisted_task}
use tasques.Es.Tasks.Queries.{SearchBody, build_archivable_search_body}
use tasques.Es.Tasks.Service.{TaskClient}
use tasques.Es.Tasks.Bulk.{send_bulk, bulk_answer, bulk_archive_tasks}
use tasques.Es.Tasks.Claim.{returned}
use tasques.Es.Tasks.Scan.{
  TasksWithScrollId, process_scroll_resp, init_search, scroll, clear_scroll, scan_tasks,
  archive_batch,
}
use tasques.Es.Tasks.Scan.Pages.{scan_tasks-Passed}
use tasques.Examples.Clocks.{idle, ticking}
use tasques.Examples.Tasks.{waiting}

abbrev paged : TaskClient ℕ
paged = record idle {
  bulk = λ ops n. (response 200 (some []), suc n);
  search_scroll = λ index q wait n. (
    response 200 (
        some (record {
          scroll_id = "1";
          hits =
              record {
                id = "a";
                version = record { seq_num = 7; primary_term = 1 };
                source = to_persisted_task waiting;
              }
              ∷ [];
        })),
    n,
  );
  scroll = λ id wait n. (response 200 (some (record { scroll_id = "2"; hits = [] })), n);
  clear_scroll = λ ids n. (response 200 (some tt), n);
}

abbrev body : SearchBody
body = build_archivable_search_body (pos 50) 10

abbrev first_page : TasksWithScrollId
first_page = record {
  scroll_id = "1";
  tasks =
      record waiting {
        metadata = record waiting.metadata { version = record { seq_num = 7; primary_term = 1 } };
      }
      ∷ [];
}

abbrev last_page : TasksWithScrollId
last_page = record { scroll_id = "2"; tasks = [] }

first_served : init_search paged ticking empty body (pos 5) 0 ≡ (ok first_page, 0)
unfolding init_search process_scroll_resp to_domain_task to_persisted_task
first_served = refl

archived : archive_batch paged ticking empty first_page.tasks 0 ≡ (ok tt, 1)
unfolding archive_batch bulk_archive_tasks send_bulk bulk_answer
archived = refl

last_served : scroll paged ticking empty "1" (pos 5) 1 ≡ (ok last_page, 1)
unfolding scroll process_scroll_resp
last_served = refl

scan_tasks-Passed_example :
    scan_tasks paged ticking empty 2 body (pos 5) (archive_batch paged ticking empty) 0
    ≡ (ok (returned tt), clear_scroll paged ticking empty ("1" ∷ "2" ∷ []) 1)
scan_tasks-Passed_example =
    scan_tasks-Passed paged ticking empty (archive_batch paged ticking empty) (pos 5) body
      first_page (last_page ∷ []) 2 0 0 1 first_served
      (1, (_, [], 1, refl, archived, last_served), (refl, refl)) (omega arith)
