-- ===== src/Es/Tasks/Queries.antt =====
-- The searches of internal/infra/elasticsearch/task/service.go, and what they ask for. A search body
-- is a `bool` filter whose clauses must all hold; a `should` of terms is one clause.
use tasques.Prelude.{ℕ, ℤ, String, Bool, true, false, Option, none, some, List, [], ◌∷◌}
use tasques.Domain.Task.{queued, claimed, failed, done, dead}
use tasques.Domain.Task.StateText.{to_string}

pub data Field : Type 0 where
  run_at remaining_attempts state times_out_at result_at recurring_task_id : Field
  priority created_at : Field

pub data Order : Type 0 where
  asc desc : Order

pub data Clause : Type 0 where
  lte : Field → ℤ → Clause
  gt : Field → ℕ → Clause
  term : Field → String → Clause
  should : Field → List String → Clause

pub record SearchBody : Type 0 where
  pub size : Option ℕ
  pub seq_no_primary_term : Bool
  pub sort : List (Field × Order)
  pub must : List Clause

unfoldable pub build_claimable_query_body : ℕ → ℤ → SearchBody
build_claimable_query_body limit now_utc = record {
  size = some limit;
  seq_no_primary_term = true;
  sort = (priority, desc) ∷ (run_at, asc) ∷ (remaining_attempts, desc) ∷ [];
  must =
      lte run_at now_utc
      ∷ gt remaining_attempts 0
      ∷ should state (to_string queued ∷ to_string failed ∷ [])
      ∷ [];
}

unfoldable pub build_timed_out_search_body : ℤ → ℕ → SearchBody
build_timed_out_search_body now_utc page_size = record {
  size = some page_size;
  seq_no_primary_term = true;
  sort = (run_at, asc) ∷ [];
  must = lte times_out_at now_utc ∷ term state (to_string claimed) ∷ [];
}

unfoldable pub build_archivable_search_body : ℤ → ℕ → SearchBody
build_archivable_search_body archive_finished_before page_size = record {
  size = some page_size;
  seq_no_primary_term = true;
  sort = (result_at, asc) ∷ (run_at, asc) ∷ (created_at, asc) ∷ [];
  must =
      lte result_at archive_finished_before
      ∷ should state (to_string done ∷ to_string dead ∷ [])
      ∷ [];
}

unfoldable pub build_outstanding_tasks_count_query : String → SearchBody
build_outstanding_tasks_count_query id = record {
  size = none;
  seq_no_primary_term = false;
  sort = [];
  must =
      term recurring_task_id id
      ∷ should state (to_string queued ∷ to_string failed ∷ to_string claimed ∷ [])
      ∷ [];
}
