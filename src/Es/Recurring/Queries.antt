-- ===== src/Es/Recurring/Queries.antt =====
-- The two searches of internal/infra/elasticsearch/task/recurring/service.go.
use tasques.Prelude.{ℕ, Bool, true, false, ◌&&◌, none, some, List, [], ◌∷◌, ◌≡◌, ◌↔◌, arith}
use tasques.Es.Recurring.Persisted.{PersistedRecurringTaskData}

pub data Sort : Type 0 where
  by_id by_modified_at : Sort

pub data Filter : Type 0 where
  is_deleted_term : Bool → Filter
  loaded_at_missing : Filter

pub record RecurringSearchBody : Type 0 where
  pub size : ℕ
  pub seq_no_primary_term : Bool
  pub sort : List Sort
  pub must : List Filter

unfoldable pub build_undeleted_list_search_body : ℕ → RecurringSearchBody
build_undeleted_list_search_body page_size = record {
  size = page_size;
  seq_no_primary_term = true;
  sort = by_id ∷ [];
  must = is_deleted_term false ∷ [];
}

unfoldable pub build_not_loaded_since_search_body : ℕ → RecurringSearchBody
build_not_loaded_since_search_body page_size = record {
  size = page_size;
  seq_no_primary_term = true;
  sort = by_id ∷ by_modified_at ∷ [];
  must = loaded_at_missing ∷ [];
}

-- What the documentation of Elasticsearch says of the filters: a field that is null does not exist.
abbrev is_term : Bool → Bool → Bool
is_term true true = true
is_term false false = true
is_term a b = false

abbrev holds : PersistedRecurringTaskData → Filter → Bool
holds p (is_deleted_term b) = is_term b p.is_deleted
holds p loaded_at_missing = elim p.loaded_at [ none ↦ true | some at ↦ false ]

abbrev all_hold : PersistedRecurringTaskData → List Filter → Bool
all_hold p [] = true
all_hold p (f ∷ fs) = holds p f && all_hold p fs

unfoldable pub matches : RecurringSearchBody → PersistedRecurringTaskData → Bool
matches body p = all_hold p body.must

-- The list of all tasks has the documents that are not deleted; the search for unseen changes has
-- those that nobody has loaded since they were written, deleted or not.
pub recurring-matches :
    (size : ℕ) (p : PersistedRecurringTaskData)
    → ((matches (build_undeleted_list_search_body size) p ≡ true) ↔ (p.is_deleted ≡ false))
      × ((matches (build_not_loaded_since_search_body size) p ≡ true) ↔ (p.loaded_at ≡ none))
unfolding matches build_undeleted_list_search_body build_not_loaded_since_search_body
recurring-matches size p =
    ((λ h. ground arith, λ h. ground arith), (λ h. ground arith, λ h. ground arith))
