-- ===== src/Es/Recurring/Service/Placed.antt =====
-- `MarkLoaded` of internal/infra/elasticsearch/task/recurring/service.go: how often a task stands in a
-- result, and what the server has answered of the tasks of each list.
use tasques.Prelude.{
  ℕ, ℤ, String, ◌≡◌, ◌≢◌, ◌⊎◌, refl, ap, ◌∙◌, true, false, some, List, [], ◌∷◌, map, Option-cases,
  Bool-cases, inl, inr, All, All-map, ◌+◌, ◌==◌, str_eq, if◌then◌else◌, subst, arith,
}
use tasques.Domain.Recurring.{RecurringTask, MultiUpdateResult, BulkUpdateOtherError}
use tasques.Es.Common.{EsBulkResponseItem, EsBulkResponseItemInfo, info, is_ok, version}
use tasques.Es.Recurring.Service.{sort_result, sort_results, no_results, loaded}

abbrev pub count_of : String → List RecurringTask → ℕ
count_of id [] = 0
count_of id (t ∷ ts) = (if str_eq t.id id then 1 else 0) + count_of id ts

abbrev pub count_others : String → List BulkUpdateOtherError → ℕ
count_others id [] = 0
count_others id (o ∷ os) = (if str_eq o.recurring_task.id id then 1 else 0) + count_others id os

-- How often a task with this id stands in the lists of a result.
abbrev pub times_in : String → MultiUpdateResult → ℕ
times_in id r =
    count_of id r.successes
    + count_of id r.version_conflicts
    + count_of id r.not_founds
    + count_others id r.others

-- The answer to the task with this id is `P`.
abbrev pub Answered :
    (EsBulkResponseItemInfo → Type 0)
    → String
    → List RecurringTask
    → List EsBulkResponseItem
    → Type 0
Answered P id [] items = ⊥
Answered P id (t ∷ ts) [] = ⊥
Answered P id (t ∷ ts) (item ∷ items) =
    ((t.id ≡ id) × ((i : EsBulkResponseItemInfo) × (info item ≡ some i) × P i))
    ⊎ Answered P id ts items

abbrev Marked : RecurringTask → EsBulkResponseItemInfo → Type 0
Marked t i = (is_ok i ≡ true) × (t.metadata.version ≡ version i)

abbrev HasStatus : ℕ → EsBulkResponseItemInfo → Type 0
HasStatus n i = i.status ≡ n

abbrev IsOther : EsBulkResponseItemInfo → Type 0
IsOther i = (is_ok i ≡ false) × (i.status ≢ 404) × (i.status ≢ 409)

-- A task stands in a list because of what was answered of it: a success has the version of the answer.
pub record IsPlaced (ts : List RecurringTask) (items : List EsBulkResponseItem)
    (r : MultiUpdateResult) : Type 0 where
  pub marked : All (λ t. Answered (Marked t) t.id ts items) r.successes
  pub conflicting : All (λ t. Answered (HasStatus 409) t.id ts items) r.version_conflicts
  pub missing : All (λ t. Answered (HasStatus 404) t.id ts items) r.not_founds
  pub failing : All (λ o. Answered IsOther o.recurring_task.id ts items) r.others

sort_result-times :
    (now : ℤ) (id : String) (t : RecurringTask) (i : EsBulkResponseItemInfo) (r : MultiUpdateResult)
    → times_in id (sort_result (loaded now t) i r)
      ≡ (if str_eq t.id id then 1 else 0) + times_in id r
unfolding sort_result
sort_result-times now id t i r = elim (Bool-cases (is_ok i)) [
  | inl b ↦ rw b (omega arith)
  | inr b ↦ elim (Bool-cases (i.status == 404)) [
    | inl m ↦ rw (b, m) (omega arith)
    | inr m ↦ elim (Bool-cases (i.status == 409)) [
      | inl k ↦ rw (b, m, k) (omega arith)
      | inr k ↦ rw (b, m, k) (omega arith)
    ]
  ]
]

IsPlaced-add :
    (t : RecurringTask) (ts : List RecurringTask) (item : EsBulkResponseItem)
    (items : List EsBulkResponseItem) (r : MultiUpdateResult)
    → IsPlaced ts items r
    → IsPlaced (t ∷ ts) (item ∷ items) r
IsPlaced-add t ts item items r p = record {
  marked = All-map _ _ r.successes (λ x h. inr h) p.marked;
  conflicting = All-map _ _ r.version_conflicts (λ x h. inr h) p.conflicting;
  missing = All-map _ _ r.not_founds (λ x h. inr h) p.missing;
  failing = All-map _ _ r.others (λ x h. inr h) p.failing;
}

sort_result-IsPlaced :
    (now : ℤ) (t : RecurringTask) (ts : List RecurringTask) (item : EsBulkResponseItem)
    (items : List EsBulkResponseItem) (i : EsBulkResponseItemInfo) (r : MultiUpdateResult)
    → info item ≡ some i
    → IsPlaced ts items r
    → IsPlaced (t ∷ ts) (item ∷ items) (sort_result (loaded now t) i r)
unfolding sort_result
sort_result-IsPlaced now t ts item items i r e p =
    let more = IsPlaced-add t ts item items r p in
    elim (Bool-cases (is_ok i)) [
      | inl b ↦
          rw (b, sort_result)
            (record {
              marked = (inl (refl, (i, e, (b, refl))), more.marked);
              conflicting = more.conflicting;
              missing = more.missing;
              failing = more.failing;
            })
      | inr b ↦ elim (Bool-cases (i.status == 404)) [
        | inl m ↦
            rw (b, m, sort_result)
              (record {
                marked = more.marked;
                conflicting = more.conflicting;
                missing = (inl (refl, (i, e, ground arith)), more.missing);
                failing = more.failing;
              })
        | inr m ↦ elim (Bool-cases (i.status == 409)) [
          | inl k ↦
              rw (b, m, k, sort_result)
                (record {
                  marked = more.marked;
                  conflicting = (inl (refl, (i, e, ground arith)), more.conflicting);
                  missing = more.missing;
                  failing = more.failing;
                })
          | inr k ↦
              rw (b, m, k, sort_result)
                (record {
                  marked = more.marked;
                  conflicting = more.conflicting;
                  missing = more.missing;
                  failing = (
                    inl (refl, (i, e, (b, (λ q. ground arith), (λ q. ground arith)))),
                    more.failing,
                  );
                })
        ]
      ]
    ]

pub sort_results-IsPlaced :
    (now : ℤ) (ts : List RecurringTask) (items : List EsBulkResponseItem) (r : MultiUpdateResult)
    → sort_results (map (loaded now) ts) items ≡ some r
    → IsPlaced ts items r × ((id : String) → times_in id r ≡ count_of id ts)
unfolding sort_results
sort_results-IsPlaced now [] items r h =
    let e : no_results ≡ r = ground arith in
    subst (λ x. IsPlaced [] items x × ((id : String) → times_in id x ≡ 0)) e
      (record { marked = tt; conflicting = tt; missing = tt; failing = tt }, λ id. refl)
sort_results-IsPlaced now (t ∷ ts) [] r h = absurd (ground arith)
sort_results-IsPlaced now (t ∷ ts) (item ∷ items) r h = elim (Option-cases (info item)) [
  | inl e ↦ absurd (ground arith)
  | inr (i, e) ↦ elim (Option-cases (sort_results (map (loaded now) ts) items)) [
    | inl f ↦ absurd (ground arith)
    | inr (rest, f) ↦
        let (placed, times) = sort_results-IsPlaced now ts items rest f in
        let same : sort_result (loaded now t) i rest ≡ r = ground arith in
        subst
          (λ x.
            IsPlaced (t ∷ ts) (item ∷ items) x
            × ((id : String) → times_in id x ≡ count_of id (t ∷ ts)))
          same
          (
            sort_result-IsPlaced now t ts item items i rest e placed,
            λ id.
                sort_result-times now id t i rest
                ∙ ap (λ n. (if str_eq t.id id then 1 else 0) + n) (times id),
          )
  ]
]
