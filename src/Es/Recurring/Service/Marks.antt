-- ===== src/Es/Recurring/Service/Marks.antt =====
-- `MarkLoaded` of internal/infra/elasticsearch/task/recurring/service.go: what the answer to a bulk request
-- makes of the tasks that were sent.
use tasques.Prelude.{
  String, ℤ, ◌≡◌, ◌≢◌, ap, some, List, [], ◌∷◌, ◌++◌, map, Option-cases, inl, inr, ok, All,
  All-append, subst, arith,
}
use tasques.Domain.Recurring.{RecurringTask, MultiUpdateResult, BulkUpdateOtherError}
use tasques.Domain.Recurring.Manager.Memory.{Distinct}
use tasques.Domain.Recurring.Manager.Laws.{From, kept_of}
use tasques.Es.Common.{EsBulkResponseItem, info}
use tasques.Es.Client.{Runtime, >>=-ok}
use tasques.Es.Recurring.Service.{
  RecurringClient, sort_result, sort_results, no_results, loaded, send_marks, mark_loaded,
}
use tasques.Es.Recurring.Service.Placed.{count_of, times_in, IsPlaced, sort_results-IsPlaced}
use tasques.Es.Recurring.Service.Sorted.{Kept, IsSorted, sort_result-IsSorted}

sort_results-IsSorted :
    (now : ℤ) (ts : List RecurringTask) (items : List EsBulkResponseItem) (r : MultiUpdateResult)
    → Distinct ts
    → sort_results (map (loaded now) ts) items ≡ some r
    → IsSorted ts r
unfolding sort_results
sort_results-IsSorted now [] items r d h =
    let e : no_results ≡ r = ground arith in
    subst (IsSorted []) e (record { successes = tt; conflicts = tt; others = tt; not_founds = tt })
sort_results-IsSorted now (t ∷ ts) [] r d h = absurd (ground arith)
sort_results-IsSorted now (t ∷ ts) (item ∷ items) r (a, d) h = elim (Option-cases (info item)) [
  | inl e ↦ absurd (ground arith)
  | inr (i, e) ↦ elim (Option-cases (sort_results (map (loaded now) ts) items)) [
    | inl f ↦ absurd (ground arith)
    | inr (rest, f) ↦
        let sorted = sort_results-IsSorted now ts items rest d f in
        let same : sort_result (loaded now t) i rest ≡ r = ground arith in
        subst (IsSorted (t ∷ ts)) same (sort_result-IsSorted now t ts i rest a sorted)
  ]
]

kept_of-IsSorted :
    (ts : List RecurringTask) (r : MultiUpdateResult)
    → IsSorted ts r
    → All (Kept ts r.not_founds) (kept_of r)
kept_of-IsSorted ts r s =
    let kept = Kept ts r.not_founds in
    All-append kept (map (λ o. o.recurring_task) r.others) (r.successes ++ r.version_conflicts)
      (tasks r.others s.others)
      (All-append kept r.successes r.version_conflicts s.successes s.conflicts)
  where
    tasks :
        (os : List BulkUpdateOtherError)
        → All (λ o. Kept ts r.not_founds o.recurring_task) os
        → All (Kept ts r.not_founds) (map (λ o. o.recurring_task) os)
    tasks [] h = tt
    tasks (o ∷ os) (k, h) = (k, tasks os h)

-- Of tasks with different ids, each comes to stand in the lists of the result exactly once, and these
-- have no others: in the successes with the version of the answer where that is a success, in the
-- conflicts or the tasks not found only where the status is 409 or 404, and in the others only where it
-- is none of these. Every task of a result was one to be marked, of the same job, and a task that the
-- manager keeps is none of those that were not found.
pub mark_loaded-All :
    {W : Type 0} (c : RecurringClient W) (rt : Runtime W) (ts : List RecurringTask) (w w' : W)
    (r : MultiUpdateResult)
    → Distinct ts
    → mark_loaded c rt ts w ≡ (ok (some r), w')
    → (items : List EsBulkResponseItem) × ((send_marks c rt
          (map (loaded (rt.get_utc w).0) ts)
          (rt.get_utc w).0
          (rt.get_utc w).1).0
        ≡ ok items)
      × IsPlaced ts items r
      × ((id : String) → times_in id r ≡ count_of id ts)
      × All (λ t. From ts t × All (λ n. t.id ≢ n.id) r.not_founds) (kept_of r)
      × All (From ts) r.not_founds
unfolding mark_loaded
mark_loaded-All c rt ts w w' r d h =
    let (now, w1) = rt.get_utc w in
    let (items, w2, sent, done) = >>=-ok (send_marks c rt (map (loaded now) ts) now) _ w1 w' h in
    let same : sort_results (map (loaded now) ts) items ≡ some r = ground arith in
    let sorted = sort_results-IsSorted now ts items r d same in
    let (placed, times) = sort_results-IsPlaced now ts items r same in
    (items, ap (λ x. x.0) sent, placed, times, kept_of-IsSorted ts r sorted, sorted.not_founds)
