-- ===== src/Es/Recurring/Service/Sorted.antt =====
-- One turn of the loop over the answer in `MarkLoaded` of
-- internal/infra/elasticsearch/task/recurring/service.go: where it puts a task, and what it leaves.
use tasques.Prelude.{
  ℤ, ◌≡◌, ◌≢◌, refl, sym, ap, ◌∙◌, List, ◌∷◌, Bool-cases, inl, inr, All, All-map, str_eq_refl, ◌==◌,
  arith,
}
use tasques.Domain.Recurring.{RecurringTask, MultiUpdateResult}
use tasques.Domain.Recurring.Manager.{lookup}
use tasques.Domain.Recurring.Manager.Memory.{Apart, lookup-Apart, str_eq_ne}
use tasques.Domain.Recurring.Manager.Laws.{SameJob, From}
use tasques.Es.Common.{EsBulkResponseItemInfo, is_ok, version}
use tasques.Es.Recurring.Service.{sort_result, loaded}

-- A task that was to be marked, and that is none of those that were not found.
abbrev pub Kept : List RecurringTask → List RecurringTask → RecurringTask → Type 0
Kept ts not_founds t = From ts t × All (λ n. t.id ≢ n.id) not_founds

pub record IsSorted (ts : List RecurringTask) (r : MultiUpdateResult) : Type 0 where
  pub successes : All (Kept ts r.not_founds) r.successes
  pub conflicts : All (Kept ts r.not_founds) r.version_conflicts
  pub others : All (λ o. Kept ts r.not_founds o.recurring_task) r.others
  pub not_founds : All (From ts) r.not_founds

From-ne :
    (t : RecurringTask) (ts : List RecurringTask) (x : RecurringTask)
    → Apart t ts
    → From ts x
    → x.id ≢ t.id
From-ne t ts x a (u, found, job) =
    λ e. let missing = ap (λ i. lookup i ts) e ∙ lookup-Apart t ts a in absurd (ground arith)

pub From-add :
    (t : RecurringTask) (ts : List RecurringTask) (x : RecurringTask)
    → Apart t ts
    → From ts x
    → From (t ∷ ts) x
unfolding lookup
From-add t ts x a (u, found, job) =
    let ne = str_eq_ne x.id t.id (From-ne t ts x a (u, found, job)) in (u, ground arith, job)

pub From-head :
    (t : RecurringTask) (ts : List RecurringTask) (x : RecurringTask)
    → x.id ≡ t.id
    → SameJob t x
    → From (t ∷ ts) x
unfolding lookup
From-head t ts x e job = (t, ground (arith, str_eq_refl t.id), job)

Kept-add :
    (t : RecurringTask) (ts nf : List RecurringTask) (x : RecurringTask)
    → Apart t ts
    → Kept ts nf x
    → Kept (t ∷ ts) nf x
Kept-add t ts nf x a (f, n) = (From-add t ts x a f, n)

Kept-not_found :
    (t : RecurringTask) (ts nf : List RecurringTask) (n x : RecurringTask)
    → Apart t ts
    → n.id ≡ t.id
    → Kept ts nf x
    → Kept (t ∷ ts) (n ∷ nf) x
Kept-not_found t ts nf n x a e (f, ns) =
    (From-add t ts x a f, ((λ s. From-ne t ts x a f (s ∙ e)), ns))

Kept-head :
    (t : RecurringTask) (ts nf : List RecurringTask) (x : RecurringTask)
    → Apart t ts
    → x.id ≡ t.id
    → SameJob t x
    → All (From ts) nf
    → Kept (t ∷ ts) nf x
Kept-head t ts nf x a e job ns = (
  From-head t ts x e job,
  All-map (From ts) (λ n. x.id ≢ n.id) nf (λ n f s. From-ne t ts n a f (sym s ∙ e)) ns,
)

-- The task as it was sent, with any metadata, has the job of the task to mark.
same_job :
    (now : ℤ) (t : RecurringTask) (i : EsBulkResponseItemInfo)
    → SameJob t (record (loaded now t) { metadata = record t.metadata { version = version i } })
same_job now t i = record { expression = refl; definition = refl; skips = refl; deleted = refl }

loaded_job : (now : ℤ) (t : RecurringTask) → SameJob t (loaded now t)
loaded_job now t = record { expression = refl; definition = refl; skips = refl; deleted = refl }

IsSorted-add :
    (t : RecurringTask) (ts : List RecurringTask) (r : MultiUpdateResult)
    → Apart t ts
    → IsSorted ts r
    → IsSorted (t ∷ ts) r
IsSorted-add t ts r a s =
    let nf = r.not_founds in
    let add = λ (x : RecurringTask). Kept-add t ts nf x a in
    record {
      successes = All-map (Kept ts nf) (Kept (t ∷ ts) nf) r.successes add s.successes;
      conflicts = All-map (Kept ts nf) (Kept (t ∷ ts) nf) r.version_conflicts add s.conflicts;
      others =
          All-map (λ o. Kept ts nf o.recurring_task) (λ o. Kept (t ∷ ts) nf o.recurring_task)
            r.others (λ o. add o.recurring_task) s.others;
      not_founds = All-map (From ts) (From (t ∷ ts)) nf (λ x. From-add t ts x a) s.not_founds;
    }

IsSorted-not_found :
    (t : RecurringTask) (ts : List RecurringTask) (n : RecurringTask) (r : MultiUpdateResult)
    → Apart t ts
    → n.id ≡ t.id
    → SameJob t n
    → IsSorted ts r
    → IsSorted (t ∷ ts) (record r { not_founds = n ∷ r.not_founds })
IsSorted-not_found t ts n r a e job s =
    let nf = r.not_founds in
    let add = λ (x : RecurringTask). Kept-not_found t ts nf n x a e in
    let after = n ∷ nf in
    record {
      successes = All-map (Kept ts nf) (Kept (t ∷ ts) after) r.successes add s.successes;
      conflicts = All-map (Kept ts nf) (Kept (t ∷ ts) after) r.version_conflicts add s.conflicts;
      others =
          All-map (λ o. Kept ts nf o.recurring_task) (λ o. Kept (t ∷ ts) after o.recurring_task)
            r.others (λ o. add o.recurring_task) s.others;
      not_founds = (
        From-head t ts n e job,
        All-map (From ts) (From (t ∷ ts)) nf (λ x. From-add t ts x a) s.not_founds,
      );
    }

pub sort_result-IsSorted :
    (now : ℤ) (t : RecurringTask) (ts : List RecurringTask) (i : EsBulkResponseItemInfo)
    (r : MultiUpdateResult)
    → Apart t ts
    → IsSorted ts r
    → IsSorted (t ∷ ts) (sort_result (loaded now t) i r)
unfolding sort_result
sort_result-IsSorted now t ts i r a s =
    let sent = loaded now t in
    let more = IsSorted-add t ts r a s in
    let kept = λ (x : RecurringTask) (e : x.id ≡ t.id) (job : SameJob t x).
      Kept-head t ts r.not_founds x a e job s.not_founds in
    elim (Bool-cases (is_ok i)) [
      | inl b ↦
          rw (b, sort_result)
            (record {
              successes = (kept _ refl (same_job now t i), more.successes);
              conflicts = more.conflicts;
              others = more.others;
              not_founds = more.not_founds;
            })
      | inr b ↦ elim (Bool-cases (i.status == 404)) [
        | inl m ↦
            rw (b, m, sort_result) (IsSorted-not_found t ts sent r a refl (loaded_job now t) s)
        | inr m ↦ elim (Bool-cases (i.status == 409)) [
          | inl k ↦
              rw (b, m, k, sort_result)
                (record {
                  successes = more.successes;
                  conflicts = (kept sent refl (loaded_job now t), more.conflicts);
                  others = more.others;
                  not_founds = more.not_founds;
                })
          | inr k ↦
              rw (b, m, k, sort_result)
                (record {
                  successes = more.successes;
                  conflicts = more.conflicts;
                  others = (kept sent refl (loaded_job now t), more.others);
                  not_founds = more.not_founds;
                })
        ]
      ]
    ]
