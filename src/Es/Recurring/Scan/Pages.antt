-- ===== src/Es/Recurring/Scan/Pages.antt =====
-- A scan of internal/infra/elasticsearch/task/recurring/service.go over a server that serves every page: it
-- comes to its end.
use tasques.Prelude.{
  ℕ, zero, suc, ℤ, String, ◌≡◌, ◌<◌, refl, ap, List, [], ◌∷◌, ◌++◌, length, ok, append_assoc,
  append-nil, arith,
}
use tasques.Domain.Recurring.{RecurringTask}
use tasques.Es.Client.{Runtime}
use tasques.Es.Recurring.Queries.{RecurringSearchBody}
use tasques.Es.Recurring.Service.{RecurringClient}
use tasques.Es.Recurring.Scan.{
  RecurringTasksWithScrollId, Scanned, init_search, scroll, clear_scroll, scan_loop,
  scan_recurring_tasks,
}

abbrev pub tasks_of : List RecurringTasksWithScrollId → List RecurringTask
tasks_of [] = []
tasks_of (p ∷ ps) = p.recurring_tasks ++ tasks_of ps

abbrev pub scroll_ids_of : List RecurringTasksWithScrollId → List String
scroll_ids_of [] = []
scroll_ids_of (p ∷ ps) = p.scroll_id ∷ scroll_ids_of ps

module _ {W : Type 0} (c : RecurringClient W) (rt : Runtime W) (scroll_page_size : ℕ)
    (scroll_ttl : ℤ) where
  -- After a page with the given tasks the server answers with these pages, of which the last is the first
  -- that is empty.
  abbrev pub Served : List RecurringTasksWithScrollId → RecurringTasksWithScrollId → W → W → Type 0
  Served [] p w w' = (p.recurring_tasks ≡ []) × (w' ≡ w)
  Served (q ∷ ps) p w w' =
      (t : RecurringTask) × (ts : List RecurringTask) × (v : W) × (p.recurring_tasks ≡ t ∷ ts)
      × (scroll c rt scroll_page_size scroll_ttl p.scroll_id w ≡ (ok q, v))
      × Served ps q v w'

  scan_loop-Served :
      (ps : List RecurringTasksWithScrollId) (p : RecurringTasksWithScrollId) (fuel : ℕ)
      (ids : List String) (so_far : List RecurringTask) (w w' : W)
      → Served ps p w w'
      → length ps < fuel
      → ◌≡◌ {A = Scanned W}
          (scan_loop c rt scroll_page_size scroll_ttl fuel p.scroll_id ids p.recurring_tasks so_far
            w)
          ((ok (so_far ++ (p.recurring_tasks ++ tasks_of ps)), ids ++ scroll_ids_of ps), w')
  unfolding scan_loop
  scan_loop-Served ps p zero ids so_far w w' h n = absurd (omega arith)
  scan_loop-Served [] p (suc fuel) ids so_far w w' (none_left, same) n =
      rw (none_left, same, append-nil so_far, append-nil ids) refl
  scan_loop-Served (q ∷ ps) p (suc fuel) ids so_far w w' (t, ts, v, page, answer, served) n =
      let rest =
        scan_loop-Served ps q fuel (ids ++ (q.scroll_id ∷ [])) (so_far ++ (t ∷ ts)) v w' served
          (omega arith) in
      let e0 = ap (λ x. x.0) answer in
      let e1 = ap (λ x. x.1) answer in
      rw page (
        rw (e0, scan_loop)
          (rw e1 (
            rw rest (λ i. (
              (
                ok (append_assoc so_far (t ∷ ts) (q.recurring_tasks ++ tasks_of ps) i),
                append_assoc ids (q.scroll_id ∷ []) (scroll_ids_of ps) i,
              ),
              w',
            )))))

  -- Where the server answers to a search with pages, each but the last with tasks and the last with none,
  -- a scan with more fuel than there are pages after the first returns the tasks of all pages in their
  -- order, and clears the scroll ids of all.
  pub scan_recurring_tasks-Served :
      (search_body : RecurringSearchBody) (p : RecurringTasksWithScrollId)
      (ps : List RecurringTasksWithScrollId) (fuel : ℕ) (w v w' : W)
      → init_search c rt scroll_page_size scroll_ttl search_body w ≡ (ok p, v)
      → Served ps p v w'
      → length ps < fuel
      → scan_recurring_tasks c rt scroll_page_size scroll_ttl fuel search_body w ≡ (
        ok (tasks_of (p ∷ ps)),
        clear_scroll c rt scroll_page_size scroll_ttl (scroll_ids_of (p ∷ ps)) w',
      )
  unfolding scan_recurring_tasks
  scan_recurring_tasks-Served search_body p ps fuel w v w' first served n =
      let e0 = ap (λ x. x.0) first in
      let e1 = ap (λ x. x.1) first in
      rw (e0, scan_recurring_tasks)
        (rw e1 (rw (scan_loop-Served ps p fuel (p.scroll_id ∷ []) [] v w' served n) refl))
