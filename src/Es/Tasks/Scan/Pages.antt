-- ===== src/Es/Tasks/Scan/Pages.antt =====
-- A scan of internal/infra/elasticsearch/task/service.go over a server that serves every page: what it
-- passes on, and that it comes to its end.
use tasques.Prelude.{
  ℕ, zero, suc, ℤ, String, ◌≡◌, ◌<◌, refl, ap, ◌∙◌, List, [], ◌∷◌, ◌++◌, length, Outcome, ok,
  append_assoc, append-nil, arith,
}
use tasques.Domain.Json.{JsonObj}
use tasques.Domain.Task.{Task, Error}
use tasques.Es.Common.{ServiceError}
use tasques.Es.Client.{Runtime, Io, continue}
use tasques.Es.Tasks.Queries.{SearchBody}
use tasques.Es.Tasks.Service.{TaskClient}
use tasques.Es.Tasks.Claim.{Ending, returned}
use tasques.Es.Tasks.Scan.{
  TasksWithScrollId, init_search, scroll, clear_scroll, scan_loop, scan_tasks,
}

abbrev pub ids_of : List TasksWithScrollId → List String
ids_of [] = []
ids_of (p ∷ ps) = p.scroll_id ∷ ids_of ps

module _ {W : Type 0} (c : TaskClient W) (rt : Runtime W) (timed_out : JsonObj)
    (do_with_batch : List Task → Io W Error (Unit {0})) (scroll_ttl : ℤ) where
  -- The batch of a page is done with, and the server answers with the next page.
  abbrev Next : TasksWithScrollId → TasksWithScrollId → W → W → Type 0
  Next p q w v =
      (t : Task) × (ts : List Task) × (u : W) × (p.tasks ≡ t ∷ ts)
      × (do_with_batch (t ∷ ts) w ≡ (ok tt, u))
      × (scroll c rt timed_out p.scroll_id scroll_ttl u ≡ (ok q, v))

  abbrev pub Passed : List TasksWithScrollId → TasksWithScrollId → W → W → Type 0
  Passed [] p w w' = (p.tasks ≡ []) × (w' ≡ w)
  Passed (q ∷ ps) p w w' = (v : W) × Next p q w v × Passed ps q v w'

  scan_loop-Passed :
      (ps : List TasksWithScrollId) (p : TasksWithScrollId) (fuel : ℕ) (ids : List String)
      (w w' : W)
      → Passed ps p w w'
      → length ps < fuel
      → ◌≡◌ {A = (Outcome (ServiceError Error) (Ending (Unit {0})) × List String) × W}
          (scan_loop c rt timed_out fuel do_with_batch scroll_ttl p.scroll_id ids p.tasks w)
          ((ok (returned tt), ids ++ ids_of ps), w')
  unfolding scan_loop
  scan_loop-Passed ps p zero ids w w' h n = absurd (omega arith)
  scan_loop-Passed [] p (suc fuel) ids w w' (none_left, same) n =
      rw (none_left, same, append-nil ids) refl
  scan_loop-Passed (q ∷ ps) p (suc fuel) ids w w' (v, (t, ts, u, page, batch, answer), passed) n =
      let rest = scan_loop-Passed ps q fuel (ids ++ (q.scroll_id ∷ [])) v w' passed (omega arith) in
      let both =
        ap (λ x. continue x (λ _. scroll c rt timed_out p.scroll_id scroll_ttl)) batch ∙ answer in
      let e0 = ap (λ x. x.0) both in
      let e1 = ap (λ x. x.1) both in
      rw page (
        rw (e0, scan_loop)
          (rw e1 (
            rw rest
              (λ i. ((ok (returned tt), append_assoc ids (q.scroll_id ∷ []) (ids_of ps) i), w')))))

  -- Where the server answers to a search with pages, the batch of each but the last is done with and the
  -- last has no tasks, a scan with more fuel than there are pages after the first returns, with every
  -- batch done with in the order of the pages, and clears the scroll ids of all.
  pub scan_tasks-Passed :
      (search_body : SearchBody) (p : TasksWithScrollId) (ps : List TasksWithScrollId) (fuel : ℕ)
      (w v w' : W)
      → init_search c rt timed_out search_body scroll_ttl w ≡ (ok p, v)
      → Passed ps p v w'
      → length ps < fuel
      → scan_tasks c rt timed_out fuel search_body scroll_ttl do_with_batch w
        ≡ (ok (returned tt), clear_scroll c rt timed_out (ids_of (p ∷ ps)) w')
  unfolding scan_tasks
  scan_tasks-Passed search_body p ps fuel w v w' first passed n =
      let e =
        ap
          (λ x. continue x (λ page u.
            let ((result, scroll_ids), u') =
              scan_loop c rt timed_out fuel do_with_batch scroll_ttl page.scroll_id
                (page.scroll_id ∷ []) page.tasks u in
            (result, clear_scroll c rt timed_out scroll_ids u')))
          first in
      e ∙ rw (scan_loop-Passed ps p fuel (p.scroll_id ∷ []) v w' passed n) refl
