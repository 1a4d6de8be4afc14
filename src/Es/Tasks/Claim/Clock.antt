-- ===== src/Es/Tasks/Claim/Clock.antt =====
-- What `Claim` of internal/infra/elasticsearch/task/service.go relies on of the time: the clock never goes
-- back, and a sleep takes as long as was asked for.
use tasques.Prelude.{
  ℕ, zero, suc, ◌+◌, ◌≤◌, ℤ, pos_part, neg_part, ◌≤ℤ◌, String, ◌&&◌, List, [], ◌∷◌, ◌++◌, map, ok,
  err, inl, inr, Option-cases, length, ltb, arith,
}
use tasques.Domain.Task.{Task}
use tasques.Es.Common.{json_serdes_err}
use tasques.Es.Client.{Runtime, Cache, lift, run, raise}
use tasques.Es.Client.Forward.{
  Preorder, Forward, Forward-lift, Forward-run, Forward-bind, Forward-if,
}
use tasques.Es.Tasks.Persisted.{to_persisted_task}
use tasques.Es.Tasks.Queries.{build_claimable_query_body}
use tasques.Es.Tasks.Settings.{Tasks}
use tasques.Es.Tasks.Service.{TaskClient, of_domain}
use tasques.Es.Tasks.Bulk.{
  build_update_bulk_op, all_marshal, bulk_answer, claim_each, claimed_of, send_bulk,
  bulk_update_tasks, make_claim,
}
use tasques.Es.Tasks.Refresh.{add_all, mark_all_touched}
use tasques.Es.Tasks.Claim.{
  returned, panicked, starved, search_answer, indices_of, search_for_claimables, about_to_claims,
  claim_window, claim_found,
}

-- `time` is the true time of a world.
pub record Clock {W : Type 0} (c : TaskClient W) (rt : Runtime W) (cache : Cache W) (time : W → ℤ)
    : Type 0 where
  pub utc_from : (w : W) → time w ≤ℤ (rt.get_utc w).0
  pub utc_to : (w : W) → (rt.get_utc w).0 ≤ℤ time (rt.get_utc w).1
  pub sleep_moves :
      (wait : ℤ) (w : W)
      → pos_part (time w) + pos_part wait + neg_part (time (rt.sleep wait w))
        ≤ pos_part (time (rt.sleep wait w)) + neg_part (time w) + neg_part wait
  pub search_later :
      (indices : List String) (q : _) (w : W) → time w ≤ℤ time (c.search indices q w).1
  pub bulk_later : (ops : _) (w : W) → time w ≤ℤ time (c.bulk ops w).1
  pub add_later : (name : String) (at : ℤ) (w : W) → time w ≤ℤ time (cache.add name at w)

module _ {W : Type 0} (c : TaskClient W) (rt : Runtime W) (cache : Cache W) (settings : Tasks)
    (time : W → ℤ) (clock : Clock c rt cache time) where
  abbrev pub by_time : Preorder W
  by_time = record {
    Later = λ u w. time u ≤ℤ time w;
    stays = λ w. omega arith;
    chain = λ h k. omega arith;
  }

  utc-later : (w : W) → time w ≤ℤ time (rt.get_utc w).1
  utc-later w = omega (arith, clock.utc_from w, clock.utc_to w)

  pub search-Forward :
      (queues : List String) (limit : ℕ)
      → Forward by_time (search_for_claimables c rt cache settings queues limit)
  unfolding search_for_claimables
  search-Forward queues limit =
      Forward-bind by_time (run rt.get_utc) _ (Forward-run by_time rt.get_utc utc-later) (λ now.
        Forward-bind by_time
          (run (c.search (indices_of queues) (build_claimable_query_body limit now))) _
          (Forward-run by_time _ (clock.search_later _ _))
          (λ reply. Forward-lift by_time (search_answer reply)))

  bulk-Forward : (tasks : List Task) → Forward by_time (bulk_update_tasks c rt tasks)
  unfolding bulk_update_tasks send_bulk
  bulk-Forward tasks =
      let ops = map build_update_bulk_op tasks in
      Forward-if by_time (all_marshal c.marshals (map to_persisted_task tasks)) (send_bulk c rt ops)
        (raise json_serdes_err)
        (Forward-bind by_time (run (c.bulk ops)) _
          (Forward-run by_time (c.bulk ops) (clock.bulk_later ops))
          (λ reply. Forward-lift by_time (bulk_answer c.is_error reply)))
        (Forward-lift by_time (err json_serdes_err))

  make_claim-Forward :
      (worker : String) (ts : List Task) → Forward by_time (make_claim c rt worker ts)
  unfolding make_claim
  make_claim-Forward worker ts =
      Forward-bind by_time (run rt.get_utc) _ (Forward-run by_time rt.get_utc utc-later) (λ at.
        Forward-bind by_time (lift (of_domain (claim_each worker at ts))) _
          (Forward-lift by_time (of_domain (claim_each worker at ts)))
          (λ tasks.
            Forward-bind by_time (bulk_update_tasks c rt tasks) _ (bulk-Forward tasks)
              (λ items. Forward-lift by_time (ok (claimed_of tasks items)))))

  claim_window-Forward :
      (fuel : ℕ) (worker : String) (desired : ℕ) (results : List Task) (start : ℕ)
      (claimed : List Task)
      → Forward by_time (claim_window c rt cache settings fuel worker desired results start claimed)
  unfolding claim_window
  claim_window-Forward zero worker desired results start claimed = Forward-lift by_time (ok starved)
  claim_window-Forward (suc fuel) worker desired results start claimed =
      Forward-if by_time (ltb (length claimed) desired && ltb start (length results)) _ _
        (elim (Option-cases (about_to_claims desired claimed results start)) [
          | inl e ↦ rw e (Forward-lift by_time (ok panicked))
          | inr ((next, batch), e) ↦ rw e (
              Forward-bind by_time (make_claim c rt worker batch) _
                (make_claim-Forward worker batch)
                (λ got. elim (Option-cases got) [
                  | inl f ↦ rw f (Forward-lift by_time (ok panicked))
                  | inr (more, f) ↦
                      rw f (claim_window-Forward fuel worker desired results next (claimed ++ more))
                ]))
        ])
        (Forward-lift by_time (ok (returned claimed)))

  add_all-later :
      (names : List String) (now : ℤ) (w : W)
      → time w ≤ℤ time (add_all c rt cache settings names now w)
  add_all-later [] now w = omega arith
  add_all-later (name ∷ names) now w =
      omega (arith, clock.add_later name now w, add_all-later names now (cache.add name now w))

  pub claim_found-Forward :
      (worker : String) (queues : List String) (desired : ℕ) (results : List Task)
      → Forward by_time (claim_found c rt cache settings worker queues desired results)
  unfolding claim_found mark_all_touched
  claim_found-Forward worker queues desired results =
      Forward-bind by_time (run (λ w. (tt, mark_all_touched c rt cache settings queues w))) _
        (Forward-run by_time _ (λ w.
          let now = (rt.get_utc w).0 in
          by_time.chain (utc-later w) (add_all-later queues now (rt.get_utc w).1)))
        (λ u. claim_window-Forward (suc (length results)) worker desired results 0 [])
