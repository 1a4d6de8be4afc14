-- ===== src/Es/Tasks/Claim/Waits.antt =====
-- The turns of the loops of `Claim` and `searchAndClaim` in internal/infra/elasticsearch/task/service.go:
-- each but the first sleeps, and the search is over after a number of them.
use tasques.Prelude.{
  ℕ, zero, suc, ◌+◌, ◌*◌, ◌<◌, ◌^◌, ◌≤◌, ℤ, pos, ◌-ℤ◌, -ℤ_parts, pos_part, neg_part, ◌≤ℤ◌, ◌<ℤ◌,
  ltb→lt, ltb_ℤ, String, ◌≡◌, ◌≢◌, subst, Bool, true, false, List, ok, inl, inr, Bool-cases,
  if◌then◌else◌, arith,
}
use tasques.Domain.Task.{Task, u64}
use tasques.Es.Client.{Runtime, Cache, >>=-ok}
use tasques.Es.Tasks.Settings.{Tasks}
use tasques.Es.Tasks.Service.{TaskClient}
use tasques.Es.Tasks.Claim.{
  Ending, on_return, returned, panicked, starved, is_empty, search_for_claimables, search_loop,
  claim_found, search_and_claim,
}
use tasques.Es.Client.Forward.{Forward, Forward-lift, Forward-bind, Forward-if}
use tasques.Es.Tasks.Claim.Clock.{Clock, by_time, search-Forward, claim_found-Forward}
use tasques.Es.Tasks.Claim.Window.{claim_found_ends}

-- No more than `left` are left of the time for which a call that began at `start` may block.
abbrev pub Within : ℤ → ℤ → ℤ → ℕ → Type 0
Within start block_for now left =
    pos_part start + pos_part block_for + neg_part now
    ≤ pos_part now + neg_part start + neg_part block_for + left

-- The turns that a loop takes: the first does not sleep.
abbrev pub turns : Bool → ℕ → ℕ
turns true k = k + 2
turns false k = k + 1

module _ {W : Type 0} (c : TaskClient W) (rt : Runtime W) (cache : Cache W) (settings : Tasks)
    (time : W → ℤ) (clock : Clock c rt cache time) (m : ℕ) (wait : ℤ) (long : pos m ≤ℤ wait) where
  -- Where the test on the time is passed, some of it is left.
  time_left :
      (start block_for : ℤ) (w : W)
      → ltb_ℤ ((rt.get_utc w).0 -ℤ start) block_for ≡ true
      → Within start block_for (time w) 0
      → ⊥
  time_left start block_for w h over =
      let now = (rt.get_utc w).0 in
      let less : (now -ℤ start) <ℤ block_for = ltb→lt _ _ h in
      omega (arith, less, clock.utc_from w, -ℤ_parts now start)

  slept :
      (start block_for : ℤ) (k : ℕ) (w : W)
      → Within start block_for (time w) (suc k * m)
      → Within start block_for (time (rt.sleep wait (rt.get_utc w).1)) (k * m)
  slept start block_for k w h =
      let v = (rt.get_utc w).1 in
      omega (arith, clock.utc_from w, clock.utc_to w, clock.sleep_moves wait v, long)

  woke :
      (start block_for : ℤ) (left : ℕ) (w : W)
      → Within start block_for (time w) left
      → Within start block_for (time (rt.get_utc w).1) left
  woke start block_for left w h = omega (arith, clock.utc_from w, clock.utc_to w)

  -- The time and the turns that are left once a turn has slept, if it does.
  pub turn_begun :
      (first : Bool) (start block_for : ℤ) (k : ℕ) (w : W)
      → ltb_ℤ ((rt.get_utc w).0 -ℤ start) block_for ≡ true
      → Within start block_for (time w) (k * m)
      → (k' : ℕ) × (suc (turns false k') ≤ turns first k)
        × Within start block_for
            (time (if first then (rt.get_utc w).1 else rt.sleep wait (rt.get_utc w).1))
            (k' * m)
  turn_begun true start block_for k w b h = (k, omega arith, woke start block_for (k * m) w h)
  turn_begun false start block_for zero w b h = absurd (time_left start block_for w b (omega arith))
  turn_begun false start block_for (suc k) w b h = (k, omega arith, slept start block_for k w h)

  search_loop_ends :
      (fuel : ℕ) (first : Bool) (queues : List String) (limit : ℕ) (start block_for : ℤ) (k : ℕ)
      (w w' : W)
      → Within start block_for (time w) (k * m)
      → turns first k ≤ fuel
      → search_loop c rt cache settings fuel first queues limit start block_for wait w
        ≢ (ok starved, w')
  unfolding search_loop
  search_loop_ends zero true queues limit start block_for k w w' in_time enough h = omega arith
  search_loop_ends zero false queues limit start block_for k w w' in_time enough h = omega arith
  search_loop_ends (suc fuel) first queues limit start block_for k w w' in_time enough h =
      elim (Bool-cases (ltb_ℤ ((rt.get_utc w).0 -ℤ start) block_for)) [
        | inr b ↦ absurd (ground (arith, b))
        | inl b ↦
            let (k', fewer, in_time') = turn_begun first start block_for k w b in_time in
            let woken = if first then (rt.get_utc w).1 else rt.sleep wait (rt.get_utc w).1 in
            let search = search_for_claimables c rt cache settings queues limit in
            let (results, v, searched, rest) = >>=-ok search _ woken w' (rw b at h) in
            let after : time woken ≤ℤ time v =
              subst (λ x. time woken ≤ℤ time x.1) searched
                ((search-Forward c rt cache settings time clock queues limit).at woken) in
            elim (Bool-cases (is_empty results)) [
              | inl e ↦
                  search_loop_ends fuel false queues limit start block_for k' v w' (omega arith)
                    (omega arith) (rw e at rest)
              | inr e ↦ absurd (ground (arith, e))
            ]
      ]

  woken_later :
      (first : Bool) (w : W)
      → time w ≤ℤ time (if first then (rt.get_utc w).1 else rt.sleep wait (rt.get_utc w).1)
  woken_later true w = omega (arith, clock.utc_from w, clock.utc_to w)
  woken_later false w =
      let v = (rt.get_utc w).1 in
      omega (arith, clock.utc_from w, clock.utc_to w, clock.sleep_moves wait v, long)

  search_loop-Forward :
      (fuel : ℕ) (first : Bool) (queues : List String) (limit : ℕ) (start block_for : ℤ)
      → Forward
          (by_time c rt cache settings time clock)
          (search_loop c rt cache settings fuel first queues limit start block_for wait)
  unfolding search_loop
  search_loop-Forward zero first queues limit start block_for =
      Forward-lift (by_time c rt cache settings time clock) (ok starved)
  search_loop-Forward (suc fuel) first queues limit start block_for = record {
    at = λ w.
        let order = by_time c rt cache settings time clock in
        let woken = if first then (rt.get_utc w).1 else rt.sleep wait (rt.get_utc w).1 in
        let search = search_for_claimables c rt cache settings queues limit in
        elim (Bool-cases (ltb_ℤ ((rt.get_utc w).0 -ℤ start) block_for)) [
          | inr b ↦ rw b (omega (arith, clock.utc_from w, clock.utc_to w))
          | inl b ↦ rw b (
              order.chain (woken_later first w) (
                (Forward-bind order search _
                    (search-Forward c rt cache settings time clock queues limit)
                    (λ results.
                      Forward-if order (is_empty results) _ _
                        (search_loop-Forward fuel false queues limit start block_for)
                        (Forward-lift order (ok (returned results))))).at
                  woken))
        ];
  }

  on_found-Forward :
      (worker : String) (queues : List String) (desired : ℕ) (found : Ending (List Task))
      → Forward
          (by_time c rt cache settings time clock)
          (on_return found (claim_found c rt cache settings worker queues desired))
  on_found-Forward worker queues desired (returned ts) =
      claim_found-Forward c rt cache settings time clock worker queues desired ts
  on_found-Forward worker queues desired panicked =
      Forward-lift (by_time c rt cache settings time clock) (ok panicked)
  on_found-Forward worker queues desired starved =
      Forward-lift (by_time c rt cache settings time clock) (ok starved)

  pub search_and_claim-Forward :
      (fuel : ℕ) (worker : String) (queues : List String) (desired : ℕ) (start block_for : ℤ)
      → Forward
          (by_time c rt cache settings time clock)
          (search_and_claim c rt cache settings fuel worker queues desired start block_for wait)
  unfolding search_and_claim
  search_and_claim-Forward fuel worker queues desired start block_for =
      Forward-bind (by_time c rt cache settings time clock)
        (search_loop c rt cache settings fuel true queues
          (u64 (settings.defaults.claim_amount_search_multiplier * desired)) start block_for wait)
        _ (search_loop-Forward fuel true queues _ start block_for)
        (λ found. on_found-Forward worker queues desired found)

  pub search_and_claim_ends :
      (fuel : ℕ) (worker : String) (queues : List String) (desired : ℕ) (start block_for : ℤ)
      (k : ℕ) (w w' : W)
      → Within start block_for (time w) (k * m)
      → desired < 2 ^ 64
      → k + 2 ≤ fuel
      → search_and_claim c rt cache settings fuel worker queues desired start block_for wait w
        ≢ (ok starved, w')
  unfolding search_and_claim
  search_and_claim_ends fuel worker queues desired start block_for k w w' in_time fits enough h =
      let limit = u64 (settings.defaults.claim_amount_search_multiplier * desired) in
      let (found, v, searched, rest) =
        >>=-ok (search_loop c rt cache settings fuel true queues limit start block_for wait) _ w w'
          h in
      elim found
          as (λ e.
            search_loop c rt cache settings fuel true queues limit start block_for wait w
              ≡ (ok e, v)
            → on_return e (claim_found c rt cache settings worker queues desired) v
              ≡ (ok starved, w')
            → ⊥) [
              | returned ts ↦
                  λ a b. claim_found_ends c rt cache settings worker queues desired ts v w' fits b
              | panicked ↦ λ a b. ground arith
              | starved ↦ λ a b.
                  search_loop_ends fuel true queues limit start block_for k w v in_time enough a
            ]
        searched rest
