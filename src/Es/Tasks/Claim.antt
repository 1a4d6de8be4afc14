-- ===== src/Es/Tasks/Claim.antt =====
-- Claiming tasks for a worker, in internal/infra/elasticsearch/task/service.go: the search, the window
-- that moves over what it found, and the loop that waits for more. The loops run on fuel.
pub mod Batch
pub mod Bounds
pub mod Clock
pub mod Ends
pub mod Waits
pub mod Window
use Prim.Native.Nat.{min}
use tasques.Prelude.{
  ℕ, zero, suc, ◌+◌, ◌-◌, ◌*◌, ◌/◌, ◌%◌, ◌^◌, ℤ, pos, negsuc, ◌-ℤ◌, ltb_ℤ, pos_part, String, Bool,
  true, false, ◌&&◌, not, Option, none, some, List, [], ◌∷◌, ◌++◌, map, Outcome, ok, err, length,
  take, drop, ltb, ◌==◌, if◌then◌else◌,
}
use tasques.Domain.Task.{Task, Error, u64, signed}
use tasques.Es.Common.{
  ServiceError, elasticsearch_err, json_serdes_err, request_failed, unexpected_status,
}
use tasques.Es.Client.{
  Runtime, Cache, Hit, Reply, no_response, response, Io, ◌>>=◌, pure, lift, run,
}
use tasques.Es.Tasks.Persisted.{PersistedTaskData, to_domain_task}
use tasques.Es.Tasks.Queries.{build_claimable_query_body}
use tasques.Es.Tasks.Settings.{Tasks, build_index_name, all_taskqueue_queues_pattern}
use tasques.Es.Tasks.Service.{TaskClient}
use tasques.Es.Tasks.Bulk.{make_claim}
use tasques.Es.Tasks.Refresh.{mark_all_touched}

-- How a loop ends: it returns, it panics, or its fuel is out.
pub data Ending (A : Type 0) : Type 0 where
  returned : A → Ending A
  panicked starved : Ending A

-- What follows a loop that has returned.
abbrev pub on_return :
    {W A B : Type 0} → Ending A → (A → Io W Error (Ending B)) → Io W Error (Ending B)
on_return (returned a) f = f a
on_return panicked f = pure panicked
on_return starved f = pure starved

abbrev pub to_domain_hits : List (Hit PersistedTaskData) → List Task
to_domain_hits [] = []
to_domain_hits (h ∷ hs) = to_domain_task h.source h.version ∷ to_domain_hits hs

unfoldable pub search_answer :
    Reply (List (Hit PersistedTaskData)) → Outcome (ServiceError Error) (List Task)
search_answer no_response = err (elasticsearch_err request_failed)
search_answer (response status body) =
    if status == 200
    then elim body [ none ↦ err json_serdes_err | some hits ↦ ok (to_domain_hits hits) ]
    else if status == 404
    then ok []
    else err (elasticsearch_err (unexpected_status status))

unfoldable pub indices_of : List String → List String
indices_of [] = all_taskqueue_queues_pattern ∷ []
indices_of (q ∷ qs) = map build_index_name (q ∷ qs)

-- The 64 bits of a duration.
abbrev pub bits : ℤ → ℕ
bits (pos n) = u64 n
bits (negsuc n) = u64 (2 ^ 64 - suc (u64 n))

abbrev pub is_empty : List Task → Bool
is_empty [] = true
is_empty (t ∷ ts) = false

-- `attemptClaimStartIdx + targetClaimsLength`, where the latter is `int(desiredTasks) - len(claimed)`, in
-- 64 bits: the conversion, the difference and the sum wrap.
unfoldable pub next_start : ℕ → List Task → ℕ → ℤ
next_start desired claimed start =
    signed (u64 (start + u64 (desired + (2 ^ 64 - u64 (length claimed)))))

-- The slice of the results from `start` to its end, if that is not less: the slice panics where it is.
abbrev pub slice_from : List Task → ℕ → ℕ → Option (ℕ × List Task)
slice_from results start next =
    let end = min next (length results) in
    if ltb end start then none else some (next, take (end - start) (drop start results))

-- The next batch of the loop over the results, with where the one after it starts.
unfoldable pub about_to_claims : ℕ → List Task → List Task → ℕ → Option (ℕ × List Task)
about_to_claims desired claimed results start = elim (next_start desired claimed start) [
  | negsuc n ↦ none
  | pos next ↦ slice_from results start next
]

module _ {W : Type 0} (c : TaskClient W) (rt : Runtime W) (cache : Cache W) (settings : Tasks) where
  unfoldable pub search_for_claimables : List String → ℕ → Io W Error (List Task)
  search_for_claimables queues retrieve_limit = do
    now_utc ← run rt.get_utc
    reply ← run (c.search (indices_of queues) (build_claimable_query_body retrieve_limit now_utc))
    lift (search_answer reply)

  -- The even wait is `time.Duration(uint64(reqBlockFor.Nanoseconds())/uint64(maxRetries))`.
  unfoldable pub retry_wait : ℤ → ℤ
  retry_wait req_block_for =
      let min_wait = settings.defaults.block_for_retry_min_wait in
      let retries = settings.defaults.block_for_retry_max_retries in
      let even_wait = signed (bits req_block_for / retries) in
      if ltb 0 retries && ltb_ℤ min_wait even_wait then even_wait else min_wait

  -- The second loop of `searchAndClaim`.
  unfoldable pub claim_window :
      ℕ → String → ℕ → List Task → ℕ → List Task → Io W Error (Ending (List Task))
  claim_window zero worker_id desired results start claimed = pure starved
  claim_window (suc fuel) worker_id desired results start claimed =
      if ltb (length claimed) desired && ltb start (length results)
      then elim (about_to_claims desired claimed results start) [
        | none ↦ pure panicked
        | some (next, batch) ↦ make_claim c rt worker_id batch >>= λ got. elim got [
          | none ↦ pure panicked
          | some more ↦ claim_window fuel worker_id desired results next (claimed ++ more)
        ]
      ]
      else pure (returned claimed)

  -- Its first loop: it searches until something is found or the time is over.
  unfoldable pub search_loop :
      ℕ → Bool → List String → ℕ → ℤ → ℤ → ℤ → Io W Error (Ending (List Task))
  search_loop zero first queues limit started_at block_for wait w = (ok starved, w)
  search_loop (suc fuel) first queues limit started_at block_for wait w =
      let (now, w') = rt.get_utc w in
      if ltb_ℤ (now -ℤ started_at) block_for
      then (let woken = if first then w' else rt.sleep wait w' in
          let again = search_loop fuel false queues limit started_at block_for wait in
          (search_for_claimables queues limit >>= λ results.
          if is_empty results then again else pure (returned results))
            woken)
      else (ok (returned []), w')

  -- What it does with what is found.
  unfoldable pub claim_found :
      String → List String → ℕ → List Task → Io W Error (Ending (List Task))
  claim_found worker_id queues desired results = do
    _ ← run (λ w. (tt, mark_all_touched c rt cache settings queues w))
    claim_window (suc (length results)) worker_id desired results 0 []

  unfoldable pub search_and_claim :
      ℕ → String → List String → ℕ → ℤ → ℤ → ℤ → Io W Error (Ending (List Task))
  search_and_claim fuel worker_id queues desired started_at block_for wait = do
    let limit = u64 (settings.defaults.claim_amount_search_multiplier * desired)
    found ← search_loop fuel true queues limit started_at block_for wait
    on_return found (claim_found worker_id queues desired)

  -- `Claim`: its loop, with what has been claimed so far.
  unfoldable pub claim_loop :
      ℕ → Bool → String → List String → ℕ → ℤ → ℤ → List Task → Io W Error (Ending (List Task))
  claim_loop zero first worker_id queues desired start block_for claimed w = (ok starved, w)
  claim_loop (suc fuel) first worker_id queues desired start block_for claimed w =
      if ltb (length claimed) desired
      then (let (now, w') = rt.get_utc w in
          if ltb_ℤ (now -ℤ start) block_for
          then (let wait = retry_wait block_for in
              let woken = if first then w' else rt.sleep wait w' in
              let next = desired - length claimed in
              (search_and_claim fuel worker_id queues next start block_for wait >>= λ got.
              on_return got λ more.
                claim_loop fuel false worker_id queues desired start block_for (claimed ++ more))
                woken)
          else (ok (returned claimed), w'))
      else (ok (returned claimed), w)

  unfoldable pub claim : ℕ → String → List String → ℕ → ℤ → Io W Error (Ending (List Task))
  claim fuel worker_id queues desired block_for w =
      let (start, w') = rt.get_utc w in
      claim_loop fuel true worker_id queues desired start block_for [] w'
