-- ===== src/Es/Tasks/Claim/Window.antt =====
-- The window of a claim, the second loop of `searchAndClaim` in
-- internal/infra/elasticsearch/task/service.go: its batches, and that it comes to an end.
use Prim.Native.Nat.{min}
use tasques.Prelude.{
  ℕ, zero, suc, ◌+◌, ◌-◌, ◌^◌, ◌<◌, ◌≤◌, ℤ, pos, negsuc, ◌⊎◌, ap, ◌∙◌, refl, String, ◌≡◌, ◌≢◌, ◌&&◌,
  some, List, [], ◌++◌, ok, inl, inr, Bool-cases, Option-cases, length, length-take, take, drop,
  ltb, arith,
}
use tasques.Domain.Task.{Task, u64, signed}
use tasques.Es.Client.{Runtime, Cache, >>=-ok}
use tasques.Es.Tasks.Settings.{Tasks}
use tasques.Es.Tasks.Service.{TaskClient}
use tasques.Es.Tasks.Bulk.{make_claim}
use tasques.Es.Tasks.Refresh.{mark_all_touched}
use tasques.Es.Tasks.Claim.{
  Ending, returned, panicked, starved, next_start, slice_from, about_to_claims, claim_window,
  claim_found,
}

ℤ-cases : (z : ℤ) → ((n : ℕ) × (z ≡ pos n)) ⊎ ((n : ℕ) × (z ≡ negsuc n))
ℤ-cases (pos n) = inl (n, refl)
ℤ-cases (negsuc n) = inr (n, refl)

-- A next start that is an index, and not less than this one, lies no further on than what is left to
-- claim; and further on, where the number of desired tasks is one of 64 bits.
moves_on :
    (desired got start next : ℕ)
    → got < desired
    → signed (u64 (start + u64 (desired + (2 ^ 64 - u64 got)))) ≡ pos next
    → start ≤ next
    → (next - start ≤ desired - got) × (desired < 2 ^ 64 → start < next)
moves_on desired got start next some_left e ahead =
    let sum = u64 (start + u64 (desired + (2 ^ 64 - u64 got))) in
    elim (Bool-cases (ltb sum (2 ^ 63))) [
      | inr b ↦ absurd (ground (arith, b))
      | inl b ↦ let same : sum ≡ next = ground (arith, b) in (omega arith, λ h. omega arith)
    ]

slice_from-some :
    (results : List Task) (start at next : ℕ) (batch : List Task)
    → start < length results
    → slice_from results start at ≡ some (next, batch)
    → (at ≡ next) × (start ≤ next) × (length batch ≤ next - start)
slice_from-some results start at next batch more h =
    let end = min at (length results) in
    elim (Bool-cases (ltb end start)) [
      | inl b ↦ absurd (ground (arith, b))
      | inr b ↦
          let same : ◌≡◌ {A = ℕ × List Task} (at, take (end - start) (drop start results))
              (next, batch) =
            ground (arith, b) in
          let at_next : at ≡ next = ap (λ x. x.0) same in
          let ahead : start ≤ end = ground (arith, b) in
          let sized : length (take (end - start) (drop start results)) ≡ length batch =
            ap (λ x. length x.1) same in
          let size = length-take (end - start) (drop start results) in
          (at_next, omega arith, omega arith)
    ]

-- A batch is no more than what is left to claim, and the one after it starts further on.
pub about_to_claims-some :
    (desired : ℕ) (claimed results : List Task) (start next : ℕ) (batch : List Task)
    → length claimed < desired
    → start < length results
    → about_to_claims desired claimed results start ≡ some (next, batch)
    → (length batch ≤ desired - length claimed) × (desired < 2 ^ 64 → start < next)
unfolding about_to_claims next_start
about_to_claims-some desired claimed results start next batch some_left more h =
    let sum = signed (u64 (start + u64 (desired + (2 ^ 64 - u64 (length claimed))))) in
    elim (ℤ-cases sum) [
      | inl (n, e) ↦
          let (same, ahead, size) =
            slice_from-some results start n next batch more (rw (e, about_to_claims) at h) in
          let (left, moves) =
            moves_on desired (length claimed) start next some_left (e ∙ ap pos same) ahead in
          (omega arith, moves)
      | inr (n, e) ↦ absurd (ground (arith, (rw (e, about_to_claims) at h)))
    ]

module _ {W : Type 0} (c : TaskClient W) (rt : Runtime W) (cache : Cache W) (settings : Tasks) where
  -- A turn of the loop: it is the last, it panics, or a batch of claims is made.
  abbrev WentOn : ℕ → String → ℕ → List Task → ℕ → List Task → W → Ending (List Task) → W → Type 0
  WentOn fuel worker desired results start claimed w e w' =
      (next : ℕ) × (batch : List Task) × (more : List Task) × (v : W) × (length claimed < desired)
      × (start < length results)
      × (about_to_claims desired claimed results start ≡ some (next, batch))
      × (make_claim c rt worker batch w ≡ (ok (some more), v))
      × (claim_window c rt cache settings fuel worker desired results next (claimed ++ more) v
          ≡ (ok e, w'))

  pub claim_window-turn :
      (fuel : ℕ) (worker : String) (desired : ℕ) (results : List Task) (start : ℕ)
      (claimed : List Task) (w w' : W) {e : Ending (List Task)}
      → claim_window c rt cache settings (suc fuel) worker desired results start claimed w
        ≡ (ok e, w')
      → (e ≡ returned claimed)
        ⊎ ((e ≡ panicked) ⊎ WentOn fuel worker desired results start claimed w e w')
  unfolding claim_window
  claim_window-turn fuel worker desired results start claimed w w' h =
      elim (Bool-cases (ltb (length claimed) desired && ltb start (length results))) [
        | inr b ↦ inl (ground arith)
        | inl b ↦ elim (Option-cases (about_to_claims desired claimed results start)) [
          | inl none_left ↦ inr (inl (ground (arith, rw none_left at (rw b at h))))
          | inr ((next, batch), a) ↦
              let (got, v, claim, rest) =
                >>=-ok (make_claim c rt worker batch) _ w w' (rw a at (rw b at h)) in
              elim (Option-cases got) [
                | inl none_back ↦ inr (inl (ground (arith, rw none_back at rest)))
                | inr (more, g) ↦ inr (
                    inr (
                      next,
                      batch,
                      more,
                      v,
                      ground arith,
                      ground arith,
                      a,
                      rw g at claim,
                      rw g at rest,
                    ))
              ]
        ]
      ]

  claim_window_ends :
      (fuel : ℕ) (worker : String) (desired : ℕ) (results : List Task) (start : ℕ)
      (claimed : List Task) (w w' : W)
      → desired < 2 ^ 64
      → 0 < fuel
      → length results < fuel + start
      → claim_window c rt cache settings fuel worker desired results start claimed w
        ≢ (ok starved, w')
  claim_window_ends zero worker desired results start claimed w w' fits some_fuel enough h =
      absurd (omega arith)
  claim_window_ends (suc fuel) worker desired results start claimed w w' fits some_fuel enough h =
      elim (claim_window-turn fuel worker desired results start claimed w w' h) [
        | inl e ↦ ground arith
        | inr (inl e) ↦ ground arith
        | inr (inr (next, batch, more, v, left, inside, a, claim, rest)) ↦
            let (small, moves) =
              about_to_claims-some desired claimed results start next batch left inside a in
            claim_window_ends fuel worker desired results next (claimed ++ more) v w' fits
              (omega (arith, moves fits)) (omega (arith, moves fits)) rest
      ]

  -- The loop over what a search has found never runs out of its fuel, which is one more than the
  -- tasks that were found, however many of the claims fail; the number of desired tasks is a `uint` of 64
  -- bits.
  pub claim_found_ends :
      (worker : String) (queues : List String) (desired : ℕ) (results : List Task) (w w' : W)
      → desired < 2 ^ 64
      → claim_found c rt cache settings worker queues desired results w ≢ (ok starved, w')
  unfolding claim_found
  claim_found_ends worker queues desired results w w' fits h =
      claim_window_ends (suc (length results)) worker desired results 0 []
        (mark_all_touched c rt cache settings queues w) w' fits (omega arith) (omega arith) h
