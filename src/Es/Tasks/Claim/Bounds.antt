-- ===== src/Es/Tasks/Claim/Bounds.antt =====
-- What a worker is given by `Claim` of internal/infra/elasticsearch/task/service.go: how many tasks,
-- and whose.
use tasques.Prelude.{
  ℕ, zero, suc, ◌-◌, ◌*◌, ◌≤◌, ℤ, ◌-ℤ◌, ltb_ℤ, String, ◌≡◌, refl, subst, Bool, true, false, List,
  [], ◌++◌, ok, inl, inr, Bool-cases, length, length-append, All, All-append, ltb, if◌then◌else◌,
  arith,
}
use tasques.Domain.Task.{Task, Error, u64}
use tasques.Es.Client.{Runtime, Cache, Io, >>=-ok}
use tasques.Es.Tasks.Settings.{Tasks}
use tasques.Es.Tasks.Service.{TaskClient}
use tasques.Es.Tasks.Refresh.{mark_all_touched}
use tasques.Es.Tasks.Claim.{
  Ending, on_return, returned, panicked, starved, search_loop, claim_window, claim_found,
  search_and_claim, retry_wait, claim_loop, claim,
}
use tasques.Es.Tasks.Claim.Window.{about_to_claims-some, claim_window-turn}
use tasques.Es.Tasks.Claim.Batch.{Held, make_claim-Held}

-- No more than `n` tasks, all claimed by the worker.
abbrev pub Given : String → ℕ → List Task → Type 0
Given worker n ts = (length ts ≤ n) × All (Held worker) ts

add-Given :
    (worker : String) (n : ℕ) (xs ys : List Task)
    → Given worker n xs
    → Given worker (n - length xs) ys
    → Given worker n (xs ++ ys)
add-Given worker n xs ys (h, hx) (k, ky) =
    (omega (arith, length-append xs ys), All-append (Held worker) xs ys hx ky)

on_return-returned :
    {W A B : Type 0} (e : Ending A) (f : A → Io W Error (Ending B)) (v w' : W) {b : B}
    → on_return e f v ≡ (ok (returned b), w')
    → (a : A) × (e ≡ returned a) × (f a v ≡ (ok (returned b), w'))
on_return-returned (returned a) f v w' h = (a, refl, h)
on_return-returned panicked f v w' h = absurd (ground arith)
on_return-returned starved f v w' h = absurd (ground arith)

module _ {W : Type 0} (c : TaskClient W) (rt : Runtime W) (cache : Cache W) (settings : Tasks) where
  claim_window-Given :
      (fuel : ℕ) (worker : String) (desired : ℕ) (results : List Task) (start : ℕ)
      (claimed : List Task) (w w' : W) {got : List Task}
      → claim_window c rt cache settings fuel worker desired results start claimed w
        ≡ (ok (returned got), w')
      → Given worker desired claimed
      → Given worker desired got
  unfolding claim_window
  claim_window-Given zero worker desired results start claimed w w' h g = absurd (ground arith)
  claim_window-Given (suc fuel) worker desired results start claimed w w' {got} h g =
      elim (claim_window-turn c rt cache settings fuel worker desired results start claimed w w'
        h) [
          | inl e ↦ let same : claimed ≡ got = ground arith in subst (Given worker desired) same g
          | inr (inl e) ↦ absurd (ground arith)
          | inr (inr (next, batch, more, v, left, inside, a, made, rest)) ↦
              let (small, moves) =
                about_to_claims-some desired claimed results start next batch left inside a in
              let (le, held) = make_claim-Held c rt worker batch w v made in
              claim_window-Given fuel worker desired results next (claimed ++ more) v w' rest
                (add-Given worker desired claimed more g (omega arith, held))
        ]

  claim_found-Given :
      (worker : String) (queues : List String) (desired : ℕ) (results : List Task) (w w' : W)
      {got : List Task}
      → claim_found c rt cache settings worker queues desired results w ≡ (ok (returned got), w')
      → Given worker desired got
  unfolding claim_found
  claim_found-Given worker queues desired results w w' h =
      claim_window-Given (suc (length results)) worker desired results 0 []
        (mark_all_touched c rt cache settings queues w) w' h (omega arith, tt)

  search_and_claim-Given :
      (fuel : ℕ) (worker : String) (queues : List String) (desired : ℕ)
      (started_at block_for wait : ℤ) (w w' : W) {got : List Task}
      → search_and_claim c rt cache settings fuel worker queues desired started_at block_for wait w
        ≡ (ok (returned got), w')
      → Given worker desired got
  unfolding search_and_claim
  search_and_claim-Given fuel worker queues desired started_at block_for wait w w' h =
      let limit = u64 (settings.defaults.claim_amount_search_multiplier * desired) in
      let search =
        search_loop c rt cache settings fuel true queues limit started_at block_for wait in
      let (found, v, searched, rest) = >>=-ok search _ w w' h in
      let (results, e, rest') = on_return-returned found _ v w' rest in
      claim_found-Given worker queues desired results v w' rest'

  claim_loop-Given :
      (fuel : ℕ) (first : Bool) (worker : String) (queues : List String) (desired : ℕ)
      (start block_for : ℤ) (claimed : List Task) (w w' : W) {got : List Task}
      → claim_loop c rt cache settings fuel first worker queues desired start block_for claimed w
        ≡ (ok (returned got), w')
      → Given worker desired claimed
      → Given worker desired got
  unfolding claim_loop
  claim_loop-Given zero first worker queues desired start block_for claimed w w' h g =
      absurd (ground arith)
  claim_loop-Given (suc fuel) first worker queues desired start block_for claimed w w' {got} h g =
      let now = (rt.get_utc w).0 in
      elim (Bool-cases (ltb (length claimed) desired)) [
        | inr b ↦ let same : claimed ≡ got = ground arith in subst (Given worker desired) same g
        | inl b ↦ elim (Bool-cases (ltb_ℤ (now -ℤ start) block_for)) [
          | inr b' ↦ let same : claimed ≡ got = ground arith in subst (Given worker desired) same g
          | inl b' ↦
              let wait = retry_wait c rt cache settings block_for in
              let next = desired - length claimed in
              let search =
                search_and_claim c rt cache settings fuel worker queues next start block_for wait in
              let (found, v, searched, rest) =
                >>=-ok search _ (if first then (rt.get_utc w).1 else rt.sleep wait (rt.get_utc w).1)
                  w' (rw b' at (rw b at h)) in
              let (more, e, rest') = on_return-returned found _ v w' rest in
              let given =
                search_and_claim-Given fuel worker queues next start block_for wait _ v
                  (rw e at searched) in
              claim_loop-Given fuel false worker queues desired start block_for (claimed ++ more) v
                w' rest' (add-Given worker desired claimed more g given)
        ]
      ]

  -- When `Claim` returns tasks, however often it searched, claimed and waited before that, they
  -- are no more than the worker asked for, and each is claimed, by that worker.
  pub claim-Given :
      (fuel : ℕ) (worker : String) (queues : List String) (desired : ℕ) (block_for : ℤ) (w w' : W)
      {got : List Task}
      → claim c rt cache settings fuel worker queues desired block_for w ≡ (ok (returned got), w')
      → Given worker desired got
  unfolding claim
  claim-Given fuel worker queues desired block_for w w' h =
      claim_loop-Given fuel true worker queues desired (rt.get_utc w).0 block_for []
        (rt.get_utc w).1 w' h (omega arith, tt)
