-- ===== src/Domain/Task/Attempts.antt =====
-- A task that every worker fails: how often it is tried, and when it is dead.
use tasques.Prelude.{
  ℕ, suc, ◌+◌, ◌≤◌, ◌<◌, ℤ, String, ◌≡◌, ◌∙◌, true, false, Option, List, [], ◌∷◌, or_else,
  or_else-Ensures, length, ltb, str_eq_refl, if◌then◌else◌, arith,
}
use tasques.Domain.Json.{JsonObj}
use tasques.Domain.Task.{
  Task, claimed, failed, dead, is_claimable, into_claimed, not_owned, into_failed,
}
use tasques.Domain.Task.Calls.{Call, claims, fails, call, run}
use tasques.Domain.Task.Invariant.{
  Inv, into_claimed-Inv, into_failed-Inv, remaining_attempts-eq, attempted-le,
}

-- One attempt: a worker claims the task, and later it fails.
pub record Attempt : Type 0 where
  pub worker : String
  pub claimed_at : ℤ
  pub failed_at : ℤ
  pub failure : Option JsonObj
  pub jitter : ℕ

abbrev pub calls : List Attempt → List Call
calls [] = []
calls (a ∷ rest) =
    claims a.worker a.claimed_at ∷ fails a.worker a.failed_at a.failure a.jitter ∷ calls rest

-- What one failed attempt leaves.
record Failed (t t' : Task) : Type 0 where
  valid : Inv t'
  counted : t'.attempted ≡ suc t.attempted
  retries : t'.retry_times ≡ t.retry_times
  state : t'.state ≡ (if ltb t.attempted t.retry_times then failed else dead)

-- The claim, with what the failure needs of it.
record Held (t t' : Task) (worker : String) : Type 0 where
  valid : Inv t'
  counted : t'.attempted ≡ suc t.attempted
  retries : t'.retry_times ≡ t.retry_times
  state : t'.state ≡ claimed
  owned : not_owned t'.last_claimed worker ≡ false
  room : t.attempted ≤ t.retry_times

claims-Held :
    (t : Task) (worker : String) (at : ℤ)
    → Inv t
    → is_claimable t.state ≡ true
    → Held t (or_else t (into_claimed t worker at)) worker
unfolding into_claimed not_owned
claims-Held t worker at v h =
    let w = or_else-Ensures Inv t (into_claimed t worker at) v (into_claimed-Inv t worker at v) in
    record {
      valid = w;
      counted = ground arith;
      retries = ground arith;
      state = ground arith;
      owned = ground (arith, str_eq_refl worker);
      room = ground arith;
    }

fails-Failed :
    (t u : Task) (worker : String) (at : ℤ) (failure : Option JsonObj) (jitter : ℕ)
    → Held t u worker
    → Failed t (or_else u (into_failed u worker at failure jitter))
unfolding into_failed not_owned
fails-Failed t u worker at failure jitter h =
    let w =
      or_else-Ensures Inv u (into_failed u worker at failure jitter) h.valid
        (into_failed-Inv u worker at failure jitter h.valid) in
    let r = remaining_attempts-eq u h.valid.fits (attempted-le u h.valid) in
    record { valid = w; counted = ground arith; retries = ground arith; state = ground (arith, r) }

-- A claimable task that satisfies the invariant is claimed and failed over and over, by whichever
-- workers, at least once and no more often than it has attempts left: each round counts one
-- attempt, and afterwards the task has failed, or is dead exactly when it has had its retries and
-- one more.
pub run-calls_attempts :
    (t : Task) (tries : List Attempt)
    → Inv t
    → is_claimable t.state ≡ true
    → 0 < length tries
    → t.attempted + length tries ≤ t.retry_times + 1
    → ((run t (calls tries)).attempted ≡ t.attempted + length tries)
      × ((run t (calls tries)).state
          ≡ (if ltb (t.attempted + length tries) (t.retry_times + 1) then failed else dead))
unfolding run call
run-calls_attempts t [] v h k l = absurd (omega arith)
run-calls_attempts t (a ∷ []) v h k l =
    let u = or_else t (into_claimed t a.worker a.claimed_at) in
    let f =
      fails-Failed t u a.worker a.failed_at a.failure a.jitter
        (claims-Held t a.worker a.claimed_at v h) in
    (omega (arith, f.counted), f.state ∙ ground arith)
run-calls_attempts t (a ∷ b ∷ rest) v h k l =
    let u = or_else t (into_claimed t a.worker a.claimed_at) in
    let f =
      fails-Failed t u a.worker a.failed_at a.failure a.jitter
        (claims-Held t a.worker a.claimed_at v h) in
    let t' = or_else u (into_failed u a.worker a.failed_at a.failure a.jitter) in
    let ih =
      run-calls_attempts t' (b ∷ rest) f.valid (rw f.state (ground arith)) (omega arith)
        (omega (arith, f.counted, f.retries)) in
    (omega (arith, f.counted, ih.0), ih.1 ∙ rw (f.counted, f.retries) (ground arith))
