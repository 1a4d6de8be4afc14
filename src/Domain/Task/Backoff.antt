-- ===== src/Domain/Task/Backoff.antt =====
-- When a failed task runs again: the wait that `IntoFailed` computes.
use tasques.Prelude.{
  ℕ, ◌+◌, ◌-◌, ◌*◌, ◌^◌, ◌≤◌, ◌<◌, ℤ, pos, ◌≤ℤ◌, ◌+ℤ◌, int_laws, String, ◌≡◌, ◌∙◌, ap, Option, ok,
  bit_xor_four, arith,
}
use Prim.Native.Nat.{bit_xor}
use tasques.Domain.Json.{JsonObj}
use tasques.Domain.Task.{
  Task, failed, retries_so_far, wait_time_seconds, wait_time_duration, into_failed,
}
use tasques.Domain.Task.Invariant.{Inv}

-- The bound on the retries under which the wait in nanoseconds fits 63 bits.
abbrev pub max_retries : ℕ
max_retries = 2 ^ 28

jitter-le : (r j : ℕ) → j < 30 → j * (r + 1) ≤ 29 * (r + 1)
jitter-le r j h = grind arith

wait_time_seconds-eq :
    (r j : ℕ) → r < max_retries → j < 30 → wait_time_seconds r j ≡ bit_xor (15 + r) 4 + j * (r + 1)
unfolding wait_time_seconds
wait_time_seconds-eq r j h k = ground (arith, jitter-le r j k, bit_xor_four (15 + r))

-- The wait grows in step with the retries: it lies between r + 11 and 30 * r + 48 seconds.
wait_time_seconds_bounds :
    (r j : ℕ)
    → r < max_retries
    → j < 30
    → (r + 11 ≤ wait_time_seconds r j) × (wait_time_seconds r j ≤ 30 * r + 48)
wait_time_seconds_bounds r j h k = (
  omega (arith, wait_time_seconds-eq r j h k, jitter-le r j k, bit_xor_four (15 + r)),
  omega (arith, wait_time_seconds-eq r j h k, jitter-le r j k, bit_xor_four (15 + r)),
)

mul-le : (a b r : ℕ) → a ≤ b → a * r ≤ b * r
mul-le a b r h = grind arith

fourth_power : (r : ℕ) → 2 ≤ r → 4 + r < r * r * r * r
fourth_power r h =
    let two_r = mul-le 2 r r h in
    let four_r = mul-le (2 * r) (r * r) r two_r in
    let eight_r = mul-le (2 * r * r) (r * r * r) r four_r in omega arith

-- From the second retry on, up to 2 ^ 28 retries, the wait is shorter than the formula that the
-- source cites, with the fourth power of the retries, would make it for the same random number
-- below 30.
pub wait_time_seconds-lt_cited :
    (r j : ℕ)
    → r < max_retries
    → j < 30
    → 2 ≤ r
    → wait_time_seconds r j < 15 + r * r * r * r + j * (r + 1)
wait_time_seconds-lt_cited r j h k l =
    omega (arith, wait_time_seconds-eq r j h k, fourth_power r l, bit_xor_four (15 + r))

wait_time_duration-eq :
    (r j : ℕ)
    → r < max_retries
    → j < 30
    → wait_time_duration r j ≡ pos (wait_time_seconds r j * 1_000_000_000)
unfolding wait_time_duration
wait_time_duration-eq r j h k = ground (arith, wait_time_seconds_bounds r j h k)

into_failed_fields :
    (t : Task) (worker : String) (at : ℤ) (failure : Option JsonObj) (jitter : ℕ) {t' : Task}
    → Inv t
    → into_failed t worker at failure jitter ≡ ok t'
    → t'.state ≡ failed
    → (t'.run_at ≡ at +ℤ wait_time_duration (t.attempted - 1) jitter)
      × (t'.last_enqueued_at ≡ at)
      × (0 < t.attempted)
unfolding into_failed retries_so_far
into_failed_fields t worker at failure jitter v e f = ground arith

-- A task that satisfies the invariant, with at most 2 ^ 28 attempts so far, that `IntoFailed`
-- takes to the failed state with a random number below 30, is to run again no sooner than r + 11
-- seconds after the failure, r being its attempts less one: nothing overflows, so that the time is
-- never one before the failure. It was enqueued at the time of the failure.
pub into_failed-run_at :
    (t : Task) (worker : String) (at : ℤ) (failure : Option JsonObj) (jitter : ℕ) {t' : Task}
    → Inv t
    → jitter < 30
    → t.attempted ≤ max_retries
    → into_failed t worker at failure jitter ≡ ok t'
    → t'.state ≡ failed
    → (at +ℤ pos ((t.attempted + 10) * 1_000_000_000) ≤ℤ t'.run_at) × (t'.last_enqueued_at ≡ at)
into_failed-run_at t worker at failure jitter v h k e f =
    let (eq, enqueued, positive) = into_failed_fields t worker at failure jitter v e f in
    let (lo, hi) = wait_time_seconds_bounds (t.attempted - 1) jitter (omega arith) h in
    let run_at_eq =
      eq
      ∙ ap (λ (d : ℤ). at +ℤ d) (wait_time_duration-eq (t.attempted - 1) jitter (omega arith) h) in
    (rw run_at_eq (omega int_laws), enqueued)
