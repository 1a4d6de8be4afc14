-- ===== src/Domain/Leader/Interval.antt =====
-- How often the loops of internal/domain/leader/recurring.go run their functions.
use tasques.Prelude.{
  ℤ, pos, ◌+ℤ◌, ◌-ℤ◌, +ℤ_parts, -ℤ_parts, ◌≤ℤ◌, ltb_ℤ, ◌≡◌, false, Bool-cases, inl, inr, arith,
}
use tasques.Domain.Leader.{Checker, InternalRecurringFunction, Ticks, iterate}

-- The clock never goes back, also while the function runs, and a sleep takes as long as was asked for.
pub record TicksLaws {S : Type 0} (ticks : Ticks S) (time : S → ℤ) (is_leader : Checker S)
    (task : InternalRecurringFunction S) : Type 0 where
  pub now_from : (s : S) → time s ≤ℤ (ticks.now s).0
  pub now_to : (s : S) → (ticks.now s).0 ≤ℤ time (ticks.now s).1
  pub sleep_moves : (wait : ℤ) (s : S) → (time s +ℤ wait) ≤ℤ time (ticks.sleep wait s)
  pub runs_later : (s : S) → time s ≤ℤ time (task.f is_leader s).1

not_less : (a b : ℤ) → ltb_ℤ a b ≡ false → b ≤ℤ a
not_less a b h = ground arith

-- A loop comes back to its condition no sooner than the interval after the time at which it left it.
pub iterate-interval :
    {S : Type 0} (ticks : Ticks S) (time : S → ℤ) (is_leader : Checker S)
    (task : InternalRecurringFunction S)
    → TicksLaws ticks time is_leader task
    → (s : S) → (time s +ℤ task.interval) ≤ℤ time (iterate ticks is_leader task s)
unfolding iterate
iterate-interval ticks time is_leader task laws s =
    let start = (ticks.now s).0 in
    let s1 = (ticks.now s).1 in
    let s2 = (task.f is_leader s1).1 in
    let now = (ticks.now s2).0 in
    let s3 = (ticks.now s2).1 in
    let wait = task.interval -ℤ (now -ℤ start) in
    let began : time s ≤ℤ now =
      omega (arith, laws.now_from s, laws.now_to s, laws.runs_later s1, laws.now_from s2) in
    elim (Bool-cases (ltb_ℤ (pos 0) wait)) [
      | inl e ↦ rw e (
          omega (
            arith,
            laws.now_from s,
            laws.now_to s2,
            laws.sleep_moves wait s3,
            -ℤ_parts now start,
            -ℤ_parts task.interval (now -ℤ start),
            +ℤ_parts (time s) task.interval,
            +ℤ_parts (time s3) wait,
          ))
      | inr e ↦ rw e (
          omega (
            arith,
            laws.now_from s,
            laws.now_to s2,
            not_less (pos 0) wait e,
            -ℤ_parts now start,
            -ℤ_parts task.interval (now -ℤ start),
            +ℤ_parts (time s) task.interval,
          ))
    ]
