-- ===== src/Domain/Leader.antt =====
-- internal/domain/leader: the functions that a server runs over and over, each in a loop of its own. `S` is
-- the state of the process and of the world around it; the error of a function is only logged, so it is
-- whether there was none.
pub mod Interval
use tasques.Prelude.{
  ℕ, zero, suc, ℤ, pos, ◌-ℤ◌, ltb_ℤ, String, Bool, true, false, not, Option, none, some, List, [],
  ◌∷◌, ◌++◌, if◌then◌else◌,
}

-- `IsLeader`
abbrev pub Checker : Type 0 → Type 0
Checker S = S → Bool

pub record InternalRecurringFunction (S : Type 0) : Type 0 where
  pub name : String
  pub interval : ℤ
  pub f : Checker S → S → Bool × S

-- time.Now and time.Sleep.
pub record Ticks (S : Type 0) : Type 0 where
  pub now : S → ℤ × S
  pub sleep : ℤ → S → S

-- `impl`, and the loops that it has begun and that have not without_loop.
pub record Runner (S : Type 0) : Type 0 where
  pub functions : List (InternalRecurringFunction S)
  pub stopped : Bool
  pub loops : List (InternalRecurringFunction S)

module _ {S : Type 0} where
  unfoldable pub new_runner : List (InternalRecurringFunction S) → Runner S
  new_runner functions = record { functions = functions; stopped = true; loops = [] }

  unfoldable pub start_runner : Runner S → Runner S
  start_runner r = record r { stopped = false; loops = r.loops ++ r.functions }

  unfoldable pub stop_runner : Runner S → Runner S
  stop_runner r = record r { stopped = true }

  abbrev pub should_run : Runner S → Bool
  should_run r = not r.stopped

  -- The body of a loop: the function, and a sleep for what is left of the interval.
  unfoldable pub iterate : Ticks S → Checker S → InternalRecurringFunction S → S → S
  iterate ticks is_leader task s =
      let (start_iteration_time, s1) = ticks.now s in
      let (no_error, s2) = task.f is_leader s1 in
      let (now, s3) = ticks.now s2 in
      let wait_time = task.interval -ℤ (now -ℤ start_iteration_time) in
      if ltb_ℤ (pos 0) wait_time then ticks.sleep wait_time s3 else s3

  -- The loop at a place of the list, and the list without it.
  unfoldable pub loop_at :
      List (InternalRecurringFunction S) → ℕ → Option (InternalRecurringFunction S)
  loop_at [] n = none
  loop_at (task ∷ tasks) zero = some task
  loop_at (task ∷ tasks) (suc n) = loop_at tasks n

  unfoldable pub without_loop :
      List (InternalRecurringFunction S) → ℕ → List (InternalRecurringFunction S)
  without_loop [] n = []
  without_loop (task ∷ tasks) zero = tasks
  without_loop (task ∷ tasks) (suc n) = task ∷ without_loop tasks n

  -- What a loop does at its condition: it runs its function once more, or it ends.
  abbrev pub at_condition :
      Ticks S → Checker S → ℕ → Runner S → S → Option (InternalRecurringFunction S) → Runner S × S
  at_condition ticks is_leader n r s none = (r, s)
  at_condition ticks is_leader n r s (some task) =
      if should_run r
      then (r, iterate ticks is_leader task s)
      else (record r { loops = without_loop r.loops n }, s)

  unfoldable pub loop_turn : Ticks S → Checker S → ℕ → Runner S → S → Runner S × S
  loop_turn ticks is_leader n r s = at_condition ticks is_leader n r s (loop_at r.loops n)
