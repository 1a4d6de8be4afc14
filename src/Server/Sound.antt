-- ===== src/Server/Sound.antt =====
-- What holds of a server of internal/infra/server/components.go, whatever happens in it and in which
-- order.
use tasques.Prelude.{
  ◌⊎◌, ℕ, zero, suc, ℤ, pos, ◌-ℤ◌, ltb_ℤ, String, ◌≡◌, refl, sym, ◌∙◌, ap, subst, Bool, true, false,
  Option, none, some, List, [], ◌∷◌, All, All-append, inl, inr, Bool-cases, if◌then◌else◌, arith,
}
use tasques.Domain.Leader.{
  at_condition, InternalRecurringFunction, should_run, new_runner, start_runner, stop_runner,
  iterate, loop_at, without_loop, loop_turn,
}
use tasques.Domain.Recurring.Manager.{
  LeaderState, not_leader, leader, Manager, new_manager, Step, leader_state_of, recurring_func,
  recurring_sync_func, recurring_sync_enforce_func, sync_not_loaded, enforce_sync,
}
use tasques.Domain.Recurring.Manager.State.{leader_state_kept}
use tasques.Domain.Recurring.Manager.Leadership.{recurring_func-not_leader}
use tasques.Es.Leader.{EsLock, round, start, stop, new_leader_lock}
use tasques.Es.Leader.Stash.{Stash, round-Stash}
use tasques.Server.{
  Process, Wiring, Components, Event, looped, lock_round, start_runner_loop, stop_runner_loop,
  start_lock, stop_lock, holds_lock, build_recurring_tasks_leader_lock, build_when_leader_function,
  time_out_tasks, archive_tasks, recurring_functions, build_recurring_runner, new_components,
  process_ticks, after_round, after_loop, lock_turn, happens, all_happen,
}

-- A manager that does not take its process for the leader keeps nothing in memory.
abbrev pub Clean : Manager → Type 0
Clean m = m.leader_state ≡ not_leader → m.scheduled_tasks ≡ []

pub record Sound {W : Type 0} (p : Process W) : Type 0 where
  pub stash : Stash p.lock
  pub clean : Clean p.manager

LeaderState-cases : (s : LeaderState) → (s ≡ leader) ⊎ (s ≡ not_leader)
LeaderState-cases leader = inl refl
LeaderState-cases not_leader = inr refl

module _ {W : Type 0} where
  Sound-moved : (p : Process W) (w : W) → Sound p → Sound (record p { world = w })
  Sound-moved p w h = record { stash = h.stash; clean = h.clean }

  Sound-if : (b : Bool) (p q : Process W) → Sound p → Sound q → Sound (if b then p else q)
  Sound-if true p q h k = h
  Sound-if false p q h k = k

  Sound-when :
      (b : Bool) (x y : Bool × Process W) → Sound x.1 → Sound y.1 → Sound (if b then x else y).1
  Sound-when true x y h k = h
  Sound-when false x y h k = k

module _ {W E : Type 0} (g : Wiring W E) where
  -- A function that a loop may run.
  abbrev KeepsSound : InternalRecurringFunction (Process W) → Type 0
  KeepsSound task = (p : Process W) → Sound p → Sound (task.f holds_lock p).1

  recurring_func-Clean :
      (f : Step W E (Unit {0})) (b : Bool) (m : Manager) (w : W)
      → (recurring_func g.scheduler g.service f b m w).1.leader_state
        ≡ leader_state_of g.scheduler g.service b
      → Clean m
      → Clean (recurring_func g.scheduler g.service f b m w).1
  recurring_func-Clean f true m w state h e = absurd (ground (arith, sym state ∙ e))
  recurring_func-Clean f false m w state h e =
      let (done, after, led, idle) = recurring_func-not_leader g.scheduler g.service f m w in
      elim (LeaderState-cases m.leader_state) [
        | inl was_leader ↦ led was_leader
        | inr was_not ↦ ap (λ x. x.1.scheduled_tasks) (idle was_not) ∙ h was_not
      ]

  recurring_functions-KeepsSound : All KeepsSound (recurring_functions g)
  unfolding recurring_functions build_when_leader_function time_out_tasks archive_tasks
      recurring_sync_func recurring_sync_enforce_func
  recurring_functions-KeepsSound = (
    λ p h. Sound-when (holds_lock p) (time_out_tasks g p) (true, p) (Sound-moved p _ h) h,
    (
      λ p h. Sound-when (holds_lock p) (archive_tasks g p) (true, p) (Sound-moved p _ h) h,
      (
        λ p h. record {
          stash = h.stash;
          clean =
              recurring_func-Clean (sync_not_loaded g.scheduler g.service) (holds_lock p) p.manager
                p.world (leader_state_kept g.scheduler g.service (holds_lock p) p.manager p.world).0
                h.clean;
        },
        (
          λ p h. record {
            stash = h.stash;
            clean =
                recurring_func-Clean (enforce_sync g.scheduler g.service) (holds_lock p) p.manager
                  p.world
                  (leader_state_kept g.scheduler g.service (holds_lock p) p.manager p.world).1
                  h.clean;
          },
          tt,
        ),
      ),
    ),
  )

  iterate-Sound :
      (task : InternalRecurringFunction (Process W)) (p : Process W)
      → KeepsSound task
      → Sound p
      → Sound (iterate (process_ticks g) holds_lock task p)
  unfolding iterate
  iterate-Sound task p keeps h =
      let ticks = process_ticks g in
      let p1 = (ticks.now p).1 in
      let p2 = (task.f holds_lock p1).1 in
      let p3 = (ticks.now p2).1 in
      let kept = keeps p1 (Sound-moved p _ h) in
      Sound-if (ltb_ℤ (pos 0) (task.interval -ℤ ((ticks.now p2).0 -ℤ (ticks.now p).0)))
        (ticks.sleep (task.interval -ℤ ((ticks.now p2).0 -ℤ (ticks.now p).0)) p3) p3
        (Sound-moved p2 _ kept) (Sound-moved p2 _ kept)

  after_round-Sound :
      (p : Process W) (x : Option EsLock × W)
      → ((e : EsLock) (w : W) → x ≡ (some e, w) → Stash e)
      → Sound p
      → Sound (after_round g p x)
  after_round-Sound p (none, w) k h = Sound-moved p w h
  after_round-Sound p (some e, w) k h = record { stash = k e w refl; clean = h.clean }

  lock_turn-Sound : (p : Process W) → Sound p → Sound (lock_turn g p)
  unfolding lock_turn
  lock_turn-Sound p h =
      after_round-Sound p (round g.locks g.runtime p.lock p.world)
        (λ e w. round-Stash g.locks g.runtime p.lock e p.world w) h

  at-KeepsSound :
      (tasks : List (InternalRecurringFunction (Process W))) (n : ℕ)
      {task : InternalRecurringFunction (Process W)}
      → All KeepsSound tasks
      → loop_at tasks n ≡ some task
      → KeepsSound task
  unfolding loop_at
  at-KeepsSound [] n h e = absurd (ground arith)
  at-KeepsSound (t ∷ ts) zero {task} h e =
      let same : t ≡ task = ground arith in subst KeepsSound same h.0
  at-KeepsSound (t ∷ ts) (suc n) h e = at-KeepsSound ts n h.1 e

  without_loop-KeepsSound :
      (tasks : List (InternalRecurringFunction (Process W))) (n : ℕ)
      → All KeepsSound tasks
      → All KeepsSound (without_loop tasks n)
  unfolding without_loop
  without_loop-KeepsSound [] n h = tt
  without_loop-KeepsSound (t ∷ ts) zero h = h.1
  without_loop-KeepsSound (t ∷ ts) (suc n) h = (h.0, without_loop-KeepsSound ts n h.1)

  -- A server whose parts are sound, with loops of functions that keep them so.
  record Running (c : Components W) : Type 0 where
    process : Sound c.process
    loops : All KeepsSound c.runner.loops
    functions : All KeepsSound c.runner.functions

  at_condition-Running :
      (n : ℕ) (c : Components W) (o : Option (InternalRecurringFunction (Process W)))
      → ((task : InternalRecurringFunction (Process W)) → o ≡ some task → KeepsSound task)
      → Running c
      → Running (after_loop g (at_condition (process_ticks g) holds_lock n c.runner c.process o))
  at_condition-Running n c none k h = h
  at_condition-Running n c (some task) k h = elim (Bool-cases (should_run c.runner)) [
    | inl on ↦ rw on (record {
      process = iterate-Sound task c.process (k task refl) h.process;
      loops = h.loops;
      functions = h.functions;
    })
    | inr off ↦ rw off (record {
      process = h.process;
      loops = without_loop-KeepsSound c.runner.loops n h.loops;
      functions = h.functions;
    })
  ]

  happens-Running : (e : Event) (c : Components W) → Running c → Running (happens g e c)
  unfolding happens loop_turn start_runner stop_runner start stop
  happens-Running (looped n) c h =
      at_condition-Running n c (loop_at c.runner.loops n)
        (λ task e. at-KeepsSound c.runner.loops n h.loops e) h
  happens-Running lock_round c h = record {
    process = lock_turn-Sound c.process h.process;
    loops = h.loops;
    functions = h.functions;
  }
  happens-Running start_runner_loop c h = record {
    process = h.process;
    loops = All-append KeepsSound c.runner.loops c.runner.functions h.loops h.functions;
    functions = h.functions;
  }
  happens-Running stop_runner_loop c h = record {
    process = h.process;
    loops = h.loops;
    functions = h.functions;
  }
  happens-Running start_lock c h = record {
    process = record { stash = tt; clean = h.process.clean };
    loops = h.loops;
    functions = h.functions;
  }
  happens-Running stop_lock c h = record {
    process = record { stash = tt; clean = h.process.clean };
    loops = h.loops;
    functions = h.functions;
  }

  all_happen-Running :
      (es : List Event) (c : Components W) → Running c → Running (all_happen g es c)
  unfolding all_happen
  all_happen-Running [] c h = h
  all_happen-Running (e ∷ es) c h = all_happen-Running es (happens g e c) (happens-Running e c h)

  -- Whatever happens in a new server, in any order: a lock that leads keeps a document with its own name,
  -- one that waits to usurp one with another name, and a manager that takes its process for no leader
  -- keeps no recurring task in memory.
  pub all_happen-Sound :
      (process_id : String) (run_interval lease : ℤ) (w : W) (es : List Event)
      → Sound (all_happen g es (new_components g process_id run_interval lease w)).process
  unfolding new_components build_recurring_runner new_runner build_recurring_tasks_leader_lock
      new_leader_lock new_manager
  all_happen-Sound process_id run_interval lease w es =
      (all_happen-Running es (new_components g process_id run_interval lease w) (record {
        process = record { stash = tt; clean = λ e. refl };
        loops = tt;
        functions = recurring_functions-KeepsSound;
      })).process
