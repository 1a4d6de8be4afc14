-- ===== src/Server.antt =====
-- internal/infra/server/components.go: a server as one process, with its leader lock, its manager of
-- recurring tasks and the loops of its recurring functions over one world. What runs at the same time in
-- the source is a sequence of events, each of which is one call of one part.
pub mod Sound
use tasques.Prelude.{
  ℕ, ℤ, ◌-ℤ◌, String, Bool, true, false, Option, none, some, List, [], ◌∷◌, ◌++◌, Outcome, ok, err,
  if◌then◌else◌,
}
use tasques.Domain.Json.{JsonObj}
use tasques.Domain.Leader.{
  Checker, InternalRecurringFunction, Ticks, Runner, new_runner, start_runner, stop_runner,
  loop_turn,
}
use tasques.Domain.Recurring.{Scheduler, Service}
use tasques.Domain.Recurring.Manager.{
  Manager, new_manager, recurring_sync_func, recurring_sync_enforce_func,
}
use tasques.Es.Client.{Runtime}
use tasques.Es.Leader.{EsLock, LockClient, new_leader_lock, is_leader, round, start, stop}
use tasques.Es.Tasks.Service.{TaskClient}
use tasques.Es.Tasks.Scan.{reap_timed_out_tasks, archive_old_tasks}

-- internal/config/models.go
pub record TimedOutTasksReaper : Type 0 where
  pub scroll_size : ℕ
  pub scroll_ttl : ℤ
  pub run_interval : ℤ

pub record TasksArchiver : Type 0 where
  pub scroll_size : ℕ
  pub scroll_ttl : ℤ
  pub archive_older_than : ℤ
  pub run_interval : ℤ

pub record RecurringTasks : Type 0 where
  pub sync_run_interval : ℤ
  pub enforce_sync_run_interval : ℤ

pub record Recurring : Type 0 where
  pub timed_out_tasks_reaper : TimedOutTasksReaper
  pub tasks_archiver : TasksArchiver
  pub recurring_tasks : RecurringTasks

-- The state of the parts, without what they are given, and the world.
pub record Process (W : Type 0) : Type 0 where
  pub lock : EsLock
  pub manager : Manager
  pub world : W

-- What the parts are given; `fuel` is for the scans of the reaper and of the archiver.
pub record Wiring (W E : Type 0) : Type 0 where
  pub tasks : TaskClient W
  pub locks : LockClient W
  pub runtime : Runtime W
  pub scheduler : Scheduler W
  pub service : Service W E
  pub timed_out : JsonObj
  pub fuel : ℕ
  pub conf : Recurring

pub record Components (W : Type 0) : Type 0 where
  pub runner : Runner (Process W)
  pub process : Process W

-- What can happen while a server runs: one of the loops comes to its condition, the lock makes a round,
-- and the calls of `Run`.
pub data Event : Type 0 where
  looped : ℕ → Event
  lock_round start_runner_loop stop_runner_loop start_lock stop_lock : Event

abbrev pub no_error : {E A : Type 0} → Outcome E A → Bool
no_error (ok a) = true
no_error (err e) = false

abbrev pub holds_lock : {W : Type 0} → Checker (Process W)
holds_lock p = is_leader p.lock

-- buildRecurringTasksLeaderLock
unfoldable pub build_recurring_tasks_leader_lock : String → ℤ → ℤ → EsLock
build_recurring_tasks_leader_lock process_id run_interval leader_lock_lease =
    new_leader_lock "recurring-tasks-leader" process_id run_interval leader_lock_lease

-- buildWhenLeaderFunction
unfoldable pub build_when_leader_function :
    {W : Type 0}
    → String
    → ℤ
    → (Process W → Bool × Process W)
    → InternalRecurringFunction (Process W)
build_when_leader_function name run_interval run_func = record {
  name = name;
  interval = run_interval;
  f = λ is_leader p. if is_leader p then run_func p else (true, p);
}

module _ {W E : Type 0} (g : Wiring W E) where
  -- A call that only changes the world.
  abbrev pub in_world : {F A : Type 0} → (W → Outcome F A × W) → Process W → Bool × Process W
  in_world call p = let (r, w) = call p.world in (no_error r, record p { world = w })

  -- A call of the manager.
  abbrev pub in_manager :
      (Manager → W → Outcome E (Unit {0}) × Manager × W) → Process W → Bool × Process W
  in_manager call p =
      let (r, m, w) = call p.manager p.world in (no_error r, record p { manager = m; world = w })

  unfoldable pub time_out_tasks : Process W → Bool × Process W
  time_out_tasks =
      let reaper = g.conf.timed_out_tasks_reaper in
      in_world (
        reap_timed_out_tasks g.tasks g.runtime g.timed_out g.fuel reaper.scroll_size
          reaper.scroll_ttl)

  unfoldable pub archive_tasks : Process W → Bool × Process W
  archive_tasks =
      let archiver = g.conf.tasks_archiver in
      in_world λ w.
        let (now, w') = g.runtime.get_utc w in
        archive_old_tasks g.tasks g.runtime g.timed_out g.fuel (now -ℤ archiver.archive_older_than)
          archiver.scroll_size archiver.scroll_ttl w'

  unfoldable pub recurring_functions : List (InternalRecurringFunction (Process W))
  recurring_functions =
      build_when_leader_function "time-out-tasks-runner" g.conf.timed_out_tasks_reaper.run_interval
        time_out_tasks
      ∷ build_when_leader_function "archive-tasks-runner" g.conf.tasks_archiver.run_interval
          archive_tasks
      ∷ record {
        name = "recurring-tasks-sync";
        interval = g.conf.recurring_tasks.sync_run_interval;
        f = λ is_leader p. in_manager (recurring_sync_func g.scheduler g.service (is_leader p)) p;
      }
      ∷ record {
        name = "recurring-tasks-sync-enforcer";
        interval = g.conf.recurring_tasks.enforce_sync_run_interval;
        f = λ is_leader p.
            in_manager (recurring_sync_enforce_func g.scheduler g.service (is_leader p)) p;
      }
      ∷ []

  unfoldable pub build_recurring_runner : Runner (Process W)
  build_recurring_runner = new_runner recurring_functions

  unfoldable pub new_components : String → ℤ → ℤ → W → Components W
  new_components process_id run_interval leader_lock_lease w = record {
    runner = build_recurring_runner;
    process = record {
      lock = build_recurring_tasks_leader_lock process_id run_interval leader_lock_lease;
      manager = new_manager;
      world = w;
    };
  }

  abbrev pub process_ticks : Ticks (Process W)
  process_ticks = record {
    now = λ p. let (now, w) = g.runtime.get_utc p.world in (now, record p { world = w });
    sleep = λ wait p. record p { world = g.runtime.sleep wait p.world };
  }

  -- A round of the lock; where its loop returns, the lock is as it was.
  abbrev pub after_round : Process W → Option EsLock × W → Process W
  after_round p (none, w) = record p { world = w }
  after_round p (some e, w) = record p { lock = e; world = w }

  unfoldable pub lock_turn : Process W → Process W
  lock_turn p = after_round p (round g.locks g.runtime p.lock p.world)

  abbrev pub after_loop : Runner (Process W) × Process W → Components W
  after_loop (r, p) = record { runner = r; process = p }

  unfoldable pub happens : Event → Components W → Components W
  happens (looped n) c = after_loop (loop_turn process_ticks holds_lock n c.runner c.process)
  happens lock_round c = record c { process = lock_turn c.process }
  happens start_runner_loop c = record c { runner = start_runner c.runner }
  happens stop_runner_loop c = record c { runner = stop_runner c.runner }
  happens start_lock c = record c { process = record c.process { lock = start c.process.lock } }
  happens stop_lock c = record c { process = record c.process { lock = stop c.process.lock } }

  unfoldable pub all_happen : List Event → Components W → Components W
  all_happen [] c = c
  all_happen (e ∷ es) c = all_happen es (happens e c)
