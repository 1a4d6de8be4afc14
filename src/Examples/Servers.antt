-- ===== src/Examples/Servers.antt =====
-- A server of internal/infra/server/components.go on an Elasticsearch that does not answer.
use tasques.Prelude.{ℕ, ◌+◌, pos, pos_part, ◌+ℤ◌, +ℤ_parts, ◌≤ℤ◌, true, false, [], ◌∷◌, ok, arith}
use tasques.Domain.Json.{empty}
use tasques.Domain.Leader.{InternalRecurringFunction, Ticks, iterate, new_runner}
use tasques.Domain.Leader.Interval.{TicksLaws, iterate-interval}
use tasques.Domain.Recurring.{Scheduler, Service}
use tasques.Domain.Recurring.Manager.{new_manager}
use tasques.Es.Client.{no_response}
use tasques.Es.Leader.{LockClient, new_leader_lock}
use tasques.Server.{
  Wiring, Components, looped, lock_round, start_runner_loop, build_recurring_runner,
  build_recurring_tasks_leader_lock, new_components, all_happen,
}
use tasques.Server.Sound.{Sound, all_happen-Sound}
use tasques.Examples.Clocks.{idle, ticking}

abbrev clock : Ticks ℕ
clock = record { now = λ s. (pos s, s); sleep = λ wait s. s + pos_part wait }

-- It takes 3, and is to run every 10.
abbrev slow : InternalRecurringFunction ℕ
slow = record { name = "slow"; interval = pos 10; f = λ is_leader s. (true, s + 3) }

slow-TicksLaws : TicksLaws clock pos (λ s. true) slow
slow-TicksLaws = record {
  now_from = λ s. omega arith;
  now_to = λ s. omega arith;
  sleep_moves = λ wait s. omega (arith, +ℤ_parts (pos s) wait);
  runs_later = λ s. omega arith;
}

iterate-interval_example : (pos 100 +ℤ pos 10) ≤ℤ pos (iterate clock (λ s. true) slow 100)
iterate-interval_example = iterate-interval clock pos (λ s. true) slow slow-TicksLaws 100

abbrev silent : LockClient ℕ
silent = record {
  get = λ index id w. (no_response, w);
  create = λ index id source w. (no_response, w);
  put = λ index id source v w. (no_response, w);
  bulk = λ ops w. (no_response, w);
  search = λ indices q w. (no_response, w);
  search_scroll = λ index q wait w. (no_response, w);
  scroll = λ id wait w. (no_response, w);
  clear_scroll = λ ids w. (no_response, w);
  refresh = λ index w. (no_response, w);
  count = λ index q w. (no_response, w);
  marshals = λ source. true;
  is_error = λ status. false;
}

abbrev scheduler : Scheduler ℕ
scheduler = record { schedule = λ t w. (true, w); unschedule = λ id w. (true, w) }

abbrev service : Service ℕ (Unit {0})
service = record {
  all = λ w. (ok [], w);
  not_loaded = λ w. (ok [], w);
  mark_loaded = λ ts w.
      (ok (record { successes = ts; version_conflicts = []; not_founds = []; others = [] }), w);
}

abbrev given : Wiring ℕ (Unit {0})
given = record {
  tasks = idle;
  locks = silent;
  runtime = ticking;
  scheduler = scheduler;
  service = service;
  timed_out = empty;
  fuel = 3;
  conf = record {
    timed_out_tasks_reaper = record { scroll_size = 5; scroll_ttl = pos 9; run_interval = pos 10 };
    tasks_archiver = record {
      scroll_size = 5;
      scroll_ttl = pos 9;
      archive_older_than = pos 50;
      run_interval = pos 20;
    };
    recurring_tasks = record { sync_run_interval = pos 3; enforce_sync_run_interval = pos 30 };
  };
}

abbrev fresh : Components ℕ
unfolding new_components build_recurring_runner build_recurring_tasks_leader_lock new_leader_lock
    new_manager new_runner
fresh = new_components given "me" (pos 10) (pos 30) 7

all_happen-Sound_example :
    Sound
      (all_happen given
        (start_runner_loop ∷ lock_round ∷ looped 2 ∷ [])
        (new_components given "me" (pos 10) (pos 30) 7)).process
all_happen-Sound_example =
    all_happen-Sound given "me" (pos 10) (pos 30) 7 (start_runner_loop ∷ lock_round ∷ looped 2 ∷ [])
