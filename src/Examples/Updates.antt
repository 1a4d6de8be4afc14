-- ===== src/Examples/Updates.antt =====
-- Updates of a stored task by internal/infra/elasticsearch/task/service.go.
use tasques.Prelude.{ℤ, pos, String, ◌≡◌, refl, ap, Option, none, some, [], ◌∷◌, ok, arith}
use tasques.Domain.Json.{JsonObj}
use tasques.Domain.Metadata.{version_eq}
use tasques.Domain.Task.{Task, Error, done, into_done, with_claim, not_owned}
use tasques.Es.Client.{Io, lift, marshal}
use tasques.Es.Client.Laws.{ClientLaws, RuntimeLaws}
use tasques.Es.Tasks.Persisted.{PersistedTaskData, to_domain_task, to_persisted_task}
use tasques.Es.Tasks.Queries.{SearchBody}
use tasques.Es.Tasks.Settings.{Tasks, build_index_name}
use tasques.Es.Tasks.Service.{
  of_domain, of_domain-ok, get, write_back, found, updated, get_and_update, complete_once,
  mark_complete, mark_done,
}
use tasques.Es.Tasks.Service.Locking.{IsUpdated, get_and_update-IsUpdated}
use tasques.Es.Tasks.Service.Owner.{succeeds, IsFinished, finish_task-IsFinished}
use tasques.Examples.Server.{
  World, stored, answer_get, answer_put, server, runtime, store, server-ClientLaws,
  runtime-RuntimeLaws,
}
use tasques.Examples.Tasks.{running, claim_of_ann}

abbrev pub settings : Tasks
settings = record {
  defaults = record {
    block_for_retry_min_wait = pos 1;
    block_for_retry_max_retries = 3;
    claim_amount_search_multiplier = 2;
    version_conflict_retry_times = 5;
  };
  queues = record { refresh_if_last_touched_over = pos 1; refresh_if_last_touched_under = pos 9 };
}

abbrev pub world : World PersistedTaskData
world =
    record { index = build_index_name "jobs"; id = "a"; source = to_persisted_task running } ∷ []

-- The task that "ann" completes at 100, without a result, under the version of the write.
abbrev pub finished : Task
finished = record running {
  state = done;
  last_claimed = some (record claim_of_ann {
    result = some (record { at = pos 100; failure = none; success = none });
  });
  metadata = record {
    created_at = pos 1;
    modified_at = pos 100;
    version = record { seq_num = 1; primary_term = 1 };
  };
}

abbrev pub after : World PersistedTaskData
after =
    record { index = build_index_name "jobs"; id = "a"; source = to_persisted_task finished }
    ∷ world

abbrev pub laws : ClientLaws (server {Q = SearchBody}) (store {D = PersistedTaskData})
laws = server-ClientLaws

abbrev pub time : RuntimeLaws runtime (store {D = PersistedTaskData})
time = runtime-RuntimeLaws

marks_done : mark_done server runtime settings "ann" "jobs" "a" none world ≡ (ok finished, after)
unfolding mark_done mark_complete complete_once get_and_update get write_back found updated marshal
    to_domain_task to_persisted_task build_index_name into_done with_claim not_owned stored
    answer_get answer_put version_eq
marks_done = refl

finish_task-IsFinished_example :
    IsFinished server runtime settings store laws time
      (succeeds none)
      "ann"
      "jobs"
      "a"
      world
      finished
      after
finish_task-IsFinished_example =
    finish_task-IsFinished server runtime settings store laws time (succeeds none) "ann" "jobs" "a"
      world after marks_done

-- What completing a task does to it.
abbrev complete : Task → Io (World PersistedTaskData) Error Task
complete t = lift (of_domain (into_done t "ann" (pos 100) none))

into_done-metadata :
    (t : Task) (worker : String) (at : ℤ) (x : Option JsonObj) {m : Task}
    → into_done t worker at x ≡ ok m
    → m.metadata ≡ t.metadata
unfolding into_done with_claim
into_done-metadata t worker at x h = ground arith

complete-metadata :
    (t : Task) (v v' : World PersistedTaskData) (m : Task)
    → complete t v ≡ (ok m, v')
    → m.metadata ≡ t.metadata
complete-metadata t v v' m h =
    into_done-metadata t "ann" (pos 100) none (of_domain-ok (ap (λ r. r.0) h))

updates :
    get_and_update server runtime settings "jobs" "a" complete (pos 100) world
    ≡ (ok finished, after)
unfolding get_and_update get write_back found updated marshal to_domain_task to_persisted_task
    build_index_name into_done with_claim not_owned stored answer_get answer_put version_eq
updates = refl

get_and_update-IsUpdated_example :
    IsUpdated server runtime settings store laws "jobs" "a" complete (pos 100) world finished after
get_and_update-IsUpdated_example =
    get_and_update-IsUpdated server runtime settings store laws "jobs" "a" complete (pos 100) world
      after (λ t v. laws.later_refl v) complete-metadata updates
