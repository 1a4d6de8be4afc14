-- ===== src/Examples/Services.antt =====
-- Claiming, reaping and searching for tasks by internal/infra/elasticsearch/task/service.go.
use tasques.Prelude.{
  ℕ, pos, ◌-ℤ◌, ◌+ℤ◌, ◌≡◌, ◌≢◌, ◌↔◌, refl, none, some, List, [], ◌∷◌, ok, length, All, arith,
}
use tasques.Domain.Json.{empty}
use tasques.Domain.Task.{Task, claimed, into_claimed}
use tasques.Domain.Queue.{name_from_string}
use tasques.Domain.Queue.Valid.{IsName, name_from_string-ok_iff}
use tasques.Es.Common.{EsBulkResponseItem, info, is_ok, version}
use tasques.Es.Client.{Cache, response}
use tasques.Es.Tasks.Persisted.{PersistedTaskData, to_domain_task, to_persisted_task}
use tasques.Es.Tasks.Settings.{build_index_name}
use tasques.Es.Tasks.Service.{TaskClient}
use tasques.Es.Tasks.Bulk.{
  bulk_answer, claimed_of, claim_each, send_bulk, bulk_update_tasks, make_claim,
}
use tasques.Es.Tasks.Refresh.{mark_all_touched}
use tasques.Es.Tasks.Claim.{
  returned, starved, search_answer, search_for_claimables, search_loop, about_to_claims, next_start,
  claim_window, claim_found, search_and_claim, claim_loop, claim,
}
use tasques.Es.Tasks.Claim.Bounds.{Given, claim-Given}
use tasques.Es.Tasks.Claim.Window.{claim_found_ends}
use tasques.Es.Tasks.Scan.{time_out_each}
use tasques.Es.Tasks.Scan.Reap.{IsReaped, time_out_each-All}
use tasques.Examples.Server.{World, server, runtime}
use tasques.Examples.Tasks.{waiting, running}
use tasques.Examples.Updates.{settings}

-- A server whose searches find one task that waits, and which confirms a claim of it.
abbrev confirmed : EsBulkResponseItem
confirmed = record {
  index = some (record {
    index = build_index_name "jobs";
    id = "a";
    seq_num = 8;
    primary_term = 1;
    result = "updated";
    status = 200;
  });
  delete = none;
  create = none;
  update = none;
}

abbrev busy : TaskClient (World PersistedTaskData)
busy = record server {
  search = λ indices q w. (
    response 200 (
        some (
          record {
            id = "a";
            version = record { seq_num = 7; primary_term = 1 };
            source = to_persisted_task waiting;
          }
          ∷ [])),
    w,
  );
  bulk = λ ops w. (response 200 (some (confirmed ∷ [])), w);
}

abbrev no_cache : Cache (World PersistedTaskData)
no_cache = record { add = λ name at w. w; get = λ name w. (none, w) }

abbrev given : Task
given = record waiting {
  state = claimed;
  attempted = 1;
  last_claimed = some (record {
    worker_id = "ann";
    claimed_at = pos 100;
    times_out_at = pos 105;
    last_report = none;
    result = none;
  });
  metadata = record {
    created_at = pos 1;
    modified_at = pos 100;
    version = record { seq_num = 8; primary_term = 1 };
  };
}

claims :
    claim busy runtime no_cache settings 3 "ann" ("jobs" ∷ []) 1 (pos 5) []
    ≡ (ok (returned (given ∷ [])), [])
unfolding claim claim_loop search_and_claim search_loop search_for_claimables search_answer
    claim_found about_to_claims next_start claim_window make_claim claim_each into_claimed
    bulk_update_tasks send_bulk bulk_answer claimed_of info is_ok version mark_all_touched
    to_domain_task to_persisted_task ◌-ℤ◌ ◌+ℤ◌
claims = refl

claim-Given_example : Given "ann" 1 (given ∷ [])
claim-Given_example =
    claim-Given busy runtime no_cache settings 3 "ann" ("jobs" ∷ []) 1 (pos 5) [] [] claims

claim_found_ends_example :
    claim_found busy runtime no_cache settings "ann" ("jobs" ∷ []) 1 (waiting ∷ waiting ∷ []) []
    ≢ (ok starved, [])
claim_found_ends_example =
    claim_found_ends busy runtime no_cache settings "ann" ("jobs" ∷ []) 1 (waiting ∷ waiting ∷ [])
      [] [] (omega arith)

time_out_each-All_example :
    (length (time_out_each server runtime empty (pos 200) (running ∷ given ∷ []) []).0 ≡ 2)
    × All
        (IsReaped (pos 200))
        (time_out_each server runtime empty (pos 200) (running ∷ given ∷ []) []).0
time_out_each-All_example =
    time_out_each-All server runtime empty (pos 200) (running ∷ given ∷ []) []
      ((refl, (_, refl)), ((refl, (_, refl)), tt))

abbrev name : List ℕ
name = b'a' ∷ b'b' ∷ []

name_from_string-ok_iff_example :
    (name_from_string (λ c. c) name ≡ ok name) ↔ ((name ≡ name) × IsName (λ c. c) name)
name_from_string-ok_iff_example = name_from_string-ok_iff (λ c. c) name name
