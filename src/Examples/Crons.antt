-- ===== src/Examples/Crons.antt =====
-- The scheduler of internal/infra/cron/task/recurring/scheduler.go over a cron that is a list, and one of
-- its entries over a server that counts.
use tasques.Prelude.{
  ℕ, suc, ◌<◌, ◌≡◌, ◌≢◌, refl, pos, str_eq, Bool, true, false, Option, none, some, List, [], ◌∷◌,
  length, ◌==◌, if◌then◌else◌, arith,
}
use tasques.Domain.Recurring.{RecurringTask}
use tasques.Domain.Recurring.Manager.Laws.{SchedulerLaws}
use tasques.Es.Client.{Runtime, Cache, no_response, response}
use tasques.Es.Tasks.Service.{TaskClient}
use tasques.Cron.{Cron, Job}
use tasques.Cron.Valid.{CronLaws}
use tasques.Cron.Valid.Implements.{cron_scheduler, scheduled_in, cron_scheduler-SchedulerLaws}
use tasques.Examples.Recurring.{hourly}

-- The jobs of the entries, the newest first; the id of an entry is its place from the end, from 1. The
-- job of an entry that was removed is gone. Only the empty spec does not parse.
unfoldable jobs : List (Option Job) → ℕ → Option Job
jobs [] e = none
jobs (j ∷ js) e = let rest = jobs js e in if e == suc (length js) then j else rest

unfoldable without : ℕ → List (Option Job) → List (Option Job)
without e [] = []
without e (j ∷ js) =
    let rest = without e js in if e == suc (length js) then none ∷ rest else j ∷ rest

unfoldable with_job : Bool → Job → List (Option Job) → Option ℕ × List (Option Job)
with_job true j js = (none, js)
with_job false j js = (some (suc (length js)), some j ∷ js)

abbrev cron : Cron (List (Option Job))
cron = record {
  add_job = λ spec j js. with_job (str_eq spec "") j js;
  remove = without;
  start = λ js. js;
  stop = λ js. js;
}

jobs-above : (js : List (Option Job)) (e : ℕ) → length js < e → jobs js e ≡ none
unfolding jobs
jobs-above [] e h = refl
jobs-above (j ∷ js) e h =
    let less : length js < e = omega arith in let rest = jobs-above js e less in ground arith

length-without : (e : ℕ) (js : List (Option Job)) → length (without e js) ≡ length js
unfolding without
length-without e [] = refl
length-without e (j ∷ js) = let rest = length-without e js in ground arith

jobs-zero : (js : List (Option Job)) → jobs js 0 ≡ none
unfolding jobs
jobs-zero [] = refl
jobs-zero (j ∷ js) = let rest = jobs-zero js in ground arith

jobs-without_self : (e : ℕ) (js : List (Option Job)) → jobs (without e js) e ≡ none
unfolding jobs without
jobs-without_self e [] = refl
jobs-without_self e (j ∷ js) =
    let rest = jobs-without_self e js in let same = length-without e js in ground arith

jobs-without_ne : (e k : ℕ) (js : List (Option Job)) → k ≢ e → jobs (without e js) k ≡ jobs js k
unfolding jobs without
jobs-without_ne e k [] n = refl
jobs-without_ne e k (j ∷ js) n =
    let rest = jobs-without_ne e k js n in let same = length-without e js in ground arith

with_job-added :
    (b : Bool) (j : Job) (js : List (Option Job)) (e : ℕ)
    → (with_job b j js).0 ≡ some e
    → (jobs js e ≡ none) × (jobs (with_job b j js).1 e ≡ some j)
unfolding with_job jobs
with_job-added true j js e h = absurd (ground arith)
with_job-added false j js e h =
    let at : e ≡ suc (length js) = ground arith in (jobs-above js e (omega arith), ground arith)

with_job-other :
    (b : Bool) (j : Job) (js : List (Option Job)) (e k : ℕ)
    → (with_job b j js).0 ≡ some e
    → k ≢ e
    → jobs (with_job b j js).1 k ≡ jobs js k
unfolding with_job jobs
with_job-other true j js e k h n = refl
with_job-other false j js e k h n = ground arith

with_job-failed :
    (b : Bool) (j : Job) (js : List (Option Job)) (k : ℕ)
    → (with_job b j js).0 ≡ none
    → jobs (with_job b j js).1 k ≡ jobs js k
unfolding with_job
with_job-failed true j js k h = refl
with_job-failed false j js k h = absurd (ground arith)

cron-CronLaws : CronLaws cron jobs
cron-CronLaws = record {
  no_zero = jobs-zero;
  added = λ spec. with_job-added (str_eq spec "");
  add_other = λ spec. with_job-other (str_eq spec "");
  add_failed = λ spec. with_job-failed (str_eq spec "");
  removed = jobs-without_self;
  remove_other = λ e k js n. jobs-without_ne e k js n;
}

cron_scheduler-SchedulerLaws_example :
    SchedulerLaws (cron_scheduler cron jobs cron-CronLaws) (scheduled_in cron jobs cron-CronLaws)
cron_scheduler-SchedulerLaws_example = cron_scheduler-SchedulerLaws cron jobs cron-CronLaws

-- A server that knows only how many tasks are outstanding, and how many of them a count sees.
abbrev counter : TaskClient (ℕ × ℕ)
counter = record {
  get = λ index id w. (no_response, w);
  create = λ index id source (n, seen).
      (response 201 (some (record { seq_num = n; primary_term = 1 })), (suc n, seen));
  put = λ index id source v w. (no_response, w);
  bulk = λ ops w. (no_response, w);
  search = λ indices q w. (no_response, w);
  search_scroll = λ index q wait w. (no_response, w);
  scroll = λ id wait w. (no_response, w);
  clear_scroll = λ ids w. (no_response, w);
  refresh = λ index (n, seen). (response 200 (some tt), (n, n));
  count = λ index q (n, seen). (response 200 (some seen), (n, seen));
  marshals = λ source. true;
  is_error = λ status. false;
}

abbrev runtime : Runtime (ℕ × ℕ)
runtime = record {
  get_utc = λ w. (pos 100, w);
  sleep = λ wait w. w;
  rand_intn = λ k w. (0, w);
  new_id = λ w. ("fresh", w);
}

abbrev no_cache : Cache (ℕ × ℕ)
no_cache = record { add = λ name at w. w; get = λ name w. (none, w) }

abbrev skipping : RecurringTask
skipping = record hourly { skip_if_outstanding_tasks_exist = true }

abbrev AllSeen : ℕ × ℕ → Type 0
AllSeen (n, seen) = seen ≡ n
