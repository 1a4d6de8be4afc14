-- ===== src/Examples/Clocks.antt =====
-- A world that is only its time, with a server on which every search finds nothing: `Claim` waits until
-- its time is over.
use tasques.Prelude.{ℕ, ◌+◌, pos, pos_part, none, some, [], true, false}
use tasques.Es.Client.{Runtime, Cache, no_response, response}
use tasques.Es.Tasks.Service.{TaskClient}
use tasques.Es.Tasks.Claim.Clock.{Clock}

abbrev pub idle : TaskClient ℕ
idle = record {
  get = λ index id w. (no_response, w);
  create = λ index id source w. (no_response, w);
  put = λ index id source v w. (no_response, w);
  bulk = λ ops w. (no_response, w);
  search = λ indices q w. (response 200 (some []), w + 1);
  search_scroll = λ index q wait w. (no_response, w);
  scroll = λ id wait w. (no_response, w);
  clear_scroll = λ ids w. (no_response, w);
  refresh = λ index w. (no_response, w);
  count = λ index q w. (no_response, w);
  marshals = λ source. true;
  is_error = λ status. false;
}

abbrev pub ticking : Runtime ℕ
ticking = record {
  get_utc = λ w. (pos w, w);
  sleep = λ wait w. w + pos_part wait;
  rand_intn = λ n w. (0, w);
  new_id = λ w. ("fresh", w);
}

abbrev no_cache : Cache ℕ
no_cache = record { add = λ name at w. w; get = λ name w. (none, w) }
