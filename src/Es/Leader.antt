-- ===== src/Es/Leader.antt =====
-- internal/infra/elasticsearch/leader/lock.go: the state machine by which one of several servers is the
-- leader. The document under the lock's id holds the leader's name.
pub mod Stash
pub mod Writes
use tasques.Prelude.{
  ℕ, zero, suc, ℤ, pos, ◌-ℤ◌, ltb_ℤ, String, Bool, true, false, Option, none, some, Outcome, ok,
  err, str_eq, ◌==◌, if◌then◌else◌,
}
use tasques.Domain.Metadata.{Version}
use tasques.Es.Common.{
  ServiceError, refused, elasticsearch_err, json_serdes_err, request_failed, unexpected_status,
  is_2xx,
}
use tasques.Es.Client.{
  Client, Runtime, Hit, Reply, no_response, response, Io, ◌>>=◌, lift, run, marshal,
}

-- The five values that are ever stored of the type `state`.
pub data State : Type 0 where
  checker pretender usurper leader stopped : State

pub record LeaderData : Type 0 where
  pub leader_id : String
  pub at : ℤ
  pub leader_lock_lease : ℤ

pub record EsLeaderInfo : Type 0 where
  pub id : String
  pub seq_num : ℕ
  pub primary_term : ℕ
  pub source : LeaderData

pub data LockError : Type 0 where
  not_found conflict : LockError

pub record EsLock : Type 0 where
  pub leader_lock_doc_id : String
  pub process_id : String
  pub state : State
  pub loop_interval : ℤ
  pub leader_lock_lease : ℤ
  pub stashed_doc : Option EsLeaderInfo

abbrev pub index_name : String
index_name = ".tasques_leader_locks"

-- The process id is one that `buildProcessId` makes.
unfoldable pub new_leader_lock : String → String → ℤ → ℤ → EsLock
new_leader_lock doc_id process_id loop_interval lag_tolerance = record {
  leader_lock_doc_id = doc_id;
  process_id = process_id;
  state = checker;
  loop_interval = loop_interval;
  leader_lock_lease = lag_tolerance;
  stashed_doc = none;
}

unfoldable pub is_leader : EsLock → Bool
is_leader e = elim e.state [ leader ↦ true | _ ↦ false ]

-- A document and a version, as the three functions below return them.
abbrev pub info_of : String → Version → LeaderData → EsLeaderInfo
info_of id v d = record { id = id; seq_num = v.seq_num; primary_term = v.primary_term; source = d }

abbrev pub Attempted : Type 0
Attempted = Outcome (ServiceError LockError) EsLeaderInfo

unfoldable pub read_answer : Reply (Hit LeaderData) → Attempted
read_answer no_response = err (elasticsearch_err request_failed)
read_answer (response status body) =
    if status == 200
    then elim body [ none ↦ err json_serdes_err | some h ↦ ok (info_of h.id h.version h.source) ]
    else if status == 404
    then err (refused not_found)
    else err (elasticsearch_err (unexpected_status status))

-- The id in the answer to a write is the one of its request, as Elasticsearch documents it.
unfoldable pub create_answer : String → LeaderData → Reply Version → Attempted
create_answer id d no_response = err (elasticsearch_err request_failed)
create_answer id d (response status body) =
    if is_2xx status
    then elim body [ none ↦ err json_serdes_err | some v ↦ ok (info_of id v d) ]
    else if status == 409
    then err (refused conflict)
    else err (elasticsearch_err (unexpected_status status))

unfoldable pub update_answer : String → LeaderData → Reply Version → Attempted
update_answer id d no_response = err (elasticsearch_err request_failed)
update_answer id d (response status body) =
    if is_2xx status
    then elim body [ none ↦ err json_serdes_err | some v ↦ ok (info_of id v d) ]
    else if status == 404
    then err (refused not_found)
    else if status == 409
    then err (refused conflict)
    else err (elasticsearch_err (unexpected_status status))

-- `leaderData` with the process's own name.
abbrev pub own_data : EsLock → ℤ → LeaderData
own_data e now = record {
  leader_id = e.process_id;
  at = now;
  leader_lock_lease = e.leader_lock_lease;
}

-- A document and the least wait, once what was attempted is known. The error of a document that is
-- gone lets the lock try again at once.
abbrev pub set : EsLock → State → Option EsLeaderInfo → EsLock
set e s doc = record e { state = s; stashed_doc = doc }

-- The branches of `case LEADER`.
unfoldable pub after_leader : EsLock → Attempted → EsLock × ℤ
after_leader e (ok r) = (set e leader (some r), e.loop_interval)
after_leader e (err (refused not_found)) = (set e pretender none, pos 0)
after_leader e (err x) = (set e checker none, e.loop_interval)

unfoldable pub after_pretender : EsLock → Attempted → EsLock × ℤ
after_pretender e (ok r) = (set e leader (some r), e.loop_interval)
after_pretender e (err x) = (set e checker none, e.loop_interval)

unfoldable pub after_checker : EsLock → Attempted → EsLock × ℤ
after_checker e (ok r) =
    if str_eq r.source.leader_id e.process_id
    then (set e leader (some r), pos 0)
    else (set e usurper (some r), r.source.leader_lock_lease)
after_checker e (err (refused not_found)) = (set e pretender none, pos 0)
after_checker e (err x) = (set e checker none, e.loop_interval)

unfoldable pub after_usurper : EsLock → Attempted → EsLock × ℤ
after_usurper e (ok r) = (set e leader (some r), pos 0)
after_usurper e (err (refused not_found)) = (set e pretender none, pos 0)
after_usurper e (err x) = (set e checker none, e.loop_interval)

abbrev pub LockClient : Type 0 → Type 0
LockClient W = Client W LeaderData Unit

module _ {W : Type 0} (c : LockClient W) (rt : Runtime W) where
  unfoldable pub get_leader_doc : EsLock → Io W LockError EsLeaderInfo
  get_leader_doc e = do
    reply ← run (c.get index_name e.leader_lock_doc_id)
    lift (read_answer reply)

  unfoldable pub submit_name_for_leader : EsLock → Io W LockError EsLeaderInfo
  submit_name_for_leader e = do
    now ← run rt.get_utc
    _ ← marshal c (own_data e now)
    reply ← run (c.create index_name e.leader_lock_doc_id (own_data e now))
    lift (create_answer e.leader_lock_doc_id (own_data e now) reply)

  unfoldable pub jostle_for_leader : EsLock → EsLeaderInfo → Io W LockError EsLeaderInfo
  jostle_for_leader e doc = do
    let met : Version = record { seq_num = doc.seq_num; primary_term = doc.primary_term }
    now ← run rt.get_utc
    _ ← marshal c (own_data e now)
    reply ← run (c.put index_name e.leader_lock_doc_id (own_data e now) (some met))
    lift (update_answer e.leader_lock_doc_id (own_data e now) reply)

  -- An attempt, and what the lock does with its outcome.
  abbrev pub decide : (Attempted → EsLock × ℤ) → Attempted × W → Option (EsLock × ℤ) × W
  decide f (r, w) = (some (f r), w)

  -- The `switch` of `loop` in a state and with a stashed document: the lock and `loopMinWait`, or
  -- `none` where the loop returns.
  unfoldable pub turn_in : State → Option EsLeaderInfo → EsLock → W → Option (EsLock × ℤ) × W
  turn_in leader none e w = (some (record e { state = checker }, e.loop_interval), w)
  turn_in leader (some doc) e w = decide (after_leader e) (jostle_for_leader e doc w)
  turn_in pretender stashed e w = decide (after_pretender e) (submit_name_for_leader e w)
  turn_in checker stashed e w = decide (after_checker e) (get_leader_doc e w)
  turn_in usurper none e w = (some (record e { state = checker }, e.loop_interval), w)
  turn_in usurper (some doc) e w = decide (after_usurper e) (jostle_for_leader e doc w)
  turn_in stopped stashed e w = (none, w)

  abbrev pub turn : EsLock → W → Option (EsLock × ℤ) × W
  turn e = turn_in e.state e.stashed_doc e

  -- The wait at the end of a round.
  unfoldable pub pause : ℤ → ℤ → W → W
  pause loop_start_time loop_min_wait w =
      if ltb_ℤ (pos 0) loop_min_wait
      then (let (loop_end_time, w') = rt.get_utc w in
          let wait_time = loop_min_wait -ℤ (loop_end_time -ℤ loop_start_time) in
          if ltb_ℤ (pos 0) wait_time then rt.sleep wait_time w' else w')
      else w

  -- One round of `loop`; `none` where it returns.
  unfoldable pub round : EsLock → W → Option EsLock × W
  round e w =
      let (loop_start_time, w') = rt.get_utc w in
      let (next, w'') = turn e w' in
      elim next [
        | none ↦ (none, w'')
        | some (e', loop_min_wait) ↦ (some e', pause loop_start_time loop_min_wait w'')
      ]

-- The state that `Start` sets; it then runs `loop` beside its caller.
unfoldable pub start : EsLock → EsLock
start e = record e { state = checker }

unfoldable pub stop : EsLock → EsLock
stop e = record e { state = stopped }
