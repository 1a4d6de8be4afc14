-- ===== src/Examples/Lock.antt =====
-- A lock of internal/infra/elasticsearch/leader/lock.go that takes over from another process.
use tasques.Prelude.{pos, ◌≡◌, refl, none, some, [], ◌∷◌, inr}
use tasques.Domain.Metadata.{version_eq}
use tasques.Es.Client.{marshal}
use tasques.Es.Client.Laws.{ClientLaws, RuntimeLaws}
use tasques.Es.Leader.{
  checker, usurper, leader, LeaderData, EsLeaderInfo, EsLock, index_name, read_answer,
  update_answer, after_checker, after_usurper, get_leader_doc, jostle_for_leader, turn_in, turn,
}
use tasques.Es.Leader.Writes.{Took, turn-Took}
use tasques.Examples.Server.{
  World, stored, answer_get, answer_put, server, runtime, store, server-ClientLaws,
  runtime-RuntimeLaws,
}

abbrev others : LeaderData
others = record { leader_id = "other"; at = pos 7; leader_lock_lease = pos 50 }

abbrev mine : LeaderData
mine = record { leader_id = "me"; at = pos 100; leader_lock_lease = pos 30 }

abbrev world : World LeaderData
world = record { index = index_name; id = "lock"; source = others } ∷ []

abbrev after : World LeaderData
after = record { index = index_name; id = "lock"; source = mine } ∷ world

abbrev fresh : EsLock
fresh = record {
  leader_lock_doc_id = "lock";
  process_id = "me";
  state = checker;
  loop_interval = pos 10;
  leader_lock_lease = pos 30;
  stashed_doc = none;
}

abbrev others_info : EsLeaderInfo
others_info = record { id = "lock"; seq_num = 0; primary_term = 1; source = others }

abbrev my_info : EsLeaderInfo
my_info = record { id = "lock"; seq_num = 1; primary_term = 1; source = mine }

abbrev waiting : EsLock
waiting = record fresh { state = usurper; stashed_doc = some others_info }

abbrev leading : EsLock
leading = record fresh { state = leader; stashed_doc = some my_info }

sees_other : turn server runtime fresh world ≡ (some (waiting, pos 50), world)
unfolding turn_in get_leader_doc read_answer after_checker stored answer_get
sees_other = refl

takes_over : turn server runtime waiting world ≡ (some (leading, pos 0), after)
unfolding turn_in jostle_for_leader marshal update_answer after_usurper stored answer_put version_eq
takes_over = refl

abbrev laws : ClientLaws (server {D = LeaderData} {Q = Unit}) store
laws = server-ClientLaws

abbrev time : RuntimeLaws runtime (store {D = LeaderData})
time = runtime-RuntimeLaws

turn-Took_example :
    (doc : EsLeaderInfo) × (r : EsLeaderInfo) × (some others_info ≡ some doc)
    × (some my_info ≡ some r)
    × Took server runtime store laws time waiting doc r world after
turn-Took_example =
    turn-Took server runtime store laws time waiting world after {e' = leading} {wait = pos 0}
      (inr refl) takes_over refl
