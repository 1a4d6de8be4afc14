-- ===== src/Es/Leader/Writes.antt =====
-- How the lock of internal/infra/elasticsearch/leader/lock.go comes to lead, or goes on leading: by a
-- write over the very version of the document that it kept.
use tasques.Prelude.{
  ℕ, ℤ, String, ◌≡◌, ◌⊎◌, inl, inr, refl, sym, ap, subst, true, Option, none, some, ok,
  Outcome-cases, arith,
}
use tasques.Domain.Metadata.{Version}
use tasques.Es.Common.{is_2xx}
use tasques.Es.Client.{Runtime, Hit, Reply, no_response, response, marshal, marshal-ok, >>=-ok}
use tasques.Es.Client.Laws.{Store, Written, ClientLaws, RuntimeLaws}
use tasques.Es.Leader.{
  State, checker, pretender, usurper, leader, stopped, LeaderData, EsLeaderInfo, EsLock, LockClient,
  own_data, info_of, index_name, update_answer, after_leader, after_usurper, jostle_for_leader,
  turn_in, turn,
}

abbrev pub version_of : EsLeaderInfo → Version
version_of doc = record { seq_num = doc.seq_num; primary_term = doc.primary_term }

update_answer-ok :
    (id : String) (d : LeaderData) (reply : Reply Version) {r : EsLeaderInfo}
    → update_answer id d reply ≡ ok r
    → (status : ℕ) × (v : Version) × (reply ≡ response status (some v))
      × (is_2xx status ≡ true)
      × (r ≡ info_of id v d)
unfolding update_answer
update_answer-ok id d no_response h = absurd (ground arith)
update_answer-ok id d (response status none) h = absurd (ground arith)
update_answer-ok id d (response status (some v)) h = (status, v, refl, ground arith, ground arith)

module _ {W : Type 0} (c : LockClient W) (rt : Runtime W) (s : Store W LeaderData)
    (laws : ClientLaws c s) (time : RuntimeLaws rt s) where
  -- The write by which a lock leads: at the moment `before` the server held a document `old` of the
  -- version of `doc`; it replaced it by the process's own data, and the lock keeps what was written.
  pub record Took (e : EsLock) (doc : EsLeaderInfo) (r : EsLeaderInfo) (w w' : W) : Type 0 where
    pub before : W
    pub after : W
    pub old : Hit LeaderData
    pub now : ℤ
    pub begun : s.Later w before
    pub held : s.stored before index_name e.leader_lock_doc_id ≡ some old
    pub met : old.version ≡ version_of doc
    pub written :
        Written s index_name e.leader_lock_doc_id (own_data e now) (version_of r) before after
    pub kept : r.source ≡ own_data e now
    pub ended : s.Later after w'

  jostle_for_leader-Took :
      (e : EsLock) (doc : EsLeaderInfo) (w w' : W) {r : EsLeaderInfo}
      → jostle_for_leader c rt e doc w ≡ (ok r, w')
      → Took e doc r w w'
  unfolding jostle_for_leader
  jostle_for_leader-Took e doc w w' h =
      let now = (rt.get_utc w).0 in
      let own = own_data e now in
      let start = (rt.get_utc w).1 in
      let (_, v, written, sent) = >>=-ok (marshal c own) _ start w' h in
      let same = marshal-ok c own start v written in
      let put = c.put index_name e.leader_lock_doc_id own (some (version_of doc)) in
      let (status, version, reply, success, r_eq) =
        update_answer-ok e.leader_lock_doc_id own (put v).0 (ap (λ r. r.0) sent) in
      let (u, u', old, before, at_u, met, changed, after) =
        laws.put_if index_name e.leader_lock_doc_id own (version_of doc) version v status w'
          (λ i. (reply i, (sent i).1)) success in
      record {
        before = u;
        after = u';
        old = old;
        now = now;
        begun = laws.later_trans (time.utc_later w) (subst (λ x. s.Later x u) same before);
        held = at_u;
        met = met;
        written =
            subst
              (λ (x : EsLeaderInfo).
                Written s index_name e.leader_lock_doc_id own (version_of x) u u')
              (sym r_eq) changed;
        kept = ap (λ (x : EsLeaderInfo). x.source) r_eq;
        ended = after;
      }

  turn_in-Took :
      (st : State) (stashed : Option EsLeaderInfo) (e : EsLock) (w w' : W) {e' : EsLock} {wait : ℤ}
      → (st ≡ leader) ⊎ (st ≡ usurper)
      → turn_in c rt st stashed e w ≡ (some (e', wait), w')
      → e'.state ≡ leader
      → (doc : EsLeaderInfo) × (r : EsLeaderInfo) × (stashed ≡ some doc)
        × (e'.stashed_doc ≡ some r)
        × Took e doc r w w'
  unfolding turn_in after_leader after_usurper
  turn_in-Took leader none e w w' k h l = absurd (ground arith)
  turn_in-Took usurper none e w w' k h l = absurd (ground arith)
  turn_in-Took leader (some doc) e w w' k h l =
      elim (Outcome-cases (jostle_for_leader c rt e doc w).0) [
        | inr (x, f) ↦ absurd (ground arith)
        | inl (r, f) ↦
            (doc, r, refl, ground arith, jostle_for_leader-Took e doc w w' (ground arith))
      ]
  turn_in-Took usurper (some doc) e w w' k h l =
      elim (Outcome-cases (jostle_for_leader c rt e doc w).0) [
        | inr (x, f) ↦ absurd (ground arith)
        | inl (r, f) ↦
            (doc, r, refl, ground arith, jostle_for_leader-Took e doc w w' (ground arith))
      ]
  turn_in-Took checker stashed e w w' k h l = absurd (ground arith)
  turn_in-Took pretender stashed e w w' k h l = absurd (ground arith)
  turn_in-Took stopped stashed e w w' k h l = absurd (ground arith)

  -- Over a client and a clock that keep their laws: a lock that waited to usurp or led, and leads
  -- after a round, has in that round replaced the document that was stored under the version of
  -- the one that it kept, and no other document, by its own name; it keeps what it wrote, under
  -- the new version.
  pub turn-Took :
      (e : EsLock) (w w' : W) {e' : EsLock} {wait : ℤ}
      → (e.state ≡ leader) ⊎ (e.state ≡ usurper)
      → turn c rt e w ≡ (some (e', wait), w')
      → e'.state ≡ leader
      → (doc : EsLeaderInfo) × (r : EsLeaderInfo) × (e.stashed_doc ≡ some doc)
        × (e'.stashed_doc ≡ some r)
        × Took e doc r w w'
  turn-Took e w w' k h l = turn_in-Took e.state e.stashed_doc e w w' k h l
