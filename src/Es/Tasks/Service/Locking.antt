-- ===== src/Es/Tasks/Service/Locking.antt =====
-- No update is lost: what an accepted update of a task does to the stored documents, while other
-- clients write too (`getAndUpdate` of internal/infra/elasticsearch/task/service.go).
use tasques.Prelude.{ℕ, ℤ, String, ◌≡◌, refl, sym, ap, ◌∙◌, subst, true, none, some, ok, arith}
use tasques.Domain.Metadata.{Version, Metadata}
use tasques.Domain.Task.{Task, Error}
use tasques.Es.Common.{is_2xx}
use tasques.Es.Client.{Runtime, Hit, Reply, no_response, response, marshal, marshal-ok, Io, >>=-ok}
use tasques.Es.Client.Laws.{Store, Written, ClientLaws}
use tasques.Es.Tasks.Persisted.{PersistedTaskData, to_domain_task, to_persisted_task}
use tasques.Es.Tasks.Settings.{Tasks, build_index_name}
use tasques.Es.Tasks.Service.{TaskClient, found, updated, get, write_back, stamped, get_and_update}

found-ok :
    (queue id : String) (reply : Reply (Hit PersistedTaskData)) {t : Task}
    → found queue id reply ≡ ok t
    → (hit : Hit PersistedTaskData) × (reply ≡ response 200 (some hit))
      × (t ≡ to_domain_task hit.source hit.version)
unfolding found
found-ok queue id no_response h = absurd (ground arith)
found-ok queue id (response status none) h = absurd (ground arith)
found-ok queue id (response status (some hit)) h = (hit, ground arith, ground arith)

updated-ok :
    (queue id : String) (t : Task) (reply : Reply Version) {t' : Task}
    → updated queue id t reply ≡ ok t'
    → (status : ℕ) × (v : Version) × (reply ≡ response status (some v))
      × (is_2xx status ≡ true)
      × (t' ≡ record t { metadata = record t.metadata { version = v } })
unfolding updated
updated-ok queue id t no_response h = absurd (ground arith)
updated-ok queue id t (response status none) h = absurd (ground arith)
updated-ok queue id t (response status (some v)) h = (status, v, refl, ground arith, ground arith)

module _ {W : Type 0} (c : TaskClient W) (rt : Runtime W) (settings : Tasks)
    (s : Store W PersistedTaskData) (laws : ClientLaws c s) where
  get-ok :
      (queue id : String) (w w' : W) {t : Task}
      → get c rt settings queue id w ≡ (ok t, w')
      → (hit : Hit PersistedTaskData) × (u : W) × s.Later w u
        × (s.stored u (build_index_name queue) id ≡ some hit)
        × s.Later u w'
        × (t ≡ to_domain_task hit.source hit.version)
  unfolding get
  get-ok queue id w w' h =
      let index = build_index_name queue in
      let (hit, reply, t_eq) = found-ok queue id (c.get index id w).0 (ap (λ r. r.0) h) in
      let (u, before, at_u, after) = laws.get_found index id w hit w' (λ i. (reply i, (h i).1)) in
      (hit, u, before, at_u, after, t_eq)

  write_back-ok :
      (queue id : String) (t : Task) (w w' : W) {t' : Task}
      → write_back c rt settings queue id t w ≡ (ok t', w')
      → (v : Version) × (u : W) × (u' : W) × (old : Hit PersistedTaskData) × s.Later w u
        × (s.stored u (build_index_name queue) id ≡ some old)
        × (old.version ≡ t.metadata.version)
        × Written s (build_index_name queue) id (to_persisted_task t) v u u'
        × s.Later u' w'
        × (t' ≡ record t { metadata = record t.metadata { version = v } })
  unfolding write_back
  write_back-ok queue id t w w' h =
      let index = build_index_name queue in
      let doc = to_persisted_task t in
      let (_, v, written, sent) = >>=-ok (marshal c doc) _ w w' h in
      let same = marshal-ok c doc w v written in
      let put = c.put index id doc (some t.metadata.version) in
      let (status, version, reply, success, t_eq) =
        updated-ok queue id t (put v).0 (ap (λ r. r.0) sent) in
      let (u, u', old, before, at_u, met, changed, after) =
        laws.put_if index id doc t.metadata.version version v status w' (λ i. (reply i, (sent i).1))
          success in
      (version, u, u', old, subst (λ x. s.Later x u) same before, at_u, met, changed, after, t_eq)

  -- What an accepted update did: at the moment `before` the server held `old`; `mutate` took the task of
  -- `old` to `mutated`, and the server replaced `old` by the document of `mutated`, stamped with the
  -- time, and changed no other document; the task returned is that task under its new version.
  pub record IsUpdated (queue id : String) (mutate : Task → Io W Error Task) (at : ℤ) (w : W)
      (t' : Task) (w' : W) : Type 0 where
    pub before : W
    pub after : W
    pub old : Hit PersistedTaskData
    pub start : W
    pub finish : W
    pub mutated : Task
    pub begun : s.Later w before
    pub held : s.stored before (build_index_name queue) id ≡ some old
    pub computed : mutate (to_domain_task old.source old.version) start ≡ (ok mutated, finish)
    pub written :
        Written s
          (build_index_name queue)
          id
          (to_persisted_task (stamped mutated at))
          t'.metadata.version
          before
          after
    pub ended : s.Later after w'
    pub returned : t' ≡ record mutated {
      metadata = record mutated.metadata { modified_at = at; version = t'.metadata.version };
    }

  -- The version that was read is the one that was met, so the documents are the same.
  same_document :
      (index id : String) (u u' : W) (hit old : Hit PersistedTaskData) (target mutated : Task)
      (at : ℤ)
      → s.Later u u'
      → s.stored u index id ≡ some hit
      → s.stored u' index id ≡ some old
      → target ≡ to_domain_task hit.source hit.version
      → mutated.metadata ≡ target.metadata
      → old.version ≡ (stamped mutated at).metadata.version
      → target ≡ to_domain_task old.source old.version
  unfolding to_domain_task
  same_document index id u u' hit old target mutated at between at_u at_u' target_eq kept met =
      let version = ap (λ (m : Metadata). m.version) kept in
      let read = ap (λ (t : Task). t.metadata.version) target_eq in
      let same = laws.version_identifies u u' index id hit old between at_u at_u' (cc) in
      target_eq ∙ ap (λ (h : Hit PersistedTaskData). to_domain_task h.source h.version) same

  -- Over a client that keeps its laws, with a mutation that moves the world only forward and
  -- leaves the metadata of the task alone: an update that is accepted was computed from the very
  -- document that it replaced, whatever other clients wrote between the read and the write, and
  -- replaced no other.
  pub get_and_update-IsUpdated :
      (queue id : String) (mutate : Task → Io W Error Task) (at : ℤ) (w w' : W) {t' : Task}
      → ((t : Task) (v : W) → s.Later v (mutate t v).1)
      → ((t : Task) (v v' : W) (m : Task) → mutate t v ≡ (ok m, v') → m.metadata ≡ t.metadata)
      → get_and_update c rt settings queue id mutate at w ≡ (ok t', w')
      → IsUpdated queue id mutate at w t' w'
  unfolding get_and_update
  get_and_update-IsUpdated queue id mutate at w w' {t'} later keeps h =
      let (target, v, read, rest) = >>=-ok (get c rt settings queue id) _ w w' h in
      let (mutated, v', changed, sent) = >>=-ok (mutate target) _ v w' rest in
      let (hit, u, begun, at_u, read_on, target_eq) = get-ok queue id w v read in
      let (version, u', u'', old, sent_on, at_u', met, written, ended, t_eq) =
        write_back-ok queue id (stamped mutated at) v' w' sent in
      let to_v' = subst (λ x. s.Later v x) (ap (λ r. r.1) changed) (later target v) in
      let between = laws.later_trans read_on (laws.later_trans to_v' sent_on) in
      let same =
        same_document (build_index_name queue) id u u' hit old target mutated at between at_u at_u'
          target_eq (keeps target v v' mutated changed) met in
      let version_eq = ap (λ (t : Task). t.metadata.version) t_eq in
      record {
        before = u';
        after = u'';
        old = old;
        start = v;
        finish = v';
        mutated = mutated;
        begun = laws.later_trans begun between;
        held = at_u';
        computed = subst (λ x. mutate x v ≡ (ok mutated, v')) same changed;
        written =
            subst
              (λ x.
                Written s (build_index_name queue) id (to_persisted_task (stamped mutated at)) x u'
                  u'')
              (sym version_eq) written;
        ended = ended;
        returned = cc;
      }
