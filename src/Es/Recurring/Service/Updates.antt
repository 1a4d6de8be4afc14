-- ===== src/Es/Recurring/Service/Updates.antt =====
-- `Update` and `Delete` of internal/infra/elasticsearch/task/recurring/service.go: what one that is accepted
-- does to the stored documents, while other clients write too.
use tasques.Prelude.{
  ℕ, ℤ, String, ◌≡◌, refl, sym, ap, ◌∙◌, subst, Bool, true, false, none, some, ok, ◌&&◌, not, arith,
}
use tasques.Domain.Metadata.{Version, Metadata}
use tasques.Domain.Recurring.{RecurringTask, into_deleted}
use tasques.Es.Common.{is_2xx}
use tasques.Es.Client.{
  Runtime, Hit, Reply, no_response, response, marshal, marshal-ok, >>=-ok, ◌>>=◌,
}
use tasques.Es.Client.Laws.{Store, Written, ClientLaws}
use tasques.Es.Recurring.Persisted.{
  PersistedRecurringTaskData, domain_to_persistable, persisted_to_domain,
}
use tasques.Es.Recurring.Service.{
  RecurringClient, tasques_recurring_tasks_index, found, updated, get, update, delete,
}

found-ok :
    (id : String) (deleted : Bool) (reply : Reply (Hit PersistedRecurringTaskData))
    {t : RecurringTask}
    → found id deleted reply ≡ ok t
    → (hit : Hit PersistedRecurringTaskData) × (reply ≡ response 200 (some hit))
      × (t ≡ persisted_to_domain hit.id hit.source hit.version)
      × ((t.is_deleted && not deleted) ≡ false)
unfolding found
found-ok id deleted no_response h = absurd (ground arith)
found-ok id deleted (response status none) h = absurd (ground arith)
found-ok id deleted (response status (some hit)) h = (hit, ground arith, ground arith, ground arith)

updated-ok :
    (t : RecurringTask) (reply : Reply Version) {t' : RecurringTask}
    → updated t reply ≡ ok t'
    → (status : ℕ) × (v : Version) × (reply ≡ response status (some v))
      × (is_2xx status ≡ true)
      × (t' ≡ record t { metadata = record t.metadata { version = v } })
unfolding updated
updated-ok t no_response h = absurd (ground arith)
updated-ok t (response status none) h = absurd (ground arith)
updated-ok t (response status (some v)) h = (status, v, refl, ground arith, ground arith)

module _ {W : Type 0} (c : RecurringClient W) (rt : Runtime W)
    (s : Store W PersistedRecurringTaskData) (laws : ClientLaws c s) where
  -- What an accepted update of `t` did: at the moment `before` the server held the version that `t` names,
  -- and it replaced that document by the one of `t` as it is to be loaded, and changed no other.
  pub record IsUpdated (t : RecurringTask) (w : W) (t' : RecurringTask) (w' : W) : Type 0 where
    pub before : W
    pub after : W
    pub old : Hit PersistedRecurringTaskData
    pub at : ℤ
    pub begun : s.Later w before
    pub held : s.stored before tasques_recurring_tasks_index t.id ≡ some old
    pub met : old.version ≡ t.metadata.version
    pub written :
        Written s tasques_recurring_tasks_index t.id
          (domain_to_persistable (record t { loaded_at = none }) at)
          t'.metadata.version
          before
          after
    pub ended : s.Later after w'
    pub returned : t' ≡ record t {
      loaded_at = none;
      metadata = record t.metadata { version = t'.metadata.version };
    }

  -- The clock moves the world only forward.
  pub update-IsUpdated :
      ((w : W) → s.Later w (rt.get_utc w).1)
      → (t : RecurringTask) (w w' : W) {t' : RecurringTask} → update c rt t w ≡ (ok t', w')
      → IsUpdated t w t' w'
  unfolding update
  update-IsUpdated clock t w w' {t'} h =
      let index = tasques_recurring_tasks_index in
      let (now, w1) = rt.get_utc w in
      let unloaded : RecurringTask = record t { loaded_at = none } in
      let doc = domain_to_persistable unloaded now in
      let (_, v, written, sent) = >>=-ok (marshal c doc) _ w1 w' h in
      let same = marshal-ok c doc w1 v written in
      let put = c.put index t.id doc (some t.metadata.version) in
      let (status, version, reply, success, t_eq) =
        updated-ok unloaded (put v).0 (ap (λ r. r.0) sent) in
      let (u, u', old, sent_on, at_u, met, changed, after) =
        laws.put_if index t.id doc t.metadata.version version v status w'
          (λ i. (reply i, (sent i).1)) success in
      let version_eq = ap (λ (x : RecurringTask). x.metadata.version) t_eq in
      record {
        before = u;
        after = u';
        old = old;
        at = now;
        begun = laws.later_trans (clock w) (subst (λ x. s.Later x u) same sent_on);
        held = at_u;
        met = met;
        written = subst (λ x. Written s index t.id doc x u u') (sym version_eq) changed;
        ended = after;
        returned =
            t_eq
            ∙ ap (λ (x : Version). record unloaded { metadata = record t.metadata { version = x } })
                (sym version_eq);
      }

  get-ok :
      (id : String) (deleted : Bool) (w w' : W) {t : RecurringTask}
      → get c rt id deleted w ≡ (ok t, w')
      → (hit : Hit PersistedRecurringTaskData) × (u : W) × s.Later w u
        × (s.stored u tasques_recurring_tasks_index id ≡ some hit)
        × s.Later u w'
        × (t ≡ persisted_to_domain hit.id hit.source hit.version)
        × ((t.is_deleted && not deleted) ≡ false)
  unfolding get
  get-ok id deleted w w' h =
      let index = tasques_recurring_tasks_index in
      let (hit, reply, t_eq, live) = found-ok id deleted (c.get index id w).0 (ap (λ r. r.0) h) in
      let (u, before, at_u, after) = laws.get_found index id w hit w' (λ i. (reply i, (h i).1)) in
      (hit, u, before, at_u, after, t_eq, live)

  -- The version that was read is the one that was met, so the documents are the same.
  same_task :
      (id : String) (u u' : W) (hit old : Hit PersistedRecurringTaskData) (task : RecurringTask)
      → s.Later u u'
      → s.stored u tasques_recurring_tasks_index id ≡ some hit
      → s.stored u' tasques_recurring_tasks_index task.id ≡ some old
      → task ≡ persisted_to_domain hit.id hit.source hit.version
      → hit.id ≡ id
      → old.version ≡ task.metadata.version
      → task ≡ persisted_to_domain old.id old.source old.version
  unfolding persisted_to_domain
  same_task id u u' hit old task between at_u at_u' task_eq same_id met =
      let index = tasques_recurring_tasks_index in
      let key = ap (λ (t : RecurringTask). t.id) task_eq ∙ same_id in
      let held = ap (s.stored u' index) (sym key) ∙ at_u' in
      let read = ap (λ (t : RecurringTask). t.metadata.version) task_eq in
      let same =
        laws.version_identifies u u' index id hit old between at_u held (sym (met ∙ read)) in
      task_eq
      ∙ ap (λ (h : Hit PersistedRecurringTaskData). persisted_to_domain h.id h.source h.version)
          same

  -- What a change that was read, made and accepted did: it replaced the document that the server held by that
  -- of the changed task, as it is to be loaded; the task was not deleted before.
  pub record IsReplaced (f : RecurringTask → RecurringTask) (id : String) (w : W)
      (t' : RecurringTask) (w' : W) : Type 0 where
    pub task : RecurringTask
    pub same_id : task.id ≡ id
    pub start : W
    pub live : task.is_deleted ≡ false
    pub update : IsUpdated (f task) start t' w'
    pub replaced : task ≡ persisted_to_domain update.old.id update.old.source update.old.version
    pub begun : s.Later w start

  -- A change of what `Get` returns that leaves the id and the version alone.
  pub get_then_update-IsReplaced :
      (f : RecurringTask → RecurringTask)
      → ((t : RecurringTask) → (f t).id ≡ t.id)
      → ((t : RecurringTask) → (f t).metadata ≡ t.metadata)
      → ((w : W) → s.Later w (rt.get_utc w).1)
      → ((w : W) (index id : String) (hit : Hit PersistedRecurringTaskData)
          → s.stored w index id ≡ some hit
          → hit.id ≡ id)
      → (id : String) (w w' : W) {t' : RecurringTask}
      → (get c rt id false >>= (λ t. update c rt (f t))) w ≡ (ok t', w')
      → IsReplaced f id w t' w'
  unfolding persisted_to_domain
  get_then_update-IsReplaced f keeps_id keeps_metadata clock ids id w w' {t'} h =
      let index = tasques_recurring_tasks_index in
      let (task, v, read, sent) = >>=-ok (get c rt id false) (λ t. update c rt (f t)) w w' h in
      let (hit, u, begun, at_u, read_on, task_eq, live) = get-ok id false w v read in
      let change = update-IsUpdated clock (f task) v w' sent in
      let held = ap (s.stored change.before index) (sym (keeps_id task)) ∙ change.held in
      let version = ap (λ (m : Metadata). m.version) (keeps_metadata task) in
      record {
        task = task;
        same_id = ap (λ (t : RecurringTask). t.id) task_eq ∙ ids u index id hit at_u;
        start = v;
        live = ground arith;
        update = change;
        replaced =
            same_task id u change.before hit change.old task (laws.later_trans read_on change.begun)
              at_u held task_eq (ids u index id hit at_u) (change.met ∙ version);
        begun = laws.later_trans begun read_on;
      }

  -- Over a client that keeps its laws, and whose hits have the ids that were asked for: an accepted
  -- `Delete` was of a task that was not deleted, and replaced the very document of that task, whatever other
  -- clients wrote between the read and the write, by that of the task marked as deleted and as to be
  -- loaded; it changed no other document.
  pub delete-IsReplaced :
      ((w : W) → s.Later w (rt.get_utc w).1)
      → ((w : W) (index id : String) (hit : Hit PersistedRecurringTaskData)
          → s.stored w index id ≡ some hit
          → hit.id ≡ id)
      → (id : String) (w w' : W) {t' : RecurringTask} → delete c rt id w ≡ (ok t', w')
      → IsReplaced into_deleted id w t' w'
  unfolding delete into_deleted
  delete-IsReplaced clock ids id w w' h =
      get_then_update-IsReplaced into_deleted (λ t. refl) (λ t. refl) clock ids id w w' h
