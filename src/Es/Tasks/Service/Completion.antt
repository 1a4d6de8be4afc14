-- ===== src/Es/Tasks/Service/Completion.antt =====
-- What `MarkDone`, `MarkFailed` and `UnClaim` of internal/infra/elasticsearch/task/service.go promise
-- when they return a task, the second try after a version conflict included.
use tasques.Prelude.{
  ℤ, String, ◌≡◌, ◌&&◌, some, Outcome, ok, err, inl, inr, ◌⊎◌, Bool-cases, ltb, arith,
}
use tasques.Domain.Metadata.{Version}
use tasques.Domain.Task.{Task, Error}
use tasques.Es.Common.{ServiceError}
use tasques.Es.Client.{Runtime, Reply, marshal, Io, ◌>>=◌}
use tasques.Es.Client.Laws.{Store, ClientLaws, RuntimeLaws}
use tasques.Es.Client.Moves.{Moves, Moves-marshal, Moves-bind}
use tasques.Es.Tasks.Persisted.{PersistedTaskData, to_persisted_task}
use tasques.Es.Tasks.Settings.{Tasks, build_index_name}
use tasques.Es.Tasks.Service.{
  TaskClient, updated, is_invalid_version, get, write_back, stamped, get_and_update,
  retry_on_conflict, complete_once, mark_complete,
}
use tasques.Es.Tasks.Service.Locking.{IsUpdated, get_and_update-IsUpdated}

module _ {W : Type 0} (c : TaskClient W) (rt : Runtime W) (settings : Tasks)
    (s : Store W PersistedTaskData) (laws : ClientLaws c s) (time : RuntimeLaws rt s) where
  get-Moves : (queue id : String) → Moves s (get c rt settings queue id)
  unfolding get
  get-Moves queue id = record { at = λ w. laws.get_later _ id w }

  write_back-Moves : (queue id : String) (t : Task) → Moves s (write_back c rt settings queue id t)
  unfolding write_back
  write_back-Moves queue id t =
      let put : W → Reply Version × W =
        c.put (build_index_name queue) id (to_persisted_task t) (some t.metadata.version) in
      Moves-bind c s laws (marshal c (to_persisted_task t))
        (λ _ w. (updated queue id t (put w).0, (put w).1)) (Moves-marshal c s laws _)
        (λ _. record { at = λ w. laws.put_later _ id _ _ w })

  get_and_update-Moves :
      (queue id : String) (mutate : Task → Io W Error Task) (at : ℤ)
      → ((t : Task) → Moves s (mutate t))
      → Moves s (get_and_update c rt settings queue id mutate at)
  unfolding get_and_update
  get_and_update-Moves queue id mutate at h =
      Moves-bind c s laws (get c rt settings queue id)
        (λ t. mutate t >>= λ m. write_back c rt settings queue id (stamped m at))
        (get-Moves queue id)
        λ t.
          Moves-bind c s laws (mutate t) (λ m. write_back c rt settings queue id (stamped m at))
            (h t) (λ m. write_back-Moves queue id (stamped m at))

  complete_once-Moves :
      (queue id : String) (mutate : Task → ℤ → Io W Error Task)
      → ((t : Task) (at : ℤ) → Moves s (mutate t at))
      → Moves s (complete_once c rt settings queue id mutate)
  unfolding complete_once
  complete_once-Moves queue id mutate h = record {
    at = λ w.
        let at = (rt.get_utc w).0 in
        laws.later_trans (time.utc_later w)
          ((get_and_update-Moves queue id (λ t. mutate t at) at (λ t. h t at)).at (rt.get_utc w).1);
  }

  -- The update that a completion made, at the time that it read for it.
  pub record IsCompleted (queue id : String) (mutate : Task → ℤ → Io W Error Task) (w : W)
      (t' : Task) (w' : W) : Type 0 where
    pub at : ℤ
    pub start : W
    pub begun : s.Later w start
    pub update : IsUpdated c rt settings s laws queue id (λ t. mutate t at) at start t' w'

  complete_once-IsCompleted :
      (queue id : String) (mutate : Task → ℤ → Io W Error Task) (w w' : W) {t' : Task}
      → ((t : Task) (at : ℤ) → Moves s (mutate t at))
      → ((t : Task) (at : ℤ) (v v' : W) (m : Task)
          → mutate t at v ≡ (ok m, v')
          → m.metadata ≡ t.metadata)
      → complete_once c rt settings queue id mutate w ≡ (ok t', w')
      → IsCompleted queue id mutate w t' w'
  unfolding complete_once
  complete_once-IsCompleted queue id mutate w w' moves keeps h =
      let at = (rt.get_utc w).0 in
      record {
        at = at;
        start = (rt.get_utc w).1;
        begun = time.utc_later w;
        update =
            get_and_update-IsUpdated c rt settings s laws queue id (λ t. mutate t at) at _ w'
              (λ t v. (moves t at).at v) (λ t. keeps t at) h;
      }

  retry-ok :
      (r : Outcome (ServiceError Error) Task × W) (again : Io W Error Task) (w' : W) {t' : Task}
      → retry_on_conflict c rt settings r again ≡ (ok t', w')
      → (r ≡ (ok t', w')) ⊎ (again r.1 ≡ (ok t', w'))
  retry-ok (ok t, w) again w' h = inl h
  retry-ok (err e, w) again w' h =
      elim (Bool-cases
        (is_invalid_version e && ltb 0 settings.defaults.version_conflict_retry_times)) [
          | inl again' ↦ inr (rw again' at h)
          | inr never ↦ absurd (refusal (rw never at h))
        ]
    where
      refusal :
          {t' : Task} → ◌≡◌ {A = Outcome (ServiceError Error) Task × W} (err e, w) (ok t', w') → ⊥
      refusal h' = ground arith

  pub mark_complete-IsCompleted :
      (queue id : String) (mutate : Task → ℤ → Io W Error Task) (w w' : W) {t' : Task}
      → ((t : Task) (at : ℤ) → Moves s (mutate t at))
      → ((t : Task) (at : ℤ) (v v' : W) (m : Task)
          → mutate t at v ≡ (ok m, v')
          → m.metadata ≡ t.metadata)
      → mark_complete c rt settings queue id mutate w ≡ (ok t', w')
      → IsCompleted queue id mutate w t' w'
  unfolding mark_complete
  mark_complete-IsCompleted queue id mutate w w' {t'} moves keeps h =
      elim (retry-ok (complete_once c rt settings queue id mutate w) _ w' h) [
        | inl first ↦ complete_once-IsCompleted queue id mutate w w' moves keeps first
        | inr second ↦
            let start = (complete_once c rt settings queue id mutate w).1 in
            let d = complete_once-IsCompleted queue id mutate start w' moves keeps second in
            record {
              at = d.at;
              start = d.start;
              begun = laws.later_trans ((complete_once-Moves queue id mutate moves).at w) d.begun;
              update = d.update;
            }
      ]
