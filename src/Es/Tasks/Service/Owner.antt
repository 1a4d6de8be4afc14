-- ===== src/Es/Tasks/Service/Owner.antt =====
-- Only the owner of a claim finishes it: the completions of
-- internal/infra/elasticsearch/task/service.go against the stored documents.
use tasques.Prelude.{
  ℕ, ℤ, String, ◌≡◌, ◌⊎◌, refl, sym, ap, ◌∙◌, subst, Option, none, some, ok, arith,
}
use tasques.Domain.Json.{JsonObj}
use tasques.Domain.Task.{
  Task, State, queued, claimed, failed, done, dead, LastClaimed, Error, into_done, into_failed,
  into_unclaimed,
}
use tasques.Domain.Task.Ownership.{with_claim-ok, Holds}
use tasques.Es.Client.{Runtime, Hit, Io}
use tasques.Es.Client.Laws.{Store, Written, ClientLaws, RuntimeLaws}
use tasques.Es.Client.Moves.{Moves}
use tasques.Es.Tasks.Persisted.{
  PersistedTaskData, PersistedLastClaimed, to_domain_claim, to_domain_task, to_persisted_task,
}
use tasques.Es.Tasks.Settings.{Tasks, build_index_name}
use tasques.Es.Tasks.Service.{
  TaskClient, of_domain, of_domain-ok, mark_complete, fail_task, mark_done, mark_failed, un_claim,
}
use tasques.Es.Tasks.Service.Completion.{mark_complete-IsCompleted}

-- The three ways to finish a claim.
pub data Finish : Type 0 where
  succeeds : Option JsonObj → Finish
  fails : Option JsonObj → Finish
  unclaims : Finish

-- The states in which a finish leaves the task.
abbrev pub Leaves : Finish → State → Type 0
Leaves (succeeds success) s = s ≡ done
Leaves (fails failure) s = (s ≡ failed) ⊎ (s ≡ dead)
Leaves unclaims s = s ≡ queued

-- What a method of the task gives on a finish.
record IsFinish (worker : String) (k : Finish) (t m : Task) : Type 0 where
  claim : LastClaimed
  holds : Holds t worker claim
  leaves : Leaves k m.state
  metadata : m.metadata ≡ t.metadata

into_done-IsFinish :
    (t : Task) (worker : String) (at : ℤ) (x : Option JsonObj) {m : Task}
    → into_done t worker at x ≡ ok m
    → IsFinish worker (succeeds x) t m
unfolding into_done
into_done-IsFinish t worker at x h =
    let (l, s, e, w, f) = with_claim-ok t worker _ h in
    record { claim = l; holds = (s, e, w); leaves = ground arith; metadata = ground arith }

into_unclaimed-IsFinish :
    (t : Task) (worker : String) (at : ℤ) {m : Task}
    → into_unclaimed t worker at ≡ ok m
    → IsFinish worker unclaims t m
unfolding into_unclaimed
into_unclaimed-IsFinish t worker at h =
    let (l, s, e, w, f) = with_claim-ok t worker _ h in
    record { claim = l; holds = (s, e, w); leaves = ground arith; metadata = ground arith }

into_failed-IsFinish :
    (t : Task) (worker : String) (at : ℤ) (x : Option JsonObj) (jitter : ℕ) {m : Task}
    → into_failed t worker at x jitter ≡ ok m
    → IsFinish worker (fails x) t m
unfolding into_failed
into_failed-IsFinish t worker at x jitter h =
    let (l, s, e, w, f) = with_claim-ok t worker _ h in
    record { claim = l; holds = (s, e, w); leaves = ground arith; metadata = ground arith }

-- The stored claim behind the claim of a task that was read.
stored_claim :
    (p : Option PersistedLastClaimed) {l : LastClaimed}
    → to_domain_claim p ≡ some l
    → (q : PersistedLastClaimed) × (p ≡ some q) × (q.worker_id ≡ l.worker_id)
stored_claim none h = absurd (ground arith)
stored_claim (some q) h = (q, refl, ground arith)

module _ {W : Type 0} (c : TaskClient W) (rt : Runtime W) (settings : Tasks)
    (s : Store W PersistedTaskData) (laws : ClientLaws c s) (time : RuntimeLaws rt s) where
  -- What the method of the task does for a finish.
  abbrev mutation : Finish → String → Task → ℤ → Io W Error Task
  mutation (succeeds x) worker t at = λ w. (of_domain (into_done t worker at x), w)
  mutation (fails x) worker t at = fail_task c rt settings t worker at x
  mutation unclaims worker t at = λ w. (of_domain (into_unclaimed t worker at), w)

  -- `MarkDone`, `MarkFailed` and `UnClaim`.
  abbrev pub finish_task : Finish → String → String → String → Io W Error Task
  finish_task (succeeds x) worker queue id = mark_done c rt settings worker queue id x
  finish_task (fails x) worker queue id = mark_failed c rt settings worker queue id x
  finish_task unclaims worker queue id = un_claim c rt settings worker queue id

  mutation-IsFinish :
      (k : Finish) (worker : String) (t : Task) (at : ℤ) (v v' : W) {m : Task}
      → mutation k worker t at v ≡ (ok m, v')
      → IsFinish worker k t m
  unfolding fail_task
  mutation-IsFinish (succeeds x) worker t at v v' h =
      into_done-IsFinish t worker at x (of_domain-ok (ap (λ r. r.0) h))
  mutation-IsFinish (fails x) worker t at v v' h =
      into_failed-IsFinish t worker at x _ (of_domain-ok (ap (λ r. r.0) h))
  mutation-IsFinish unclaims worker t at v v' h =
      into_unclaimed-IsFinish t worker at (of_domain-ok (ap (λ r. r.0) h))

  mutation-Moves :
      (k : Finish) (worker : String) (t : Task) (at : ℤ) → Moves s (mutation k worker t at)
  unfolding fail_task
  mutation-Moves (succeeds x) worker t at = record { at = λ w. laws.later_refl w }
  mutation-Moves (fails x) worker t at = record { at = λ w. time.rand_later 30 w }
  mutation-Moves unclaims worker t at = record { at = λ w. laws.later_refl w }

  -- What a finish that returned a task did: at some moment the server held the task claimed by this
  -- worker, and replaced just that document by the one of the task returned.
  pub record IsFinished (k : Finish) (worker queue id : String) (w : W) (t' : Task) (w' : W)
      : Type 0 where
    pub before : W
    pub after : W
    pub old : Hit PersistedTaskData
    pub claim : PersistedLastClaimed
    pub begun : s.Later w before
    pub held : s.stored before (build_index_name queue) id ≡ some old
    pub was_claimed : old.source.state ≡ claimed
    pub had_claim : old.source.last_claimed ≡ some claim
    pub owned : claim.worker_id ≡ worker
    pub leaves : Leaves k t'.state
    pub written :
        Written s
          (build_index_name queue)
          id
          (to_persisted_task t')
          t'.metadata.version
          before
          after
    pub ended : s.Later after w'

  finished :
      (k : Finish) (worker queue id : String) (w w' : W) {t' : Task}
      → mark_complete c rt settings queue id (mutation k worker) w ≡ (ok t', w')
      → IsFinished k worker queue id w t' w'
  unfolding to_domain_task to_persisted_task
  finished k worker queue id w w' {t'} h =
      let done' =
        mark_complete-IsCompleted c rt settings s laws time queue id (mutation k worker) w w'
          (mutation-Moves k worker)
          (λ t at v v' m e. (mutation-IsFinish k worker t at v v' e).metadata) h in
      let up = done'.update in
      let fin = mutation-IsFinish k worker _ done'.at up.start up.finish up.computed in
      let (q, had, same) = stored_claim up.old.source.last_claimed fin.holds.1 in
      record {
        before = up.before;
        after = up.after;
        old = up.old;
        claim = q;
        begun = laws.later_trans done'.begun up.begun;
        held = up.held;
        was_claimed = fin.holds.0;
        had_claim = had;
        owned = same ∙ fin.holds.2;
        leaves = subst (λ (t : Task). Leaves k t.state) (sym up.returned) fin.leaves;
        written =
            subst
              (λ x. Written s (build_index_name queue) id x t'.metadata.version up.before up.after)
              (ap to_persisted_task (sym up.returned)) up.written;
        ended = up.ended;
      }

  -- Over a client and a clock that keep their laws: when `MarkDone`, `MarkFailed` or `UnClaim`
  -- returns a task, at the first or at the second try, the server held that task claimed by the
  -- very worker that called, at the moment at which it took the write; the write replaced that
  -- document alone, by the document of the task returned, which is done, failed or dead, or
  -- queued.
  pub finish_task-IsFinished :
      (k : Finish) (worker queue id : String) (w w' : W) {t' : Task}
      → finish_task k worker queue id w ≡ (ok t', w')
      → IsFinished k worker queue id w t' w'
  unfolding mark_done mark_failed un_claim
  finish_task-IsFinished (succeeds x) worker queue id w w' h =
      finished (succeeds x) worker queue id w w' h
  finish_task-IsFinished (fails x) worker queue id w w' h =
      finished (fails x) worker queue id w w' h
  finish_task-IsFinished unclaims worker queue id w w' h = finished unclaims worker queue id w w' h
