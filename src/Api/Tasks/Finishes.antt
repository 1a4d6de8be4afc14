-- ===== src/Api/Tasks/Finishes.antt =====
-- What an answer of 200 promises to a worker that finishes a task: internal/infra/server/routing/tasks and
-- internal/api/controllers/task over internal/infra/elasticsearch/task/service.go.
use tasques.Prelude.{
  ℕ, ℤ, String, ◌≡◌, ◌≢◌, refl, sym, ap, ◌∙◌, some, Outcome, ok, err, inl, inr, Option-cases,
  Outcome-cases, arith,
}
use tasques.Domain.Queue.{codes, name_from_string}
use tasques.Domain.Queue.Valid.{IsName, name_from_string-ok_iff}
use tasques.Domain.Task.{
  Task, Error, not_found, invalid_version, already_exists, not_owned_by_worker, not_claimed,
  report_from_the_past, unclaimable,
}
use tasques.Es.Common.{ServiceError, refused, elasticsearch_err, json_serdes_err}
use tasques.Es.Client.{Runtime, Cache}
use tasques.Es.Client.Laws.{Store, ClientLaws, RuntimeLaws}
use tasques.Es.Tasks.Claim.{Ending, returned}
use tasques.Es.Tasks.Persisted.{PersistedTaskData}
use tasques.Es.Tasks.Settings.{Tasks}
use tasques.Es.Tasks.Service.{TaskClient, mark_done, mark_failed, un_claim}
use tasques.Es.Tasks.Service.Owner.{
  Finish, succeeds, fails, unclaims, finish_task, IsFinished, finish_task-IsFinished,
}
use tasques.Api.Models.{from_domain_task}
use tasques.Api.Tasks.{
  TasksService, ApiDefaults, es_tasks_service, handle_err, answered, finish_done, finish_failed,
  give_back,
}
use tasques.Api.Tasks.Routes.{
  get_worker_id, respond, Response, Request, delete_claim, put_done, put_failed, task, if_ok,
  with_queue, with_worker, with_body, responded, ended, serve, handle_un_claim, handle_mark_done,
  handle_mark_failed,
}

-- The request of a worker that finishes a task.
abbrev pub finish_request : Finish → (header queue id : String) → Request
finish_request (succeeds x) header queue id = put_done header queue id (some x)
finish_request (fails x) header queue id = put_failed header queue id (some x)
finish_request unclaims header queue id = delete_claim header queue id

-- No error has the status 200.
handle_err-status : (e : ServiceError Error) → (handle_err e).status_code ≢ 200
unfolding handle_err
handle_err-status (refused (not_found id queue)) = λ h. absurd (omega (arith, h))
handle_err-status (refused (report_from_the_past id at existing)) = λ h. absurd (omega (arith, h))
handle_err-status (refused (not_claimed id state)) = λ h. absurd (omega (arith, h))
handle_err-status (refused (not_owned_by_worker id owner)) = λ h. absurd (omega (arith, h))
handle_err-status (refused (invalid_version id)) = λ h. absurd (omega (arith, h))
handle_err-status (refused (already_exists id)) = λ h. absurd (omega (arith, h))
handle_err-status (refused (unclaimable id state)) = λ h. absurd (omega (arith, h))
handle_err-status (elasticsearch_err cause) = λ h. absurd (omega (arith, h))
handle_err-status json_serdes_err = λ h. absurd (omega (arith, h))

respond_ok :
    (result : Outcome (ServiceError Error) Task)
    → (respond 200 (answered result)).status ≡ 200
    → (t : Task) × (result ≡ ok t)
      × ((respond 200 (answered result)).content ≡ task (from_domain_task t))
unfolding respond answered
respond_ok (ok t) h = (t, refl, refl)
respond_ok (err e) h = absurd (handle_err-status e h)

module _ {W : Type 0} where
  -- An answer of 200 that comes out of the checks comes from what follows them.
  queue_ok :
      (lower : ℕ → ℕ) (queue : String) (next : W → Response × W) (w : W)
      → (with_queue lower queue next w).0.status ≡ 200
      → IsName lower (codes queue) × (with_queue lower queue next w ≡ next w)
  unfolding with_queue if_ok
  queue_ok lower queue next w h = elim (Outcome-cases (name_from_string lower (codes queue))) [
    | inl (name, e) ↦
        (((name_from_string-ok_iff lower (codes queue) name).0 e).1, ap (λ x. if_ok x next w) e)
    | inr (es, e) ↦
        let refused_at = ap (λ x. (if_ok x next w).0.status) e in
        absurd (omega (arith, h, refused_at))
  ]

  worker_ok :
      (header : String) (next : String → W → Response × W) (w : W)
      → (with_worker header next w).0.status ≡ 200
      → (k : String) × (get_worker_id header ≡ some k) × (with_worker header next w ≡ next k w)
  unfolding with_worker with_body
  worker_ok header next w h = elim (Option-cases (get_worker_id header)) [
    | inl e ↦
        let refused_at = ap (λ x. (with_body x next w).0.status) e in
        absurd (omega (arith, h, refused_at))
    | inr (k, e) ↦ (k, e, ap (λ x. with_body x next w) e)
  ]

  ended_eq :
      (x : Response × W) (r : Response) (w' : W)
      → ◌≡◌ {A = Ending Response × W} (ended x) (returned r, w')
      → x ≡ (r, w')
  ended_eq (y, w) r w' h =
      let same : y ≡ r = ground (arith, ap (λ x. x.0) h) in λ i. (same i, (h i).1)

module _ {W : Type 0} (c : TaskClient W) (rt : Runtime W) (cache : Cache W) (settings : Tasks)
    (fuel : ℕ) (defaults : ApiDefaults) (time_zero : ℤ) (lower : ℕ → ℕ)
    (s : Store W PersistedTaskData) (laws : ClientLaws c s) (time : RuntimeLaws rt s) where
  -- What an answer of 200 stands for.
  pub record IsServed (k : Finish) (header queue id : String) (w : W) (r : Response) (w' : W)
      : Type 0 where
    pub worker_id : String
    pub finished : Task
    pub sent_by : get_worker_id header ≡ some worker_id
    pub valid_queue : IsName lower (codes queue)
    pub content : r.content ≡ task (from_domain_task finished)
    pub stored : IsFinished c rt settings s laws time k worker_id queue id w finished w'

  -- What the controller made of an answer of the service.
  served :
      (k : Finish) (header queue id worker : String) (w : W)
      (result : Outcome (ServiceError Error) Task × W) (x : Response × W) (r : Response) (w' : W)
      → finish_task c rt settings s laws time k worker queue id w ≡ result
      → x ≡ responded 200 (answered result.0, result.1)
      → x ≡ (r, w')
      → r.status ≡ 200
      → get_worker_id header ≡ some worker
      → IsName lower (codes queue)
      → IsServed k header queue id w r w'
  served k header queue id worker w result x r w' call e x_eq h sent name =
      let answer = sym e ∙ x_eq in
      let r_eq = ap (λ (y : Response × W). y.0) answer in
      let (t, done, content) = respond_ok result.0 (ap (λ (y : Response). y.status) r_eq ∙ h) in
      let ends = ap (λ (y : Response × W). y.1) answer in
      let called : finish_task c rt settings s laws time k worker queue id w ≡ (ok t, w') =
        call ∙ (λ i. (done i, ends i)) in
      record {
        worker_id = worker;
        finished = t;
        sent_by = sent;
        valid_queue = name;
        content = ap (λ (y : Response). y.content) (sym r_eq) ∙ content;
        stored = finish_task-IsFinished c rt settings s laws time k worker queue id w w' called;
      }

  abbrev service : TasksService W
  service = es_tasks_service c rt cache settings fuel

  -- Over a client and a clock that keep their laws: when a request to mark a task as done or as failed, or
  -- to give it back, is answered with 200, the header named a worker and the path a valid queue, the server
  -- held the task claimed by that worker and had it replaced by the task finished, and the body is that task.
  pub serve-IsServed :
      (k : Finish) (header queue id : String) (w w' : W) {r : Response}
      → serve service rt defaults time_zero lower (finish_request k header queue id) w
        ≡ (returned r, w')
      → r.status ≡ 200
      → IsServed k header queue id w r w'
  unfolding serve handle_mark_done handle_mark_failed handle_un_claim finish_done finish_failed
      give_back with_body
  serve-IsServed (succeeds x) header queue id w w' {r} h success =
      let sent = handle_mark_done service rt defaults time_zero lower header queue id (some x) w in
      let eq = ended_eq sent r w' h in
      let status = ap (λ (y : Response × W). y.0.status) eq ∙ success in
      let (name, passed) = queue_ok lower queue _ w status in
      let (worker, named, called) =
        worker_ok header _ w (ap (λ (y : Response × W). y.0.status) (sym passed) ∙ status) in
      served (succeeds x) header queue id worker w (mark_done c rt settings worker queue id x w)
        sent r w' refl (passed ∙ called) eq success named name
  serve-IsServed (fails x) header queue id w w' {r} h success =
      let sent =
        handle_mark_failed service rt defaults time_zero lower header queue id (some x) w in
      let eq = ended_eq sent r w' h in
      let status = ap (λ (y : Response × W). y.0.status) eq ∙ success in
      let (name, passed) = queue_ok lower queue _ w status in
      let (worker, named, called) =
        worker_ok header _ w (ap (λ (y : Response × W). y.0.status) (sym passed) ∙ status) in
      served (fails x) header queue id worker w (mark_failed c rt settings worker queue id x w) sent
        r w' refl (passed ∙ called) eq success named name
  serve-IsServed unclaims header queue id w w' {r} h success =
      let sent = handle_un_claim service rt defaults time_zero lower header queue id w in
      let eq = ended_eq sent r w' h in
      let status = ap (λ (y : Response × W). y.0.status) eq ∙ success in
      let (name, passed) = queue_ok lower queue _ w status in
      let (worker, named, called) =
        worker_ok header _ w (ap (λ (y : Response × W). y.0.status) (sym passed) ∙ status) in
      served unclaims header queue id worker w (un_claim c rt settings worker queue id w) sent r w'
        refl (passed ∙ called) eq success named name
