-- ===== src/Api/Tasks/Refusals.antt =====
-- The checks of internal/infra/server/routing/tasks/routes_handler.go on a request, before the controller.
use Prim.Native.Char.{code}
use tasques.Prelude.{
  ℕ, ℤ, String, ◌≡◌, refl, ap, ◌∙◌, inl, inr, true, Option, none, some, Option-cases, Outcome-cases,
  arith,
}
use tasques.Domain.Queue.{codes, name_from_string}
use tasques.Domain.Queue.Valid.{IsName, name_from_string-ok_iff}
use tasques.Es.Client.{Runtime}
use tasques.Es.Tasks.Claim.{returned}
use tasques.Api.Tasks.{TasksService, ApiDefaults}
use tasques.Api.Tasks.Routes.{
  is_space, trim_left, trim_right, get_worker_id, Response, bad_request, Request, post_task,
  get_one, post_claim, delete_claim, put_report, put_done, put_failed, if_ok, with_queue,
  with_worker, with_body, ended, serve, handle_create, handle_get, handle_claim, handle_un_claim,
  handle_report_in, handle_mark_done, handle_mark_failed,
}

-- Nothing but white space.
abbrev pub AllSpace : String → Type 0
AllSpace String.[] = Unit
AllSpace (String.◌∷◌ c s) = (is_space (code c) ≡ true) × AllSpace s

trim_left-AllSpace : (s : String) → AllSpace s → trim_left s ≡ ""
unfolding trim_left
trim_left-AllSpace String.[] h = refl
trim_left-AllSpace (String.◌∷◌ c s) (b, h) =
    let same : trim_left (String.◌∷◌ c s) ≡ trim_left s = rw (b, trim_left) refl in
    same ∙ trim_left-AllSpace s h

get_worker_id-AllSpace : (header : String) → AllSpace header → get_worker_id header ≡ none
unfolding get_worker_id trim_right
get_worker_id-AllSpace header h =
    let empty = trim_left-AllSpace header h in rw (empty, get_worker_id) refl

-- The header has more than white space.
abbrev pub Named : String → Type 0
Named header = ¬ AllSpace header

abbrev pub Bound : {B : Type 0} → Option B → Type 0
Bound none = ⊥
Bound (some b) = Unit

-- What a request must have, by its route.
abbrev pub WellFormed : (ℕ → ℕ) → Request → Type 0
WellFormed lower (post_task body) = Bound body
WellFormed lower (get_one queue id) = IsName lower (codes queue)
WellFormed lower (post_claim header body) = Named header × Bound body
WellFormed lower (delete_claim header queue id) = IsName lower (codes queue) × Named header
WellFormed lower (put_report header queue id body) =
    IsName lower (codes queue) × Bound body × Named header
WellFormed lower (put_done header queue id body) =
    IsName lower (codes queue) × Bound body × Named header
WellFormed lower (put_failed header queue id body) =
    IsName lower (codes queue) × Bound body × Named header

-- Checks that refuse: what is left to show is that what follows refuses, where the check holds.
module _ {W R : Type 0} (ending : Response × W → R) where
  queue_refused :
      (lower : ℕ → ℕ) (queue : String) (next : W → Response × W) (w : W) {r : R}
      → (IsName lower (codes queue) → ending (next w) ≡ r)
      → ending (bad_request, w) ≡ r
      → ending (with_queue lower queue next w) ≡ r
  unfolding with_queue if_ok
  queue_refused lower queue next w h k =
      elim (Outcome-cases (name_from_string lower (codes queue))) [
        | inl (name, e) ↦
            let checked = ap (λ x. ending (if_ok x next w)) e in
            checked ∙ h ((name_from_string-ok_iff lower (codes queue) name).0 e).1
        | inr (es, e) ↦ ap (λ x. ending (if_ok x next w)) e ∙ k
      ]

  worker_refused :
      (header : String) (next : String → W → Response × W) (w : W) {r : R}
      → ((worker_id : String) → Named header → ending (next worker_id w) ≡ r)
      → ending (bad_request, w) ≡ r
      → ending (with_worker header next w) ≡ r
  unfolding with_worker with_body
  worker_refused header next w h k = elim (Option-cases (get_worker_id header)) [
    | inl e ↦ ap (λ x. ending (with_body x next w)) e ∙ k
    | inr (worker_id, e) ↦
        let named : Named header = λ a. absurd (ground (arith, get_worker_id-AllSpace header a)) in
        ap (λ x. ending (with_body x next w)) e ∙ h worker_id named
  ]

  body_refused :
      {B : Type 0} (body : Option B) (next : B → W → Response × W) (w : W) {r : R}
      → ((b : B) → Bound body → ending (next b w) ≡ r)
      → ending (bad_request, w) ≡ r
      → ending (with_body body next w) ≡ r
  unfolding with_body
  body_refused none next w h k = k
  body_refused (some b) next w h k = h b tt

module _ {W : Type 0} (tasks_service : TasksService W) (rt : Runtime W) (defaults : ApiDefaults)
    (time_zero : ℤ) (lower : ℕ → ℕ) where
  -- A request that does not have what its route wants, a valid name of a queue, a body that binds, or the
  -- id of a worker in its header that is more than white space, is answered with 400, and nothing is done.
  pub serve-WellFormed :
      (req : Request) (w : W)
      → ¬ WellFormed lower req
      → serve tasks_service rt defaults time_zero lower req w ≡ (returned bad_request, w)
  unfolding serve handle_create handle_get handle_claim handle_un_claim handle_report_in
      handle_mark_done handle_mark_failed
  serve-WellFormed (post_task body) w n = body_refused ended body _ w (λ b h. absurd (n h)) refl
  serve-WellFormed (get_one queue id) w n =
      queue_refused ended lower queue _ w (λ q. absurd (n q)) refl
  serve-WellFormed (post_claim header none) w n = elim (Option-cases (get_worker_id header)) [
    | inl e ↦ rw (e, handle_claim) refl
    | inr (k, e) ↦ rw (e, handle_claim) refl
  ]
  serve-WellFormed (post_claim header (some b)) w n = elim (Option-cases (get_worker_id header)) [
    | inl e ↦ rw (e, handle_claim) refl
    | inr (k, e) ↦
        let named : Named header = λ a. absurd (ground (arith, get_worker_id-AllSpace header a)) in
        absurd (n (named, tt))
  ]
  serve-WellFormed (delete_claim header queue id) w n =
      queue_refused ended lower queue _ w
        (λ q. worker_refused ended header _ w (λ k h. absurd (n (q, h))) refl) refl
  serve-WellFormed (put_report header queue id body) w n =
      queue_refused ended lower queue _ w
        (λ q.
          body_refused ended body _ w
            (λ b h. worker_refused ended header _ w (λ k g. absurd (n (q, h, g))) refl) refl)
        refl
  serve-WellFormed (put_done header queue id body) w n =
      queue_refused ended lower queue _ w
        (λ q.
          body_refused ended body _ w
            (λ b h. worker_refused ended header _ w (λ k g. absurd (n (q, h, g))) refl) refl)
        refl
  serve-WellFormed (put_failed header queue id body) w n =
      queue_refused ended lower queue _ w
        (λ q.
          body_refused ended body _ w
            (λ b h. worker_refused ended header _ w (λ k g. absurd (n (q, h, g))) refl) refl)
        refl
