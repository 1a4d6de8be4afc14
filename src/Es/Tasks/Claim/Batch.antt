-- ===== src/Es/Tasks/Claim/Batch.antt =====
-- One batch of claims: what `makeClaim` of internal/infra/elasticsearch/task/service.go gives back.
use tasques.Prelude.{
  ◌+◌, ◌≤◌, ℤ, ◌+ℤ◌, String, ◌≡◌, refl, ap, true, none, some, List, [], ◌∷◌, ok, inl, inr,
  Option-cases, Outcome-cases, Bool-cases, length, All, arith,
}
use tasques.Domain.Task.{Task, claimed, LastClaimed, u64, is_claimable, into_claimed}
use tasques.Es.Common.{EsBulkResponseItem, info, is_ok, version}
use tasques.Es.Client.{Runtime, >>=-ok, lift}
use tasques.Es.Tasks.Service.{TaskClient, of_domain, of_domain-ok, stamped}
use tasques.Es.Tasks.Bulk.{claimed_of, claim_each, bulk_update_tasks, make_claim}

-- The task is claimed, and by this worker.
abbrev pub Held : String → Task → Type 0
Held worker t =
    (t.state ≡ claimed) × ((l : LastClaimed) × (t.last_claimed ≡ some l) × (l.worker_id ≡ worker))

-- The claims that a bulk answer confirms are no more than were asked for, and each is one of them.
claimed_of_lem :
    (worker : String) (ts : List Task) (items : List EsBulkResponseItem) {cs : List Task}
    → claimed_of ts items ≡ some cs
    → All (Held worker) ts
    → (length cs ≤ length ts) × All (Held worker) cs
unfolding claimed_of
claimed_of_lem worker [] items h held = (ground arith, ground arith)
claimed_of_lem worker (t ∷ ts) [] h held = absurd (ground arith)
claimed_of_lem worker (t ∷ ts) (item ∷ items) {cs} h held =
    elim (Option-cases (claimed_of ts items)) [
      | inl e ↦ absurd (ground arith)
      | inr (rest, e) ↦
          let (le, all) = claimed_of_lem worker ts items e held.1 in
          elim (Option-cases (info item)) [
            | inl f ↦ absurd (ground arith)
            | inr (i, f) ↦ elim (Bool-cases (is_ok i)) [
              | inl confirmed ↦
                  let t' : Task = record t {
                    metadata = record t.metadata { version = version i };
                  } in
                  let cs_eq : t' ∷ rest ≡ cs = ground arith in
                  rw (← cs_eq) (omega arith, (held.0, all))
              | inr failed' ↦
                  let cs_eq : rest ≡ cs = ground arith in rw (← cs_eq) (omega arith, all)
            ]
          ]
    ]

-- The task after `IntoClaimed`.
abbrev claim_by : String → ℤ → Task → LastClaimed
claim_by worker at t = record {
  worker_id = worker;
  claimed_at = at;
  times_out_at = at +ℤ t.processing_timeout;
  last_report = none;
  result = none;
}

abbrev held_task : String → ℤ → Task → Task
held_task worker at t = record t {
  state = claimed;
  attempted = u64 (t.attempted + 1);
  last_claimed = some (claim_by worker at t);
}

claim_each_lem :
    (worker : String) (at : ℤ) (ts : List Task) {cs : List Task}
    → claim_each worker at ts ≡ ok cs
    → (length cs ≡ length ts) × All (Held worker) cs
unfolding claim_each into_claimed
claim_each_lem worker at [] h = (ground arith, ground arith)
claim_each_lem worker at (t ∷ ts) {cs} h = elim (Outcome-cases (claim_each worker at ts)) [
  | inr (e, f) ↦ absurd (ground arith)
  | inl (rest, f) ↦
      let (le, all) = claim_each_lem worker at ts f in
      let cs_eq : stamped (held_task worker at t) at ∷ rest ≡ cs = ground arith in
      rw (← cs_eq) (omega arith, ((refl, (claim_by worker at t, refl, refl)), all))
]

-- Tasks that are queued or failed are all claimed, with no error.
pub claim_each-ok :
    (worker : String) (at : ℤ) (ts : List Task)
    → All (λ t. is_claimable t.state ≡ true) ts
    → (cs : List Task) × (claim_each worker at ts ≡ ok cs)
      × (length cs ≡ length ts)
      × All (Held worker) cs
unfolding claim_each into_claimed
claim_each-ok worker at [] h = ([], refl, refl, tt)
claim_each-ok worker at (t ∷ ts) h =
    let (rest, f, le, all) = claim_each-ok worker at ts h.1 in
    (
      stamped (held_task worker at t) at ∷ rest,
      ground arith,
      omega arith,
      ((refl, (claim_by worker at t, refl, refl)), all),
    )

module _ {W : Type 0} (c : TaskClient W) (rt : Runtime W) where
  -- A batch that comes back holds no more tasks than were asked for, all claimed by the worker.
  pub make_claim-Held :
      (worker : String) (ts : List Task) (w w' : W) {got : List Task}
      → make_claim c rt worker ts w ≡ (ok (some got), w')
      → (length got ≤ length ts) × All (Held worker) got
  unfolding make_claim
  make_claim-Held worker ts w w' h =
      let at = (rt.get_utc w).0 in
      let (tasks, v, each, rest) =
        >>=-ok (lift (of_domain (claim_each worker at ts))) _ (rt.get_utc w).1 w' h in
      let (items, v', sent, last) = >>=-ok (bulk_update_tasks c rt tasks) _ v w' rest in
      let (same, held) = claim_each_lem worker at ts (of_domain-ok (ap (λ r. r.0) each)) in
      let (le, all) = claimed_of_lem worker tasks items (ground (arith, ap (λ r. r.0) last)) held in
      (omega arith, all)
