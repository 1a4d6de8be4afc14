-- ===== src/Cron/Enqueue/Outstanding.antt =====
-- The outstanding tasks of a recurring task that skips: what an entry of the cron of
-- internal/infra/cron/task/recurring/scheduler.go does to their number.
use tasques.Prelude.{
  ℕ, ℤ, String, ◌≡◌, ◌∙◌, none, some, Outcome, ok, err, suc, ◌≤◌, inl, inr, Bool-cases,
  Option-cases, Outcome-cases, arith,
}
use tasques.Domain.Task.{Error}
use tasques.Es.Common.{ServiceError}
use tasques.Es.Client.{Runtime, Cache, Reply, no_response, response, ◌>>=◌, lift, run}
use tasques.Es.Tasks.Persisted.{PersistedTaskData}
use tasques.Es.Tasks.Queries.{build_outstanding_tasks_count_query}
use tasques.Es.Tasks.Settings.{Tasks, build_index_name}
use tasques.Es.Tasks.Service.{TaskClient, create}
use tasques.Es.Tasks.Refresh.{
  refresh_as_needed, refresh_answer, outstanding_tasks_count, needs_refreshing, mark_touched,
  count_answer,
}

-- The outstanding tasks of one recurring task in one queue, while no other process enqueues: only
-- `create` adds one. A count goes by the documents that searches see, and those are behind what was
-- written until the index is refreshed: `Seen` is that they see every task that is outstanding.
pub record CountLaws {W : Type 0} (c : TaskClient W) (rt : Runtime W) (cache : Cache W)
    (queue id : String) (outstanding : W → ℕ) (Seen : W → Type 0) : Type 0 where
  pub counted :
      (w : W) (n : ℕ)
      → Seen w
      → (c.count (build_index_name queue) (build_outstanding_tasks_count_query id) w).0
        ≡ response 200 (some n)
      → n ≡ outstanding w
  pub count_same :
      (w : W)
      → outstanding (c.count (build_index_name queue) (build_outstanding_tasks_count_query id) w).1
        ≡ outstanding w
  pub create_adds :
      (index key : String) (doc : PersistedTaskData) (w : W)
      → outstanding (c.create index key doc w).1 ≤ suc (outstanding w)
  pub refresh_same : (index : String) (w : W) → outstanding (c.refresh index w).1 ≡ outstanding w
  pub add_same :
      (name : String) (at : ℤ) (w : W) → outstanding (cache.add name at w) ≡ outstanding w
  pub get_same : (name : String) (w : W) → outstanding (cache.get name w).1 ≡ outstanding w
  pub get_utc_same : (w : W) → outstanding (rt.get_utc w).1 ≡ outstanding w
  -- What is seen is not lost by these.
  pub refresh_seen : (index : String) (w : W) → Seen w → Seen (c.refresh index w).1
  pub add_seen : (name : String) (at : ℤ) (w : W) → Seen w → Seen (cache.add name at w)
  pub get_seen : (name : String) (w : W) → Seen w → Seen (cache.get name w).1
  pub get_utc_seen : (w : W) → Seen w → Seen (rt.get_utc w).1
  pub new_id_same : (w : W) → outstanding (rt.new_id w).1 ≡ outstanding w

count_answer-ok :
    (reply : Reply ℕ) (n : ℕ) → count_answer reply ≡ ok n → reply ≡ response 200 (some n)
unfolding count_answer
count_answer-ok no_response n h = absurd (ground arith)
count_answer-ok (response status none) n h = absurd (ground arith)
count_answer-ok (response status (some m)) n h = ground arith

module _ {W : Type 0} (c : TaskClient W) (rt : Runtime W) (cache : Cache W) (settings : Tasks) where
  -- The answer to the count before a task is inserted, and the world then.
  abbrev pub counted_at : String → String → W → Outcome (ServiceError Error) ℕ × W
  counted_at queue id w =
      outstanding_tasks_count c rt cache settings queue id
        (refresh_as_needed c rt cache settings queue w).1

module _ {W : Type 0} (c : TaskClient W) (rt : Runtime W) (cache : Cache W) (settings : Tasks)
    (queue id : String) (outstanding : W → ℕ) (Seen : W → Type 0)
    (laws : CountLaws c rt cache queue id outstanding Seen) where
  mark_touched-same :
      (name : String) (w : W)
      → outstanding (mark_touched c rt cache settings name w) ≡ outstanding w
  unfolding mark_touched
  mark_touched-same name w =
      laws.add_same name (rt.get_utc w).0 (rt.get_utc w).1 ∙ laws.get_utc_same w

  needs_refreshing-same :
      (name : String) (w : W)
      → outstanding (needs_refreshing c rt cache settings name w).1 ≡ outstanding w
  unfolding needs_refreshing
  needs_refreshing-same name w = elim (Option-cases (cache.get name w).0) [
    | inl e ↦ rw (e, needs_refreshing) (laws.get_same name w)
    | inr (at, e) ↦
        rw (e, needs_refreshing) (laws.get_utc_same (cache.get name w).1 ∙ laws.get_same name w)
  ]

  refresh_as_needed-same :
      (name : String) (w : W)
      → outstanding (refresh_as_needed c rt cache settings name w).1 ≡ outstanding w
  unfolding refresh_as_needed
  refresh_as_needed-same name w =
      let w1 = (needs_refreshing c rt cache settings name w).1 in
      let before = needs_refreshing-same name w in
      let w2 = (c.refresh name w1).1 in
      elim (Bool-cases (needs_refreshing c rt cache settings name w).0) [
        | inl b ↦ elim (Outcome-cases (refresh_answer (c.refresh name w1).0)) [
          | inl (u, e) ↦ rw (b, e) (mark_touched-same name w2 ∙ laws.refresh_same name w1 ∙ before)
          | inr (x, e) ↦ rw (b, e) (laws.refresh_same name w1 ∙ before)
        ]
        | inr b ↦ rw b before
      ]

  needs_refreshing-Seen :
      (name : String) (w : W) → Seen w → Seen (needs_refreshing c rt cache settings name w).1
  unfolding needs_refreshing
  needs_refreshing-Seen name w s = elim (Option-cases (cache.get name w).0) [
    | inl e ↦ rw (e, needs_refreshing) (laws.get_seen name w s)
    | inr (at, e) ↦
        rw (e, needs_refreshing) (laws.get_utc_seen (cache.get name w).1 (laws.get_seen name w s))
  ]

  refresh_as_needed-Seen :
      (name : String) (w : W) → Seen w → Seen (refresh_as_needed c rt cache settings name w).1
  unfolding refresh_as_needed mark_touched
  refresh_as_needed-Seen name w s =
      let w1 = (needs_refreshing c rt cache settings name w).1 in
      let w2 = (c.refresh name w1).1 in
      let before = needs_refreshing-Seen name w s in
      let after = laws.refresh_seen name w1 before in
      elim (Bool-cases (needs_refreshing c rt cache settings name w).0) [
        | inl b ↦ elim (Outcome-cases (refresh_answer (c.refresh name w1).0)) [
          | inl (u, e) ↦
              rw (b, e)
                (laws.add_seen name (rt.get_utc w2).0 (rt.get_utc w2).1
                  (laws.get_utc_seen w2 after))
          | inr (x, e) ↦ rw (b, e) after
        ]
        | inr b ↦ rw b before
      ]

  outstanding_tasks_count-same :
      (w : W)
      → outstanding (outstanding_tasks_count c rt cache settings queue id w).1 ≡ outstanding w
  unfolding outstanding_tasks_count
  outstanding_tasks_count-same w =
      let counted = c.count (build_index_name queue) (build_outstanding_tasks_count_query id) w in
      elim (Outcome-cases (count_answer counted.0)) [
        | inl (n, e) ↦ rw e (mark_touched-same queue counted.1 ∙ laws.count_same w)
        | inr (x, e) ↦ rw e (laws.count_same w)
      ]

  pub before-same :
      (w : W) → outstanding (counted_at c rt cache settings queue id w).1 ≡ outstanding w
  before-same w =
      outstanding_tasks_count-same (refresh_as_needed c rt cache settings queue w).1
      ∙ refresh_as_needed-same queue w

  -- What is counted is what the client answers.
  lifted :
      (r : Outcome (ServiceError Error) ℕ) (w : W) {n : ℕ}
      → ((lift r >>= (λ n. run (λ v. (n, mark_touched c rt cache settings queue v)))) w).0 ≡ ok n
      → r ≡ ok n
  lifted (ok m) w h = h
  lifted (err e) w h = h

  pub counted-ok :
      (w : W) (n : ℕ)
      → Seen w
      → (counted_at c rt cache settings queue id w).0 ≡ ok n
      → n ≡ outstanding w
  unfolding outstanding_tasks_count
  counted-ok w n s h =
      let w1 = (refresh_as_needed c rt cache settings queue w).1 in
      let counted = c.count (build_index_name queue) (build_outstanding_tasks_count_query id) w1 in
      laws.counted w1 n (refresh_as_needed-Seen queue w s)
        (count_answer-ok counted.0 n (lifted (count_answer counted.0) counted.1 h))
      ∙ refresh_as_needed-same queue w
